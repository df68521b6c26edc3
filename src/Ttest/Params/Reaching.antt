-- ===== src/Ttest/Params/Reaching.antt =====
-- `parse_args` and `main` of ttest/ttest.c take every client and server in the ranges.
use tcp_eyenet.Prelude.{
  ℕ, ◌%◌, ◌^◌, ◌≤◌, ◌<◌, ◌≡◌, ◌≢◌, ◌⊎◌, ◌∙◌, inl, inr, false, ◌==◌, Option, some, List, [], ◌∷◌,
  ◌++◌, if◌then◌else◌, arith, refl, ap, sym,
}
use tcp_eyenet.Prelude.Int.{ℤ, pos}
use tcp_eyenet.Ttest.Params.{
  ProgParam, Opt, opt_c, opt_s, opt_p, opt_par, opt_t, opt_i, opt_l, opt_b, parsed, to_uint32,
  split_last, default_param, set_mode, set_port, set_n_cpus, set_duration, set_interval,
  set_pktsize, set_rate, parse_opt, parse_args, and_then, start, main, Started, client, server,
}
use tcp_eyenet.Ttest.Params.Range.{InRange}

split_last-append : (c : ℕ) (cs : List ℕ) → split_last (cs ++ c ∷ []) ≡ some (cs, c)
split_last-append c [] = refl
split_last-append c (d ∷ []) = refl
split_last-append c (d ∷ e ∷ r) = rw (split_last-append c (e ∷ r)) refl

-- `atoi` reads the digits of an int, and `inet_pton` the text of an address.
pub record Reads (atoi : List ℕ → ℤ) (inet_pton : List ℕ → Option ℕ) (digits text : ℕ → List ℕ)
    : Type 0 where
  pub numbers : (n : ℕ) → n < 2 ^ 31 → atoi (digits n) ≡ pos n
  pub addresses : (a : ℕ) → a < 2 ^ 32 → inet_pton (text a) ≡ some a

-- What `main` is to start
abbrev pub started_as : ProgParam → Started
started_as p = if p.mode == 1 then client p else server p

module _ (digits text : ℕ → List ℕ) where
  -- The options but for the mode; 75 is 'K'.
  abbrev pub settings : ProgParam → List Opt
  settings p =
      opt_p (digits p.port)
      ∷ opt_par (digits p.n_cpus)
      ∷ opt_t (digits p.duration)
      ∷ opt_i (digits p.reporting_interval)
      ∷ opt_l (digits p.pktsize)
      ∷ opt_b (digits p.rate_kbps ++ 75 ∷ [])
      ∷ []

  -- The options for a client or a server with the parameters `p`
  abbrev pub options : ProgParam → List Opt
  options p = (if p.mode == 1 then opt_c (text p.ip) else opt_s (text p.ip)) ∷ settings p

module _ (atoi : List ℕ → ℤ) (inet_pton : List ℕ → Option ℕ) (digits text : ℕ → List ℕ)
    (reads : Reads atoi inet_pton digits text) where
  read : (n : ℕ) → n < 2 ^ 31 → to_uint32 (atoi (digits n)) ≡ n
  read n h = ap to_uint32 (reads.numbers n h) ∙ small
    where
      small : n % 2 ^ 32 ≡ n
      small = omega arith

  set_port-reads :
      (n : ℕ) (p : ProgParam)
      → 1 ≤ n
      → n ≤ 65535
      → set_port atoi inet_pton (digits n) p ≡ parsed (record p { port = n })
  unfolding set_port
  set_port-reads n p lo hi = rw (read n (omega arith)) (ground arith)

  set_n_cpus-reads :
      (n : ℕ) (p : ProgParam)
      → 1 ≤ n
      → n ≤ 1000
      → set_n_cpus atoi inet_pton (digits n) p ≡ parsed (record p { n_cpus = n })
  unfolding set_n_cpus
  set_n_cpus-reads n p lo hi = rw (read n (omega arith)) (ground arith)

  set_duration-reads :
      (n : ℕ) (p : ProgParam)
      → 1 ≤ n
      → n < 2 ^ 31
      → set_duration atoi inet_pton (digits n) p ≡ parsed (record p { duration = n })
  unfolding set_duration
  set_duration-reads n p lo hi = rw (read n hi) (ground arith)

  set_interval-reads :
      (n : ℕ) (p : ProgParam)
      → 1 ≤ n
      → n < 2 ^ 31
      → set_interval atoi inet_pton (digits n) p ≡ parsed (record p { reporting_interval = n })
  unfolding set_interval
  set_interval-reads n p lo hi = rw (read n hi) (ground arith)

  set_pktsize-reads :
      (n : ℕ) (p : ProgParam)
      → 64 ≤ n
      → n ≤ 1472
      → set_pktsize atoi inet_pton (digits n) p ≡ parsed (record p { pktsize = n })
  unfolding set_pktsize
  set_pktsize-reads n p lo hi = rw (read n (omega arith)) (ground arith)

  set_rate-reads :
      (n : ℕ) (p : ProgParam)
      → 100 ≤ n
      → n ≤ 1000000
      → set_rate atoi inet_pton (digits n) 75 p ≡ parsed (record p { rate_kbps = n })
  unfolding set_rate
  set_rate-reads n p lo hi = rw (read n (omega arith)) (ground arith)

  set_mode-reads :
      (m a : ℕ) (p : ProgParam)
      → p.mode ≡ 0
      → a < 2 ^ 32
      → set_mode atoi inet_pton m (text a) p ≡ parsed (record p { mode = m; ip = a })
  unfolding set_mode
  set_mode-reads m a p e h = rw (reads.addresses a h, e) refl

  -- An int holds the duration and the interval, and the address has 32 bits.
  abbrev pub IsWritten : ProgParam → Type 0
  IsWritten p = (p.duration < 2 ^ 31) × (p.reporting_interval < 2 ^ 31) × (p.ip < 2 ^ 32)

  settings-reads :
      (p q : ProgParam)
      → InRange p
      → IsWritten p
      → q.mode ≡ p.mode
      → q.ip ≡ p.ip
      → (p.mode == 0) ≡ false
      → parse_args atoi inet_pton (settings digits text p) q ≡ parsed p
  unfolding parse_args parse_opt
  settings-reads p q h w em ei e =
      rw
        (
          set_port-reads p.port q h.port.0 h.port.1,
          set_n_cpus-reads p.n_cpus _ h.n_cpus.0 h.n_cpus.1,
          set_duration-reads p.duration _ h.duration w.0,
          set_interval-reads p.reporting_interval _ h.reporting_interval w.1,
          set_pktsize-reads p.pktsize _ h.pktsize.0 h.pktsize.1,
          split_last-append 75 (digits p.rate_kbps),
          set_rate-reads p.rate_kbps _ h.rate_kbps.0 h.rate_kbps.1,
          em,
          ei,
          e,
        )
        refl

  taken :
      (m : ℕ) (p : ProgParam)
      → p.mode ≡ m
      → (p.mode == 0) ≡ false
      → InRange p
      → IsWritten p
      → and_then
          (set_mode atoi inet_pton m (text p.ip) default_param)
          (parse_args atoi inet_pton (settings digits text p))
        ≡ parsed p
  unfolding default_param
  taken m p e f h w =
      ap (λ r. and_then r (parse_args atoi inet_pton (settings digits text p)))
        (set_mode-reads m p.ip default_param refl w.2)
      ∙ settings-reads p (record default_param { mode = m; ip = p.ip }) h w (sym e) refl f

  options-parsed :
      (p : ProgParam)
      → (p.mode ≡ 1) ⊎ (p.mode ≡ 2)
      → InRange p
      → IsWritten p
      → parse_args atoi inet_pton (options digits text p) default_param ≡ parsed p
  unfolding parse_args parse_opt
  options-parsed p (inl e) h w =
      ap
        (λ (m : ℕ).
          parse_args atoi inet_pton
            ((if m == 1 then opt_c (text p.ip) else opt_s (text p.ip)) ∷ settings digits text p)
            default_param)
        e
      ∙ taken 1 p e (ground arith) h w
  options-parsed p (inr e) h w =
      ap
        (λ (m : ℕ).
          parse_args atoi inet_pton
            ((if m == 1 then opt_c (text p.ip) else opt_s (text p.ip)) ∷ settings digits text p)
            default_param)
        e
      ∙ taken 2 p e (ground arith) h w

  start-parsed : (p : ProgParam) → (p.mode ≡ 1) ⊎ (p.mode ≡ 2) → start (parsed p) ≡ started_as p
  unfolding start
  start-parsed p m = ground arith

  -- Where `atoi` reads the digits of an int and `inet_pton` the text of an address: every client and every
  -- server with parameters in the ranges, its duration and its interval ints, is started by the options
  -- that name its parameters, and with exactly these.
  pub main-options :
      (a : ℕ) (p : ProgParam)
      → a ≢ 1
      → (p.mode ≡ 1) ⊎ (p.mode ≡ 2)
      → InRange p
      → IsWritten p
      → main atoi inet_pton a (options digits text p) ≡ started_as p
  unfolding main
  main-options a p many m h w =
      let ran : (a == 1) ≡ false = ground arith in
      rw (ran, options-parsed p m h w) (start-parsed p m)
