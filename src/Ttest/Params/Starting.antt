-- ===== src/Ttest/Params/Starting.antt =====
-- `parse_args` and `main` of ttest/ttest.c: what the program starts.
use tcp_eyenet.Prelude.{
  maybe, ℕ, ◌≡◌, ◌==◌, ◌*◌, ◌%◌, ◌^◌, ltb, not, ◌&&◌, ◌||◌, false, inl, inr, Bool-cases, refl,
  Option, none, some, List, [], ◌∷◌, arith, if_either, ◌≤◌, if◌then◌else◌,
}
use tcp_eyenet.Prelude.Int.{ℤ, pos}
use tcp_eyenet.Ttest.Params.{
  ProgParam, Opt, opt_c, opt_s, opt_p, opt_par, opt_t, opt_i, opt_l, opt_b, unknown, Parsed, parsed,
  refused, out_of_bounds, split_last, default_param, to_uint32, set_mode, set_port, set_n_cpus,
  set_duration, set_interval, set_pktsize, set_rate, parse_opt, parse_args, and_then, start, main,
  Started, idle, client, server, crashed,
}
use tcp_eyenet.Ttest.Params.Range.{
  InRange, Passes, Passes-unless, default_param-InRange, set_mode-InRange, set_port-InRange,
  set_n_cpus-InRange, set_duration-InRange, set_interval-InRange, set_pktsize-InRange,
  set_rate-InRange,
}

-- What `main` may start: a client or a server of the mode, with parameters in their ranges, of which
-- `G` holds.
abbrev pub Sound : (ProgParam → Type 0) → Started → Type 0
Sound G (idle c) = Unit
Sound G (client p) = (p.mode ≡ 1) × InRange p × G p
Sound G (server p) = (p.mode ≡ 2) × InRange p × G p
Sound G crashed = Unit

start_test :
    (G : ProgParam → Type 0) (p : ProgParam)
    → p.mode ≤ 2
    → InRange p
    → G p
    → Sound G (if p.mode == 0 then idle (pos 0) else if p.mode == 1 then client p else server p)
start_test G p g h k = elim (Bool-cases (p.mode == 0)) [
  | inl zero ↦ rw zero tt
  | inr some_mode ↦ elim (Bool-cases (p.mode == 1)) [
    | inl one ↦ rw (some_mode, one) (ground arith, h, k)
    | inr two ↦ rw (some_mode, two) (ground arith, h, k)
  ]
]

start-Sound :
    (G : ProgParam → Type 0) (r : Parsed) → Passes InRange r → Passes G r → Sound G (start r)
unfolding start
start-Sound G (parsed p) h k = start_test G p h.mode h k
start-Sound G refused h k = tt
start-Sound G out_of_bounds h k = tt

-- The last value that the options give up to an unknown one, at which the reading stops; `n` if none
-- does.
abbrev pub last_of : (Opt → Option ℕ) → ℕ → List Opt → ℕ
last_of f n [] = n
last_of f n (unknown ∷ os) = n
last_of f n (o ∷ os) = last_of f (maybe n (f o) (λ v. v)) os

-- The whole number that an option gives for the port, and for the packet size
abbrev pub port_in : (List ℕ → ℤ) → Opt → Option ℕ
port_in atoi (opt_p a) = some (to_uint32 (atoi a))
port_in atoi o = none

abbrev pub pktsize_in : (List ℕ → ℤ) → Opt → Option ℕ
pktsize_in atoi (opt_l a) = some (to_uint32 (atoi a))
pktsize_in atoi o = none

-- The port and the packet size have these values.
abbrev pub Has : ℕ → ℕ → ProgParam → Type 0
Has port pktsize p = (p.port ≡ port) × (p.pktsize ≡ pktsize)

-- They are what the last options gave as a whole, or the defaults.
abbrev pub Given : (List ℕ → ℤ) → List Opt → ProgParam → Type 0
Given atoi os = Has (last_of (port_in atoi) 5001 os) (last_of (pktsize_in atoi) 1472 os)

port_whole : (v : ℕ) → (v == 0 || ltb 65535 v) ≡ false → v % 2 ^ 16 ≡ v
port_whole v h = ground arith

pktsize_whole : (v : ℕ) → (ltb v 64 || ltb 1472 v) ≡ false → v % 2 ^ 16 ≡ v
pktsize_whole v h = ground arith

and_then-Passes :
    (P Q : ProgParam → Type 0) (r : Parsed) (k : ProgParam → Parsed)
    → Passes P r
    → ((p : ProgParam) → P p → Passes Q (k p))
    → Passes Q (and_then r k)
and_then-Passes P Q (parsed p) k h f = f p h
and_then-Passes P Q refused k h f = tt
and_then-Passes P Q out_of_bounds k h f = tt

module _ (atoi : List ℕ → ℤ) (inet_pton : List ℕ → Option ℕ) where
  parse_opt-InRange :
      (o : Opt) (p : ProgParam) → InRange p → Passes InRange (parse_opt atoi inet_pton o p)
  unfolding parse_opt
  parse_opt-InRange (opt_c a) p h = set_mode-InRange atoi inet_pton 1 a p (omega arith) h
  parse_opt-InRange (opt_s a) p h = set_mode-InRange atoi inet_pton 2 a p (omega arith) h
  parse_opt-InRange (opt_p a) p h = set_port-InRange atoi inet_pton a p h
  parse_opt-InRange (opt_par a) p h = set_n_cpus-InRange atoi inet_pton a p h
  parse_opt-InRange (opt_t a) p h = set_duration-InRange atoi inet_pton a p h
  parse_opt-InRange (opt_i a) p h = set_interval-InRange atoi inet_pton a p h
  parse_opt-InRange (opt_l a) p h = set_pktsize-InRange atoi inet_pton a p h
  parse_opt-InRange (opt_b a) p h = with_suffix (split_last a)
    where
      with_suffix :
          (o : Option (List ℕ × ℕ))
          → Passes InRange (maybe out_of_bounds o (λ s. set_rate atoi inet_pton s.0 s.1 p))
      with_suffix none = tt
      with_suffix (some s) = set_rate-InRange atoi inet_pton s.0 s.1 p h
  parse_opt-InRange unknown p h = h

  parse_args-InRange :
      (os : List Opt) (p : ProgParam) → InRange p → Passes InRange (parse_args atoi inet_pton os p)
  unfolding parse_args
  parse_args-InRange [] p h = Passes-unless InRange (p.mode == 0) _ λ _. h
  parse_args-InRange (unknown ∷ os) p h = h
  parse_args-InRange (o ∷ os) p h =
      and_then-Passes InRange InRange (parse_opt atoi inet_pton o p) (parse_args atoi inet_pton os)
        (parse_opt-InRange o p h) (parse_args-InRange os)

  parse_opt-Has :
      (o : Opt) (p : ProgParam) (n m : ℕ)
      → Has n m p
      → Passes
          (Has (maybe n (port_in atoi o) (λ v. v)) (maybe m (pktsize_in atoi o) (λ v. v)))
          (parse_opt atoi inet_pton o p)
  unfolding parse_opt set_mode set_port set_n_cpus set_duration set_interval set_pktsize set_rate
  parse_opt-Has (opt_c a) p n m h = Passes-unless _ (not (p.mode == 0)) _ λ _. set_ip (inet_pton a)
    where
      set_ip :
          (o : Option ℕ)
          → Passes (Has n m) (maybe refused o (λ i. parsed (record p { mode = 1; ip = i })))
      set_ip none = tt
      set_ip (some i) = h
  parse_opt-Has (opt_s a) p n m h = Passes-unless _ (not (p.mode == 0)) _ λ _. set_ip (inet_pton a)
    where
      set_ip :
          (o : Option ℕ)
          → Passes (Has n m) (maybe refused o (λ i. parsed (record p { mode = 2; ip = i })))
      set_ip none = tt
      set_ip (some i) = h
  parse_opt-Has (opt_p a) p n m h =
      let v = to_uint32 (atoi a) in
      Passes-unless _ (v == 0 || ltb 65535 v) _ λ e. (port_whole v e, h.1)
  parse_opt-Has (opt_par a) p n m h = Passes-unless _ (ltb 1000 (to_uint32 (atoi a))) _ λ _. h
  parse_opt-Has (opt_t a) p n m h = Passes-unless _ (to_uint32 (atoi a) == 0) _ λ _. h
  parse_opt-Has (opt_i a) p n m h = Passes-unless _ (to_uint32 (atoi a) == 0) _ λ _. h
  parse_opt-Has (opt_l a) p n m h =
      let v = to_uint32 (atoi a) in
      Passes-unless _ (ltb v 64 || ltb 1472 v) _ λ e. (h.0, pktsize_whole v e)
  parse_opt-Has (opt_b a) p n m h = with_suffix (split_last a)
    where
      with_suffix :
          (o : Option (List ℕ × ℕ))
          → Passes (Has n m) (maybe out_of_bounds o (λ s. set_rate atoi inet_pton s.0 s.1 p))
      with_suffix none = tt
      with_suffix (some s) =
          let rate = (if s.1 == 77 then 1000 else 1) * to_uint32 (atoi s.0) % 2 ^ 32 in
          Passes-unless (Has n m) (not (s.1 == 75) && not (s.1 == 77)) _ λ _.
            Passes-unless (Has n m) (ltb rate 100 || ltb 1000000 rate)
              (parsed (record p { rate_kbps = rate })) λ _. h
  parse_opt-Has unknown p n m h = h

  parse_args-Has :
      (os : List Opt) (p : ProgParam) (n m : ℕ)
      → Has n m p
      → Passes
          (Has (last_of (port_in atoi) n os) (last_of (pktsize_in atoi) m os))
          (parse_args atoi inet_pton os p)
  unfolding parse_args
  parse_args-Has [] p n m h = Passes-unless _ (p.mode == 0) _ λ _. h
  parse_args-Has (unknown ∷ os) p n m h = h
  parse_args-Has (o ∷ os) p n m h =
      and_then-Passes _ _ (parse_opt atoi inet_pton o p) (parse_args atoi inet_pton os)
        (parse_opt-Has o p n m h) (λ q k. parse_args-Has os q _ _ k)

  -- Whatever options getopt gives and whatever `atoi` and `inet_pton` make of their arguments: what
  -- `main` starts is a client in mode 1 or a server in mode 2, its port from 1 to 65535, its packet
  -- size from 64 to 1472, its rate from 100 to 1000000 kbps, its number of workers from 1 to 1000, its
  -- duration and its interval not 0. The casts to 16 bits lose nothing: the port and the packet size
  -- are the whole values that the last options for them gave before an unknown one, or the defaults.
  pub main-Sound : (a : ℕ) (os : List Opt) → Sound (Given atoi os) (main atoi inet_pton a os)
  unfolding main default_param
  main-Sound a os = if_either (Sound (Given atoi os)) (a == 1) tt (
      start-Sound (Given atoi os) (parse_args atoi inet_pton os default_param)
        (parse_args-InRange os default_param default_param-InRange)
        (parse_args-Has os default_param 5001 1472 (refl, refl)))
