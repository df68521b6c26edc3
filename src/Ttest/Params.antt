-- ===== src/Ttest/Params.antt =====
-- `parse_args` and `main` of ttest/ttest.c. What getopt gives is a list of options with their
-- arguments, which are strings of bytes; `atoi` and `inet_pton` are parameters.
pub mod Range
pub mod Starting
pub mod Reaching
use tcp_eyenet.Prelude.{
  maybe, ℕ, ◌-◌, ◌*◌, ◌%◌, ◌^◌, Bool, not, ◌&&◌, ◌||◌, ltb, ◌==◌, Option, none, some, List, [], ◌∷◌,
  if◌then◌else◌,
}
use tcp_eyenet.Prelude.Int.{ℤ, pos, negsuc}

pub record ProgParam : Type 0 where
  pub mode : ℕ
  pub ip : ℕ
  pub port : ℕ
  pub pktsize : ℕ
  pub duration : ℕ
  pub reporting_interval : ℕ
  pub rate_kbps : ℕ
  pub n_cpus : ℕ

-- One answer of getopt; `unknown` is the character for an option or an argument that is missing.
pub data Opt : Type 0 where
  opt_c : List ℕ → Opt
  opt_s : List ℕ → Opt
  opt_p : List ℕ → Opt
  opt_par : List ℕ → Opt
  opt_t : List ℕ → Opt
  opt_i : List ℕ → Opt
  opt_l : List ℕ → Opt
  opt_b : List ℕ → Opt
  unknown : Opt

-- `out_of_bounds`: `optarg[s - 1]` of an empty argument is read.
pub data Parsed : Type 0 where
  parsed : ProgParam → Parsed
  refused : Parsed
  out_of_bounds : Parsed

-- What `main` runs; `idle` is the return before it starts anything, with its exit code.
pub data Started : Type 0 where
  idle : ℤ → Started
  client : ProgParam → Started
  server : ProgParam → Started
  crashed : Started

-- `(uint32_t)` of an int
abbrev pub to_uint32 : ℤ → ℕ
to_uint32 (pos n) = n % 2 ^ 32
to_uint32 (negsuc n) = 2 ^ 32 - 1 - n % 2 ^ 32

-- The string before its last byte, and that byte; none for the empty string.
abbrev pub split_last : List ℕ → Option (List ℕ × ℕ)
split_last [] = none
split_last (c ∷ []) = some ([], c)
split_last (c ∷ d ∷ r) = maybe none (split_last (d ∷ r)) (λ s. some (c ∷ s.0, s.1))

-- The defaults that `parse_args` sets in the zeros of `main`
unfoldable pub default_param : ProgParam
default_param = record {
  mode = 0;
  ip = 0;
  port = 5001;
  pktsize = 1472;
  duration = 5;
  reporting_interval = 1;
  rate_kbps = 10 * 1000;
  n_cpus = 1;
}

-- `sizeof(pkthdr_t)`: two uint32_t, a uint16_t and three bytes, padded to a multiple of four
abbrev pub pkthdr_sz : ℕ
pkthdr_sz = 16

abbrev pub min_pkt_sz : ℕ
min_pkt_sz = if ltb pkthdr_sz 64 then 64 else pkthdr_sz

-- The loop goes on when an option is taken.
abbrev pub and_then : Parsed → (ProgParam → Parsed) → Parsed
and_then (parsed p) k = k p
and_then refused k = refused
and_then out_of_bounds k = out_of_bounds

-- `main` after `parse_args`
unfoldable pub start : Parsed → Started
start (parsed p) = if p.mode == 0 then idle (pos 0) else if p.mode == 1 then client p else server p
start refused = idle (negsuc 0)
start out_of_bounds = crashed

module _ (atoi : List ℕ → ℤ) (inet_pton : List ℕ → Option ℕ) where
  -- The cases 'c' and 's'
  unfoldable pub set_mode : ℕ → List ℕ → ProgParam → Parsed
  set_mode m optarg p =
      let bound = maybe refused (inet_pton optarg) (λ a. parsed (record p { mode = m; ip = a })) in
      if not (p.mode == 0) then refused else bound

  -- The case 'p'
  unfoldable pub set_port : List ℕ → ProgParam → Parsed
  set_port optarg p =
      let v = to_uint32 (atoi optarg) in
      if v == 0 || ltb 65535 v then refused else parsed (record p { port = v % 2 ^ 16 })

  -- The case 'P'
  unfoldable pub set_n_cpus : List ℕ → ProgParam → Parsed
  set_n_cpus optarg p =
      let v = to_uint32 (atoi optarg) in
      if ltb 1000 v then refused else parsed (record p { n_cpus = if v == 0 then 1 else v })

  -- The cases 't' and 'i'
  unfoldable pub set_duration : List ℕ → ProgParam → Parsed
  set_duration optarg p =
      let v = to_uint32 (atoi optarg) in
      if v == 0 then refused else parsed (record p { duration = v })

  unfoldable pub set_interval : List ℕ → ProgParam → Parsed
  set_interval optarg p =
      let v = to_uint32 (atoi optarg) in
      if v == 0 then refused else parsed (record p { reporting_interval = v })

  -- The case 'l'
  unfoldable pub set_pktsize : List ℕ → ProgParam → Parsed
  set_pktsize optarg p =
      let v = to_uint32 (atoi optarg) in
      if ltb v min_pkt_sz || ltb 1472 v then refused else parsed (record p { pktsize = v % 2 ^ 16 })

  -- The case 'b', with the digits before its last byte `u`; 75 is 'K' and 77 is 'M'.
  unfoldable pub set_rate : List ℕ → ℕ → ProgParam → Parsed
  set_rate digits u p =
      let rate = (if u == 77 then 1000 else 1) * to_uint32 (atoi digits) % 2 ^ 32 in
      if not (u == 75) && not (u == 77)
      then refused
      else if ltb rate 100 || ltb 1000000 rate
      then refused
      else parsed (record p { rate_kbps = rate })

  -- One round of the loop, but for `default:`
  unfoldable pub parse_opt : Opt → ProgParam → Parsed
  parse_opt (opt_c a) p = set_mode 1 a p
  parse_opt (opt_s a) p = set_mode 2 a p
  parse_opt (opt_p a) p = set_port a p
  parse_opt (opt_par a) p = set_n_cpus a p
  parse_opt (opt_t a) p = set_duration a p
  parse_opt (opt_i a) p = set_interval a p
  parse_opt (opt_l a) p = set_pktsize a p
  parse_opt (opt_b a) p = maybe out_of_bounds (split_last a) (λ s. set_rate s.0 s.1 p)
  parse_opt unknown p = parsed p

  -- `parse_args`: `default:` returns 0 at once, with the parameters as they are.
  unfoldable pub parse_args : List Opt → ProgParam → Parsed
  unfolding parse_opt
  parse_args [] p = if p.mode == 0 then refused else parsed p
  parse_args (unknown ∷ os) p = parsed p
  parse_args (o ∷ os) p = and_then (parse_opt o p) (parse_args os)

  -- `main`, by its number of arguments
  unfoldable pub main : ℕ → List Opt → Started
  main a os = if a == 1 then idle (pos 0) else start (parse_args os default_param)
