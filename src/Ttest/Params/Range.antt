-- ===== src/Ttest/Params/Range.antt =====
-- The parameters that `parse_args` of ttest/ttest.c lets through.
use tcp_eyenet.Prelude.{
  maybe, ℕ, ◌*◌, ◌%◌, ◌^◌, ◌≤◌, ◌≡◌, Bool, true, false, not, ◌&&◌, ◌||◌, ltb, ◌==◌, Option, none,
  some, List, if◌then◌else◌, arith, refl,
}
use tcp_eyenet.Prelude.Int.{ℤ}
use tcp_eyenet.Ttest.Params.{
  ProgParam, Parsed, parsed, refused, out_of_bounds, to_uint32, default_param, set_mode, set_port,
  set_n_cpus, set_duration, set_interval, set_pktsize, set_rate,
}

-- The ranges that the usage text and the messages name
pub record InRange (p : ProgParam) : Type 0 where
  pub mode : p.mode ≤ 2
  pub port : (1 ≤ p.port) × (p.port ≤ 65535)
  pub pktsize : (64 ≤ p.pktsize) × (p.pktsize ≤ 1472)
  pub duration : 1 ≤ p.duration
  pub reporting_interval : 1 ≤ p.reporting_interval
  pub rate_kbps : (100 ≤ p.rate_kbps) × (p.rate_kbps ≤ 1000000)
  pub n_cpus : (1 ≤ p.n_cpus) × (p.n_cpus ≤ 1000)

-- What holds of the parameters, if they are let through.
abbrev pub Passes : (ProgParam → Type 0) → Parsed → Type 0
Passes P (parsed p) = P p
Passes P refused = Unit
Passes P out_of_bounds = Unit

pub default_param-InRange : InRange default_param
unfolding default_param
default_param-InRange = record {
  mode = omega arith;
  port = (omega arith, omega arith);
  pktsize = (omega arith, omega arith);
  duration = omega arith;
  reporting_interval = omega arith;
  rate_kbps = (omega arith, omega arith);
  n_cpus = (omega arith, omega arith);
}

-- What is refused under a test need not be looked at.
pub Passes-unless :
    (P : ProgParam → Type 0) (b : Bool) (r : Parsed)
    → (b ≡ false → Passes P r)
    → Passes P (if b then refused else r)
Passes-unless P true r k = tt
Passes-unless P false r k = k refl

bounds_of_test : (lo hi v : ℕ) → (ltb v lo || ltb hi v) ≡ false → (lo ≤ v) × (v ≤ hi)
bounds_of_test lo hi v h = ground arith

port_of_test : (v : ℕ) → (v == 0 || ltb 65535 v) ≡ false → (1 ≤ v % 2 ^ 16) × (v % 2 ^ 16 ≤ 65535)
port_of_test v h = ground arith

pktsize_of_test :
    (v : ℕ) → (ltb v 64 || ltb 1472 v) ≡ false → (64 ≤ v % 2 ^ 16) × (v % 2 ^ 16 ≤ 1472)
pktsize_of_test v h = ground arith

positive_of_test : (v : ℕ) → (v == 0) ≡ false → 1 ≤ v
positive_of_test v h = ground arith

n_cpus_of_test :
    (v : ℕ)
    → ltb 1000 v ≡ false
    → (1 ≤ (if v == 0 then 1 else v)) × ((if v == 0 then 1 else v) ≤ 1000)
n_cpus_of_test v h = ground arith

module _ (atoi : List ℕ → ℤ) (inet_pton : List ℕ → Option ℕ) where
  pub set_mode-InRange :
      (m : ℕ) (a : List ℕ) (p : ProgParam)
      → m ≤ 2
      → InRange p
      → Passes InRange (set_mode atoi inet_pton m a p)
  unfolding set_mode
  set_mode-InRange m a p g h = Passes-unless InRange (not (p.mode == 0)) _ λ _. set_ip (inet_pton a)
    where
      set_ip :
          (o : Option ℕ)
          → Passes InRange (maybe refused o (λ i. parsed (record p { mode = m; ip = i })))
      set_ip none = tt
      set_ip (some i) = record {
        mode = g;
        port = h.port;
        pktsize = h.pktsize;
        duration = h.duration;
        reporting_interval = h.reporting_interval;
        rate_kbps = h.rate_kbps;
        n_cpus = h.n_cpus;
      }

  pub set_port-InRange :
      (a : List ℕ) (p : ProgParam) → InRange p → Passes InRange (set_port atoi inet_pton a p)
  unfolding set_port
  set_port-InRange a p h =
      let v = to_uint32 (atoi a) in
      Passes-unless InRange (v == 0 || ltb 65535 v) _ λ e. record {
        mode = h.mode;
        port = port_of_test v e;
        pktsize = h.pktsize;
        duration = h.duration;
        reporting_interval = h.reporting_interval;
        rate_kbps = h.rate_kbps;
        n_cpus = h.n_cpus;
      }

  pub set_n_cpus-InRange :
      (a : List ℕ) (p : ProgParam) → InRange p → Passes InRange (set_n_cpus atoi inet_pton a p)
  unfolding set_n_cpus
  set_n_cpus-InRange a p h =
      let v = to_uint32 (atoi a) in
      Passes-unless InRange (ltb 1000 v) _ λ e. record {
        mode = h.mode;
        port = h.port;
        pktsize = h.pktsize;
        duration = h.duration;
        reporting_interval = h.reporting_interval;
        rate_kbps = h.rate_kbps;
        n_cpus = n_cpus_of_test v e;
      }

  pub set_duration-InRange :
      (a : List ℕ) (p : ProgParam) → InRange p → Passes InRange (set_duration atoi inet_pton a p)
  unfolding set_duration
  set_duration-InRange a p h =
      let v = to_uint32 (atoi a) in
      Passes-unless InRange (v == 0) _ λ e. record {
        mode = h.mode;
        port = h.port;
        pktsize = h.pktsize;
        duration = positive_of_test v e;
        reporting_interval = h.reporting_interval;
        rate_kbps = h.rate_kbps;
        n_cpus = h.n_cpus;
      }

  pub set_interval-InRange :
      (a : List ℕ) (p : ProgParam) → InRange p → Passes InRange (set_interval atoi inet_pton a p)
  unfolding set_interval
  set_interval-InRange a p h =
      let v = to_uint32 (atoi a) in
      Passes-unless InRange (v == 0) _ λ e. record {
        mode = h.mode;
        port = h.port;
        pktsize = h.pktsize;
        duration = h.duration;
        reporting_interval = positive_of_test v e;
        rate_kbps = h.rate_kbps;
        n_cpus = h.n_cpus;
      }

  pub set_pktsize-InRange :
      (a : List ℕ) (p : ProgParam) → InRange p → Passes InRange (set_pktsize atoi inet_pton a p)
  unfolding set_pktsize
  set_pktsize-InRange a p h =
      let v = to_uint32 (atoi a) in
      Passes-unless InRange (ltb v 64 || ltb 1472 v) _ λ e. record {
        mode = h.mode;
        port = h.port;
        pktsize = pktsize_of_test v e;
        duration = h.duration;
        reporting_interval = h.reporting_interval;
        rate_kbps = h.rate_kbps;
        n_cpus = h.n_cpus;
      }

  pub set_rate-InRange :
      (a : List ℕ) (u : ℕ) (p : ProgParam)
      → InRange p
      → Passes InRange (set_rate atoi inet_pton a u p)
  unfolding set_rate
  set_rate-InRange a u p h =
      let rate = (if u == 77 then 1000 else 1) * to_uint32 (atoi a) % 2 ^ 32 in
      Passes-unless InRange (not (u == 75) && not (u == 77)) _ λ _.
        Passes-unless InRange (ltb rate 100 || ltb 1000000 rate) _ λ e. record {
          mode = h.mode;
          port = h.port;
          pktsize = h.pktsize;
          duration = h.duration;
          reporting_interval = h.reporting_interval;
          rate_kbps = bounds_of_test 100 1000000 rate e;
          n_cpus = h.n_cpus;
        }
