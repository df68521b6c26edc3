-- ===== src/Vns/Transport/Silent.antt =====
-- The flows of vns/vns_transport.hh after the first, where their size is in bytes.
use tcp_eyenet.Prelude.{
  ℕ, ◌*◌, ◌≡◌, refl, sym, ap, subst, Bool, true, false, not, List, [], ◌∷◌, if◌then◌else◌,
  Bool-cases, if_either, inl, inr, maybe, Option, none, some,
}
use tcp_eyenet.Prelude.Int.{ℤ, pos}
use tcp_eyenet.Double.{Double}
use tcp_eyenet.Vns.Transport.Interface.{Cong, payload}
use tcp_eyenet.Vns.Transport.Handshake.{handshake}
use tcp_eyenet.Vns.Transport.State.{
  OnGo, OnGo->>=, Flow, go, halt, ◌>>=◌, unfinished, Sender, Turn, Job,
}
use tcp_eyenet.Vns.Transport.Sender.{begin_flow, goes_on, turn, turns, end_flow}
use tcp_eyenet.Vns.Transport.Faults.{byte_flow_skipped}
use tcp_eyenet.Vns.Transport.Flows.{TcpTransport, FlowInput, start_shake, run_flow, send_data}

true_of_not : (b : Bool) → not b ≡ true → b ≡ false
true_of_not true e = cc
true_of_not false e = refl

pub OnGo-any {ℓ} : {A : Type ℓ} (x : Flow A) → OnGo (λ _. Unit {0}) x
OnGo-any (go a) = tt
OnGo-any (halt h) = tt

pub maybe_either {ℓ κ μ} :
    {A : Type ℓ} {B : Type κ} (P : B → Type μ) (o : Option A) (c : B) {b : B}
    → P b
    → P c
    → P (maybe b o (λ _. c))
maybe_either P none c h k = h
maybe_either P (some a) c h k = k

module _ {ℓ κ} {W : Type ℓ} {C : Type κ} ⦃d : Double W⦄ ⦃c : Cong C W⦄ where
  open d use {of_int, lt}

  -- The loop that ends by its test ends in a state in which the test fails.
  abbrev EndedByTest : Job W → Sender C W × Bool → Type 0
  EndedByTest j r = r.1 ≡ true → goes_on j r.0 ≡ false

  turns-EndedByTest :
      (fuel : ℕ) (j : Job W) (s : Sender C W) (is : List (Turn W))
      → OnGo (EndedByTest j) (turns fuel j s is)
  unfolding turns
  turns-EndedByTest fuel j s [] = true_of_not (goes_on j s)
  turns-EndedByTest fuel j s (i ∷ is) = elim (Bool-cases (goes_on j s)) [
    | inl e ↦ rw e (
        OnGo->>= (λ _. Unit {0}) (EndedByTest j) (turn fuel j s i) (λ t. turns fuel j t is)
          (OnGo-any (turn fuel j s i)) (λ t _. turns-EndedByTest fuel j t is))
    | inr e ↦ rw e (λ _. e)
  ]

  -- The count of packets has reached the size, in bytes.
  abbrev pub Reached : W → Sender C W → Type 0
  Reached fsz s = lt (of_int (pos (s.npkts * payload))) fsz ≡ false

  goes_on-Reached :
      (j : Job W) (s : Sender C W) → j.byte_switcher ≡ true → goes_on j s ≡ false → Reached j.fsz s
  unfolding goes_on
  goes_on-Reached j s mode e = rw mode at e

  run_flow-Reached :
      (j : Job W) (s : Sender C W) (i : FlowInput W)
      → j.byte_switcher ≡ true
      → OnGo (Reached j.fsz) (run_flow j s i)
  unfolding run_flow end_flow
  run_flow-Reached j s i mode =
      OnGo->>= (EndedByTest j) (Reached j.fsz)
        (turns i.fuel j (begin_flow (record s { buf = i.filled }) i.first_ts i.second_ts)
          i.turns_in)
        _ (turns-EndedByTest _ j _ i.turns_in)
        (λ r h. elim (Bool-cases r.1) [
          | inl e ↦ rw e (goes_on-Reached j r.0 mode (h e))
          | inr e ↦ rw e tt
        ])

  -- Nothing more is sent, and the count stays.
  abbrev pub Silent : TcpTransport C W → TcpTransport C W → Type ℓ
  Silent t u = (u.sender.sent ≡ t.sender.sent) × (u.sender.npkts ≡ t.sender.npkts)

  run_flow-silent :
      (j : Job W) (s : Sender C W) (i : FlowInput W)
      → j.byte_switcher ≡ true
      → Reached j.fsz s
      → run_flow j s i
        ≡ go (end_flow (begin_flow (record s { buf = i.filled }) i.first_ts i.second_ts) i.end_ts)
  unfolding run_flow
  run_flow-silent j s i mode full =
      ap
        (λ (x : Flow (Sender C W × Bool)).
          x >>= λ r. if r.1 then go (end_flow r.0 i.end_ts) else halt unfinished)
        (byte_flow_skipped i.fuel j (record s { buf = i.filled }) i.first_ts i.second_ts i.turns_in
          mode full)

  pub send_data-Reached :
      (t : TcpTransport C W) (i : FlowInput W) (fsz : W) (fid sid : ℤ)
      → OnGo (λ (u : TcpTransport C W). Reached fsz u.sender) (send_data t i fsz true fid sid)
  unfolding send_data
  send_data-Reached t i fsz fid sid =
      let j : Job W = record { fsz = fsz; byte_switcher = true; fid = fid; sid = sid } in
      let P = λ (u : TcpTransport C W). Reached fsz u.sender in
      let flow = run_flow j t.sender i >>= λ s. go (record t { sender = s }) in
      let done : OnGo P flow =
        OnGo->>= (Reached fsz) P (run_flow j t.sender i) (λ s. go (record t { sender = s }))
          (run_flow-Reached j t.sender i refl) (λ s h. h) in
      if_either (OnGo P) t.sk.is_bound
        (maybe_either (OnGo P) (handshake (start_shake i.filled) i.rounds) flow tt done) tt

  -- A flow in bytes whose size the count of packets has reached sends no packet of data.
  pub send_data-Silent :
      (t : TcpTransport C W) (i : FlowInput W) (fsz : W) (fid sid : ℤ)
      → Reached fsz t.sender
      → OnGo (Silent t) (send_data t i fsz true fid sid)
  unfolding send_data begin_flow end_flow
  send_data-Silent t i fsz fid sid full =
      let j : Job W = record { fsz = fsz; byte_switcher = true; fid = fid; sid = sid } in
      let flow = run_flow j t.sender i >>= λ s. go (record t { sender = s }) in
      let done : OnGo (Silent t) flow =
        subst (λ (x : Flow (Sender C W)). OnGo (Silent t) (x >>= λ s. go (record t { sender = s })))
          (sym (run_flow-silent j t.sender i refl full)) (refl, refl) in
      if_either (OnGo (Silent t)) t.sk.is_bound
        (maybe_either (OnGo (Silent t)) (handshake (start_shake i.filled) i.rounds) flow tt done) tt

  -- After a whole flow in bytes, a later flow of the same size sends no packet of data, whatever comes
  -- from outside: the count of packets that the loop tests is that of all flows.
  pub second_flow-Silent :
      (t : TcpTransport C W) (i k : FlowInput W) (fsz : W) (fid fid' sid : ℤ) {u : TcpTransport C W}
      → send_data t i fsz true fid sid ≡ go u
      → OnGo (Silent u) (send_data u k fsz true fid' sid)
  second_flow-Silent t i k fsz fid fid' sid {u} e = send_data-Silent u k fsz fid' sid (
      subst (OnGo (λ (v : TcpTransport C W). Reached fsz v.sender)) e
        (send_data-Reached t i fsz fid sid))
