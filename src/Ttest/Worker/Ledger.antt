-- ===== src/Ttest/Worker/Ledger.antt =====
-- The counters and the numbers of `snd_worker` of ttest/ttsnd.c.
use tcp_eyenet.Prelude.{
  ℕ, zero, suc, ◌+◌, ◌-◌, ◌%◌, ◌^◌, ◌≤◌, ◌<◌, ◌≡◌, Bool, true, false, ltb, List, [], ◌∷◌,
  if◌then◌else◌, length, arith, refl, inl, inr, Bool-cases, if_either, if_either,
}
use tcp_eyenet.Ttest.Worker.{send_pkt, send_burst}

-- The number in the header after `n` packets, and the numbers of the packets, the last one first.
abbrev pub header_after : ℕ → ℕ → ℕ
header_after garbage zero = garbage
header_after garbage (suc n) = suc n % 2 ^ 32

abbrev pub numbers : ℕ → ℕ → List ℕ
numbers garbage zero = []
numbers garbage (suc n) = header_after garbage n ∷ numbers garbage n

-- The loop's variables agree with the packets that went out.
abbrev pub Numbered : ℕ → ℕ × ℕ × List ℕ → Type 0
Numbered garbage (seq, hdr_seq, wire) =
    (wire ≡ numbers garbage (length wire))
    × (hdr_seq ≡ header_after garbage (length wire))
    × (seq ≡ length wire % 2 ^ 32)

send_pkt-Numbered : (g : ℕ) (b : ℕ × ℕ × List ℕ) → Numbered g b → Numbered g (send_pkt b)
unfolding send_pkt
send_pkt-Numbered g (seq, hdr, wire) (h, k, l) =
    ((λ i. k i ∷ h i), omega (arith, l), omega (arith, l))

-- A burst numbers its packets on, and sends at most as many as are left of it.
pub send_burst-Numbered :
    (g qouta i : ℕ) (rs : List Bool) (b : ℕ × ℕ × List ℕ)
    → Numbered g b
    → Numbered g (send_burst qouta i rs b).0
unfolding send_burst
send_burst-Numbered g q i [] b h = h
send_burst-Numbered g q i (r ∷ rs) b h =
    if_either (λ (x : (ℕ × ℕ × List ℕ) × Bool). Numbered g x.0) (ltb i q)
      (send_burst-Numbered g q ((i + 1) % 2 ^ 32) rs (if r then send_pkt b else b)
        (if_either (Numbered g) r (send_pkt-Numbered g b h) h))
      h

unfoldable pub Within : ℕ → ℕ × ℕ × List ℕ → ℕ × ℕ × List ℕ → Type 0
Within k b c = (length b.2 ≤ length c.2) × (length c.2 ≤ length b.2 + k)

below : {i q : ℕ} → ltb i q ≡ true → i < q
below {i} {q} e = ground arith

sent_length :
    (r : Bool) (b : ℕ × ℕ × List ℕ)
    → (length b.2 ≤ length (if r then send_pkt b else b).2)
      × (length (if r then send_pkt b else b).2 ≤ length b.2 + 1)
unfolding send_pkt
sent_length true b = (omega arith, omega arith)
sent_length false b = (omega arith, omega arith)

pub send_burst-Within :
    (qouta i : ℕ) (rs : List Bool) (b : ℕ × ℕ × List ℕ)
    → qouta < 2 ^ 32
    → Within (qouta - i) b (send_burst qouta i rs b).0
unfolding send_burst Within
send_burst-Within q i [] b h = (omega arith, omega arith)
send_burst-Within q i (r ∷ rs) b h = elim (Bool-cases (ltb i q)) [
  | inl e ↦
      let v = send_burst-Within q ((i + 1) % 2 ^ 32) rs (if r then send_pkt b else b) h in
      let l = sent_length r b in rw e (omega (arith, v, l, below e), omega (arith, v, l, below e))
  | inr e ↦ rw e (omega arith, omega arith)
]

-- With a result for each packet of the burst, the loop ends by its test.
pub send_burst_complete :
    (qouta i : ℕ) (rs : List Bool) (b : ℕ × ℕ × List ℕ)
    → qouta < 2 ^ 32
    → qouta ≤ i + length rs
    → (send_burst qouta i rs b).1 ≡ true
unfolding send_burst
send_burst_complete q i [] b h k = ground arith
send_burst_complete q i (r ∷ rs) b h k = elim (Bool-cases (ltb i q)) [
  | inl e ↦ rw e (
      send_burst_complete q ((i + 1) % 2 ^ 32) rs (if r then send_pkt b else b) h
        (omega (arith, below e)))
  | inr e ↦ rw e refl
]
