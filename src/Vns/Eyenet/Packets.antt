-- ===== src/Vns/Eyenet/Packets.antt =====
-- The map `unacked_pkts` of vns/vns_eyenet.cc, a `std::map` by the sequence number: its entries in the
-- order of the keys.
use tcp_eyenet.Prelude.{Bool, false, ◌||◌, List, [], ◌∷◌, if◌then◌else◌}
use tcp_eyenet.Prelude.Int.{ℤ, ltb_ℤ, eqb_ℤ}

module _ {ℓ} {P : Type ℓ} where
  -- `m.count(k)` as a truth value
  unfoldable pub count : ℤ → List (ℤ × P) → Bool
  count k [] = false
  count k (e ∷ m) = eqb_ℤ e.0 k || count k m

  -- `m.erase(k)`
  unfoldable pub erase : ℤ → List (ℤ × P) → List (ℤ × P)
  erase k [] = []
  erase k (e ∷ m) = if eqb_ℤ e.0 k then m else e ∷ erase k m

  -- `m[k] = p`
  unfoldable pub insert : ℤ → P → List (ℤ × P) → List (ℤ × P)
  insert k p [] = (k, p) ∷ []
  insert k p (e ∷ m) =
      if ltb_ℤ k e.0 then (k, p) ∷ e ∷ m else if eqb_ℤ e.0 k then (k, p) ∷ m else e ∷ insert k p m
