-- ===== src/Ttest/Receiver/Pointers.antt =====
-- The pointers in the hash tables of ttest/ttrcv.c.
use tcp_eyenet.Prelude.{
  OnSome, ℕ, zero, suc, ◌≡◌, inl, inr, true, ◌&&◌, ◌==◌, some, List, [], ◌∷◌, ◌++◌, All, length,
  if_either, Bool-cases, arith, refl, ap, sym, ◌∙◌,
}
use mathlib.Core.Option.{some-injective, some-ne-none}
use tcp_eyenet.Ttest.Receiver.{
  RconnTuple, RConn, RWorker, deref, find_in, add_to, count_packet, count_at,
}

-- The pointer points to a connection of the worker.
abbrev pub Points : ℕ → List RConn → ℕ → Type 0
Points id conns p = (c : RConn) × (deref p conns ≡ some c) × (c.wid ≡ id)

-- All pointers of the hash table point to connections of the worker.
abbrev pub IsTable : List RConn → RWorker → Type 0
IsTable conns w = (i j : ℕ) → All (Points w.id conns) (w.rconn_hash i j)

-- A pointer to a connection of that worker and that address
abbrev pub Belongs : ℕ → RconnTuple → List RConn → ℕ → Type 0
Belongs id t conns p =
    (c : RConn) × (deref p conns ≡ some c) × (c.wid ≡ id) × (c.t.ip ≡ t.ip) × (c.t.port ≡ t.port)

same_of_test : (a b c d : ℕ) → (a == b && c == d) ≡ true → (a ≡ b) × (c ≡ d)
same_of_test a b c d e = ground arith

pub find_in-Belongs :
    (id : ℕ) (t : RconnTuple) (conns : List RConn) (ps : List ℕ)
    → All (Points id conns) ps
    → OnSome (Belongs id t conns) (find_in t conns ps)
unfolding find_in
find_in-Belongs id t conns [] h = tt
find_in-Belongs id t conns (p ∷ ps) ((c, e, f), hs) =
    elim (Bool-cases (c.t.ip == t.ip && c.t.port == t.port)) [
      | inl g ↦
          let same = same_of_test c.t.ip t.ip c.t.port t.port g in
          rw (e, g) (c, e, f, same.0, same.1)
      | inr g ↦ rw (e, g) (find_in-Belongs id t conns ps hs)
    ]

-- The list after another connection
deref-append :
    (p : ℕ) (conns more : List RConn) (c : RConn)
    → deref p conns ≡ some c
    → deref p (conns ++ more) ≡ some c
unfolding deref
deref-append p [] more c e = absurd (some-ne-none c (sym e))
deref-append zero (x ∷ xs) more c e = e
deref-append (suc p) (x ∷ xs) more c e = deref-append p xs more c e

pub deref_last : (conns : List RConn) (c : RConn) → deref (length conns) (conns ++ c ∷ []) ≡ some c
unfolding deref
deref_last [] c = refl
deref_last (x ∷ xs) c = deref_last xs c

-- Counting leaves what a pointer points to a connection of the same worker.
pub deref-count_at :
    (q p size : ℕ) (conns : List RConn) (c : RConn)
    → deref q conns ≡ some c
    → (d : RConn) × (deref q (count_at p size conns) ≡ some d) × (d.wid ≡ c.wid)
unfolding deref count_at count_packet
deref-count_at q p size [] c e = (c, e, refl)
deref-count_at zero zero size (x ∷ xs) c e =
    (count_packet size x, refl, ap (λ (d : RConn). d.wid) (some-injective x c e))
deref-count_at (suc q) zero size (x ∷ xs) c e = (c, e, refl)
deref-count_at zero (suc p) size (x ∷ xs) c e = (c, e, refl)
deref-count_at (suc q) (suc p) size (x ∷ xs) c e = deref-count_at q p size xs c e

pub All-map : (P Q : ℕ → Type 0) (ps : List ℕ) → ((p : ℕ) → P p → Q p) → All P ps → All Q ps
All-map P Q [] f h = tt
All-map P Q (p ∷ ps) f (h, hs) = (f p h, All-map P Q ps f hs)

-- What the place that a pointer names becomes, while the others stay, is a connection that is counted.
pub IsTable-count_at :
    (p size : ℕ) (conns : List RConn) (w : RWorker)
    → IsTable conns w
    → IsTable (count_at p size conns) w
IsTable-count_at p size conns w h i j =
    All-map (Points w.id conns) (Points w.id (count_at p size conns)) (w.rconn_hash i j)
      (λ q (c, e, f). let (d, g, k) = deref-count_at q p size conns c e in (d, g, k ∙ f)) (h i j)

pub IsTable-append :
    (conns more : List RConn) (w : RWorker) → IsTable conns w → IsTable (conns ++ more) w
IsTable-append conns more w h i j =
    All-map (Points w.id conns) (Points w.id (conns ++ more)) (w.rconn_hash i j)
      (λ q (c, e, f). (c, deref-append q conns more c e, f)) (h i j)

pub IsTable-add_to :
    (i j p : ℕ) (conns : List RConn) (w : RWorker)
    → IsTable conns w
    → Points w.id conns p
    → IsTable conns (record w { rconn_hash = add_to i j p w.rconn_hash })
unfolding add_to
IsTable-add_to i j p conns w h e k l =
    if_either (All (Points w.id conns)) (k == i && l == j) (e, h k l) (h k l)
