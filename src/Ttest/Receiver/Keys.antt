-- ===== src/Ttest/Receiver/Keys.antt =====
-- The keys of the connections of ttest/ttrcv.c, and the buckets in which they are.
use tcp_eyenet.Prelude.{
  ℕ, zero, suc, ◌%◌, ◌≡◌, ◌⊎◌, inl, inr, true, ◌==◌, ◌&&◌, none, some, List, [], ◌∷◌, ◌++◌, length,
  if_either, Bool-cases, Option-cases, arith, refl, ap, sym, subst, ◌∙◌,
}
use mathlib.Core.Option.{some-injective, some-ne-none}
use tcp_eyenet.Ttest.Receiver.{RconnTuple, RConn, deref, find_in, add_to, count_packet, count_at}

abbrev pub In : ℕ → List ℕ → Type 0
In p [] = ⊥
In p (q ∷ qs) = (p ≡ q) ⊎ In p qs

-- Every connection of the worker `id` is in the bucket of its address.
abbrev pub Whole : ℕ → List RConn → (ℕ → ℕ → List ℕ) → Type 0
Whole id conns hash =
    (p : ℕ) (c : RConn)
    → deref p conns ≡ some c
    → c.wid ≡ id
    → In p (hash (c.t.port % 8192) (c.t.ip % 4))

abbrev pub SameKey : RConn → RConn → Type 0
SameKey c d = (c.wid ≡ d.wid) × (c.t.ip ≡ d.t.ip) × (c.t.port ≡ d.t.port)

-- Two connections differ in the worker or in the address.
abbrev pub Unique : List RConn → Type 0
Unique conns =
    (p q : ℕ) (c d : RConn) → deref p conns ≡ some c → deref q conns ≡ some d → SameKey c d → p ≡ q

test_of_same : (a b c d : ℕ) → a ≡ b → c ≡ d → (a == b && c == d) ≡ true
test_of_same a b c d e f = ground arith

-- A search that fails has gone past every pointer of the bucket.
find_in-rest :
    (t : RconnTuple) (conns : List RConn) (q : ℕ) (ps : List ℕ)
    → find_in t conns (q ∷ ps) ≡ none
    → find_in t conns ps ≡ none
unfolding find_in
find_in-rest t conns q ps e = elim (Option-cases (deref q conns)) [
  | inl f ↦ rw f at e
  | inr (c, f) ↦ elim (Bool-cases (c.t.ip == t.ip && c.t.port == t.port)) [
    | inl g ↦ absurd (some-ne-none q (rw (f, g) at e))
    | inr g ↦ rw (f, g) at e
  ]
]

pub find_in-none :
    (t : RconnTuple) (conns : List RConn) (ps : List ℕ) (p : ℕ) (c : RConn)
    → find_in t conns ps ≡ none
    → In p ps
    → deref p conns ≡ some c
    → c.t.ip ≡ t.ip
    → c.t.port ≡ t.port
    → ⊥
unfolding find_in
find_in-none t conns [] p c e i f g h = i
find_in-none t conns (q ∷ ps) p c e (inl i) f g h =
    let f' : deref q conns ≡ some c = subst (λ x. deref x conns ≡ some c) i f in
    some-ne-none q (rw (f', test_of_same c.t.ip t.ip c.t.port t.port g h) at e)
find_in-none t conns (q ∷ ps) p c e (inr i) f g h =
    find_in-none t conns ps p c (find_in-rest t conns q ps e) i f g h

-- What a pointer points to after a packet is counted was there before, with the same key.
before_count :
    (q p size : ℕ) (conns : List RConn) (d : RConn)
    → deref q (count_at p size conns) ≡ some d
    → (c : RConn) × (deref q conns ≡ some c) × (c.wid ≡ d.wid) × (c.t ≡ d.t)
unfolding deref count_at count_packet
before_count q p size [] d e = (d, e, refl, refl)
before_count zero zero size (x ∷ xs) d e = (
  x,
  refl,
  ap (λ (y : RConn). y.wid) (some-injective (count_packet size x) d e),
  ap (λ (y : RConn). y.t) (some-injective (count_packet size x) d e),
)
before_count (suc q) zero size (x ∷ xs) d e = (d, e, refl, refl)
before_count zero (suc p) size (x ∷ xs) d e = (d, e, refl, refl)
before_count (suc q) (suc p) size (x ∷ xs) d e = before_count q p size xs d e

-- A pointer into the list with a new connection at its end
before_append :
    (q : ℕ) (conns : List RConn) (n d : RConn)
    → deref q (conns ++ n ∷ []) ≡ some d
    → (deref q conns ≡ some d) ⊎ ((q ≡ length conns) × (n ≡ d))
unfolding deref
before_append zero [] n d e = inr (refl, some-injective n d e)
before_append (suc q) [] n d e = absurd (some-ne-none d (sym e))
before_append zero (x ∷ xs) n d e = inl e
before_append (suc q) (x ∷ xs) n d e = elim (before_append q xs n d e) [
  | inl f ↦ inl f
  | inr (f, g) ↦ inr (ap suc f, g)
]

pub Unique-count_at :
    (p size : ℕ) (conns : List RConn) → Unique conns → Unique (count_at p size conns)
Unique-count_at p size conns h q r c d e f (k, l, m) =
    let (c', e', wc, tc) = before_count q p size conns c e in
    let (d', f', wd, td) = before_count r p size conns d f in
    h q r c' d' e' f' (
      wc ∙ k ∙ sym wd,
      ap (λ (t : RconnTuple). t.ip) tc ∙ l ∙ sym (ap (λ (t : RconnTuple). t.ip) td),
      ap (λ (t : RconnTuple). t.port) tc ∙ m ∙ sym (ap (λ (t : RconnTuple). t.port) td),
    )

pub Whole-count_at :
    (id p size : ℕ) (conns : List RConn) (hash : ℕ → ℕ → List ℕ)
    → Whole id conns hash
    → Whole id (count_at p size conns) hash
Whole-count_at id p size conns hash h q d e f =
    let (c, e', w, t) = before_count q p size conns d e in
    subst (λ (x : RconnTuple). In q (hash (x.port % 8192) (x.ip % 4))) t (h q c e' (w ∙ f))

-- No connection has the key of `n`.
abbrev pub IsNew : List RConn → RConn → Type 0
IsNew conns n = (p : ℕ) (c : RConn) → deref p conns ≡ some c → SameKey c n → ⊥

pub Unique-append :
    (conns : List RConn) (n : RConn) → Unique conns → IsNew conns n → Unique (conns ++ n ∷ [])
Unique-append conns n h new p q c d e f (k, l, m) =
    by_places (before_append p conns n c e) (before_append q conns n d f)
  where
    by_places :
        (deref p conns ≡ some c) ⊎ ((p ≡ length conns) × (n ≡ c))
        → (deref q conns ≡ some d) ⊎ ((q ≡ length conns) × (n ≡ d))
        → p ≡ q
    by_places (inl x) (inl y) = h p q c d x y (k, l, m)
    by_places (inl x) (inr (y, z)) = absurd (new p c x (subst (SameKey c) (sym z) (k, l, m)))
    by_places (inr (x, z)) (inl y) =
        absurd (new q d y (subst (SameKey d) (sym z) (sym k, sym l, sym m)))
    by_places (inr (x, z)) (inr (y, w)) = x ∙ sym y

pub Whole-add_to :
    (id : ℕ) (conns : List RConn) (hash : ℕ → ℕ → List ℕ) (n : RConn)
    → Whole id conns hash
    → Whole id (conns ++ n ∷ []) (add_to (n.t.port % 8192) (n.t.ip % 4) (length conns) hash)
unfolding add_to
Whole-add_to id conns hash n h q d e f = by_place (before_append q conns n d e)
  where
    by_place :
        (deref q conns ≡ some d) ⊎ ((q ≡ length conns) × (n ≡ d))
        → In q (
            add_to
              (n.t.port % 8192)
              (n.t.ip % 4)
              (length conns)
              hash
              (d.t.port % 8192)
              (d.t.ip % 4))
    by_place (inl x) =
        if_either (In q) (d.t.port % 8192 == n.t.port % 8192 && d.t.ip % 4 == n.t.ip % 4)
          (inr (h q d x f)) (h q d x f)
    by_place (inr (x, z)) =
        subst
          (λ (y : RConn). In q (
            add_to (n.t.port % 8192) (n.t.ip % 4) (length conns) hash (y.t.port % 8192)
              (y.t.ip % 4)))
          z
          (rw (test_of_same (n.t.port % 8192) (n.t.port % 8192) (n.t.ip % 4) (n.t.ip % 4) refl refl)
            (inl x))

pub Whole-other :
    (id : ℕ) (conns : List RConn) (hash : ℕ → ℕ → List ℕ) (n : RConn)
    → (n.wid ≡ id → ⊥)
    → Whole id conns hash
    → Whole id (conns ++ n ∷ []) hash
Whole-other id conns hash n other h q d e f = elim (before_append q conns n d e) [
  | inl x ↦ h q d x f
  | inr (x, z) ↦ absurd (other (ap (λ (c : RConn). c.wid) z ∙ f))
]
