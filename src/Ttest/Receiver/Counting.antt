-- ===== src/Ttest/Receiver/Counting.antt =====
-- Which connection of ttest/ttrcv.c a packet is counted in.
use tcp_eyenet.Prelude.{
  OnSome, maybe, ℕ, ◌%◌, ◌≡◌, ◌⊎◌, inl, inr, Bool, true, false, ◌==◌, Option, none, some, List, [],
  ◌∷◌, ◌++◌, length, if◌then◌else◌, Bool-cases, arith, refl, ap, sym, subst, ◌∙◌,
}
use tcp_eyenet.Ttest.Receiver.{
  RconnTuple, RConn, TRcv, RWorker, no_stats, find_in, register_rconn, add_to, new_rconn,
  lookup_rconn, count_at, Packet, Stepped, stepped, aborted, is_ttest, count_in, rcv_packet,
}
use tcp_eyenet.Ttest.Receiver.Pointers.{
  IsTable, Belongs, find_in-Belongs, deref_last, deref-count_at, IsTable-count_at, IsTable-append,
  IsTable-add_to,
}

-- What `lookup_rconn` gives: a pointer to a connection of the worker and the address, in the list that
-- was there or in one with another connection at its end, the tables in order; or none, all unchanged.
abbrev pub Looked : Bool → RconnTuple → TRcv → RWorker → Option ℕ × TRcv × RWorker → Type 0
Looked b t r w (none, s, v) = (b ≡ false) × (s ≡ r) × (v ≡ w)
Looked b t r w (some p, s, v) =
    Belongs w.id t s.lhead_conn p
    × IsTable s.lhead_conn v
    × (v.id ≡ w.id)
    × ((s.lhead_conn ≡ r.lhead_conn)
        ⊎ ((c : RConn) × (s.lhead_conn ≡ r.lhead_conn ++ c ∷ [])
            × (c.stats ≡ no_stats)
            × (c.stats_prev ≡ no_stats)))

-- A new connection, and the bucket that points to it
registered :
    (b : Bool) (t : RconnTuple) (r : TRcv) (w : RWorker)
    → IsTable r.lhead_conn w
    → Looked b t r w (
      some (length r.lhead_conn),
      register_rconn (new_rconn w t) r,
      record w {
        rconn_hash = add_to (t.port % 8192) (t.ip % 4) (length r.lhead_conn) w.rconn_hash;
      },
    )
unfolding register_rconn new_rconn
registered b t r w h =
    let c = record (new_rconn w t) { cid = r.cid_seed } in
    let there = deref_last r.lhead_conn c in
    (
      (c, there, refl, refl, refl),
      IsTable-add_to (t.port % 8192) (t.ip % 4) (length r.lhead_conn) (r.lhead_conn ++ c ∷ []) w
          (IsTable-append r.lhead_conn (c ∷ []) w h) (c, there, refl),
      refl,
      inr (c, refl, refl, refl),
    )

same_test : (m n : ℕ) → m ≡ n → (m == n) ≡ true
same_test m n e = ground arith

lookup-Looked :
    (b : Bool) (t : RconnTuple) (r : TRcv) (w : RWorker)
    → IsTable r.lhead_conn w
    → Looked b t r w (lookup_rconn b t r w)
unfolding lookup_rconn
lookup-Looked b t r w h =
    by_search (find_in t r.lhead_conn bucket)
      (find_in-Belongs w.id t r.lhead_conn bucket (h (t.port % 8192) (t.ip % 4)))
  where
    bucket : List ℕ
    bucket = w.rconn_hash (t.port % 8192) (t.ip % 4)

    by_search :
        (o : Option ℕ)
        → OnSome (Belongs w.id t r.lhead_conn) o
        → Looked b t r w (
            maybe
              (if b
                then (
                  some (length r.lhead_conn),
                  register_rconn (new_rconn w t) r,
                  record w {
                    rconn_hash =
                        add_to (t.port % 8192) (t.ip % 4) (length r.lhead_conn) w.rconn_hash;
                  },
                )
                else (none, r, w))
              o
              (λ q. (some q, r, w)))
    by_search none x = elim (Bool-cases b) [
      | inl e ↦ rw e (registered true t r w h)
      | inr e ↦ rw e (refl, refl, refl)
    ]
    by_search (some q) x = (x, h, refl, inl refl)

-- A packet of ttest is counted in a connection of its worker and its address, the assertion holds, and
-- the pointers stay in order.
abbrev pub Counted : Packet → TRcv → RWorker → Stepped → Type 0
Counted k r w (stepped s v) =
    (v.id ≡ w.id)
    × IsTable s.lhead_conn v
    × (((s ≡ r) × ((is_ttest k ≡ false) ⊎ (k.allocated ≡ false)))
        ⊎ ((p : ℕ) × (mid : List RConn) × Belongs w.id k.from mid p
            × (s.lhead_conn ≡ count_at p k.pktsize mid)
            × ((mid ≡ r.lhead_conn)
                ⊎ ((c : RConn) × (mid ≡ r.lhead_conn ++ c ∷ [])
                    × (c.stats ≡ no_stats)
                    × (c.stats_prev ≡ no_stats)))))
Counted k r w aborted = ⊥

count_in-Counted :
    (k : Packet) (r : TRcv) (w : RWorker) (f : Option ℕ × TRcv × RWorker)
    → IsTable r.lhead_conn w
    → Looked k.allocated k.from r w f
    → Counted k r w (count_in k.pktsize f)
unfolding count_in
count_in-Counted k r w (none, s, v) h (n, e, g) = (
  ap (λ (x : RWorker). x.id) g,
  subst (λ x. IsTable x v) (ap (λ (x : TRcv). x.lhead_conn) (sym e))
      (subst (IsTable r.lhead_conn) (sym g) h),
  inl (e, inr n),
)
count_in-Counted k r w (some p, s, v) h (b, i, e, m) =
    let (c, there, owner, _, _) = b in
    let (d, now, kept) = deref-count_at p p k.pktsize s.lhead_conn c there in
    rw (now, same_test d.wid v.id (kept ∙ owner ∙ sym e))
      (e, IsTable-count_at p k.pktsize s.lhead_conn v i, inr (p, s.lhead_conn, b, refl, m))

-- A round of a worker whose table is in order, whatever the packet and malloc give: the assertion holds
-- and the table stays in order. Either the packet is counted in one connection, which is the worker's
-- and has the address of the packet, and which was there or is new, at the end and with all counters 0
-- before it; or nothing changes, and the packet is not one of ttest or malloc gave no memory.
pub rcv_packet-Counted :
    (k : Packet) (r : TRcv) (w : RWorker)
    → IsTable r.lhead_conn w
    → Counted k r w (rcv_packet k r w)
unfolding rcv_packet
rcv_packet-Counted k r w h =
    let found = lookup_rconn k.allocated k.from r w in
    let after : Bool → Stepped = λ b. if b then count_in k.pktsize found else stepped r w in
    elim (Bool-cases (is_ttest k)) [
      | inl e ↦
          subst (λ b. Counted k r w (after b)) (sym e)
            (count_in-Counted k r w found h (lookup-Looked k.allocated k.from r w h))
      | inr e ↦ subst (λ b. Counted k r w (after b)) (sym e) (refl, h, inl (refl, inl e))
    ]

-- The table of another worker, after the round
abbrev pub Kept : RWorker → Stepped → Type 0
Kept u (stepped s v) = IsTable s.lhead_conn u
Kept u aborted = ⊥

Counted-Kept :
    (k : Packet) (r : TRcv) (w u : RWorker) (x : Stepped)
    → IsTable r.lhead_conn u
    → Counted k r w x
    → Kept u x
Counted-Kept k r w u (stepped s v) h (_, _, inl (e, _)) =
    subst (λ (y : TRcv). IsTable y.lhead_conn u) (sym e) h
Counted-Kept k r w u (stepped s v) h (_, _, inr (p, mid, _, e, m)) =
    subst (λ l. IsTable l u) (sym e) (IsTable-count_at p k.pktsize mid u (extended m))
  where
    extended :
        (mid ≡ r.lhead_conn)
          ⊎ ((c : RConn) × (mid ≡ r.lhead_conn ++ c ∷ [])
              × (c.stats ≡ no_stats)
              × (c.stats_prev ≡ no_stats))
        → IsTable mid u
    extended (inl f) = subst (λ l. IsTable l u) (sym f) h
    extended (inr (c, f, _, _)) =
        subst (λ l. IsTable l u) (sym f) (IsTable-append r.lhead_conn (c ∷ []) u h)
Counted-Kept k r w u aborted h x = x

-- A round of one worker leaves the table of every other worker in order: the pointers that it holds
-- still point to connections of its own.
pub rcv_packet-Kept :
    (k : Packet) (r : TRcv) (w u : RWorker)
    → IsTable r.lhead_conn w
    → IsTable r.lhead_conn u
    → Kept u (rcv_packet k r w)
rcv_packet-Kept k r w u h g = Counted-Kept k r w u (rcv_packet k r w) g (rcv_packet-Counted k r w h)
