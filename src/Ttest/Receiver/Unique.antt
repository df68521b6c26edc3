-- ===== src/Ttest/Receiver/Unique.antt =====
-- The connections of ttest/ttrcv.c are found again: there is one for a worker and an address.
use tcp_eyenet.Prelude.{
  ◌≢◌, maybe, ℕ, ◌%◌, ◌≡◌, inl, inr, Bool, ◌==◌, Option, none, some, List, length, if◌then◌else◌,
  if_either, Bool-cases, Option-cases, subst,
}
use tcp_eyenet.Ttest.Receiver.{
  RconnTuple, RConn, TRcv, RWorker, deref, find_in, register_rconn, add_to, new_rconn, lookup_rconn,
  count_at, Packet, Stepped, stepped, aborted, is_ttest, count_in, rcv_packet,
}
use tcp_eyenet.Ttest.Receiver.Keys.{
  In, Whole, Unique, find_in-none, Unique-count_at, Whole-count_at, Unique-append, Whole-add_to,
  Whole-other,
}
use tcp_eyenet.Ttest.Receiver.Pointers.{IsTable}
use tcp_eyenet.Ttest.Receiver.Counting.{Counted, rcv_packet-Counted}

-- There is one connection for a worker and an address, and those of the two workers are all in their
-- tables.
pub record Distinct (conns : List RConn) (w u : RWorker) : Type 0 where
  pub unique : Unique conns
  pub found : Whole w.id conns w.rconn_hash
  pub others : Whole u.id conns u.rconn_hash

abbrev Looks : RWorker → Option ℕ × TRcv × RWorker → Type 0
Looks u (o, s, v) = Distinct s.lhead_conn v u

registered-Distinct :
    (t : RconnTuple) (r : TRcv) (w u : RWorker)
    → w.id ≢ u.id
    → find_in t r.lhead_conn (w.rconn_hash (t.port % 8192) (t.ip % 4)) ≡ none
    → Distinct r.lhead_conn w u
    → Distinct
        (register_rconn (new_rconn w t) r).lhead_conn
        (record w {
          rconn_hash = add_to (t.port % 8192) (t.ip % 4) (length r.lhead_conn) w.rconn_hash;
        })
        u
unfolding register_rconn new_rconn
registered-Distinct t r w u ne e h =
    let n : RConn = record (new_rconn w t) { cid = r.cid_seed } in
    record {
      unique = Unique-append r.lhead_conn n h.unique (λ p c f (k, l, m).
          find_in-none t r.lhead_conn (w.rconn_hash (t.port % 8192) (t.ip % 4)) p c e
            (subst (λ x. In p (w.rconn_hash (x % 8192) (t.ip % 4))) m
              (subst (λ x. In p (w.rconn_hash (c.t.port % 8192) (x % 4))) l (h.found p c f k)))
            f l m);
      found = Whole-add_to w.id r.lhead_conn w.rconn_hash n h.found;
      others = Whole-other u.id r.lhead_conn u.rconn_hash n ne h.others;
    }

lookup-Distinct :
    (b : Bool) (t : RconnTuple) (r : TRcv) (w u : RWorker)
    → w.id ≢ u.id
    → Distinct r.lhead_conn w u
    → Looks u (lookup_rconn b t r w)
unfolding lookup_rconn
lookup-Distinct b t r w u ne h =
    elim (Option-cases (find_in t r.lhead_conn (w.rconn_hash (t.port % 8192) (t.ip % 4)))) [
      | inr (q, e) ↦ rw e h
      | inl e ↦ elim (Bool-cases b) [
        | inl f ↦ rw (e, f) (registered-Distinct t r w u ne e h)
        | inr f ↦ rw (e, f) h
      ]
    ]

-- What holds after a round of a worker, if its assertion holds
abbrev AnyStays : RWorker → Stepped → Type 0
AnyStays u (stepped s v) = Distinct s.lhead_conn v u
AnyStays u aborted = Unit

count_in-AnyStays :
    (size : ℕ) (u : RWorker) (f : Option ℕ × TRcv × RWorker)
    → Looks u f
    → AnyStays u (count_in size f)
unfolding count_in
count_in-AnyStays size u (none, s, v) h = h
count_in-AnyStays size u (some p, s, v) h = by_conn (deref p (count_at p size s.lhead_conn))
  where
    counted : TRcv
    counted = record s { lhead_conn = count_at p size s.lhead_conn }

    by_conn :
        (o : Option RConn)
        → AnyStays u (maybe aborted o (λ c. if c.wid == v.id then stepped counted v else aborted))
    by_conn none = tt
    by_conn (some c) =
        if_either (AnyStays u) (c.wid == v.id)
          (record {
            unique = Unique-count_at p size s.lhead_conn h.unique;
            found = Whole-count_at v.id p size s.lhead_conn v.rconn_hash h.found;
            others = Whole-count_at u.id p size s.lhead_conn u.rconn_hash h.others;
          })
          tt

abbrev pub Stays : RWorker → Stepped → Type 0
Stays u (stepped s v) = Distinct s.lhead_conn v u
Stays u aborted = ⊥

Counted-Stays :
    (k : Packet) (r : TRcv) (w u : RWorker) (x : Stepped)
    → Counted k r w x
    → AnyStays u x
    → Stays u x
Counted-Stays k r w u (stepped s v) c h = h
Counted-Stays k r w u aborted c h = c

-- A round of a worker, whatever the packet and malloc give, where the tables of the worker and of another
-- one hold all their connections and only their own: there is still one connection for a worker and an
-- address, and each of both workers' tables still holds all of its connections.
pub rcv_packet-Stays :
    (k : Packet) (r : TRcv) (w u : RWorker)
    → w.id ≢ u.id
    → IsTable r.lhead_conn w
    → Distinct r.lhead_conn w u
    → Stays u (rcv_packet k r w)
unfolding rcv_packet
rcv_packet-Stays k r w u ne t h =
    Counted-Stays k r w u (rcv_packet k r w) (rcv_packet-Counted k r w t) (
      if_either (AnyStays u) (is_ttest k)
        (count_in-AnyStays k.pktsize u (lookup_rconn k.allocated k.from r w)
          (lookup-Distinct k.allocated k.from r w u ne h))
        h)
