-- ===== src/Ttest/Receiver/Tally.antt =====
-- The counters of ttest/ttrcv.c by the address of the client: the connections as a map that a packet
-- changes at one address.
use tcp_eyenet.Prelude.{
  ℕ, zero, suc, ◌+◌, ◌%◌, ◌^◌, ◌≡◌, inl, inr, Bool, true, ◌==◌, ◌&&◌, some, List, [], ◌∷◌, ◌++◌,
  if◌then◌else◌, Bool-cases, arith, refl, ap, sym, subst,
}
use mathlib.Core.Option.{some-injective, some-ne-none}
use tcp_eyenet.Ttest.Receiver.{
  RconnTuple, RStats, RConn, TRcv, RWorker, Packet, Stepped, stepped, aborted, no_stats, deref,
  count_packet, count_at, is_ttest, rcv_packet,
}
use tcp_eyenet.Ttest.Receiver.Pointers.{IsTable}
use tcp_eyenet.Ttest.Receiver.Counting.{Counted, rcv_packet-Counted}
use tcp_eyenet.Ttest.Server.Pending.{passed_over}

abbrev pub is_from : RconnTuple → RconnTuple → Bool
is_from t u = t.ip == u.ip && t.port == u.port

-- A counter, with what a packet of a size adds to it
pub record Meter : Type 0 where
  pub of : RStats → ℕ
  pub gain : ℕ → ℕ
  pub starts : of no_stats ≡ 0
  pub adds :
      (c : RConn) (size : ℕ)
      → of (count_packet size c).stats % 2 ^ 64 ≡ (of c.stats + gain size) % 2 ^ 64

pub nbytes_adds :
    (c : RConn) (size : ℕ)
    → (count_packet size c).stats.nbytes_rx % 2 ^ 64 ≡ (c.stats.nbytes_rx + size) % 2 ^ 64
unfolding count_packet
nbytes_adds c size = omega arith

pub npkts_adds :
    (c : RConn) (size : ℕ)
    → (count_packet size c).stats.npkts_rx % 2 ^ 64 ≡ (c.stats.npkts_rx + 1) % 2 ^ 64
unfolding count_packet
npkts_adds c size = omega arith

abbrev pub nbytes_meter : Meter
nbytes_meter = record {
  of = λ s. s.nbytes_rx;
  gain = λ size. size;
  starts = refl;
  adds = nbytes_adds;
}

abbrev pub npkts_meter : Meter
npkts_meter = record { of = λ s. s.npkts_rx; gain = λ size. 1; starts = refl; adds = npkts_adds }

module _ (m : Meter) (t : RconnTuple) where
  -- The counter, over all connections of the client `t`
  abbrev pub counted_for : List RConn → ℕ
  counted_for [] = 0
  counted_for (c ∷ cs) = (if is_from c.t t then m.of c.stats else 0) + counted_for cs

  -- What a packet adds to it
  abbrev pub gained : Packet → ℕ
  gained k = if is_ttest k && is_from k.from t then m.gain k.pktsize else 0

  counted_for-append :
      (cs : List RConn) (c : RConn)
      → c.stats ≡ no_stats
      → counted_for (cs ++ c ∷ []) ≡ counted_for cs
  counted_for-append [] c e = rw e (ground (arith, m.starts))
  counted_for-append (x ∷ cs) c e = omega (arith, counted_for-append cs c e)

  counted_one :
      (b : Bool) (a n g rest : ℕ)
      → a % 2 ^ 64 ≡ (n + g) % 2 ^ 64
      → ((if b then a else 0) + rest) % 2 ^ 64
        ≡ ((if b then n else 0) + rest + (if b then g else 0)) % 2 ^ 64
  counted_one b a n g rest e = ground arith

  counted_for-count_at :
      (p size : ℕ) (cs : List RConn) (c : RConn)
      → deref p cs ≡ some c
      → counted_for (count_at p size cs) % 2 ^ 64
        ≡ (counted_for cs + (if is_from c.t t then m.gain size else 0)) % 2 ^ 64
  unfolding deref count_at count_packet
  counted_for-count_at p size [] c e = absurd (some-ne-none c (sym e))
  counted_for-count_at zero size (x ∷ cs) c e =
      subst
        (λ (y : RConn).
          counted_for (count_packet size x ∷ cs) % 2 ^ 64
          ≡ (counted_for (x ∷ cs) + (if is_from y.t t then m.gain size else 0)) % 2 ^ 64)
        (some-injective x c e)
        (counted_one (is_from x.t t) (m.of (count_packet size x).stats) (m.of x.stats) (m.gain size)
          (counted_for cs) (m.adds x size))
  counted_for-count_at (suc p) size (x ∷ cs) c e = omega (arith, counted_for-count_at p size cs c e)

  -- What a round of a worker makes of the counter
  abbrev pub Tallied : Packet → TRcv → Stepped → Type 0
  Tallied k r (stepped s v) =
      counted_for s.lhead_conn % 2 ^ 64 ≡ (counted_for r.lhead_conn + gained k) % 2 ^ 64
  Tallied k r aborted = ⊥

  same_client : (a b : RconnTuple) → a.ip ≡ b.ip → a.port ≡ b.port → is_from a t ≡ is_from b t
  same_client a b e f = λ i. (e i) == t.ip && (f i) == t.port

  Counted-Tallied :
      (k : Packet) (r : TRcv) (w : RWorker) (x : Stepped)
      → is_ttest k ≡ true
      → k.allocated ≡ true
      → Counted k r w x
      → Tallied k r x
  Counted-Tallied k r w (stepped s v) e a (_, _, inl (_, inl f)) = cc
  Counted-Tallied k r w (stepped s v) e a (_, _, inl (_, inr f)) = cc
  Counted-Tallied k r w (stepped s v) e a (_, _, inr (p, mid, (c, g, _, i, j), h, inl n)) =
      rw (e, sym (same_client c.t k.from i j))
        (omega
          (arith, ap counted_for h, counted_for-count_at p k.pktsize mid c g, ap counted_for n))
  Counted-Tallied k r w (stepped s v) e a
        (_, _, inr (p, mid, (c, g, _, i, j), h, inr (d, n, o, _))) =
      rw (e, sym (same_client c.t k.from i j))
        (omega (
          arith,
          ap counted_for h,
          counted_for-count_at p k.pktsize mid c g,
          ap counted_for n,
          counted_for-append r.lhead_conn d o,
        ))
  Counted-Tallied k r w aborted e a x = x

  -- Where malloc gives memory, a packet of ttest adds to the counters of its client's connections, and to
  -- those of no other client; any other packet adds to none.
  pub rcv_packet-Tallied :
      (k : Packet) (r : TRcv) (w : RWorker)
      → IsTable r.lhead_conn w
      → k.allocated ≡ true
      → Tallied k r (rcv_packet k r w)
  rcv_packet-Tallied k r w h a = elim (Bool-cases (is_ttest k)) [
    | inl e ↦ Counted-Tallied k r w (rcv_packet k r w) e a (rcv_packet-Counted k r w h)
    | inr e ↦ subst (Tallied k r) (sym (passed_over k r w e)) (rw e (omega arith))
  ]
