-- ===== src/Ttest/Server/Pending.antt =====
-- What a packet of ttest/ttrcv.c adds to the packets that are in no report yet.
use tcp_eyenet.Prelude.{
  ℕ, zero, suc, ◌+◌, ◌%◌, ◌^◌, ◌≡◌, inl, inr, true, false, some, List, [], ◌∷◌, ◌++◌, if◌then◌else◌,
  Bool-cases, arith, refl, ap, sym, subst,
}
use mathlib.Core.Option.{some-ne-none}
use tcp_eyenet.Ttest.Receiver.{
  RConn, TRcv, RWorker, Packet, Stepped, stepped, aborted, no_stats, deref, count_packet, count_at,
  is_ttest, rcv_packet,
}
use tcp_eyenet.Ttest.Receiver.Pointers.{IsTable}
use tcp_eyenet.Ttest.Receiver.Counting.{Counted, rcv_packet-Counted}
use tcp_eyenet.Ttest.Reports.{sub_uint64}
use tcp_eyenet.Ttest.Reports.Lines.{pending}

pending-append :
    (cs : List RConn) (c : RConn)
    → c.stats ≡ no_stats
    → c.stats_prev ≡ no_stats
    → pending (cs ++ c ∷ []) ≡ pending cs
pending-append [] c e f = rw (e, f) refl
pending-append (x ∷ cs) c e f = omega (arith, pending-append cs c e f)

one_more : (n p : ℕ) → (sub_uint64 ((n + 1) % 2 ^ 64) p) % 2 ^ 64 ≡ (sub_uint64 n p + 1) % 2 ^ 64
one_more n p = omega arith

pending-count_at :
    (p size : ℕ) (cs : List RConn) (c : RConn)
    → deref p cs ≡ some c
    → pending (count_at p size cs) % 2 ^ 64 ≡ (pending cs + 1) % 2 ^ 64
unfolding deref count_at count_packet
pending-count_at p size [] c e = absurd (some-ne-none c (sym e))
pending-count_at zero size (x ∷ cs) c e =
    omega (arith, one_more x.stats.npkts_rx x.stats_prev.npkts_rx)
pending-count_at (suc p) size (x ∷ cs) c e = omega (arith, pending-count_at p size cs c e)

pub passed_over :
    (k : Packet) (r : TRcv) (w : RWorker) → is_ttest k ≡ false → rcv_packet k r w ≡ stepped r w
unfolding rcv_packet
passed_over k r w e = rw e refl

-- 1 for a packet of ttest
abbrev pub one_of : Packet → ℕ
one_of k = if is_ttest k then 1 else 0

-- A round of a worker, where malloc gives memory, leaves one packet of ttest more to report.
abbrev pub Pends : Packet → TRcv → Stepped → Type 0
Pends k r (stepped s v) = pending s.lhead_conn % 2 ^ 64 ≡ (pending r.lhead_conn + one_of k) % 2 ^ 64
Pends k r aborted = ⊥

Counted-Pends :
    (k : Packet) (r : TRcv) (w : RWorker) (x : Stepped)
    → is_ttest k ≡ true
    → k.allocated ≡ true
    → Counted k r w x
    → Pends k r x
Counted-Pends k r w (stepped s v) e a (_, _, inl (_, inl f)) = cc
Counted-Pends k r w (stepped s v) e a (_, _, inl (_, inr f)) = cc
Counted-Pends k r w (stepped s v) e a (_, _, inr (p, mid, (c, g, _, _, _), h, inl m)) =
    rw e (omega (arith, ap pending h, pending-count_at p k.pktsize mid c g, ap pending m))
Counted-Pends k r w (stepped s v) e a (_, _, inr (p, mid, (c, g, _, _, _), h, inr (d, m, n, o))) =
    rw e (
      omega (
        arith,
        ap pending h,
        pending-count_at p k.pktsize mid c g,
        ap pending m,
        pending-append r.lhead_conn d n o,
      ))
Counted-Pends k r w aborted e a x = absurd x

pub rcv_packet-Pends :
    (k : Packet) (r : TRcv) (w : RWorker)
    → IsTable r.lhead_conn w
    → k.allocated ≡ true
    → Pends k r (rcv_packet k r w)
rcv_packet-Pends k r w h a = elim (Bool-cases (is_ttest k)) [
  | inl e ↦ Counted-Pends k r w (rcv_packet k r w) e a (rcv_packet-Counted k r w h)
  | inr e ↦ subst (Pends k r) (sym (passed_over k r w e)) (rw e (omega arith))
]
