-- ===== src/Vns/Tests/Flowing.antt =====
-- A flow of 1000 bytes over Eyenet, in trains of one packet: the first answer ends it.
use tcp_eyenet.Prelude.{ℕ, ◌≡◌, refl, true, false, [], ◌∷◌, arith}
use tcp_eyenet.Prelude.Int.{ℤ, pos, negsuc, ◌+ℤ◌, ◌-ℤ◌, ◌*ℤ◌, quot, rem}
use tcp_eyenet.Double.Fixed.{
  fixed_double, fixed_dec, fixed_of_int, fixed_times, fixed_over, fixed-IsExact,
}
use tcp_eyenet.Vns.Ewma
use tcp_eyenet.Vns.Win
use tcp_eyenet.Vns.RttWin
use tcp_eyenet.Vns.Eyenet.State
use tcp_eyenet.Vns.Eyenet.State.{Eyenet, eyenet}
use tcp_eyenet.Vns.Eyenet.Packets.{insert}
use tcp_eyenet.Vns.Eyenet.Handlers
use tcp_eyenet.Vns.Transport.Interface.{PacketHeader, eyenet_cong, packet, create_header}
use tcp_eyenet.Vns.Transport.Handshake.{probe}
use tcp_eyenet.Vns.Transport.State.{OnGo}
use tcp_eyenet.Vns.Transport.Sender.{
  go, Sender, Turn, Job, begin_flow, goes_on, send_one, burst, check_timeout, may_start, turn,
  turns,
}
use tcp_eyenet.Vns.Transport.Numbers.{Below}
use tcp_eyenet.Vns.Transport.Silent.{OnGo-any}
use tcp_eyenet.Vns.Network.{IsStrange}
use tcp_eyenet.Vns.Completion.{flow-ends}
use tcp_eyenet.Vns.Tests.Sending.{ms, fresh}

abbrev small_job : Job ℤ
small_job = record { fsz = ms 1000; byte_switcher = true; fid = pos 1; sid = pos 7 }

abbrev answer : PacketHeader ℤ
answer = record { seq_num = pos 0; fid = pos 1; sid = pos 7; send_ts = ms 1; recv_ts = ms 2 }

abbrev only : Turn ℤ
only = record { start_ts = ms 1; wait_ts = ms 2; received = packet answer; wake_ts = ms 3 }

abbrev beginning : Sender (Eyenet ℤ) ℤ
beginning = begin_flow fresh (ms 0) (ms 1)

negative_not : {n m : ℕ} → negsuc n ≡ pos m → ⊥
negative_not e = ground arith

probe-IsStrange : IsStrange small_job probe
unfolding probe
probe-IsStrange (e, f) = negative_not e

was_given :
    OnGo
      (λ t. Below small_job t.seq_num answer)
      (burst 12 small_job (check_timeout beginning (ms 1)))
unfolding begin_flow burst check_timeout may_start send_one create_header fixed_of_int fixed_dec
    fixed_times rem quot ◌+ℤ◌ ◌-ℤ◌ ◌*ℤ◌ fixed_over State.initialize State.set_ts eyenet
    Handlers.on_pkt_sent Handlers.remember Handlers.count_sent Handlers.age_oldest
    Handlers.packet_info insert Ewma.set RttWin.clear RttWin.rtt_win Win.clear Win.win
was_given = λ m. omega arith

flow-ends_example :
    (u : Sender (Eyenet ℤ) ℤ) × (turns 12 small_job beginning (only ∷ []) ≡ go (u, true))
    × (goes_on small_job u ≡ false)
unfolding eyenet fixed_dec fixed_of_int ◌*ℤ◌
flow-ends_example =
    flow-ends 12 1 small_job fresh (ms 0) (ms 1) (only ∷ []) fixed-IsExact refl refl (omega arith)
      (omega arith) (omega arith) refl tt probe-IsStrange
      (tt, was_given, OnGo-any (turn 12 small_job beginning only)) refl
