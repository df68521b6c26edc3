-- ===== src/Vns/Tests/Networks.antt =====
-- A flow on the network, under a control with a window of one packet: the packet is sent, arrives twice,
-- and its answer comes back.
use tcp_eyenet.Prelude.{◌≡◌, refl, true, false, [], arith, ℕ, suc}
use mathlib.Core.List.{Memᴰ}
use tcp_eyenet.Prelude.Int.{ℤ, pos, negsuc, ◌+ℤ◌, ◌-ℤ◌, ◌*ℤ◌, quot, rem}
use tcp_eyenet.Double.Fixed.{fixed_double, fixed_dec, fixed_of_int, fixed_times, fixed_over}
use tcp_eyenet.Vns.Eyenet.Handlers.{ok}
use tcp_eyenet.Vns.Transport.Interface.{Cong, PacketHeader, packet, create_header}
use tcp_eyenet.Vns.Transport.Handshake.{probe}
use tcp_eyenet.Vns.Transport.Sender.{
  go, halt, Flow, Sender, begin_flow, goes_on, send_one, burst, check_timeout, may_start,
  settle_pace, after_receive, dispatch, take_ack, estimate, account, tell_cong, new_rate,
}
use tcp_eyenet.Vns.Receiver.{Arrival, Server, on_result}
use tcp_eyenet.Vns.Network.{
  sends, receives, answered, Reach, begun, later, IsSound, IsStrange, network-IsSound,
}
use tcp_eyenet.Vns.Tests.Sending.{ms, job}

-- The control whose state is a number that counts the packets.
instance abbrev counting : Cong ℕ ℤ
counting = record {
  cwnd = λ n. ms 1;
  intersend = λ n. ms 0;
  rto = λ n. ms 1000;
  set_ts = λ n ts. n;
  initialize = λ n. 0;
  on_ack = λ n ack recv_ts send_ts. ok n;
  on_pkt_sent = λ n seq. suc n;
  on_rate_est = λ n rate. n;
  on_to = λ n. n;
  close = λ n. n;
}

abbrev idle_sender : Sender ℕ ℤ
idle_sender = record {
  cong = 0;
  bn_train = pos 1;
  last_s_ts = ms 0;
  last_r_ts = ms 0;
  last_ack_ts = ms 0;
  delay_aggr = ms 0;
  trans_time_aggr = ms 0;
  largest_ack = negsuc 0;
  npkts = 0;
  nbytes = 0;
  seq_num = pos 0;
  curr_ts = ms 0;
  rate_est = ms 0;
  buf = probe;
  sent = [];
}

abbrev server : Server ℤ
server = record { buf = probe; acks = [] }

negative_not : {n m : ℕ} → negsuc n ≡ pos m → ⊥
negative_not e = ground arith

probe-IsStrange : IsStrange job probe
unfolding probe
probe-IsStrange (e, f) = negative_not e

abbrev of_go : Flow (Sender ℕ ℤ) → Sender ℕ ℤ
of_go (go s) = s
of_go (halt h) = idle_sender

abbrev beginning : Sender ℕ ℤ
beginning = begin_flow idle_sender (ms 0) (ms 1)

abbrev sent_first : Sender ℕ ℤ
sent_first = of_go (burst 2 job (check_timeout beginning (ms 1)))

first_goes : burst 2 job (check_timeout beginning (ms 1)) ≡ go sent_first
unfolding begin_flow burst check_timeout may_start send_one create_header fixed_of_int fixed_dec
    fixed_times rem ◌+ℤ◌ ◌-ℤ◌ ◌*ℤ◌
first_goes = refl

abbrev waiting : Sender ℕ ℤ
waiting = record (settle_pace sent_first) { curr_ts = ms 2 }

abbrev the_packet : PacketHeader ℤ
the_packet = record { seq_num = pos 0; fid = pos 1; sid = pos 7; send_ts = ms 1; recv_ts = ms 0 }

was_sent : Memᴰ the_packet waiting.sent
unfolding begin_flow burst check_timeout may_start send_one create_header fixed_of_int fixed_dec
    fixed_times rem ◌+ℤ◌ ◌-ℤ◌ ◌*ℤ◌ settle_pace quot fixed_over
was_sent = Memᴰ.head refl

abbrev arrival : Arrival ℤ
arrival = record {
  received = packet the_packet;
  addr = record { addr = 1; port = 8001 };
  now = ms 9;
}

abbrev after_arrival : Server ℤ → Server ℤ
after_arrival v = on_result v arrival.received arrival.addr arrival.now

abbrev answer : PacketHeader ℤ
answer = record the_packet { recv_ts = ms 9 }

was_answered : Memᴰ (answer, arrival.addr) (after_arrival (after_arrival server)).acks
unfolding on_result
was_answered = Memᴰ.head refl

abbrev acked : Sender ℕ ℤ
acked = of_go (after_receive job waiting (packet answer) (ms 12))

receive_goes : after_receive job waiting (packet answer) (ms 12) ≡ go acked
unfolding begin_flow burst check_timeout may_start send_one settle_pace after_receive create_header
    fixed_of_int fixed_dec fixed_times quot rem ◌+ℤ◌ ◌-ℤ◌ ◌*ℤ◌ fixed_over dispatch take_ack estimate
    account tell_cong new_rate
receive_goes = refl

in_time : goes_on job beginning ≡ true
unfolding goes_on begin_flow fixed_dec
in_time = refl

exchange :
    Reach job
      (record { sender = acked; waits = false; server = after_arrival (after_arrival server) })
exchange =
    later
      (later
        (later
          (later (begun idle_sender (ms 0) (ms 1) server tt probe-IsStrange tt probe-IsStrange)
            (sends 2 (ms 1) (ms 2) sent_first refl in_time first_goes))
          (answered arrival (λ m. was_sent)))
        (answered arrival (λ m. was_sent)))
      (receives (packet answer) (ms 12) acked refl (λ m. (arrival.addr, was_answered)) receive_goes)

network-IsSound_example :
    IsSound job
      (record { sender = acked; waits = false; server = after_arrival (after_arrival server) })
network-IsSound_example = network-IsSound job exchange
