-- ===== src/Vns/Tests/Programs.antt =====
-- The sender, the receiver and the socket at work.

mod Running
use tcp_eyenet.Prelude.{
  ℕ, zero, suc, ◌+◌, ◌/◌, ◌≡◌, refl, Bool, true, false, some, List, [], ◌∷◌, ◌++◌, arith,
}
use tcp_eyenet.Prelude.Int.{ℤ, pos, negsuc, ◌+ℤ◌, ◌-ℤ◌, ◌*ℤ◌, quot, rem}
use tcp_eyenet.Double.Fixed.{fixed_times, fixed_over, fixed_double, fixed_dec, fixed_of_int}
use tcp_eyenet.Vns.Socket.{EyenetSocket, SockaddrIn, stored, recv_data}
use tcp_eyenet.Vns.Socket.Receive.{Handled, recv_data-Handled}
use tcp_eyenet.Vns.Args.{VariablesMap, bytes, deterministic, fill_args, choose_cong}
use tcp_eyenet.Vns.Default.{DefaultCong, kern_version, cong_alg}
use tcp_eyenet.Vns.PacketSender.{PacketSender, Cycle, Traffic, packet_sender, run}
use tcp_eyenet.Vns.Eyenet.State.{Eyenet}
use tcp_eyenet.Vns.Eyenet.State
use tcp_eyenet.Vns.Transport.Interface.{create_header, eyenet_cong, PacketHeader, packet, failed}
use tcp_eyenet.Vns.Transport.Handshake.{Shake, probe, handshake, send_probe, shake_round, is_reply}
use tcp_eyenet.Vns.Transport.State.{OnGo, Flow, go, halt, division_by_zero, Sender, Job}
use tcp_eyenet.Vns.Transport.Sender.{
  after_receive, begin_flow, goes_on, turns, turn, burst, check_timeout, may_start, send_one,
  settle_pace, dispatch, take_ack, estimate, account, tell_cong, new_rate, end_flow,
}
use tcp_eyenet.Vns.Eyenet.Handlers.{on_pkt_sent, age_oldest, remember, count_sent, packet_info}
use tcp_eyenet.Vns.Eyenet.Packets.{count, erase, insert}
use tcp_eyenet.Vns.Win
use tcp_eyenet.Vns.RttWin
use tcp_eyenet.Vns.Ewma
use tcp_eyenet.Vns.DataRank
use tcp_eyenet.Vns.LossReduce
use tcp_eyenet.Vns.Transport.Flows.{
  TcpTransport, FlowInput, start_shake, send_data, run_flow, tcp_flow_sender,
}
use tcp_eyenet.Vns.Transport.Silent.{Silent, second_flow-Silent}
use tcp_eyenet.Vns.Transport.SilentRun.{run-Still}
use tcp_eyenet.Vns.Receiver.Datagram.{datagram_arrives}
use tcp_eyenet.Vns.Receiver.{as_received, Arrival, Server, echo, ack_packets}
use tcp_eyenet.Vns.Receiver.Echo.{
  answers, packets_of, ack_packets-answers, echo-connects, echo-acks, Acked,
}
use tcp_eyenet.Vns.Main.{Outside, main, ran_linux}
use tcp_eyenet.Vns.Main.Untold.{Untold, OnEyenet, main-Untold}
use tcp_eyenet.Vns.Main.Linux.{commands_of, main-linux}

abbrev ms : ℕ → ℤ
ms n = fixed_dec n 0

abbrev bound : EyenetSocket
bound = record { sk = pos 3; dport = pos 8001; sport = pos 8001; dip = []; is_bound = true }

abbrev peer : SockaddrIn
peer = record { addr = 5; port = 8001 }

recv_data-Handled_example :
    Handled
      (0 ∷ 0 ∷ 0 ∷ [])
      (stored (7 ∷ 8 ∷ []) peer)
      (recv_data bound (0 ∷ 0 ∷ 0 ∷ []) (stored (7 ∷ 8 ∷ []) peer))
recv_data-Handled_example =
    recv_data-Handled bound (0 ∷ 0 ∷ 0 ∷ []) (stored (7 ∷ 8 ∷ []) peer) refl (omega arith)

abbrev header : PacketHeader ℤ
header = record { seq_num = pos 4; fid = pos 1; sid = pos 7; send_ts = ms 1; recv_ts = ms 0 }

abbrev empty_server : Server ℤ
empty_server = record { buf = header; acks = [] }

abbrev two_results : List (Arrival ℤ)
two_results =
    record { received = failed; addr = peer; now = ms 1 }
    ∷ record { received = packet header; addr = peer; now = ms 2 }
    ∷ []

ack_packets-answers_example :
    (ack_packets empty_server two_results).acks ≡ [] ++ answers (packets_of two_results)
ack_packets-answers_example = ack_packets-answers empty_server two_results (tt, (tt, tt))

abbrev shake : Shake ℤ
shake = record { last_s_ts = negsuc 1000000000; buf = header; sent = [] }

echo-connects_example :
    handshake shake ((ms 0, packet (echo (ms 9) probe)) ∷ [])
    ≡ some (record (send_probe shake (ms 0)) { buf = echo (ms 9) probe })
unfolding fixed_of_int ◌*ℤ◌
echo-connects_example = echo-connects shake (ms 0) (ms 9) [] refl

abbrev fresh : Sender (Eyenet ℤ) ℤ
fresh = record {
  cong = State.eyenet (ms 1);
  bn_train = pos 1;
  last_s_ts = ms 0;
  last_r_ts = ms 0;
  last_ack_ts = ms 0;
  delay_aggr = ms 0;
  trans_time_aggr = ms 0;
  largest_ack = negsuc 0;
  npkts = 0;
  nbytes = 0;
  seq_num = pos 0;
  curr_ts = ms 0;
  rate_est = ms 0;
  buf = header;
  sent = [];
}

abbrev job : Job ℤ
job = record { fsz = ms 5000; byte_switcher = false; fid = pos 1; sid = pos 7 }

echo-acks_example :
    (u : Sender (Eyenet ℤ) ℤ) × (after_receive job fresh (packet (echo (ms 2) header)) (ms 3)
      ≡ go u)
    × Acked fresh u header (ms 3)
echo-acks_example = echo-acks job fresh header (ms 2) (ms 3) refl refl refl

-- A memory whose cells are numbers: the sign and the size of an integer, and a time in one cell
abbrev cells : ℤ → List ℕ
cells (pos n) = 0 ∷ n ∷ []
cells (negsuc n) = 1 ∷ n ∷ []

abbrev of_cells : ℕ → ℕ → ℤ
of_cells zero n = pos n
of_cells (suc m) n = negsuc n

abbrev encode : PacketHeader ℕ → List ℕ
encode h = cells h.seq_num ++ cells h.fid ++ cells h.sid ++ h.send_ts ∷ h.recv_ts ∷ []

abbrev at_cell : ℕ → List ℕ → ℕ
at_cell n [] = 0
at_cell zero (x ∷ xs) = x
at_cell (suc n) (x ∷ xs) = at_cell n xs

abbrev decode : List ℕ → PacketHeader ℕ
decode l = record {
  seq_num = of_cells (at_cell 0 l) (at_cell 1 l);
  fid = of_cells (at_cell 2 l) (at_cell 3 l);
  sid = of_cells (at_cell 4 l) (at_cell 5 l);
  send_ts = at_cell 6 l;
  recv_ts = at_cell 7 l;
}

decode_of_cells :
    (a b c : ℤ) (s r : ℕ) (rest : List ℕ)
    → decode ((cells a ++ cells b ++ cells c ++ s ∷ r ∷ []) ++ rest)
      ≡ record { seq_num = a; fid = b; sid = c; send_ts = s; recv_ts = r }
decode_of_cells (pos a) (pos b) (pos c) s r rest = refl
decode_of_cells (pos a) (pos b) (negsuc c) s r rest = refl
decode_of_cells (pos a) (negsuc b) (pos c) s r rest = refl
decode_of_cells (pos a) (negsuc b) (negsuc c) s r rest = refl
decode_of_cells (negsuc a) (pos b) (pos c) s r rest = refl
decode_of_cells (negsuc a) (pos b) (negsuc c) s r rest = refl
decode_of_cells (negsuc a) (negsuc b) (pos c) s r rest = refl
decode_of_cells (negsuc a) (negsuc b) (negsuc c) s r rest = refl

abbrev counted_header : PacketHeader ℕ
counted_header = record { seq_num = pos 4; fid = negsuc 0; sid = pos 7; send_ts = 20; recv_ts = 30 }

abbrev ten_cells : List ℕ
ten_cells = 9 ∷ 9 ∷ 9 ∷ 9 ∷ 9 ∷ 9 ∷ 9 ∷ 9 ∷ 9 ∷ 9 ∷ []

datagram_arrives_example :
    as_received decode (recv_data bound ten_cells (stored (encode counted_header ++ 5 ∷ []) peer))
    ≡ some (packet counted_header)
datagram_arrives_example =
    datagram_arrives encode decode
      (λ h rest. decode_of_cells h.seq_num h.fid h.sid h.send_ts h.recv_ts rest) bound ten_cells
      counted_header (5 ∷ []) peer refl (omega arith) (omega arith)
