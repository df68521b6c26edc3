-- ===== src/Vns/Tests/Programs/Running.antt =====
-- The sender at work: whole flows, runs of flows, the program.
use tcp_eyenet.Prelude.{ℕ, ◌+◌, ◌/◌, ◌≡◌, refl, Bool, true, false, some, List, [], ◌∷◌, arith}
use tcp_eyenet.Prelude.Int.{ℤ, pos, negsuc, ◌+ℤ◌, ◌-ℤ◌, ◌*ℤ◌, quot, rem}
use tcp_eyenet.Double.Fixed.{fixed_times, fixed_over, fixed_double, fixed_dec, fixed_of_int}
use tcp_eyenet.Vns.Args.{VariablesMap, bytes, deterministic, fill_args, choose_cong}
use tcp_eyenet.Vns.Default.{DefaultCong, kern_version, cong_alg}
use tcp_eyenet.Vns.PacketSender.{PacketSender, Cycle, Traffic, packet_sender, run}
use tcp_eyenet.Vns.PacketSender.Plan.{plan, flows, run-Planned}
use tcp_eyenet.Vns.Eyenet.State.{Eyenet}
use tcp_eyenet.Vns.Eyenet.State
use tcp_eyenet.Vns.Transport.Interface.{create_header, eyenet_cong, packet}
use tcp_eyenet.Vns.Transport.Handshake.{probe, handshake, send_probe, shake_round, is_reply}
use tcp_eyenet.Vns.Transport.State.{OnGo, Flow, go, halt, ◌>>=◌}
use tcp_eyenet.Vns.Transport.Sender.{
  after_receive, begin_flow, goes_on, turns, turn, burst, check_timeout, may_start, send_one,
  settle_pace, dispatch, take_ack, estimate, account, tell_cong, new_rate, end_flow,
}
use tcp_eyenet.Vns.Eyenet.Handlers.{on_pkt_sent, age_oldest, remember, count_sent, packet_info}
use tcp_eyenet.Vns.Eyenet.Packets.{count, erase, insert}
use tcp_eyenet.Vns.Win
use tcp_eyenet.Vns.RttWin
use tcp_eyenet.Vns.Ewma
use tcp_eyenet.Vns.DataRank
use tcp_eyenet.Vns.LossReduce
use tcp_eyenet.Vns.Transport.Flows.{
  TcpTransport, FlowInput, start_shake, send_data, run_flow, tcp_flow_sender,
}
use tcp_eyenet.Vns.Transport.Silent.{Silent, second_flow-Silent}
use tcp_eyenet.Vns.Transport.SilentRun.{run-Still}
use tcp_eyenet.Vns.Receiver.{echo}
use tcp_eyenet.Vns.Main.{Outside, main, ran_linux}
use tcp_eyenet.Vns.Main.Untold.{Untold, OnEyenet, main-Untold}
use tcp_eyenet.Vns.Main.Linux.{commands_of, main-linux}
use tcp_eyenet.Vns.Tests.Programs.{ms, bound, header, fresh}

abbrev transport : TcpTransport (Eyenet ℤ) ℤ
transport = record { sender = fresh; sk = bound }

-- A handshake that is answered, and a turn in which one packet comes back
abbrev one_packet : FlowInput ℤ
one_packet = record {
  filled = header;
  rounds = (ms 0, packet (echo (ms 9) probe)) ∷ [];
  first_ts = ms 0;
  second_ts = ms 1;
  fuel = 20;
  turns_in =
      record { start_ts = ms 1; wait_ts = ms 2; received = packet header; wake_ts = ms 3 } ∷ [];
  end_ts = ms 4;
}

abbrev fixed : PacketSender ℤ
fixed = record {
  ncycles = pos 2;
  on_units = fixed_of_int (pos 1408);
  off_units = ms 10;
  switcher = bytes;
  traffic_dist = deterministic;
}

abbrev two_cycles : List (Cycle (FlowInput ℤ) ℤ)
two_cycles =
    record { on_sample = ms 1; off_sample = ms 1; input = one_packet }
    ∷ record { on_sample = ms 1; off_sample = ms 1; input = one_packet }
    ∷ []

run-Planned_example : run fixed (pos 7) transport two_cycles ≡ (
    flows fixed (pos 7) 1 2 transport two_cycles >>= λ v.
    go (record { tcp_type = v; calls = plan fixed (pos 7) 1 2 two_cycles }, true))
run-Planned_example = run-Planned fixed (pos 7) 2 transport two_cycles refl (omega arith)

abbrev flow_or {ℓ} : {T : Type ℓ} → T → Flow T → T
flow_or c (go a) = a
flow_or c (halt h) = c

abbrev bytes_of_one : ℤ
bytes_of_one = fixed_of_int (pos 1408)

abbrev after_one : TcpTransport (Eyenet ℤ) ℤ
after_one = flow_or transport (send_data transport one_packet bytes_of_one true (pos 1) (pos 7))

one_flow_goes : send_data transport one_packet bytes_of_one true (pos 1) (pos 7) ≡ go after_one
unfolding send_data start_shake run_flow handshake shake_round send_probe is_reply probe turns
    begin_flow goes_on turn burst check_timeout may_start send_one settle_pace after_receive
    dispatch take_ack estimate account tell_cong new_rate end_flow create_header fixed_of_int
    fixed_dec fixed_times fixed_over quot rem ◌+ℤ◌ ◌-ℤ◌ ◌*ℤ◌ State.eyenet State.initialize
    State.set_ts State.close on_pkt_sent age_oldest remember count_sent packet_info count erase
    insert Win.clear Win.win RttWin.clear RttWin.rtt_win Ewma.clear Ewma.ewma DataRank.clear
    DataRank.data_rank LossReduce.clear LossReduce.loss_reduce DataRank.pop_all Ewma.set
one_flow_goes = refl

second_flow-Silent_example :
    OnGo (Silent after_one) (send_data after_one one_packet bytes_of_one true (pos 2) (pos 7))
second_flow-Silent_example =
    second_flow-Silent transport one_packet one_packet bytes_of_one (pos 1) (pos 2) (pos 7)
      one_flow_goes

run-Still_example :
    OnGo
      (λ (r : Traffic (TcpTransport (Eyenet ℤ) ℤ) ℤ × Bool).
        r.0.tcp_type.sender.sent ≡ after_one.sender.sent)
      (run fixed (pos 7) transport two_cycles)
run-Still_example =
    run-Still fixed (pos 7) refl refl transport after_one
      (record { on_sample = ms 1; off_sample = ms 1; input = one_packet })
      (record { on_sample = ms 1; off_sample = ms 1; input = one_packet } ∷ []) refl one_flow_goes

abbrev options : VariablesMap
options = record {
  help = false;
  cong = "linux";
  dst_ip = some (49 ∷ 48 ∷ []);
  dst_port = pos 8001;
  src_port = pos 8001;
  traffic_dist = "deterministic";
  on_unit = pos 5;
  off_unit = pos 9;
  cycles = pos 1;
  bn_train = pos 1;
  switcher = "time";
}

abbrev outside : Outside ℤ
outside = record {
  options = some options;
  sid = pos 7;
  linux_cycles = record { on_sample = ms 1; off_sample = ms 1; input = tt } ∷ [];
  eyenet_cycles = [];
  fd = pos 3;
  rc = pos 0;
  garbage = header;
}

-- A printer of one digit
abbrev digit : ℤ → List ℕ
digit (pos n) = (48 + n / 1_000_000) ∷ []
digit (negsuc n) = 45 ∷ []

main-linux_example :
    (f : Traffic DefaultCong ℤ) × (main digit outside ≡ ran_linux (go (f, true)))
    × (f.tcp_type.commands
        ≡ kern_version
          ∷ cong_alg
          ∷ commands_of digit (49 ∷ 48 ∷ []) (
              plan
                (packet_sender (fill_args options (49 ∷ 48 ∷ [])))
                (pos 7)
                1
                1
                outside.linux_cycles))
unfolding choose_cong
main-linux_example =
    main-linux digit outside options (49 ∷ 48 ∷ []) 1 refl refl refl refl refl (omega arith)

-- Two flows over Eyenet
abbrev eyenet_outside : Outside ℤ
eyenet_outside = record outside {
  options = some (record options { cong = "eyenet"; switcher = "bytes"; cycles = pos 2 });
  eyenet_cycles = two_cycles;
}

main-Untold_example : OnEyenet Untold (main digit eyenet_outside)
main-Untold_example = main-Untold digit eyenet_outside
