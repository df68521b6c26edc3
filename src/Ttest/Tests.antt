-- ===== src/Ttest/Tests.antt =====
-- Runs of the models of ttest/ on concrete inputs, and the theorems applied to them.
mod Reporting
mod Sessions
use tcp_eyenet.Prelude.{
  All, ℕ, zero, suc, ◌+◌, ◌-◌, ◌*◌, ◌≡◌, Bool, true, false, Option, some, List, [], ◌∷◌, arith,
  refl,
}
use tcp_eyenet.Prelude.Int.{ℤ, pos, negsuc}
use tcp_eyenet.Ttest.Params.{
  ProgParam, Opt, opt_c, opt_b, opt_p, default_param, main, client, start, parse_args, set_mode,
  set_rate, set_port,
}
use tcp_eyenet.Ttest.Params.Range.{InRange, default_param-InRange}
use tcp_eyenet.Ttest.Params.Starting.{Given, Sound, main-Sound}
use tcp_eyenet.Ttest.Sockets.{Attempt, open_data_sockets, open_from, fail_from}
use tcp_eyenet.Ttest.Sockets.Settling.{Settled, open_data_sockets-Settled}
use tcp_eyenet.Ttest.Receiver.{Packet, TRcv, start_rworker, rcv_packet}
use tcp_eyenet.Ttest.Receiver.Pointers.{IsTable}
use tcp_eyenet.Ttest.Receiver.Counting.{Counted, Kept, rcv_packet-Counted, rcv_packet-Kept}
use tcp_eyenet.Ttest.Pacing.{calc_pkts_rate, packets_per_sec, burst_of}
use tcp_eyenet.Ttest.Pacing.Target.{Paced, calc_pkts_rate-Paced}
use tcp_eyenet.Ttest.Worker.{SWorker, Round, start_worker, send_round, send_rounds}
use tcp_eyenet.Ttest.Worker.Running.{Answered, IsLedger, Fits, Steady, send_round-Steady}
use tcp_eyenet.Ttest.Worker.Client.{Follows, client-Follows}

-- A number in decimal digits
abbrev decimal_from : ℕ → List ℕ → ℕ
decimal_from n [] = n
decimal_from n (c ∷ cs) = decimal_from (n * 10 + (c - 48)) cs

abbrev decimal : List ℕ → ℤ
decimal cs = pos (decimal_from 0 cs)

abbrev one_address : List ℕ → Option ℕ
one_address cs = some 16777343

-- `-c … -b 100K -p 8080`
abbrev some_options : List Opt
some_options =
    opt_c (49 ∷ []) ∷ opt_b (49 ∷ 48 ∷ 48 ∷ 75 ∷ []) ∷ opt_p (56 ∷ 48 ∷ 56 ∷ 48 ∷ []) ∷ []

abbrev slow_param : ProgParam
slow_param = record {
  mode = 1;
  ip = 16777343;
  port = 8080;
  pktsize = 1472;
  duration = 5;
  reporting_interval = 1;
  rate_kbps = 100;
  n_cpus = 1;
}

main_test : main decimal one_address 7 some_options ≡ client slow_param
unfolding main start parse_args set_mode default_param set_rate set_port
main_test = refl

-- 1000 times 4294968 is 704 on 32 bits, which is a rate in the range.
wrapped_rate_test :
    main decimal one_address 7
      (opt_c (49 ∷ []) ∷ opt_b (52 ∷ 50 ∷ 57 ∷ 52 ∷ 57 ∷ 54 ∷ 56 ∷ 77 ∷ []) ∷ [])
    ≡ client (record default_param { mode = 1; ip = 16777343; rate_kbps = 704 })
unfolding main start parse_args set_mode default_param set_rate set_port
wrapped_rate_test = refl

main-Sound_example : Sound (Given decimal some_options) (main decimal one_address 7 some_options)
main-Sound_example = main-Sound decimal one_address 7 some_options

calc_test : calc_pkts_rate 10000 1472 ≡ some (50, 42)
unfolding calc_pkts_rate packets_per_sec burst_of
calc_test = refl

calc_pkts_rate-Paced_example :
    Paced default_param.rate_kbps default_param.pktsize
      (calc_pkts_rate default_param.rate_kbps default_param.pktsize)
calc_pkts_rate-Paced_example = calc_pkts_rate-Paced default_param default_param-InRange

slow_param-InRange : InRange slow_param
slow_param-InRange = record {
  mode = omega arith;
  port = (omega arith, omega arith);
  pktsize = (omega arith, omega arith);
  duration = omega arith;
  reporting_interval = omega arith;
  rate_kbps = (omega arith, omega arith);
  n_cpus = (omega arith, omega arith);
}

abbrev replicate : ℕ → Bool → List Bool
replicate zero b = []
replicate (suc n) b = b ∷ replicate n b

-- The one packet of the burst goes out, and the round takes two gaps.
abbrev late_round : Round
late_round = record { sent = true ∷ replicate 249 false; delta = 250000 }

-- After it two packets are sent, and the second fails.
abbrev next_round : Round
next_round = record { sent = true ∷ replicate 249 false; delta = 10 }

slow_burst : calc_pkts_rate 100 1472 ≡ some (125, 1)
unfolding calc_pkts_rate packets_per_sec burst_of
slow_burst = refl

slow_rounds : All (Answered (start_worker 1472 1 125 7)) (late_round ∷ next_round ∷ [])
unfolding start_worker
slow_rounds = ((omega arith, omega arith), ((omega arith, omega arith), tt))

client-Follows_example :
    Follows 7 1472 (send_rounds (start_worker 1472 1 125 7) (late_round ∷ next_round ∷ []))
client-Follows_example =
    client-Follows 7 slow_param 125 1 (late_round ∷ next_round ∷ []) slow_param-InRange slow_burst
      slow_rounds

abbrev running : SWorker
running = record {
  psize = 1472;
  seq = 2;
  ibg = 125000;
  npkts_burst = 1;
  qouta = 1;
  hdr_seq = 2;
  stats = record { nbytes_tx = 2944; npkts_tx = 2 };
  stats_prev = record { nbytes_tx = 0; npkts_tx = 0 };
  wire = 1 ∷ 7 ∷ [];
}

running-IsLedger : IsLedger 7 running
running-IsLedger = record { numbered = (refl, refl, refl); npkts = refl; nbytes = refl }

running-Fits : Fits running
running-Fits = record {
  psize = omega arith;
  bytes = omega arith;
  ibg = (omega arith, omega arith);
  least = omega arith;
  most = omega arith;
}

-- The second socket cannot be bound.
abbrev two_attempts : List Attempt
two_attempts =
    record { s_addr = 1; fd = pos 7; bound = pos 0 }
    ∷ record { s_addr = 1; fd = pos 8; bound = negsuc 0 }
    ∷ []

open_test :
    open_data_sockets two_attempts
      (record { datafd_arr = pos 0 ∷ pos 0 ∷ []; open_fds = pos 3 ∷ [] })
    ≡ (record { datafd_arr = negsuc 0 ∷ pos 0 ∷ []; open_fds = pos 3 ∷ [] }, negsuc 0)
unfolding open_data_sockets open_from fail_from
open_test = refl

open_data_sockets-Settled_example : Settled two_attempts [] (pos 0 ∷ pos 0 ∷ []) (pos 3 ∷ []) (
    open_data_sockets two_attempts
      (record { datafd_arr = pos 0 ∷ pos 0 ∷ []; open_fds = pos 3 ∷ [] }))
open_data_sockets-Settled_example =
    open_data_sockets-Settled two_attempts (pos 0 ∷ pos 0 ∷ []) (pos 3 ∷ []) refl

-- A packet that says it has 1472 bytes
abbrev some_packet : Packet
some_packet = record {
  rx_len = pos 16;
  sig = 2882395322;
  pktsize = 1472;
  from = record { ip = 6; port = 9000 };
  allocated = true;
}

abbrev no_conns : TRcv
no_conns = record { lhead_conn = []; n_conns = 0; cid_seed = 0 }

no_conns-IsTable : (id : ℕ) → IsTable no_conns.lhead_conn (start_rworker id)
unfolding start_rworker
no_conns-IsTable id i j = tt

rcv_packet-Counted_example :
    Counted some_packet no_conns
      (start_rworker 0)
      (rcv_packet some_packet no_conns (start_rworker 0))
rcv_packet-Counted_example =
    rcv_packet-Counted some_packet no_conns (start_rworker 0) (no_conns-IsTable 0)
