-- ===== src/Lib.antt =====
-- tcp_eyenet: a sender and a receiver of UDP packets with a congestion control in user space (vns/).
--
-- vns_sender runs on-off flows. Each flow is one `tcp_transport::send_data` (vns/vns_transport.hh):
-- a handshake, then a loop that sends bursts while the window and the pacing of the congestion control
-- allow, waits for one packet, and does the books. The receiver sends every packet's header back. The
-- congestion control is `eyenet` (vns/vns_eyenet.cc), which draws on the filters of vns/vns_utils.cc.
--
-- Prelude             shared names, tests on numbers, lists, integers (Prelude/Int)
-- Double              `double_t` as an interface, with the laws of IEEE 754 that proofs use (IsIeee);
--                     Double/Fixed is a finite instance with which definitions run
-- Vns/Win             `win`: Win.add, update_win, clear; Skyline is its reference, a list of samples;
--                     Runs is about samples added one after the other
-- Vns/RttWin          `rtt_win`: rtt_win::add, mode_eyenet
-- Vns/Ewma, LossReduce, DataRank   `ewma`, `loss_reduce`, `data_rank`; DataRank/Percentile is about
--                     get_rank
-- Vns/Eyenet          `eyenet`: State has the members, the constructor and initialize; Control has
--                     update_intersend and update_delta; Handlers has on_ack and on_pkt_sent;
--                     Steady has runs of calls, and Runs those that come in order
-- Vns/Transport       `tcp_transport`: Handshake has handshake, State the members, Sender the loop of
--                     send_data, Flows the constructor and the whole of send_data; Numbers and Growing
--                     are about the numbers of the packets
-- Vns/Network         a flow between its sender and the receiver: the steps of the two as a relation,
--                     over a network that loses, repeats and reorders, between the sends and the
--                     receive of a turn as well
-- Vns/Ending, Completion   a turn of send_data ends, and with the packets that come a flow over Eyenet
-- Vns/Socket          `eyenet_socket` of vns/vns_base.cc, over the results of its system calls
-- Vns/Receiver        ack_packets and main of vns/vns_receiver.cc
-- Vns/Args            parse_sender_args of vns/vns_args.cc, from the map that boost makes of the options
-- Vns/PacketSender    `packet_sender`: run, over any transport (the record FlowSender)
-- Vns/Default         `default_cong` of vns/default.hh, by the commands that it runs
-- Vns/Main            main of vns/vns_sender.cc
-- Vns/Tests           the theorems at concrete inputs, and runs
--
-- ttest/ is a program of its own, a traffic tester over UDP: its client sends bursts at a fixed rate.
--
-- Ttest/Params        `prog_param_t`, parse_args and main of ttest/ttest.c; Range, Starting and
--                     Reaching prove
-- Ttest/Sockets       open_data_sockets of ttest/ttest.c; Settling proves
-- Ttest/Pacing        calc_pkts_rate of ttest/ttsnd.c
-- Ttest/Clock         get_time_usec of ttest/ttest.h and wait_until of ttest/ttsnd.c
-- Ttest/Worker        the loop of snd_worker of ttest/ttsnd.c; Ledger, Running and Client prove. Timed is
--                     the loop with its clock; Chained, Rate and Conforming prove
-- Ttest/Receiver      lookup_rconn, register_rconn and the loop of rcv_worker of ttest/ttrcv.c; Pointers,
--                     Counting, Keys, Unique and Tally prove
-- Ttest/Reports       print_all_conn_stats of ttest/ttsnd.c and of ttest/ttrcv.c; Lines proves
-- Ttest/Server        start_server of ttest/ttrcv.c, with packets and reports in any order; Pending,
--                     Accounts and Tallies prove
-- Ttest/Client        start_client of ttest/ttsnd.c; Rounds, Telling, Watching, Starting, Accounts prove
-- Ttest/Session       allocate_pkt of ttest/ttsnd.c, and a client and a server together
-- Ttest/Startup       the start of the workers of both programs, as steps of threads that run side by
--                     side over one counter; Waiting, Safety and Owning prove
-- Ttest/Tests         the theorems at concrete inputs, and runs
--
-- State is passed explicitly: an operation takes the object's record and gives the new one. `exit` is
-- an Outcome, and a halt of the transport a Flow. The clock and the network are inputs: a turn of the
-- loop of send_data takes the readings of the clock and the result of the receive. What is printed is
-- left out.
--
-- Numbers: double_t is a parameter, since its arithmetic belongs to the platform. Signed 32-bit
-- integers are integers with no bound, since their overflow is undefined; `nbytes`, into which the code
-- adds an unsigned number, wraps at 2^32. The burst of send_data runs on fuel; it ends where the
-- window closes, at the end of a train, so that over Eyenet fuel for 11 trains and one turn more is
-- enough. Every other loop recurs on its data. The unsigned numbers of ttest wrap at 2^16, 2^32 and 2^64 where the code's do. A round of its sender is
-- assumed to take at most 250 gaps (12 to 31 seconds), so that a burst has fewer than 2^32 bytes.
--
-- The loop of on_ack erases the entry at which its iterator stands, which is undefined; the model goes
-- on with the next entry. Of `unacked_pkts[seq_no] = {...}` the right side is taken first.
-- While they start, the threads of ttest/ take small steps (Ttest/Startup); after it they are steps in an
-- order: a round of a worker and a report do not overlap, though
-- the code reads a worker's counters without a lock.
-- Not modelled: the random numbers and what is printed, which belong to the standard library and boost;
-- the disabled copies vns/vns_transport.cc and vns/vns_packet_sender.cc, each one block comment;
-- thread_set_highprio and the buffers of the sockets of ttest/, which only set and print; the scripts.
pub mod Prelude
pub mod Double
pub mod Vns
pub mod Ttest
