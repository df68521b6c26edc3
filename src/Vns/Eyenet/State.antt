-- ===== src/Vns/Eyenet/State.antt =====
-- `class eyenet` of vns/vns_eyenet.hh: its state, and the operations that only set it. The members
-- `rand_gen` and `pkt_info` are left out: nothing reads them. The counters that only grow from 0 are numbers.
use tcp_eyenet.Prelude.{ℕ, Bool, true, false, List, []}
use tcp_eyenet.Prelude.Int.{ℤ, pos}
use tcp_eyenet.Double.{Double}
use tcp_eyenet.Vns.Ewma
use tcp_eyenet.Vns.Ewma.{Ewma}
use tcp_eyenet.Vns.RttWin
use tcp_eyenet.Vns.RttWin.{RttWin}
use tcp_eyenet.Vns.DataRank
use tcp_eyenet.Vns.DataRank.{DataRank}
use tcp_eyenet.Vns.LossReduce
use tcp_eyenet.Vns.LossReduce.{LossReduce}

-- `enum operations`; `DEFAULT`, `TCP`, `LOSS`
pub data Operations : Type 0 where
  default tcp loss : Operations

-- `enum utility`; `CONSTANT`, `AUTO`, `COOP`
pub data Utility : Type 0 where
  constant auto coop : Utility

pub record PacketInfo {ℓ} (W : Type ℓ) : Type ℓ where
  pub intersend : W
  pub intersend_rate : W
  pub last_avg_send_rate : W
  pub rtt : W
  pub sent_ts : W

-- `map<int32_t, packet_info>`, its entries in the order of the keys.
abbrev pub Unacked {ℓ} : Type ℓ → Type ℓ
Unacked W = List (ℤ × PacketInfo W)

pub record Eyenet {ℓ} (W : Type ℓ) : Type ℓ where
  pub fid : ℕ
  pub fid_counter : ℕ
  pub flow_sz : ℤ
  pub last_update_dir : ℤ
  pub nack : ℕ
  pub nlost : ℕ
  pub nprobe : ℕ
  pub nsent : ℕ
  pub pkts_rtt : ℕ
  pub update_dir : ℤ
  pub behaviour : W
  pub curr_intersend : W
  pub curr_ts : W
  pub delta : W
  pub default_delta : W
  pub exp_incr : W
  pub intersend_rate : W
  pub last_ack_ts : W
  pub last_avg_send_rate : W
  pub last_delta_update_ts : W
  pub last_delta_loss_update_ts : W
  pub last_intersend : W
  pub last_intersend_rate : W
  pub last_rtt : W
  pub last_rtt_update_ts : W
  pub last_update_ts : W
  pub max_qd_est : W
  pub rtt_min : W
  pub ss_thres : W
  pub update_amt : W
  pub do_ss : Bool
  pub loss_rtt : Bool
  pub ss : Bool
  pub unacked_pkts : Unacked W
  pub unacked_rtt : Ewma W
  pub interarrival : Ewma W
  pub last_delta : Ewma W
  pub rtt_sample : RttWin W
  pub interarrival_rank : DataRank W
  pub reduce_on_loss : LossReduce W
  pub utility_type : Utility
  pub operation_type : Operations
  pub cwnd : W
  pub intersend : W
  pub rto : W

module _ {ℓ} {W : Type ℓ} ⦃d : Double W⦄ where
  open d use {dec, of_int, double_max}

  -- `eyenet::eyenet`
  unfoldable pub eyenet : W → Eyenet W
  eyenet delta = record {
    fid = 1;
    fid_counter = 0;
    flow_sz = pos 0;
    last_update_dir = pos 0;
    nack = 0;
    nlost = 0;
    nprobe = 10;
    nsent = 0;
    pkts_rtt = 0;
    update_dir = pos 0;
    behaviour = dec 0 0;
    curr_intersend = dec 0 0;
    curr_ts = dec 0 0;
    delta = delta;
    default_delta = dec 5 1;
    exp_incr = dec 0 0;
    intersend_rate = dec 0 0;
    last_ack_ts = dec 0 0;
    last_avg_send_rate = dec 0 0;
    last_delta_update_ts = dec 0 0;
    last_delta_loss_update_ts = dec 0 0;
    last_intersend = dec 0 0;
    last_intersend_rate = dec 0 0;
    last_rtt = dec 0 0;
    last_rtt_update_ts = dec 0 0;
    last_update_ts = dec 0 0;
    max_qd_est = dec 0 0;
    rtt_min = dec 0 0;
    ss_thres = dec 0 0;
    update_amt = dec 0 0;
    do_ss = false;
    loss_rtt = false;
    ss = false;
    unacked_pkts = [];
    unacked_rtt = Ewma.ewma (dec 1 0);
    interarrival = Ewma.ewma (dec 3125 5);
    last_delta = Ewma.ewma (dec 1 0);
    rtt_sample = RttWin.rtt_win;
    interarrival_rank = DataRank.data_rank (dec 5 2);
    reduce_on_loss = LossReduce.loss_reduce;
    utility_type = constant;
    operation_type = default;
    cwnd = dec 2 0;
    intersend = dec 0 0;
    rto = dec 1000 0;
  }

  -- `eyenet::set_ts`
  unfoldable pub set_ts : Eyenet W → W → Eyenet W
  set_ts s ts = record s { curr_ts = ts }

  -- `eyenet::set_flow_sz`
  unfoldable pub set_flow_sz : Eyenet W → ℤ → Eyenet W
  set_flow_sz s sz = record s { flow_sz = sz }

  -- `on_to`, `on_rate_est` and `close` have empty bodies.
  unfoldable pub on_to : Eyenet W → Eyenet W
  on_to s = s

  unfoldable pub on_rate_est : Eyenet W → W → Eyenet W
  on_rate_est s link_rate_est = s

  unfoldable pub close : Eyenet W → Eyenet W
  close s = s

  -- `delta` after `initialize`
  abbrev pub initial_delta : Utility → W → W
  initial_delta constant delta = dec 1 0
  initial_delta auto delta = delta
  initial_delta coop delta = delta

  -- `eyenet::initialize`, without the report that it prints.
  unfoldable pub initialize : Eyenet W → Eyenet W
  initialize s = record s {
    intersend = dec 0 0;
    cwnd = of_int (pos s.nprobe);
    rtt_min = double_max;
    rto = dec 1000 0;
    delta = initial_delta s.utility_type s.delta;
    unacked_pkts = [];
    unacked_rtt = Ewma.clear s.unacked_rtt;
    rtt_sample = RttWin.clear s.rtt_sample;
    last_intersend = dec 0 0;
    curr_intersend = dec 0 0;
    interarrival_rank = DataRank.clear s.interarrival_rank;
    last_update_ts = dec 0 0;
    update_dir = pos 1;
    last_update_dir = pos 1;
    pkts_rtt = 0;
    update_amt = dec 1 0;
    intersend_rate = dec 0 0;
    last_intersend_rate = dec 0 0;
    last_rtt = dec 0 0;
    last_rtt_update_ts = dec 0 0;
    last_avg_send_rate = dec 0 0;
    nack = 0;
    nlost = 0;
    nsent = 0;
    operation_type = default;
    flow_sz = pos 0;
    last_delta_update_ts = dec 0 0;
    last_delta_loss_update_ts = dec 0 0;
    max_qd_est = dec 0 0;
    reduce_on_loss = LossReduce.clear s.reduce_on_loss;
    loss_rtt = false;
    interarrival = Ewma.clear s.interarrival;
    last_ack_ts = dec 0 0;
    exp_incr = dec 1 0;
    last_delta = Ewma.clear s.last_delta;
    ss = true;
    ss_thres = dec 10000000000 0;
  }
