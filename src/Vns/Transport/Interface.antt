-- ===== src/Vns/Transport/Interface.antt =====
-- What vns/vns_transport.hh uses: a congestion control, packet headers, the results of a receive.
use tcp_eyenet.Prelude.{ℕ, ◌-◌}
use tcp_eyenet.Prelude.Int.{ℤ, negsuc}
use tcp_eyenet.Double.{Double}
use tcp_eyenet.Vns.Eyenet.State.{Eyenet}
use tcp_eyenet.Vns.Eyenet.State
use tcp_eyenet.Vns.Eyenet.Handlers
use tcp_eyenet.Vns.Eyenet.Handlers.{Outcome}

-- The members of the template parameter `T` that the transport uses.
pub record Cong {ℓ κ} (C : Type κ) (W : Type ℓ) : Type (ℓ ⊔ κ) where
  pub cwnd : C → W
  pub intersend : C → W
  pub rto : C → W
  pub set_ts : C → W → C
  pub initialize : C → C
  pub on_ack : C → ℤ → W → W → Outcome C
  pub on_pkt_sent : C → ℤ → C
  pub on_rate_est : C → W → C
  pub on_to : C → C
  pub close : C → C

instance abbrev pub eyenet_cong {ℓ} : {W : Type ℓ} ⦃d : Double W⦄ → Cong (Eyenet W) W
eyenet_cong = record {
  cwnd = λ s. s.cwnd;
  intersend = λ s. s.intersend;
  rto = λ s. s.rto;
  set_ts = State.set_ts;
  initialize = State.initialize;
  on_ack = Handlers.on_ack;
  on_pkt_sent = Handlers.on_pkt_sent;
  on_rate_est = State.on_rate_est;
  on_to = State.on_to;
  close = State.close;
}

-- `struct packet_header` of vns/vns_base.hh; it takes 32 bytes.
pub record PacketHeader {ℓ} (W : Type ℓ) : Type ℓ where
  pub seq_num : ℤ
  pub fid : ℤ
  pub sid : ℤ
  pub send_ts : W
  pub recv_ts : W

abbrev pub hdr_sz : ℕ
hdr_sz = 32

abbrev pub pkt_sz : ℕ
pkt_sz = 1440

-- `PAYLOAD`
abbrev pub payload : ℕ
payload = pkt_sz - hdr_sz

-- `NEG`
abbrev pub neg : ℤ
neg = negsuc 0

-- What `recv_data` gives: 0, -1, or a packet, by its header.
pub data Received {ℓ} (W : Type ℓ) : Type ℓ where
  nothing : Received W
  failed : Received W
  packet : PacketHeader W → Received W

-- `buf` after a receive: a failure leaves in it what was there.
abbrev pub buffer_after {ℓ} : {W : Type ℓ} → PacketHeader W → Received W → PacketHeader W
buffer_after buf nothing = buf
buffer_after buf failed = buf
buffer_after buf (packet h) = h

-- `create_header`
unfoldable pub create_header {ℓ} : {W : Type ℓ} ⦃d : Double W⦄ → ℤ → ℤ → ℤ → W → PacketHeader W
create_header ⦃d⦄ sq fid sid ts = record {
  seq_num = sq;
  fid = fid;
  sid = sid;
  send_ts = ts;
  recv_ts = d.dec 0 0;
}
