-- ===== src/Vns/Receiver.antt =====
-- vns/vns_receiver.cc: every packet goes back to its sender, with the time of its receipt.
pub mod Echo
pub mod Datagram
use tcp_eyenet.Prelude.{
  ℕ, zero, suc, ◌==◌, Bool, List, [], ◌∷◌, ◌++◌, Option, none, some, if◌then◌else◌,
}
use tcp_eyenet.Prelude.Int.{ℤ, pos, negsuc}
use tcp_eyenet.Vns.Socket.{
  EyenetSocket, SockaddrIn, Receiving, aborted, out_of_bounds, returned, eyenet_socket, bind_sk,
}
use tcp_eyenet.Vns.Transport.Interface.{
  PacketHeader, Received, nothing, failed, packet, buffer_after,
}

-- What the callers of `recv_data` tell apart: they test its result for 0 or -1 and read the header at the
-- front of the buffer, which `decode` does.
abbrev pub as_received {ℓ} :
    {W : Type ℓ} → (List ℕ → PacketHeader W) → Receiving → Option (Received W)
as_received decode aborted = none
as_received decode out_of_bounds = none
as_received decode (returned (pos zero) buf from) = some nothing
as_received decode (returned (pos (suc n)) buf from) = some (packet (decode buf))
as_received decode (returned (negsuc n) buf from) = some failed

-- A result of `recv_data` with no timeout, the address that it leaves, and the clock after it
pub record Arrival {ℓ} (W : Type ℓ) : Type ℓ where
  pub received : Received W
  pub addr : SockaddrIn
  pub now : W

-- The header in `buf`, and what was sent back
pub record Server {ℓ} (W : Type ℓ) : Type ℓ where
  pub buf : PacketHeader W
  pub acks : List (PacketHeader W × SockaddrIn)

-- `hdr->recv_ts = …`
abbrev pub echo {ℓ} : {W : Type ℓ} → W → PacketHeader W → PacketHeader W
echo now h = record h { recv_ts = now }

-- The header in the buffer goes back.
unfoldable pub send_back {ℓ} : {W : Type ℓ} → Server W → PacketHeader W → SockaddrIn → Server W
send_back s h addr = record { buf = h; acks = s.acks ++ (h, addr) ∷ [] }

-- After a result of -1 the inner loop goes round again; after any other the outer one sends back.
unfoldable pub on_result {ℓ} : {W : Type ℓ} → Server W → Received W → SockaddrIn → W → Server W
unfolding send_back
on_result s failed addr now = s
on_result s r addr now = send_back s (echo now (buffer_after s.buf r)) addr

-- `ack_packets`, over the results that come
unfoldable pub ack_packets {ℓ} : {W : Type ℓ} → Server W → List (Arrival W) → Server W
unfolding on_result
ack_packets s [] = s
ack_packets s (a ∷ arrivals) = ack_packets (on_result s a.received a.addr a.now) arrivals

-- The port: the argument, if there is one
unfoldable pub choose_port : ℕ → ℤ → ℤ
choose_port argc arg = if argc == 2 then arg else pos 8001

-- `main`, by the results of socket and bind and what is in the new buffer; none where the assertion of
-- `recv_data` ends the program, for the result of `bind_sk` is not looked at.
unfoldable pub main {ℓ} :
    {W : Type ℓ} → ℕ → ℤ → ℤ → ℤ → PacketHeader W → List (Arrival W) → Option (Server W)
unfolding choose_port
main argc arg fd rc garbage arrivals =
    let (s, _, _) = bind_sk (eyenet_socket fd) (choose_port argc arg) rc in
    if s.is_bound then some (ack_packets (record { buf = garbage; acks = [] }) arrivals) else none
