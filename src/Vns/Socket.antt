-- ===== src/Vns/Socket.antt =====
-- `eyenet_socket` of vns/vns_base.cc. The results of the system calls come from outside; what is handed
-- to them is kept. A text and the contents of a buffer are lists of bytes.

pub mod Receive
use tcp_eyenet.Prelude.{
  maybe, ℕ, zero, suc, ◌-◌, ◌%◌, ◌^◌, Bool, true, false, not, List, [], ◌∷◌, ◌++◌, Option, none,
  some, length, drop, if◌then◌else◌,
}
use tcp_eyenet.Prelude.Int.{ℤ, pos, negsuc, ltb_ℤ, eqb_ℤ}

pub record EyenetSocket : Type 0 where
  pub sk : ℤ
  pub dport : ℤ
  pub sport : ℤ
  pub dip : List ℕ
  pub is_bound : Bool

-- `sin_addr.s_addr` and `sin_port`, in the order of the host
pub record SockaddrIn : Type 0 where
  pub addr : ℕ
  pub port : ℕ

-- The constructor, by the descriptor that socket gives
unfoldable pub eyenet_socket : ℤ → EyenetSocket
eyenet_socket fd = record { sk = fd; dport = pos 0; sport = pos 0; dip = []; is_bound = false }

-- `htons` of an int32_t
abbrev pub to_uint16 : ℤ → ℕ
to_uint16 (pos n) = n % 2 ^ 16
to_uint16 (negsuc n) = 2 ^ 16 - 1 - n % 2 ^ 16

-- `bind_sk(port)`, by the result of bind: the socket, the result, the address that bind is given.
unfoldable pub bind_sk : EyenetSocket → ℤ → ℤ → EyenetSocket × ℤ × SockaddrIn
bind_sk s port rc = (
  record s { sport = port; is_bound = not (ltb_ℤ rc (pos 0)) },
  rc,
  record { addr = 0; port = to_uint16 port },
)

-- `bind_sk(dst_ip, dst_port, src_port)`
unfoldable pub bind_sk_to : EyenetSocket → List ℕ → ℤ → ℤ → ℤ → EyenetSocket × ℤ × SockaddrIn
bind_sk_to s dst_ip dst_port src_port rc = (
  record s { dip = dst_ip; dport = dst_port; sport = src_port; is_bound = not (ltb_ℤ rc (pos 0)) },
  rc,
  record { addr = 0; port = to_uint16 src_port },
)

-- What a call of `send_data` does: `sent` has what sendto is given, and the result.
pub data Sending : Type 0 where
  aborted : Sending
  sent : SockaddrIn → List ℕ → ℤ → Sending

-- `inet_aton` gives no address for a text that is none; the address then stays 0.
module _ (inet_aton : List ℕ → Option ℕ) where
  unfoldable pub resolve : List ℕ → ℕ
  resolve ip = maybe 0 (inet_aton ip) (λ a. a)

  -- `send_data(data, sz, daddr)`, by the result of sendto
  unfoldable pub send_data : EyenetSocket → List ℕ → Option SockaddrIn → ℤ → Sending
  unfolding resolve
  send_data s data_sz none rc =
      if s.is_bound
      then sent (record { addr = resolve s.dip; port = to_uint16 s.dport }) data_sz rc
      else aborted
  send_data s data_sz (some a) rc = sent a data_sz rc

  -- `send_data(data, sz, dst_ip, dport)`
  unfoldable pub send_data_to : EyenetSocket → List ℕ → List ℕ → ℤ → ℤ → Sending
  send_data_to s data_sz dst_ip dport rc =
      send_data s data_sz (some (record { addr = resolve dst_ip; port = to_uint16 dport })) rc

-- What poll and recvfrom give: nothing in time; an error of poll, or an event without POLLIN; an error
-- of recvfrom; or the bytes that recvfrom stores, with their sender.
pub data Poll : Type 0 where
  timed_out : Poll
  poll_failed : Poll
  recv_failed : Poll
  stored : List ℕ → SockaddrIn → Poll

-- What a call of `recv_data` does: `out_of_bounds` is a write beside the buffer.
pub data Receiving : Type 0 where
  aborted : Receiving
  out_of_bounds : Receiving
  returned : ℤ → List ℕ → Option SockaddrIn → Receiving

-- `buf[i] = '\0'`; none outside the buffer.
abbrev pub terminate : ℕ → List ℕ → Option (List ℕ)
terminate i [] = none
terminate zero (x ∷ xs) = some (0 ∷ xs)
terminate (suc i) (x ∷ xs) = maybe none (terminate i xs) (λ ys. some (x ∷ ys))

-- The buffer after recvfrom
abbrev pub store : List ℕ → List ℕ → List ℕ
store bytes buf = bytes ++ drop (length bytes) buf

-- What follows recvfrom, once it has stored `bytes`
unfoldable pub deliver : List ℕ → SockaddrIn → List ℕ → Receiving
deliver bytes from buf =
    maybe out_of_bounds (terminate (length bytes) (store bytes buf))
      (λ ended. returned (pos (length bytes)) ended (some from))

-- What follows poll
unfoldable pub after_poll : List ℕ → Poll → Receiving
unfolding deliver
after_poll buf timed_out = returned (pos 0) buf none
after_poll buf poll_failed = returned (negsuc 0) buf none
after_poll buf recv_failed = out_of_bounds
after_poll buf (stored bytes from) = deliver bytes from buf

-- `recv_data`; the buffer is as long as the caller's array.
unfoldable pub recv_data : EyenetSocket → List ℕ → Poll → Receiving
unfolding after_poll
recv_data s buf p = if s.is_bound then after_poll buf p else aborted

-- `decode_sk_addr`: the address as text, by inet_ntoa, and the port
unfoldable pub decode_sk_addr : (ℕ → List ℕ) → SockaddrIn → List ℕ × ℤ
decode_sk_addr inet_ntoa a = (inet_ntoa a.addr, pos a.port)

-- `decode_sk_addr(addr)`; 58 is the colon, and `to_string` of an integer belongs to the C++ library.
unfoldable pub show_sk_addr : (ℕ → List ℕ) → (ℤ → List ℕ) → SockaddrIn → List ℕ
unfolding decode_sk_addr
show_sk_addr inet_ntoa to_string a =
    let (ip, port) = decode_sk_addr inet_ntoa a in ip ++ 58 ∷ to_string port
