-- ===== src/Vns/Receiver/Datagram.antt =====
-- A packet's way through `recv_data` of vns/vns_base.cc to the header that vns/vns_receiver.cc reads.
use tcp_eyenet.Prelude.{
  ℕ, zero, suc, ◌<◌, ◌≡◌, refl, ap, ◌∙◌, true, List, ◌∷◌, ◌++◌, append_assoc, some, length, drop,
  inl, inr, arith,
}
use tcp_eyenet.Prelude.Int.{pos}
use tcp_eyenet.Vns.Socket.{EyenetSocket, SockaddrIn, stored, returned, recv_data}
use tcp_eyenet.Vns.Socket.Receive.{recv_data-Handled}
use tcp_eyenet.Vns.Transport.Interface.{PacketHeader, packet}
use tcp_eyenet.Vns.Receiver.{as_received}

-- The bytes of a header in memory; who reads them at the front of a buffer reads the header.
module _ {ℓ} {W : Type ℓ} (encode : PacketHeader W → List ℕ) (decode : List ℕ → PacketHeader W)
    (front : (h : PacketHeader W) (rest : List ℕ) → decode (encode h ++ rest) ≡ h) where
  as_packet :
      (n : ℕ) (buf : List ℕ) (from : SockaddrIn)
      → 0 < n
      → as_received decode (returned (pos n) buf (some from)) ≡ some (packet (decode buf))
  as_packet zero buf from h = absurd (omega arith)
  as_packet (suc n) buf from h = refl

  -- A datagram that starts with a header and is shorter than the buffer is read as a packet with that
  -- header, whatever follows it and whatever was in the buffer.
  pub datagram_arrives :
      (s : EyenetSocket) (buf : List ℕ) (h : PacketHeader W) (padding : List ℕ) (from : SockaddrIn)
      → s.is_bound ≡ true
      → 0 < length (encode h ++ padding)
      → length (encode h ++ padding) < length buf
      → as_received decode (recv_data s buf (stored (encode h ++ padding) from)) ≡ some (packet h)
  datagram_arrives s buf h padding from b some_bytes room =
      let bytes = encode h ++ padding in
      elim (recv_data-Handled s buf (stored bytes from) b (omega arith)) [
        | inl (full, e) ↦ absurd (omega arith)
        | inr (r, e) ↦
            ap (as_received decode) e
            ∙ as_packet (length bytes) (bytes ++ 0 ∷ drop (suc (length bytes)) buf) from some_bytes
            ∙ ap (λ (l : List ℕ). some (packet (decode l)))
                (append_assoc (encode h) padding (0 ∷ drop (suc (length bytes)) buf))
            ∙ ap (λ (k : PacketHeader W). some (packet k))
                (front h (padding ++ 0 ∷ drop (suc (length bytes)) buf))
      ]
