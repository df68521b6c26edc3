-- ===== src/Vns/Socket/Receive.antt =====
-- What `recv_data` of vns/vns_base.cc does, for each result of its system calls.
use tcp_eyenet.Prelude.{
  ℕ, suc, ◌≤◌, ◌<◌, ◌≡◌, ◌⊎◌, inl, inr, refl, true, List, [], ◌∷◌, ◌++◌, none, some, length, drop,
  arith,
}
use tcp_eyenet.Prelude.Int.{pos, negsuc}
use tcp_eyenet.Vns.Socket.{
  EyenetSocket, Poll, timed_out, poll_failed, recv_failed, stored, Receiving, out_of_bounds,
  returned, terminate, store, recv_data,
}

-- recvfrom stores at most the bytes that it is told the buffer has.
abbrev pub Stores : ℕ → Poll → Type 0
Stores sz timed_out = Unit
Stores sz poll_failed = Unit
Stores sz recv_failed = Unit
Stores sz (stored bytes from) = length bytes ≤ sz

-- The result that each case has
abbrev pub Handled : List ℕ → Poll → Receiving → Type 0
Handled buf timed_out r = r ≡ returned (pos 0) buf none
Handled buf poll_failed r = r ≡ returned (negsuc 0) buf none
Handled buf recv_failed r = r ≡ out_of_bounds
Handled buf (stored bytes from) r =
    ((length bytes ≡ length buf) × (r ≡ out_of_bounds))
    ⊎ ((length bytes < length buf)
        × (r
            ≡ returned (pos (length bytes)) (bytes ++ 0 ∷ drop (suc (length bytes)) buf)
                (some from)))

terminate_full :
    (bytes buf : List ℕ)
    → length bytes ≡ length buf
    → terminate (length bytes) (store bytes buf) ≡ none
terminate_full [] [] e = refl
terminate_full [] (y ∷ ys) e = absurd (omega (arith, e))
terminate_full (x ∷ xs) [] e = absurd (omega (arith, e))
terminate_full (x ∷ xs) (y ∷ ys) e = rw (terminate_full xs ys (omega (arith, e))) refl

terminate_room :
    (bytes buf : List ℕ)
    → length bytes < length buf
    → terminate (length bytes) (store bytes buf) ≡ some (bytes ++ 0 ∷ drop (suc (length bytes)) buf)
terminate_room [] [] h = absurd (omega arith)
terminate_room [] (y ∷ ys) h = refl
terminate_room (x ∷ xs) [] h = absurd (omega arith)
terminate_room (x ∷ xs) (y ∷ ys) h = rw (terminate_room xs ys (omega arith)) refl

full_or_room : (m n : ℕ) → m ≤ n → (m ≡ n) ⊎ (m < n)
full_or_room m n h = ground arith

-- On a bound socket, where recvfrom stores at most the bytes of the buffer: a timeout gives 0 and an
-- error of poll -1, the buffer unchanged. A datagram that is shorter than the buffer stands at its front,
-- followed by a 0, and its length and sender are given. One that fills the buffer, or an error of
-- recvfrom, makes the terminating 0 a write outside the buffer.
pub recv_data-Handled :
    (s : EyenetSocket) (buf : List ℕ) (p : Poll)
    → s.is_bound ≡ true
    → Stores (length buf) p
    → Handled buf p (recv_data s buf p)
unfolding recv_data
recv_data-Handled s buf timed_out b h = rw b refl
recv_data-Handled s buf poll_failed b h = rw b refl
recv_data-Handled s buf recv_failed b h = rw b refl
recv_data-Handled s buf (stored bytes from) b h =
    elim (full_or_room (length bytes) (length buf) h) [
      | inl full ↦ inl (full, rw (b, terminate_full bytes buf full) refl)
      | inr room ↦ inr (room, rw (b, terminate_room bytes buf room) refl)
    ]
