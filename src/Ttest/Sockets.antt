-- ===== src/Ttest/Sockets.antt =====
-- `open_data_sockets` of ttest/ttest.c. The results of socket and bind come from outside; setsockopt and
-- getsockopt change nothing that the program reads again, but for messages.
pub mod Settling
use tcp_eyenet.Prelude.{ℕ, zero, suc, ◌+◌, Bool, not, ◌&&◌, ◌==◌, List, [], ◌∷◌, if◌then◌else◌}
use tcp_eyenet.Prelude.Int.{ℤ, pos, negsuc, ltb_ℤ, eqb_ℤ}

-- The address of one socket, and the results of its system calls
pub record Attempt : Type 0 where
  pub s_addr : ℕ
  pub fd : ℤ
  pub bound : ℤ

-- The array of the caller, and the descriptors that are open, the last one first.
pub record Table : Type 0 where
  pub datafd_arr : List ℤ
  pub open_fds : List ℤ

-- `a[i]`, and `a[i] = v`; the caller's array has an element for each socket.
abbrev pub get_at : ℕ → List ℤ → ℤ
get_at n [] = pos 0
get_at zero (x ∷ xs) = x
get_at (suc n) (x ∷ xs) = get_at n xs

abbrev pub set_at : ℕ → ℤ → List ℤ → List ℤ
set_at n v [] = []
set_at zero v (x ∷ xs) = v ∷ xs
set_at (suc n) v (x ∷ xs) = x ∷ set_at n v xs

abbrev pub close_in : ℤ → List ℤ → List ℤ
close_in fd [] = []
close_in fd (x ∷ xs) = if eqb_ℤ x fd then xs else x ∷ close_in fd xs

-- What `failed:` does: the sockets from `i - 1` down to 0 are closed, their places set to -1.
unfoldable pub fail_from : ℕ → Table → Table × ℤ
fail_from zero t = (t, negsuc 0)
fail_from (suc i) t = fail_from i (record {
  datafd_arr = set_at i (negsuc 0) t.datafd_arr;
  open_fds = close_in (get_at i t.datafd_arr) t.open_fds;
})

-- The test under which an open socket is given up
abbrev pub is_refused : Attempt → Bool
is_refused a = not (a.s_addr == 0) && ltb_ℤ a.bound (pos 0)

-- The loop, from `i`
unfoldable pub open_from : ℕ → List Attempt → Table → Table × ℤ
unfolding fail_from
open_from i [] t = (t, pos i)
open_from i (a ∷ as_left) t =
    let rest =
      open_from (i + 1) as_left
        (record { datafd_arr = set_at i a.fd t.datafd_arr; open_fds = a.fd ∷ t.open_fds }) in
    if ltb_ℤ a.fd (pos 0)
    then fail_from i t
    else if is_refused a
    then fail_from i (record t { open_fds = close_in a.fd (a.fd ∷ t.open_fds) })
    else rest

-- `open_data_sockets`
unfoldable pub open_data_sockets : List Attempt → Table → Table × ℤ
open_data_sockets attempts t = open_from 0 attempts t
