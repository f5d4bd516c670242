-- ===== src/Descriptors.antt =====
-- fdConn of src/ocbridge/relay.go, over the process's table of open descriptors.
pub mod Tables
pub mod Adopted
use openconnect_ubuntu_touch.Common.{
  ℕ, zero, suc, Bool, true, false, Option, none, some, List, [], ◌∷◌, get_elem?, Result, ok, err,
  if◌then◌else◌,
}
use openconnect_ubuntu_touch.Common.Int.{ℤ, pos, negsuc}

pub data Kind : Type 0 where
  unix_socket : Kind
  other_socket : Kind
  no_socket : Kind

-- Each descriptor's number is a place in the table.
abbrev pub Table : Type 0
Table = List (Option Kind)

unfoldable pub kind_of : ℕ → Table → Option Kind
kind_of n [] = none
kind_of zero (k ∷ t) = k
kind_of (suc n) (k ∷ t) = kind_of n t

-- The lowest number that is free: what dup and open take.
unfoldable pub first_free : Table → ℕ
first_free [] = 0
first_free (none ∷ t) = 0
first_free (some k ∷ t) = suc (first_free t)

unfoldable pub put_at : ℕ → Option Kind → Table → Table
put_at zero k [] = k ∷ []
put_at zero k (j ∷ t) = k ∷ t
put_at (suc n) k [] = none ∷ put_at n k []
put_at (suc n) k (j ∷ t) = j ∷ put_at n k t

abbrev pub open_fd : Kind → Table → Table × ℕ
open_fd k t = (put_at (first_free t) (some k) t, first_free t)

abbrev pub close_fd : ℕ → Table → Table
close_fd n t = put_at n none t

pub data FdError : Type 0 where
  not_valid : FdError
  no_conn : FdError
  not_unix : FdError

-- net.FileConn: it works on a duplicate, which it closes again if the descriptor is no socket. `dup_ok` is
-- whether the system gives it the duplicate: at the limit of open descriptors it does not.
unfoldable pub file_conn : Bool → ℕ → Table → Table × Result FdError (ℕ × Kind)
file_conn false n t = (t, err no_conn)
file_conn true n t = elim (kind_of n t) [
  | none ↦ (t, err no_conn)
  | some no_socket ↦ (t, err no_conn)
  | some other_socket ↦ (let (u, m) = open_fd other_socket t in (u, ok (m, other_socket)))
  | some unix_socket ↦ (let (u, m) = open_fd unix_socket t in (u, ok (m, unix_socket)))
]

-- A connection that is no *net.UnixConn is closed.
unfoldable pub as_unix : Table × Result FdError (ℕ × Kind) → Table × Result FdError ℕ
as_unix (t, err e) = (t, err e)
as_unix (t, ok (m, unix_socket)) = (t, ok m)
as_unix (t, ok (m, other_socket)) = (close_fd m t, err not_unix)
as_unix (t, ok (m, no_socket)) = (close_fd m t, err not_unix)

-- `fdConn(fd, name)`: the deferred Close comes last.
unfoldable pub fd_conn : Bool → ℤ → Table → Table × Result FdError ℕ
unfolding file_conn as_unix
fd_conn dup_ok (negsuc n) t = (t, err not_valid)
fd_conn dup_ok (pos n) t = let (u, r) = as_unix (file_conn dup_ok n t) in (close_fd n u, r)

-- A descriptor that another goroutine opens, if it does.
abbrev pub meanwhile : Option Kind → Table → Table
meanwhile none t = t
meanwhile (some k) t = (open_fd k t).0

-- The calls of run for its end of the socket pair: fdConn, and if that succeeds, Close of the file whose
-- descriptor it adopted. `k` is what another goroutine opens in between.
unfoldable pub adopt_tun : Bool → ℕ → Option Kind → Table → Table × Result FdError ℕ
adopt_tun dup_ok n k t =
    let u = (fd_conn dup_ok (pos n) t).0 in
    elim (fd_conn dup_ok (pos n) t).1 [
      | err e ↦ (u, err e)
      | ok m ↦ (close_fd n (meanwhile k u), ok m)
    ]
