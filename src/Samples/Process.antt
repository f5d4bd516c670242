-- ===== src/Samples/Process.antt =====
-- A parent that exits, and the descriptors of a process that was started with a socket pair.
use openconnect_ubuntu_touch.Common.{
  ℕ, ◌<◌, ◌≡◌, ◌≢◌, ◌⊎◌, ◌↔◌, refl, arith, true, false, none, some, Option, ok, err, [], ◌∷◌, zero,
  suc, if◌then◌else◌, ◌==◌,
}
use openconnect_ubuntu_touch.Common.Int.{pos}
use openconnect_ubuntu_touch.Common.Text.{Text}
use openconnect_ubuntu_touch.Parent.{Kernel, Gaps, parent_exits, die_with_parent}
use openconnect_ubuntu_touch.Parent.Told.{die_with_parent_told}
use openconnect_ubuntu_touch.Descriptors.{
  unix_socket, other_socket, no_socket, Table, kind_of, first_free, open_fd, FdError, fd_conn,
  adopt_tun,
}
use openconnect_ubuntu_touch.Descriptors.Adopted.{fd_conn_lem, adopt_tun_closes}

abbrev child : Kernel
child = record { parent = 812; alive = true; armed = false; told = false }

-- The parent exits between prctl and the second Getppid.
abbrev late : Gaps
late = record { before_first = false; before_prctl = false; before_check = true }

child-ne : ◌≢◌ {A = ℕ} 812 1
child-ne = omega arith

die_with_parent_told_example :
    (false ≡ false
      → (((die_with_parent late 1 none child).1 ≡ ok tt)
          ↔ ((◌≡◌ {A = Option Text} none none) × (false ≡ false) × (true ≡ false)))
        × ((die_with_parent late 1 none child).1 ≡ ok tt
            → (parent_exits 1 (die_with_parent late 1 none child).0).told ≡ true))
    × (false ≡ true
        → ◌≡◌ {A = Option Text} none none
        → ((die_with_parent late 1 none child).1 ≡ ok tt)
          × ((parent_exits 1 (die_with_parent late 1 none child).0).told ≡ false))
die_with_parent_told_example = die_with_parent_told late 1 none child refl refl child-ne

-- The standard streams, and the socket pair at 3 and 4.
abbrev table : Table
table = some no_socket ∷ some no_socket ∷ some no_socket ∷ some unix_socket ∷ some other_socket ∷ []

adopted : (fd_conn true (pos 3) table).1 ≡ ok 5
unfolding fd_conn first_free kind_of
adopted = refl

there : kind_of 3 table ≡ some unix_socket
unfolding kind_of
there = refl

used_below : (q : ℕ) → q < 3 → kind_of q table ≢ none
unfolding kind_of
used_below zero h e = cc e
used_below (suc zero) h e = cc e
used_below (suc (suc zero)) h e = cc e
used_below (suc (suc (suc q))) h e = omega arith

fd_conn_lem_example :
    (true ≡ true
      → kind_of 3 table ≡ some unix_socket
      → (m : ℕ) × ((fd_conn true (pos 3) table).1 ≡ ok m)
        × (m ≢ 3)
        × (kind_of m table ≡ none)
        × ((q : ℕ)
            → kind_of q (fd_conn true (pos 3) table).0
              ≡ (if 3 == q then none else if m == q then some unix_socket else kind_of q table)))
    × ((true ≡ false) ⊎ (kind_of 3 table ≢ some unix_socket)
        → ((e : FdError) × ((fd_conn true (pos 3) table).1 ≡ err e))
          × ((q : ℕ)
              → kind_of q (fd_conn true (pos 3) table).0
                ≡ (if 3 == q then none else kind_of q table)))
fd_conn_lem_example = fd_conn_lem true 3 table

adopt_tun_closes_example :
    ((open_fd no_socket (fd_conn true (pos 3) table).0).1 ≡ 3)
    × (kind_of 3 (open_fd no_socket (fd_conn true (pos 3) table).0).0 ≡ some no_socket)
    × (kind_of 3 (adopt_tun true 3 (some no_socket) table).0 ≡ none)
adopt_tun_closes_example = adopt_tun_closes 3 table no_socket there used_below
