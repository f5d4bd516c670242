-- ===== src/Descriptors/Adopted.antt =====
-- What fdConn leaves open, and the second close of an adopted descriptor in run of src/ocbridge/main.go.
use openconnect_ubuntu_touch.Common.{
  ℕ, ◌<◌, ◌≡◌, ◌≢◌, refl, ◌⊎◌, sym, ap, subst, ◌∙◌, Bool, true, false, Option, none, some, Result,
  ok, err, ◌==◌, ==_iff, if◌then◌else◌, arith, Bool-cases, inl, inr,
}
use openconnect_ubuntu_touch.Common.Int.{pos}
use openconnect_ubuntu_touch.Descriptors.{
  Kind, unix_socket, other_socket, no_socket, Table, kind_of, first_free, put_at, open_fd, close_fd,
  FdError, no_conn, not_unix, file_conn, fd_conn, adopt_tun,
}
use openconnect_ubuntu_touch.Descriptors.Tables.{kind_of-put_at, kind_of-first_free, first_free-eq}

module _ (n : ℕ) (t : Table) where
  abbrev new_fd : ℕ
  new_fd = first_free t

  new_fd-ne : (k : Kind) → kind_of n t ≡ some k → new_fd ≢ n
  new_fd-ne k h e = cc (sym (kind_of-first_free t) ∙ ap (λ (q : ℕ). kind_of q t) e ∙ h)

  fd_conn-unix :
      kind_of n t ≡ some unix_socket
      → fd_conn true (pos n) t ≡ (close_fd n (put_at new_fd (some unix_socket) t), ok new_fd)
  unfolding fd_conn
  fd_conn-unix h = rw (h, file_conn) refl

  fd_conn-other :
      kind_of n t ≡ some other_socket
      → fd_conn true (pos n) t
        ≡ (close_fd n (close_fd new_fd (put_at new_fd (some other_socket) t)), err not_unix)
  unfolding fd_conn
  fd_conn-other h = rw (h, file_conn) refl

  fd_conn-no_socket :
      kind_of n t ≡ some no_socket → fd_conn true (pos n) t ≡ (close_fd n t, err no_conn)
  unfolding fd_conn
  fd_conn-no_socket h = rw (h, file_conn) refl

  fd_conn-closed : kind_of n t ≡ none → fd_conn true (pos n) t ≡ (close_fd n t, err no_conn)
  unfolding fd_conn
  fd_conn-closed h = rw (h, file_conn) refl

  -- The kinds behind the close of the descriptor and of one that was opened meanwhile.
  kinds_closed :
      (k : Option Kind) (q : ℕ)
      → kind_of q (close_fd n (put_at new_fd k t))
        ≡ (if n == q then none else if new_fd == q then k else kind_of q t)
  kinds_closed k q =
      ground (arith, kind_of-put_at n q none (put_at new_fd k t), kind_of-put_at new_fd q k t)

  abbrev Closed : Table × Result FdError ℕ → Type 0
  Closed r =
      ((e : FdError) × (r.1 ≡ err e))
      × ((q : ℕ) → kind_of q r.0 ≡ (if n == q then none else kind_of q t))

  other_socket-Closed :
      Closed (close_fd n (close_fd new_fd (put_at new_fd (some other_socket) t)), err not_unix)
  other_socket-Closed = ((not_unix, refl), λ q. kinds q)
    where
      kinds :
          (q : ℕ)
          → kind_of q (close_fd n (close_fd new_fd (put_at new_fd (some other_socket) t)))
            ≡ (if n == q then none else kind_of q t)
      kinds q = elim (Bool-cases (new_fd == q)) [
        | inl same ↦
            let e : new_fd ≡ q = (==_iff new_fd q).0 same in
            let free : kind_of q t ≡ none =
              ap (λ (m : ℕ). kind_of m t) (sym e) ∙ kind_of-first_free t in
            ground (
              arith,
              kind_of-put_at n q none (close_fd new_fd (put_at new_fd (some other_socket) t)),
              kind_of-put_at new_fd q none (put_at new_fd (some other_socket) t),
              free,
              same,
            )
        | inr other ↦ ground (
          arith,
          kind_of-put_at n q none (close_fd new_fd (put_at new_fd (some other_socket) t)),
          kind_of-put_at new_fd q none (put_at new_fd (some other_socket) t),
          kind_of-put_at new_fd q (some other_socket) t,
          other,
        )
      ]

  no_conn-Closed : Closed (close_fd n t, err no_conn)
  no_conn-Closed = ((no_conn, refl), λ q. kind_of-put_at n q none t)

  fd_conn-Closed :
      (k : Option Kind) → kind_of n t ≡ k → k ≢ some unix_socket → Closed (fd_conn true (pos n) t)
  fd_conn-Closed none e h = subst Closed (sym (fd_conn-closed e)) no_conn-Closed
  fd_conn-Closed (some no_socket) e h = subst Closed (sym (fd_conn-no_socket e)) no_conn-Closed
  fd_conn-Closed (some other_socket) e h = subst Closed (sym (fd_conn-other e)) other_socket-Closed
  fd_conn-Closed (some unix_socket) e h = absurd (h refl)

-- A unix socket, with a duplicate of it.
fd_conn_adopts :
    (n : ℕ) (t : Table)
    → kind_of n t ≡ some unix_socket
    → (m : ℕ) × ((fd_conn true (pos n) t).1 ≡ ok m)
      × (m ≢ n)
      × (kind_of m t ≡ none)
      × ((q : ℕ)
          → kind_of q (fd_conn true (pos n) t).0
            ≡ (if n == q then none else if m == q then some unix_socket else kind_of q t))
fd_conn_adopts n t h = (
  first_free t,
  ap (λ (r : Table × Result FdError ℕ). r.1) (fd_conn-unix n t h),
  new_fd-ne n t unix_socket h,
  kind_of-first_free t,
  λ q.
      ap (λ (r : Table × Result FdError ℕ). kind_of q r.0) (fd_conn-unix n t h)
      ∙ kinds_closed n t (some unix_socket) q,
)

-- fdConn leaves the descriptor that it adopts closed on every path. If it was a unix socket and the system
-- gives net.FileConn a duplicate, fdConn returns another descriptor, which is that socket; if it was none,
-- or there is no duplicate, an error, and no descriptor is left over. All other descriptors are as before.
pub fd_conn_lem :
    (dup_ok : Bool) (n : ℕ) (t : Table)
    → (dup_ok ≡ true
        → kind_of n t ≡ some unix_socket
        → (m : ℕ) × ((fd_conn dup_ok (pos n) t).1 ≡ ok m)
          × (m ≢ n)
          × (kind_of m t ≡ none)
          × ((q : ℕ)
              → kind_of q (fd_conn dup_ok (pos n) t).0
                ≡ (if n == q then none else if m == q then some unix_socket else kind_of q t)))
      × ((dup_ok ≡ false) ⊎ (kind_of n t ≢ some unix_socket)
          → ((e : FdError) × ((fd_conn dup_ok (pos n) t).1 ≡ err e))
            × ((q : ℕ)
                → kind_of q (fd_conn dup_ok (pos n) t).0 ≡ (if n == q then none else kind_of q t)))
unfolding fd_conn
fd_conn_lem true n t = (
  λ works h. fd_conn_adopts n t h,
  λ h. elim h [ inl failed ↦ cc failed | inr other ↦ fd_conn-Closed n t (kind_of n t) refl other ],
)
fd_conn_lem false n t = (λ (works : false ≡ true). cc works, λ h. no_conn-Closed n t)

-- If all descriptors below run's end of the socket pair are in use, and fdConn adopts it, what another goroutine opens between
-- fdConn and the Close behind it gets the same number, and is closed by that Close.
pub adopt_tun_closes :
    (n : ℕ) (t : Table) (k : Kind)
    → kind_of n t ≡ some unix_socket
    → ((q : ℕ) → q < n → kind_of q t ≢ none)
    → ((open_fd k (fd_conn true (pos n) t).0).1 ≡ n)
      × (kind_of n (open_fd k (fd_conn true (pos n) t).0).0 ≡ some k)
      × (kind_of n (adopt_tun true n (some k) t).0 ≡ none)
unfolding adopt_tun
adopt_tun_closes n t k socket used =
    let u = (fd_conn true (pos n) t).0 in
    let (m, adopted, other, free, kinds) = fd_conn_adopts n t socket in
    let low : (q : ℕ) → q < n → kind_of q u ≢ none =
      λ q h e. used q h (ground (arith, kinds q, used q h)) in
    let here : kind_of n u ≡ none = ground (arith, kinds n) in
    let same = first_free-eq n u low here in
    (
      same,
      ground (arith, same, kind_of-put_at (first_free u) n (some k) u),
      rw (adopted, adopt_tun) (ground (arith, kind_of-put_at n n none (open_fd k u).0)),
    )
