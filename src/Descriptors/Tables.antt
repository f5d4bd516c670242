-- ===== src/Descriptors/Tables.antt =====
-- Reading a table of descriptors behind a change.
use openconnect_ubuntu_touch.Common.{
  ℕ, zero, suc, ◌<◌, ◌≡◌, ◌≢◌, refl, ap, Option, none, some, [], ◌∷◌, ◌==◌, if◌then◌else◌, arith,
}
use openconnect_ubuntu_touch.Descriptors.{Kind, Table, kind_of, first_free, put_at}

pub kind_of-put_at :
    (n q : ℕ) (k : Option Kind) (t : Table)
    → kind_of q (put_at n k t) ≡ (if n == q then k else kind_of q t)
unfolding kind_of put_at
kind_of-put_at zero zero k [] = refl
kind_of-put_at zero zero k (j ∷ t) = refl
kind_of-put_at zero (suc q) k [] = ground arith
kind_of-put_at zero (suc q) k (j ∷ t) = ground arith
kind_of-put_at (suc n) zero k [] = ground arith
kind_of-put_at (suc n) zero k (j ∷ t) = ground arith
kind_of-put_at (suc n) (suc q) k [] = ground (arith, kind_of-put_at n q k [])
kind_of-put_at (suc n) (suc q) k (j ∷ t) = ground (arith, kind_of-put_at n q k t)

pub kind_of-first_free : (t : Table) → kind_of (first_free t) t ≡ none
unfolding kind_of first_free
kind_of-first_free [] = refl
kind_of-first_free (none ∷ t) = refl
kind_of-first_free (some k ∷ t) = kind_of-first_free t

-- If all numbers below `n` are in use and `n` is not, `n` is the lowest that is free.
pub first_free-eq :
    (n : ℕ) (t : Table)
    → ((q : ℕ) → q < n → kind_of q t ≢ none)
    → kind_of n t ≡ none
    → first_free t ≡ n
unfolding kind_of first_free
first_free-eq zero [] used free = refl
first_free-eq (suc n) [] used free = absurd (used 0 (omega arith) refl)
first_free-eq zero (none ∷ t) used free = refl
first_free-eq zero (some k ∷ t) used free = cc
first_free-eq (suc n) (none ∷ t) used free = absurd (used 0 (omega arith) refl)
first_free-eq (suc n) (some k ∷ t) used free =
    ap suc (first_free-eq n t (λ q h. used (suc q) (omega arith)) free)
