-- ===== src/Creds/Token.antt =====
-- The runes of a token.
use openconnect_ubuntu_touch.Common.{
  ℕ, zero, suc, ◌%◌, ◌<◌, ◌≡◌, ◌≢◌, refl, sym, ap, ◌∙◌, ◌||◌, Bool, true, false, some, List, [],
  ◌∷◌, map, arith, All, All-imp, length, count_if, all_below, all_below_sound, leb, not, ◌&&◌, ◌==◌,
  ==_iff, any,
}
use openconnect_ubuntu_touch.Common.Text.{Text, codes}
use openconnect_ubuntu_touch.Lines.{IsLine}
use openconnect_ubuntu_touch.Creds.{alphabet, rune_at, token}

-- The runes that are hard to tell apart: 0, O, 1, l and I.
abbrev pub is_confusable : ℕ → Bool
is_confusable c = any (λ d. d == c) (codes "0O1lI")

-- A lower-case letter or a digit.
abbrev pub is_plain : ℕ → Bool
is_plain c = (leb 97 c && leb c 122) || (leb 48 c && leb c 57)

rune_table : all_below 32 (λ i. is_plain (rune_at i) && not (is_confusable (rune_at i))) ≡ true
unfolding all_below
rune_table = refl

rune_at_range : (i : ℕ) → i < 32 → is_plain (rune_at i) && not (is_confusable (rune_at i)) ≡ true
rune_at_range i h = all_below_sound 32 _ i rune_table h

-- The 256 bytes.
bytes_below : ℕ → List ℕ
bytes_below zero = []
bytes_below (suc n) = n ∷ bytes_below n

pub all_bytes : List ℕ
unfolding bytes_below
all_bytes = bytes_below 256

uniform_table :
    all_below 32 (λ i. count_if (λ v. rune_at (v % length alphabet) == rune_at i) all_bytes == 8)
    ≡ true
unfolding all_below all_bytes
uniform_table = refl

-- A rune that is safe to read and to type.
abbrev pub IsClear : ℕ → Type 0
IsClear c = (is_plain c ≡ true) × (is_confusable c ≡ false)

rune_at-IsClear : (v : ℕ) → IsClear (rune_at (v % length alphabet))
rune_at-IsClear v =
    both (is_plain (rune_at (v % 32))) (is_confusable (rune_at (v % 32)))
      (rune_at_range (v % 32) (omega arith))
  where
    both : (a b : Bool) → a && not b ≡ true → (a ≡ true) × (b ≡ false)
    both a b h = ground arith

map-runes : (bytes : List ℕ) → All IsClear (map (λ v. rune_at (v % length alphabet)) bytes)
map-runes [] = tt
map-runes (v ∷ vs) = (rune_at-IsClear v, map-runes vs)

length-map_runes :
    (bytes : List ℕ) → length (map (λ v. rune_at (v % length alphabet)) bytes) ≡ length bytes
length-map_runes [] = refl
length-map_runes (v ∷ vs) = ap suc (length-map_runes vs)

-- A token has a rune for each random byte, and each of its runes is a lower-case letter or a digit, and is
-- none of 0, O, 1, l and I.
pub token_lem :
    (bytes : List ℕ)
    → (t : Text) × (token (some bytes) ≡ some t) × (length t ≡ length bytes) × All IsClear t
unfolding token
token_lem bytes = (_, refl, length-map_runes bytes, map-runes bytes)

-- Every rune of the alphabet comes from exactly 8 of the 256 bytes.
rune_at_uniform :
    (i : ℕ)
    → i < length alphabet
    → count_if (λ v. rune_at (v % length alphabet) == rune_at i) all_bytes ≡ 8
rune_at_uniform i h = (==_iff _ _).0 (all_below_sound 32 _ i uniform_table h)

pub clear-IsLine : (t : Text) → All IsClear t → IsLine t
clear-IsLine t h = All-imp IsClear _ t (λ c r. (apart 10 c refl r.0, apart 13 c refl r.0)) h
  where
    apart : (k c : ℕ) → is_plain k ≡ false → is_plain c ≡ true → c ≢ k
    apart k c hk hc e = cc (sym (ap is_plain e) ∙ hc, hk)
