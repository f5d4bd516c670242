-- ===== src/Net/Parse/Bytes.antt =====
-- The bytes that ParseIP returns.
use openconnect_ubuntu_touch.Common.{
  ℕ, zero, suc, ◌+◌, ◌-◌, ◌*◌, ◌/◌, ◌%◌, ◌≤◌, ◌<◌, ◌≡◌, refl, sym, subst, ◌∙◌, inl, inr, Bool, true,
  false, ◌&&◌, ◌||◌, Option, none, some, List, [], ◌∷◌, ◌++◌, ltb, ◌==◌, if◌then◌else◌, length,
  take, drop, replicate, arith, Bool-cases, Option-cases, All, All-append,
}
use openconnect_ubuntu_touch.Common.Text.{Text}
use openconnect_ubuntu_touch.Net.Ip.{Ip4, IsIp4}
use openconnect_ubuntu_touch.Net.Parse.{mapped, dispatch, parse_ip, to4}
use openconnect_ubuntu_touch.Net.Parse.V6.{
  hex_digit, hex_group, Groups, after_group, groups_loop, parse_group, proceed, ip4_tail, add_chunk,
  expand, from_groups, parse_ip6, starts_with_dot,
}
use openconnect_ubuntu_touch.Net.Parse.V6.Fields.{fields_loop, parse_ip4_fields}

abbrev pub AreBytes : List ℕ → Type 0
AreBytes = All (λ v. v < 256)

fields_loop-AreBytes :
    (val k : ℕ) (done bs : List ℕ) (s : Text)
    → val < 256
    → AreBytes done
    → fields_loop val k done s ≡ some bs
    → AreBytes bs
unfolding fields_loop
fields_loop-AreBytes val k done bs [] hv hd e =
    let all : AreBytes (done ++ val ∷ []) = All-append (λ v. v < 256) done (val ∷ []) hd (hv, tt) in
    elim (Bool-cases (ltb (length done) 3)) [
      | inl short ↦ cc
      | inr long ↦ let same : done ++ val ∷ [] ≡ bs = ground arith in subst AreBytes same all
    ]
fields_loop-AreBytes val k done bs (c ∷ s) hv hd e =
    let next = val * 10 + (c - b'0') in
    let all : AreBytes (done ++ val ∷ []) = All-append (λ v. v < 256) done (val ∷ []) hd (hv, tt) in
    ground (
      arith,
      fields_loop-AreBytes next (k + 1) done bs s,
      fields_loop-AreBytes 0 0 (done ++ val ∷ []) bs s (omega arith) all,
    )

parse_ip4_fields-AreBytes : (s : Text) (bs : List ℕ) → parse_ip4_fields s ≡ some bs → AreBytes bs
unfolding parse_ip4_fields
parse_ip4_fields-AreBytes s bs e = fields_loop-AreBytes 0 0 [] bs s (omega arith) tt e

hex_group-le :
    (off acc : ℕ) (s : Text) (k n : ℕ) (rest : Text)
    → acc ≤ 65535
    → hex_group off acc s ≡ some (k, n, rest)
    → n ≤ 65535
unfolding hex_group
hex_group-le off acc [] k n rest h e = ground arith
hex_group-le off acc (c ∷ s) k n rest h e = elim (Option-cases (hex_digit c)) [
  | inl stop ↦ ground (arith, stop)
  | inr (d, more) ↦ elim (Bool-cases (ltb 3 off || ltb 65535 (acc * 16 + d))) [
    | inl refused ↦ absurd (ground (arith, more, refused))
    | inr taken ↦
        hex_group-le (off + 1) (acc * 16 + d) s k n rest (ground (arith, taken))
          (ground (arith, more, taken))
  ]
]

after_group-out :
    (g g' : Groups) (s : Text) (more : Bool) → after_group g s ≡ some (g', more) → g'.out ≡ g.out
unfolding after_group
after_group-out g g' [] more e = ground arith
after_group-out g g' (c ∷ []) more e = cc
after_group-out g g' (c ∷ d ∷ s) more e = ground arith

ip4_tail-AreBytes : (g g' : Groups) → AreBytes g.out → ip4_tail g ≡ some g' → AreBytes g'.out
unfolding ip4_tail
ip4_tail-AreBytes g g' h e = elim (Option-cases (parse_ip4_fields g.rest)) [
  | inl bad ↦ ground (arith, bad)
  | inr (four, good) ↦
      let all =
        All-append (λ v. v < 256) g.out four h (parse_ip4_fields-AreBytes g.rest four good) in
      let same : g.out ++ four ≡ g'.out = ground (arith, good) in subst AreBytes same all
]

-- The rest of the loop keeps to bytes.
abbrev Keeps : (Groups → Option Groups) → Type 0
Keeps next = (g g' : Groups) → AreBytes g.out → next g ≡ some g' → AreBytes g'.out

proceed-AreBytes :
    (o : Option (Groups × Bool)) (next : Groups → Option Groups) (g' : Groups)
    → Keeps next
    → ((g : Groups) (more : Bool) → o ≡ some (g, more) → AreBytes g.out)
    → proceed o next ≡ some g'
    → AreBytes g'.out
unfolding proceed
proceed-AreBytes none next g' keeps all e = cc
proceed-AreBytes (some (g, false)) next g' keeps all e =
    let same : g.out ≡ g'.out = ground arith in subst AreBytes same (all g false refl)
proceed-AreBytes (some (g, true)) next g' keeps all e = keeps g g' (all g true refl) e

parse_group-AreBytes :
    (g g' : Groups) (o : Option (ℕ × ℕ × Text)) (next : Groups → Option Groups)
    → AreBytes g.out
    → ((k n : ℕ) (rest : Text) → o ≡ some (k, n, rest) → n ≤ 65535)
    → Keeps next
    → parse_group g o next ≡ some g'
    → AreBytes g'.out
unfolding parse_group
parse_group-AreBytes g g' none next h small keeps e = cc
parse_group-AreBytes g g' (some (k, n, behind)) next h small keeps e =
    let fits = small k n behind refl in
    let chunk : AreBytes (g.out ++ n / 256 ∷ (n % 256) ∷ []) =
      All-append (λ v. v < 256) g.out (n / 256 ∷ (n % 256) ∷ []) h
        (omega arith, (omega arith, tt)) in
    elim (Bool-cases (k == 0)) [
      | inl empty ↦ ground arith
      | inr digits ↦ elim (Bool-cases (starts_with_dot behind)) [
        | inl dot ↦ ip4_tail-AreBytes g g' h (sym (rw (digits, dot) refl) ∙ e)
        | inr plain ↦
            proceed-AreBytes (after_group (add_chunk g n) behind) next g' keeps
              (λ t more f.
                subst AreBytes (sym (after_group-out (add_chunk g n) t behind more f)) chunk)
              (sym (rw (digits, plain) refl) ∙ e)
      ]
    ]

groups_loop-AreBytes :
    (r : ℕ) (g g' : Groups) → AreBytes g.out → groups_loop r g ≡ some g' → AreBytes g'.out
unfolding groups_loop
groups_loop-AreBytes zero g g' h e =
    let same : g.out ≡ g'.out = ground arith in subst AreBytes same h
groups_loop-AreBytes (suc r) g g' h e =
    parse_group-AreBytes g g' (hex_group 0 0 g.rest) (groups_loop r) h
      (λ k n rest t. hex_group-le 0 0 g.rest k n rest (omega arith) t) (groups_loop-AreBytes r) e

AreBytes-take : (n : ℕ) (bs : List ℕ) → AreBytes bs → AreBytes (take n bs)
AreBytes-take zero bs h = tt
AreBytes-take (suc n) [] h = tt
AreBytes-take (suc n) (b ∷ bs) (hb, hs) = (hb, AreBytes-take n bs hs)

AreBytes-drop : (n : ℕ) (bs : List ℕ) → AreBytes bs → AreBytes (drop n bs)
AreBytes-drop zero bs h = h
AreBytes-drop (suc n) [] h = tt
AreBytes-drop (suc n) (b ∷ bs) (hb, hs) = AreBytes-drop n bs hs

AreBytes-zeros : (n : ℕ) → AreBytes (replicate n 0)
AreBytes-zeros zero = tt
AreBytes-zeros (suc n) = (omega arith, AreBytes-zeros n)

expand-AreBytes : (g : Groups) (bs : List ℕ) → AreBytes g.out → expand g ≡ some bs → AreBytes bs
unfolding expand
expand-AreBytes g bs h e = elim (Option-cases g.ellipsis) [
  | inl plain ↦ let same : g.out ≡ bs = ground (arith, plain) in subst AreBytes same h
  | inr (k, dots) ↦
      let same : take k g.out ++ replicate (16 - length g.out) 0 ++ drop k g.out ≡ bs =
        ground (arith, dots) in
      subst AreBytes same (
        All-append (λ v. v < 256) (take k g.out ++ replicate (16 - length g.out) 0) (drop k g.out)
          (All-append (λ v. v < 256) (take k g.out) (replicate (16 - length g.out) 0)
            (AreBytes-take k g.out h) (AreBytes-zeros (16 - length g.out)))
          (AreBytes-drop k g.out h))
]

from_groups-AreBytes :
    (g : Groups) (bs : List ℕ) → AreBytes g.out → from_groups g ≡ some bs → AreBytes bs
unfolding from_groups
from_groups-AreBytes g bs h e = elim (Option-cases (groups_loop 8 g)) [
  | inl bad ↦ ground (arith, bad)
  | inr (g', good) ↦
      expand-AreBytes g' bs (groups_loop-AreBytes 8 g g' h good)
        (sym (rw (good, from_groups) refl) ∙ e)
]

parse_ip6-AreBytes : (s : Text) (bs : List ℕ) → parse_ip6 s ≡ some bs → AreBytes bs
unfolding parse_ip6
parse_ip6-AreBytes s bs e = ground (
  arith,
  AreBytes-zeros 16,
  from_groups-AreBytes (record { out = []; ellipsis = some 0; rest = drop 2 s }) bs tt,
  from_groups-AreBytes (record { out = []; ellipsis = none; rest = s }) bs tt,
)

mapped-AreBytes : (four : List ℕ) → AreBytes four → AreBytes (mapped four)
mapped-AreBytes four h = ground arith

dispatch-AreBytes : (whole s : Text) (bs : List ℕ) → dispatch whole s ≡ some bs → AreBytes bs
unfolding dispatch
dispatch-AreBytes whole [] bs e = cc
dispatch-AreBytes whole (c ∷ s) bs e = elim (Bool-cases (c == b'.')) [
  | inl dot ↦ elim (Option-cases (parse_ip4_fields whole)) [
    | inl bad ↦ absurd (ground (arith, dot, bad))
    | inr (four, good) ↦
        let same : mapped four ≡ bs = ground (arith, dot, good) in
        subst AreBytes same (mapped-AreBytes four (parse_ip4_fields-AreBytes whole four good))
  ]
  | inr other ↦ ground (arith, parse_ip6-AreBytes whole bs, dispatch-AreBytes whole s bs)
]

four_bytes : (bs : List ℕ) (a : Ip4) → AreBytes bs → to4 bs ≡ some a → IsIp4 a
unfolding to4
four_bytes (z0 ∷ z1 ∷ z2 ∷ z3 ∷ z4 ∷ z5 ∷ z6 ∷ z7 ∷ z8 ∷ z9 ∷ f0 ∷ f1 ∷ p ∷ q ∷ r ∷ s ∷ []) a h e =
    let test =
      z0 == 0
      && z1 == 0
      && z2 == 0
      && z3 == 0
      && z4 == 0
      && z5 == 0
      && z6 == 0
      && z7 == 0
      && z8 == 0
      && z9 == 0
      && f0 == 255
      && f1 == 255 in
    mapped_case test e h.1.1.1.1.1.1.1.1.1.1.1.1
  where
    mapped_case :
        (t : Bool)
        → (if t then some (record { b0 = p; b1 = q; b2 = r; b3 = s }) else none) ≡ some a
        → AreBytes (p ∷ q ∷ r ∷ s ∷ [])
        → IsIp4 a
    mapped_case true f bytes = ground arith
    mapped_case false f bytes = cc
four_bytes _ a h e = cc

-- An address that ParseIP and To4 give is four bytes.
pub to4-IsIp4 :
    (s : Text) (bs : List ℕ) (a : Ip4) → parse_ip s ≡ some bs → to4 bs ≡ some a → IsIp4 a
unfolding parse_ip
to4-IsIp4 s bs a e f = four_bytes bs a (dispatch-AreBytes s s bs e) f
