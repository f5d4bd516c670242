-- ===== src/Net/Parse/RoundTrip.antt =====
-- ParseIP on the dotted print of an IPv4 address.
use openconnect_ubuntu_touch.Common.{
  ℕ, suc, ◌+◌, ◌-◌, ◌*◌, ◌/◌, ◌%◌, ◌≤◌, ◌<◌, ◌≡◌, refl, sym, ap, ◌∙◌, inl, inr, false, none, some,
  List, [], ◌∷◌, ◌++◌, ltb, ◌==◌, length, arith, append-nil, Bool-cases, lt→ltb,
}
use openconnect_ubuntu_touch.Common.Text.{Text, is_empty}
use openconnect_ubuntu_touch.Net.Ip.{Ip4, IsIp4}
use openconnect_ubuntu_touch.Net.Parse.{mapped, dispatch, parse_ip, to4, format_ip}
use openconnect_ubuntu_touch.Net.Parse.V6.Fields.{fields_loop, parse_ip4_fields}
use openconnect_ubuntu_touch.Strconv.{digits_of, itoa}

-- The print of a byte: one, two or three digits, the first of several not zero.
data ByteText (b : ℕ) (s : Text) : Type 0 where
  one : b < 10 → s ≡ (b'0' + b) ∷ [] → ByteText b s
  two :
      (p q : ℕ)
      → 0 < p
      → p < 10
      → q < 10
      → b ≡ p * 10 + q
      → s ≡ (b'0' + p) ∷ (b'0' + q) ∷ []
      → ByteText b s
  three :
      (p q r : ℕ)
      → 0 < p
      → p < 10
      → q < 10
      → r < 10
      → b ≡ (p * 10 + q) * 10 + r
      → s ≡ (b'0' + p) ∷ (b'0' + q) ∷ (b'0' + r) ∷ []
      → ByteText b s

digits_of_last : (f n : ℕ) (out : Text) → n < 10 → digits_of (suc f) n out ≡ (b'0' + n) ∷ out
unfolding digits_of
digits_of_last f n out h = rw (lt→ltb n 10 h)

digits_of_more :
    (f n : ℕ) (out : Text)
    → 10 ≤ n
    → digits_of (suc f) n out ≡ digits_of f (n / 10) ((b'0' + n % 10) ∷ out)
unfolding digits_of
digits_of_more f n out h = let e : ltb n 10 ≡ false = ground arith in rw e

itoa-ByteText : (b : ℕ) → b < 256 → ByteText b (itoa b)
unfolding itoa
itoa-ByteText b h = elim (Bool-cases (ltb b 10)) [
  | inl small ↦ ByteText.one (ground arith) (digits_of_last 19 b [] (ground arith))
  | inr more ↦ elim (Bool-cases (ltb b 100)) [
    | inl middle ↦
        ByteText.two (b / 10) (b % 10) (ground arith) (ground arith) (omega arith) (omega arith) (
          digits_of_more 19 b [] (ground arith)
          ∙ digits_of_last 18 (b / 10) ((b'0' + b % 10) ∷ []) (ground arith))
    | inr large ↦
        ByteText.three (b / 10 / 10) (b / 10 % 10) (b % 10) (ground arith) (omega arith)
          (omega arith) (omega arith) (omega arith)
          (digits_of_more 19 b [] (ground arith)
            ∙ digits_of_more 18 (b / 10) ((b'0' + b % 10) ∷ []) (ground arith)
            ∙ digits_of_last 17 (b / 10 / 10) ((b'0' + b / 10 % 10) ∷ (b'0' + b % 10) ∷ [])
                (omega arith))
  ]
]

-- One more digit of a field.
digit_step :
    (v k d : ℕ) (done : List ℕ) (s : Text)
    → d < 10
    → (k ≡ 1 → 0 < v)
    → v * 10 + d < 256
    → fields_loop v k done ((b'0' + d) ∷ s) ≡ fields_loop (v * 10 + d) (k + 1) done s
unfolding fields_loop
digit_step v k d done s h first fits =
    let e : b'0' + d - b'0' ≡ d = omega arith in rw e (ground arith)

digit_first :
    (d : ℕ) (done : List ℕ) (s : Text)
    → d < 10
    → fields_loop 0 0 done ((b'0' + d) ∷ s) ≡ fields_loop d 1 done s
digit_first d done s h =
    digit_step 0 0 d done s h (λ e. omega arith) (omega arith)
    ∙ ap (λ m. fields_loop m 1 done s) (omega arith)

-- A whole field.
byte_field :
    (b : ℕ) (t : Text) (done : List ℕ) (s : Text)
    → b < 256
    → ByteText b t
    → (k : ℕ) × (0 < k) × (fields_loop 0 0 done (t ++ s) ≡ fields_loop b k done s)
byte_field b t done s h (one small e) = (1, omega arith, rw e (digit_first b done s small))
byte_field b t done s h (two p q nz lp lq value e) = (
  2,
  omega arith,
  rw e (
      digit_first p done _ lp
      ∙ digit_step p 1 q done s lq (λ e. nz) (omega arith)
      ∙ ap (λ m. fields_loop m 2 done s) (sym value)),
)
byte_field b t done s h (three p q r nz lp lq lr value e) = (
  3,
  omega arith,
  rw e (
      digit_first p done _ lp
      ∙ digit_step p 1 q done _ lq (λ e. nz) (omega arith)
      ∙ digit_step (p * 10 + q) 2 r done s lr (λ e. omega arith) (omega arith)
      ∙ ap (λ m. fields_loop m 3 done s) (sym value)),
)

-- A field and the dot behind it.
dotted_field :
    (b : ℕ) (done : List ℕ) (s : Text)
    → b < 256
    → length done < 3
    → is_empty s ≡ false
    → fields_loop 0 0 done (itoa b ++ b'.' ∷ s) ≡ fields_loop 0 0 (done ++ b ∷ []) s
dotted_field b done s h room more =
    let (k, some_digits, e) = byte_field b (itoa b) done (b'.' ∷ s) h (itoa-ByteText b h) in
    e ∙ dot k some_digits
  where
    dot : (k : ℕ) → 0 < k → fields_loop b k done (b'.' ∷ s) ≡ fields_loop 0 0 (done ++ b ∷ []) s
    dot k pos =
        unfold fields_loop in
        let e1 : (k == 0) ≡ false = ground arith in
        let e2 : (length done == 3) ≡ false = ground arith in rw (e1, more, e2)

last_field :
    (b : ℕ) (done : List ℕ)
    → b < 256
    → length done ≡ 3
    → fields_loop 0 0 done (itoa b) ≡ some (done ++ b ∷ [])
unfolding fields_loop
last_field b done h full =
    let (k, _, e) = byte_field b (itoa b) done [] h (itoa-ByteText b h) in
    let shorter : ltb (length done) 3 ≡ false = ground arith in
    ap (fields_loop 0 0 done) (sym (append-nil (itoa b))) ∙ e ∙ rw shorter

-- A print is not empty.
itoa-append_more : (b : ℕ) (s : Text) → b < 256 → is_empty (itoa b ++ s) ≡ false
itoa-append_more b s h = shape (itoa b) (itoa-ByteText b h)
  where
    shape : (t : Text) → ByteText b t → is_empty (t ++ s) ≡ false
    shape t (one small e) = rw e
    shape t (two p q nz lp lq value e) = rw e
    shape t (three p q r nz lp lq lr value e) = rw e

-- The first dot decides for IPv4.
digit_skip : (whole s : Text) (d : ℕ) → d < 10 → dispatch whole ((b'0' + d) ∷ s) ≡ dispatch whole s
unfolding dispatch
digit_skip whole s d h = ground arith

dispatch-dot :
    (whole s : Text) (b : ℕ)
    → b < 256
    → dispatch whole (itoa b ++ b'.' ∷ s)
      ≡ (elim (parse_ip4_fields whole) [ none ↦ none | some four ↦ some (mapped four) ])
dispatch-dot whole s b h = shape (itoa b) (itoa-ByteText b h)
  where
    at_dot :
        dispatch whole (b'.' ∷ s)
        ≡ (elim (parse_ip4_fields whole) [ none ↦ none | some four ↦ some (mapped four) ])
    at_dot = unfold dispatch in refl

    shape :
        (t : Text)
        → ByteText b t
        → dispatch whole (t ++ b'.' ∷ s)
          ≡ (elim (parse_ip4_fields whole) [ none ↦ none | some four ↦ some (mapped four) ])
    shape t (one small e) = rw e (digit_skip whole _ b small ∙ at_dot)
    shape t (two p q nz lp lq value e) =
        rw e (digit_skip whole _ p lp ∙ digit_skip whole _ q lq ∙ at_dot)
    shape t (three p q r nz lp lq lr value e) =
        rw e (digit_skip whole _ p lp ∙ digit_skip whole _ q lq ∙ digit_skip whole _ r lr ∙ at_dot)

parse_ip4_fields-format_ip :
    (a : Ip4) → IsIp4 a → parse_ip4_fields (format_ip a) ≡ some (a.b0 ∷ a.b1 ∷ a.b2 ∷ a.b3 ∷ [])
unfolding parse_ip4_fields format_ip
parse_ip4_fields-format_ip a h =
    let tail3 : is_empty (itoa a.b3) ≡ false =
      ap is_empty (sym (append-nil (itoa a.b3))) ∙ itoa-append_more a.b3 [] h.b3_lt in
    dotted_field a.b0 [] _ h.b0_lt (omega arith) (itoa-append_more a.b1 _ h.b1_lt)
    ∙ dotted_field a.b1 (a.b0 ∷ []) _ h.b1_lt (omega arith) (itoa-append_more a.b2 _ h.b2_lt)
    ∙ dotted_field a.b2 (a.b0 ∷ a.b1 ∷ []) (itoa a.b3) h.b2_lt (omega arith) tail3
    ∙ last_field a.b3 (a.b0 ∷ a.b1 ∷ a.b2 ∷ []) h.b3_lt refl

-- Every address is parsed back from its print.
pub parse_ip-format_ip :
    (a : Ip4)
    → IsIp4 a
    → (bytes : List ℕ) × (parse_ip (format_ip a) ≡ some bytes) × (to4 bytes ≡ some a)
unfolding parse_ip to4 format_ip
parse_ip-format_ip a h = (
  mapped (a.b0 ∷ a.b1 ∷ a.b2 ∷ a.b3 ∷ []),
  dispatch-dot (format_ip a) _ a.b0 h.b0_lt ∙ rw (parse_ip4_fields-format_ip a h),
  refl,
)

-- No print is empty.
pub format_ip_nonempty : (a : Ip4) → IsIp4 a → is_empty (format_ip a) ≡ false
unfolding format_ip
format_ip_nonempty a h = itoa-append_more a.b0 _ h.b0_lt
