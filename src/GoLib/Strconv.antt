-- ===== src/GoLib/Strconv.antt =====
-- strconv.Itoa on a number that is not negative, and that its value can be read back; strconv.Atoi.
use mathlib.Core.Option
use mcp_searxng_relay.Base.Int.{ℤ, pos, negsuc, opposite}
use mcp_searxng_relay.Base.{
  Option, none, some, Bool, true, false, ◌&&◌, leb, ◌==◌, codes, ◌^◌, ℕ, zero, suc, ◌+◌, ◌-◌, ◌*◌,
  ◌/◌, ◌%◌, ◌<◌, ◌≤◌, ◌≡◌, refl, ap, sym, ◌∙◌, arith, [], ◌∷◌, ◌++◌, Text, ltb, Bool-cases, inl,
  inr, if◌then◌else◌, All, All-append,
}

-- The decimal digits, by recursion on fuel; a number needs less fuel than its successor.
digits : ℕ → ℕ → Text
digits zero n = []
digits (suc fuel) n =
    let rest = digits fuel (n / 10) in
    if ltb n 10 then (48 + n) ∷ [] else rest ++ (48 + n % 10) ∷ []

unfoldable pub itoa : ℕ → Text
unfolding digits
itoa n = digits (suc n) n

value : ℕ → Text → ℕ
value acc [] = acc
value acc (c ∷ s) = value (acc * 10 + (c - 48)) s

value-append : (acc c : ℕ) (s : Text) → value acc (s ++ c ∷ []) ≡ value acc s * 10 + (c - 48)
unfolding value
value-append acc c [] = refl
value-append acc c (d ∷ s) = value-append (acc * 10 + (d - 48)) c s

value-digits : (fuel n : ℕ) → n < fuel → value 0 (digits fuel n) ≡ n
unfolding digits value
value-digits zero n h = absurd (omega (arith, h))
value-digits (suc fuel) n h = elim (Bool-cases (ltb n 10)) [
  | inl e ↦ rw e (omega arith)
  | inr e ↦
      let big : 10 ≤ n = ground arith in
      rw
        (
          e,
          value-append 0 (48 + n % 10) (digits fuel (n / 10)),
          value-digits fuel (n / 10) (omega (arith, big, h)),
        )
        (omega arith)
]

-- Different numbers have different digits.
pub itoa-injective : (m n : ℕ) → itoa m ≡ itoa n → m ≡ n
unfolding itoa
itoa-injective m n e =
    sym (value-digits (suc m) m (omega arith))
    ∙ ap (value 0) e
    ∙ value-digits (suc n) n (omega arith)

abbrev pub IsDigit : ℕ → Type 0
IsDigit c = (48 ≤ c) × (c ≤ 57)

digits-IsDigit : (fuel n : ℕ) → All IsDigit (digits fuel n)
unfolding digits
digits-IsDigit zero n = _
digits-IsDigit (suc fuel) n = elim (Bool-cases (ltb n 10)) [
  | inl e ↦ rw e ((omega arith, ground arith), _)
  | inr e ↦ rw e (
      All-append IsDigit (digits fuel (n / 10)) _ (digits-IsDigit fuel (n / 10))
        ((omega arith, omega arith), _))
]

pub itoa-IsDigit : (n : ℕ) → All IsDigit (itoa n)
unfolding itoa
itoa-IsDigit n = digits-IsDigit (suc n) n

module _ (d : ℕ) (nd : ¬ IsDigit d) (s t : Text) where
  cut : (a b : Text) → All IsDigit a → All IsDigit b → a ++ d ∷ s ≡ b ++ d ∷ t → (a ≡ b) × (s ≡ t)
  cut [] [] ha hb e = (refl, cc)
  cut [] (y ∷ b) ha (hy, hb) e =
      let same : d ≡ y = cc in elim (nd (omega (arith, same), omega (arith, same))) [ ]
  cut (x ∷ a) [] (hx, ha) hb e =
      let same : x ≡ d = cc in elim (nd (omega (arith, same), omega (arith, same))) [ ]
  cut (x ∷ a) (y ∷ b) (hx, ha) (hy, hb) e = let (p, q) = cut a b ha hb cc in (cc, q)

  -- A number's digits end at the first byte that is not a digit: the number and the rest are both
  -- read back.
  pub itoa_prefix : (m n : ℕ) → itoa m ++ d ∷ s ≡ itoa n ++ d ∷ t → (m ≡ n) × (s ≡ t)
  itoa_prefix m n e =
      let (p, q) = cut (itoa m) (itoa n) (itoa-IsDigit m) (itoa-IsDigit n) e in
      (itoa-injective m n p, q)

-- The value of a text of decimal digits; `none` where it holds anything else.
read_digits : ℕ → Text → Option ℕ
read_digits acc [] = some acc
read_digits acc (c ∷ s) =
    let rest = read_digits (acc * 10 + (c - 48)) s in if leb 48 c && leb c 57 then rest else none

unsigned : Text → Option ℕ
unfolding read_digits
unsigned [] = none
unsigned (c ∷ s) = read_digits 0 (c ∷ s)

in_int64 : Bool → ℕ → Option ℤ
in_int64 true n = if leb n (2 ^ 63) then some (opposite n) else none
in_int64 false n = if ltb n (2 ^ 63) then some (pos n) else none

-- strconv.Atoi, with `none` for its errors: an optional sign, then digits, within 64 bits.
unfoldable pub atoi : Text → Option ℤ
unfolding unsigned in_int64
atoi [] = none
atoi (c ∷ s) =
    if c == b'-'
    then Option.bind (unsigned s) (in_int64 true)
    else if c == b'+'
    then Option.bind (unsigned s) (in_int64 false)
    else Option.bind (unsigned (c ∷ s)) (in_int64 false)

atoi_port : atoi (codes "8443") ≡ some (pos 8443)
unfolding atoi Option.bind
atoi_port = refl

atoi_signed : atoi (codes "-12") ≡ some (negsuc 11)
unfolding atoi Option.bind
atoi_signed = refl

answer : itoa 1207 ≡ b'1' ∷ b'2' ∷ b'0' ∷ b'7' ∷ []
unfolding itoa
answer = refl
