-- ===== src/Provenance/Data/Runs.antt =====
-- looksEncoded as a property of the runs that a part consists of.
use mcp_searxng_relay.Base.{Bool-cases, inl, inr, ap}
use mcp_searxng_relay.Base.{
  ℕ, suc, ◌+◌, ◌≡◌, arith, Bool, true, false, ◌&&◌, ◌||◌, List, [], ◌∷◌, Text, ltb, leb,
  if◌then◌else◌, length, Bool-cases,
}
use mcp_searxng_relay.Provenance.Data.{
  is_digit, is_letter, max_plain_part, min_encoded_run, ends_encoded, scan_part, looks_encoded,
}

-- The maximal runs of letters, digits, "+" and "=", some of them empty: the one that a text begins with, and the rest.
abbrev pub runs : Text → Text × List Text
runs [] = ([], [])
runs (c ∷ s) =
    if is_digit c || is_letter c
    then (c ∷ (runs s).0, (runs s).1)
    else ([], (runs s).0 ∷ (runs s).1)

abbrev pub any : (ℕ → Bool) → Text → Bool
any p [] = false
any p (c ∷ s) = p c || any p s

-- A run of at least 24 bytes with a letter and a digit in it.
abbrev pub encoded_run : Text → Bool
encoded_run r = leb min_encoded_run (length r) && any is_letter r && any is_digit r

abbrev pub any_run : List Text → Bool
any_run [] = false
any_run (r ∷ rs) = encoded_run r || any_run rs

digit_letter : (c : ℕ) → is_digit c ≡ true → is_letter c ≡ false
digit_letter c h = ground arith

long_step : (n k : ℕ) → leb 24 (suc n + k) ≡ leb 24 (n + suc k)
long_step n k = ap (λ m. leb 24 m) (omega arith)

digit_bools :
    (t l d a b r : Bool)
    → (t && (l || a) && (true || b) || r) ≡ (t && (l || (false || a)) && (d || (true || b)) || r)
digit_bools t l d a b r = ground arith

letter_bools :
    (t l d a b r : Bool)
    → (t && (true || a) && (d || b) || r) ≡ (t && (l || (true || a)) && (d || (false || b)) || r)
letter_bools t l d a b r = ground arith

digit_step :
    (n k : ℕ) (l d a b r : Bool)
    → (leb 24 (suc n + k) && (l || a) && (true || b) || r)
      ≡ (leb 24 (n + suc k) && (l || (false || a)) && (d || (true || b)) || r)
digit_step n k l d a b r = rw (long_step n k) (digit_bools (leb 24 (n + suc k)) l d a b r)

letter_step :
    (n k : ℕ) (l d a b r : Bool)
    → (leb 24 (suc n + k) && (true || a) && (d || b) || r)
      ≡ (leb 24 (n + suc k) && (l || (true || a)) && (d || (false || b)) || r)
letter_step n k l d a b r = rw (long_step n k) (letter_bools (leb 24 (n + suc k)) l d a b r)

reset_step :
    (n : ℕ) (l d e r : Bool)
    → (if ends_encoded n l d then true else e || r)
      ≡ (leb 24 (n + 0) && (l || false) && (d || false) || (e || r))
reset_step n l d e r = ground arith

zero_plus : (k : ℕ) → 0 + k ≡ k
zero_plus k = omega arith

scan-runs :
    (s : Text) (n : ℕ) (letters digits : Bool)
    → scan_part s n letters digits ≡ (
        leb min_encoded_run (n + length (runs s).0)
          && (letters || any is_letter (runs s).0)
          && (digits || any is_digit (runs s).0)
        || any_run (runs s).1)
unfolding scan_part
scan-runs [] n letters digits = ground arith
scan-runs (c ∷ s) n letters digits = elim (Bool-cases (is_digit c)) [
  | inl e ↦
      rw (e, digit_letter c e, scan-runs s (suc n) letters true)
        (rw e (
          digit_step n (length (runs s).0) letters digits (any is_letter (runs s).0)
            (any is_digit (runs s).0) (any_run (runs s).1)))
  | inr e ↦ elim (Bool-cases (is_letter c)) [
    | inl f ↦
        rw (e, f, scan-runs s (suc n) true digits)
          (rw (f, e)
            (letter_step n (length (runs s).0) letters digits (any is_letter (runs s).0)
              (any is_digit (runs s).0) (any_run (runs s).1)))
    | inr f ↦
        rw (e, f, scan-runs s 0 false false)
          (rw (zero_plus (length (runs s).0))
            (reset_step n letters digits (encoded_run (runs s).0) (any_run (runs s).1)))
  ]
]

-- A part of an address looks encoded just where it is longer than 64 bytes, or one of its runs of
-- letters, digits, "+" and "=" has at least 24 bytes and both a digit and another of these.
pub looks_encoded-runs :
    (part : Text)
    → looks_encoded part
      ≡ (ltb max_plain_part (length part) || any_run ((runs part).0 ∷ (runs part).1))
unfolding looks_encoded
looks_encoded-runs part = ground (arith, scan-runs part 0 false false)
