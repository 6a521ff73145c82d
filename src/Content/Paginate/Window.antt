-- ===== src/Content/Paginate/Window.antt =====
-- What a page holds, and that following the hints always advances.
use mathlib.Core.Option.{some-injective}
use mcp_searxng_relay.Base.{◌∙◌, false, true, subst, ap, ltb, ◌&&◌, inl, inr, ◌⊎◌}
use mcp_searxng_relay.Base.{
  ℕ, zero, suc, ◌==◌, ◌+◌, ◌-◌, ◌≤◌, ◌<◌, ◌≡◌, ◌⊎◌, inl, inr, refl, arith, Bool, ◌&&◌, some, [],
  ◌∷◌, ◌++◌, Text, ltb, leb, length, get_elem?, take, drop, length-drop, Bool-cases, max,
}
use mcp_searxng_relay.Base.Int.{ℤ, pos, negsuc, pos_part}
use mcp_searxng_relay.Content.Paginate.{
  rune_size, Page, snap_back, window_size, window_end, page_at, paginate_content, starts_rune,
}

pub rune_size-bounds :
    (s : Text) → 0 < length s → (1 ≤ rune_size s) × (rune_size s ≤ length s) × (rune_size s ≤ 4)
unfolding rune_size
rune_size-bounds [] h = ground arith
rune_size-bounds (b ∷ []) h = ground arith
rune_size-bounds (b ∷ c ∷ []) h = ground arith
rune_size-bounds (b ∷ c ∷ d ∷ []) h = ground arith
rune_size-bounds (b ∷ c ∷ d ∷ e ∷ s) h = ground arith

pub snap_back-bounds :
    (text : Text) (lo i : ℕ) → lo ≤ i → (lo ≤ snap_back text lo i) × (snap_back text lo i ≤ i)
unfolding snap_back
snap_back-bounds text lo zero h = ground arith
snap_back-bounds text lo (suc i) h = elim (Bool-cases (leb (suc i) lo)) [
  | inl e ↦ rw (snap_back, e) (ground arith)
  | inr e ↦
      let below = snap_back-bounds text lo i (ground arith) in
      elim (Bool-cases (starts_rune (get_elem? text (suc i)))) [
        | inl f ↦ rw (snap_back, e, f) (omega (arith, h), omega arith)
        | inr f ↦ rw (snap_back, e, f) (below.0, omega (arith, below.1))
      ]
]

snap_back-stop :
    (text : Text) (i : ℕ)
    → starts_rune (get_elem? text (suc i)) ≡ true
    → snap_back text 0 (suc i) ≡ suc i
unfolding snap_back
snap_back-stop text i h = ground arith

snap_back-on :
    (text : Text) (i : ℕ)
    → starts_rune (get_elem? text (suc i)) ≡ false
    → snap_back text 0 (suc i) ≡ snap_back text 0 i
unfolding snap_back
snap_back-on text i h = ground arith

snap_back-zero : (text : Text) → snap_back text 0 0 ≡ 0
unfolding snap_back
snap_back-zero text = refl

-- Where it stops is a start of a rune or 0, and there is none between there and `i`.
snap_back-aligned :
    (text : Text) (i : ℕ)
    → ((snap_back text 0 i ≡ 0) ⊎ (starts_rune (get_elem? text (snap_back text 0 i)) ≡ true))
      × ((j : ℕ) → snap_back text 0 i < j → j ≤ i → starts_rune (get_elem? text j) ≡ false)
snap_back-aligned text zero =
    (inl (snap_back-zero text), λ j h g. absurd (omega (arith, h, g, snap_back-zero text)))
snap_back-aligned text (suc i) = elim (Bool-cases (starts_rune (get_elem? text (suc i)))) [
  | inl f ↦ rw (snap_back-stop text i f) (inr f, λ j h g. absurd (omega (arith, h, g)))
  | inr f ↦
      let (stop, none_between) = snap_back-aligned text i in
      rw (snap_back-on text i f) (
        stop,
        λ j h g. elim (Bool-cases (j == suc i)) [
          | inl same ↦
              let e : j ≡ suc i = ground arith in ap (λ k. starts_rune (get_elem? text k)) e ∙ f
          | inr other ↦ none_between j h (ground arith)
        ],
      )
]

pub window_end-bounds :
    (text : Text) (start window : ℕ)
    → start < length text
    → 1 ≤ window
    → (start < window_end text start window)
      × (window_end text start window ≤ length text)
      × (window_end text start window ≤ start + max window 4)
unfolding window_end
window_end-bounds text start window h g =
    let snapped = snap_back-bounds text start (start + window) (omega arith) in
    let size = rune_size-bounds (drop start text) (omega (arith, length-drop start text, h)) in
    let room = length-drop start text in ground (arith, snapped, size, room)

-- A page of a text: the bytes from its start to its end, in order, with the hints that it needs.
pub record Window (text : Text) (asked max_chars : ℤ) (p : Page) : Type 0 where
  pub start : p.start ≤ pos_part asked
  -- It is the last start of a rune that is not beyond the offset asked for, or 0.
  pub aligned : (p.start ≡ 0) ⊎ (starts_rune (get_elem? text p.start) ≡ true)
  pub last_start :
      (j : ℕ) → p.start < j → j ≤ pos_part asked → starts_rune (get_elem? text j) ≡ false
  pub end : p.end ≤ length text
  pub advances : (p.start < p.end) ⊎ (length text ≡ 0)
  pub bounded : p.end ≤ p.start + max (window_size max_chars) 4
  pub body : take p.start text ++ p.body ≡ take p.end text

abbrev none_left : Text
none_left = []

nothing : (k : ℕ) → take k [] ≡ none_left
nothing zero = refl
nothing (suc k) = refl

take-drop_join :
    (n m : ℕ) (text : Text) → n ≤ m → take n text ++ take (m - n) (drop n text) ≡ take m text
take-drop_join zero m text h = ap (λ k. take k text) (omega arith)
take-drop_join (suc n) zero text h = absurd (omega (arith, h))
take-drop_join (suc n) (suc m) [] h = nothing (suc m - suc n)
take-drop_join (suc n) (suc m) (c ∷ text) h =
    let fewer : suc m - suc n ≡ m - n = omega arith in
    rw fewer (ap (λ r. c ∷ r) (take-drop_join n m text (omega (arith, h))))

pub window_size-positive : (max_chars : ℤ) → 1 ≤ window_size max_chars
window_size-positive (pos n) = ground arith
window_size-positive (negsuc n) = omega arith

window_end-empty :
    (text : Text) (start window : ℕ) → length text ≡ 0 → window_end text start window ≡ length text
unfolding window_end
window_end-empty text start window h = ground arith

page_at-Window :
    (text : Text) (asked max_chars : ℤ) (start : ℕ) (capped : Bool) (cap : ℕ)
    → start ≤ pos_part asked
    → (start ≡ 0) ⊎ (starts_rune (get_elem? text start) ≡ true)
    → ((j : ℕ) → start < j → j ≤ pos_part asked → starts_rune (get_elem? text j) ≡ false)
    → (start < length text) ⊎ (length text ≡ 0) × (start ≡ 0)
    → Window text asked max_chars (page_at text start (window_size max_chars) capped cap)
unfolding page_at
page_at-Window text asked max_chars start capped cap before stop between (inl inside) =
    let window = window_size max_chars in
    let (advances, within_text, bounded) =
      window_end-bounds text start window inside (window_size-positive max_chars) in
    record {
      start = before;
      aligned = stop;
      last_start = between;
      end = within_text;
      advances = inl advances;
      bounded = bounded;
      body = take-drop_join start (window_end text start window) text (omega (arith, advances));
    }
page_at-Window text asked max_chars start capped cap before stop between (inr (empty, zero_start)) =
    let whole : window_end text start (window_size max_chars) ≡ length text =
      window_end-empty text start (window_size max_chars) empty in
    record {
      start = before;
      aligned = stop;
      last_start = between;
      end = omega (arith, whole);
      advances = inr empty;
      bounded = omega (arith, whole, empty);
      body =
          take-drop_join start (window_end text start (window_size max_chars)) text
            (omega (arith, zero_start));
    }

-- A page that is given begins at the last start of a rune that is not beyond the offset asked for,
-- or at 0 if there is none, ends within the text, holds exactly the bytes in between, is no longer
-- than the window (or than one rune of four bytes), and on a text that is not empty it always
-- advances.
pub paginate_content-Window :
    (text : Text) (asked max_chars : ℤ) (capped : Bool) (cap : ℕ) (p : Page)
    → paginate_content text asked max_chars capped cap ≡ some p
    → Window text asked max_chars p
unfolding paginate_content
paginate_content-Window text asked max_chars capped cap p h =
    let start = snap_back text 0 (pos_part asked) in
    let (stop, between) = snap_back-aligned text (pos_part asked) in
    let (_, before) = snap_back-bounds text 0 (pos_part asked) (omega arith) in
    elim (Bool-cases (ltb 0 (pos_part asked) && leb (length text) (pos_part asked))) [
      | inl beyond ↦ cc (rw (paginate_content, beyond) at h)
      | inr inside ↦
          subst (Window text asked max_chars)
            (some-injective _ p (rw (paginate_content, inside) at h))
            (page_at-Window text asked max_chars start capped cap before stop between
              (ground (arith, before)))
    ]
