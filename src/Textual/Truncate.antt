-- ===== src/Textual/Truncate.antt =====
-- crates/paraegox/src/textual_stdio.rs: the messages of errors, cut at a boundary of characters.
use para_egox.Prelude.{
  ℕ, zero, suc, ◌+◌, ◌-◌, ◌≤◌, ◌<◌, ◌≡◌, refl, sym, ap, Bool, Option, none, some, [], ◌∷◌, ◌++◌,
  arith, ltb, leb, ◌==◌, if◌then◌else◌, is_some, Option-cases, Bool-cases, inl, inr,
}
use mathlib.Core.List.{append-nil}
use para_egox.Text.{Text, len, len_utf8}

abbrev pub max_error_bytes : ℕ
max_error_bytes = 512

-- `&value[..boundary]`: `none` is the panic of an index that is no boundary of characters.
unfoldable pub slice_to : Text → ℕ → Option Text
slice_to [] n = if n == 0 then some [] else none
slice_to (c ∷ t) n =
    let rest = slice_to t (n - len_utf8 c) in
    if n == 0
    then some []
    else if ltb n (len_utf8 c)
    then none
    else elim rest [ none ↦ none | some p ↦ some (c ∷ p) ]

-- `str::is_char_boundary`.
unfoldable pub is_char_boundary : Text → ℕ → Bool
is_char_boundary value index = is_some (slice_to value index)

-- The loop that looks for a boundary. At 0 there is one, so it goes no further.
unfoldable pub floor_boundary : Text → ℕ → ℕ
floor_boundary value zero = zero
floor_boundary value (suc boundary) =
    let lower = floor_boundary value boundary in
    if is_char_boundary value (suc boundary) then suc boundary else lower

unfoldable pub truncate_utf8 : Text → ℕ → Option Text
truncate_utf8 value max_bytes =
    if leb (len value) max_bytes
    then some value
    else slice_to value (floor_boundary value max_bytes)

-- The longest beginning that has at most so many bytes.
abbrev pub fitting : ℕ → Text → Text
fitting n [] = []
fitting n (c ∷ t) =
    let rest = fitting (n - len_utf8 c) t in if ltb n (len_utf8 c) then [] else c ∷ rest

len_utf8-pos : (c : ℕ) → 0 < len_utf8 c
unfolding len_utf8
len_utf8-pos c = ground arith

slice_to-some : (t : Text) (n : ℕ) (p : Text) → slice_to t n ≡ some p → p ≡ fitting n t
unfolding slice_to
slice_to-some [] n p h = ground arith
slice_to-some (c ∷ t) n p h = elim (Option-cases (slice_to t (n - len_utf8 c))) [
  | inl e ↦ ground (arith, len_utf8-pos c)
  | inr (q, e) ↦ ground (arith, len_utf8-pos c, slice_to-some t (n - len_utf8 c) q e)
]

slice_to_zero : (t : Text) → slice_to t 0 ≡ some []
unfolding slice_to
slice_to_zero [] = refl
slice_to_zero (c ∷ t) = refl

-- An index that is no boundary is inside of a character, which does not fit.
slice_to-none : (t : Text) (n : ℕ) → slice_to t (suc n) ≡ none → fitting (suc n) t ≡ fitting n t
unfolding slice_to
slice_to-none [] n h = refl
slice_to-none (c ∷ t) n h = elim (Bool-cases (ltb n (len_utf8 c))) [
  | inl inside ↦ ground (
    arith,
    slice_to_zero t,
    ap (slice_to t) (let z : suc n - len_utf8 c ≡ suc n - len_utf8 c = refl in z),
  )
  | inr behind ↦
      let e : suc n - len_utf8 c ≡ suc (n - len_utf8 c) = ground arith in
      ground (arith, slice_to-none t (n - len_utf8 c), ap (slice_to t) e)
]

floor_boundary_lem : (t : Text) (n : ℕ) → slice_to t (floor_boundary t n) ≡ some (fitting n t)
unfolding floor_boundary is_char_boundary
floor_boundary_lem t zero = ground (arith, slice_to_zero t, slice_to-some t 0 [])
floor_boundary_lem t (suc n) = elim (Option-cases (slice_to t (suc n))) [
  | inr (p, e) ↦ ground (arith, slice_to-some t (suc n) p e)
  | inl e ↦ ground (arith, slice_to-none t n e, floor_boundary_lem t n)
]

-- The rest of the text behind what fits.
abbrev pub left_over : ℕ → Text → Text
left_over n [] = []
left_over n (c ∷ t) =
    let rest = left_over (n - len_utf8 c) t in if ltb n (len_utf8 c) then c ∷ t else rest

abbrev pub Overflows : ℕ → Text → Text → Type 0
Overflows n p [] = Unit {0}
Overflows n p (c ∷ rest) = n < len p + len_utf8 c

fitting-left_over : (n : ℕ) (t : Text) → t ≡ fitting n t ++ left_over n t
fitting-left_over n [] = refl
fitting-left_over n (c ∷ t) = ground (arith, fitting-left_over (n - len_utf8 c) t)

len-fitting : (n : ℕ) (t : Text) → len (fitting n t) ≤ n
unfolding len
len-fitting n [] = omega arith
len-fitting n (c ∷ t) = ground (arith, len-fitting (n - len_utf8 c) t)

Overflows-len :
    (n : ℕ) (c : ℕ) (p rest : Text)
    → len_utf8 c ≤ n
    → Overflows (n - len_utf8 c) p rest
    → Overflows n (c ∷ p) rest
unfolding len
Overflows-len n c p [] h o = tt
Overflows-len n c p (d ∷ rest) h o = omega arith

fitting-Overflows : (n : ℕ) (t : Text) → Overflows n (fitting n t) (left_over n t)
unfolding len
fitting-Overflows n [] = tt
fitting-Overflows n (c ∷ t) = elim (Bool-cases (ltb n (len_utf8 c))) [
  | inl over ↦ rw over (ground arith)
  | inr fits ↦ rw fits (
      Overflows-len n c (fitting (n - len_utf8 c) t) (left_over (n - len_utf8 c) t) (ground arith)
        (fitting-Overflows (n - len_utf8 c) t))
]

-- `truncate_utf8` never panics: it gives the longest beginning of the text, of whole characters, that
-- has at most the bytes allowed: with the next character, if there is one, it would have more.
pub truncate_utf8_lem :
    (t : Text) (n : ℕ)
    → (p : Text) × (rest : Text) × (truncate_utf8 t n ≡ some p)
      × (t ≡ p ++ rest)
      × (len p ≤ n)
      × Overflows n p rest
unfolding truncate_utf8
truncate_utf8_lem t n = elim (Bool-cases (leb (len t) n)) [
  | inl fits ↦ (t, [], rw (fits, truncate_utf8) refl, sym (append-nil t), ground arith, tt)
  | inr long ↦ (
    fitting n t,
    left_over n t,
    rw (long, truncate_utf8) (floor_boundary_lem t n),
    fitting-left_over n t,
    len-fitting n t,
    fitting-Overflows n t,
  )
]
