-- ===== src/Textual/Frames/Lines.antt =====
-- The lines that crates/paraegox/src/textual_stdio.rs cuts a stream of bytes into, told without its code.
use para_egox.Prelude.{
  ℕ, ◌≤◌, ◌<◌, ◌==◌, ◌≡◌, ◌≢◌, ◌⊎◌, refl, ap, subst, false, Option, none, some, List, [], ◌∷◌, ◌++◌,
  arith, ltb, elem, nat_eq, length, ok, err, Option-cases, Bool-cases, inl, inr,
}
use para_egox.Textual.Frames.{
  frame_too_large, BoundedJsonlReader, split_line, Frame, finish_line, finish_stream, next_frame,
  next_frame_fuel, max_input_frame_bytes, strip_return,
}
use para_egox.Textual.Frames.Stream.{bytes_of, IsWhole, first_frame, next_frame_loop-IsAtOnce}

-- The line is the frame with a carriage return behind it, or the frame and does not end in one.
abbrev pub IsContent : List ℕ → List ℕ → Type 0
IsContent line frame =
    (line ≡ frame ++ 13 ∷ []) ⊎ ((line ≡ frame) × ((start : List ℕ) → line ≢ start ++ 13 ∷ []))

-- The first frame of a stream of bytes, with the bytes that are left.
pub data IsFirst (all : List ℕ) : Frame → List ℕ → Type 0 where
  a_line :
      (line behind frame : List ℕ)
      → all ≡ line ++ 10 ∷ behind
      → elem 10 line ≡ false
      → length line ≤ 16384
      → IsContent line frame
      → IsFirst all (ok (some frame)) behind
  long_line :
      (line behind : List ℕ)
      → all ≡ line ++ 10 ∷ behind
      → elem 10 line ≡ false
      → 16384 < length line
      → IsFirst all (err frame_too_large) all
  last_line :
      (frame : List ℕ)
      → 0 < length all
      → elem 10 all ≡ false
      → length all ≤ 16384
      → IsContent all frame
      → IsFirst all (ok (some frame)) []
  long_last_line : elem 10 all ≡ false → 16384 < length all → IsFirst all (err frame_too_large) all
  at_end : all ≡ [] → IsFirst all (ok none) []

split_line-some :
    (bs line behind : List ℕ)
    → split_line bs ≡ some (line, behind)
    → (bs ≡ line ++ 10 ∷ behind) × (elem 10 line ≡ false)
unfolding split_line elem
split_line-some [] line behind h = absurd (ground arith)
split_line-some (b ∷ bs) line behind h = elim (Option-cases (split_line bs)) [
  | inl e ↦ ground arith
  | inr (p, e) ↦ ground (arith, split_line-some bs p.0 p.1)
]

split_line-none : (bs : List ℕ) → split_line bs ≡ none → elem 10 bs ≡ false
unfolding split_line elem
split_line-none [] h = refl
split_line-none (b ∷ bs) h = elim (Option-cases (split_line bs)) [
  | inl e ↦ ground (arith, split_line-none bs)
  | inr (p, e) ↦ ground arith
]

-- A list with one more byte in front ends as it did, unless it was empty.
ends_alike :
    (b c : ℕ) (bs start : List ℕ)
    → b ∷ c ∷ bs ≡ start ++ 13 ∷ []
    → (rest : List ℕ) × (c ∷ bs ≡ rest ++ 13 ∷ [])
ends_alike b c bs [] e = absurd (ground arith)
ends_alike b c bs (x ∷ start) e = (start, ground arith)

ends_here : (b : ℕ) (start : List ℕ) → b ∷ [] ≡ start ++ 13 ∷ [] → b ≡ 13
ends_here b [] e = ground arith
ends_here b (x ∷ []) e = absurd (ground arith)
ends_here b (x ∷ y ∷ start) e = absurd (ground arith)

ends_nowhere : (start : List ℕ) → [] ≢ start ++ 13 ∷ []
ends_nowhere [] e = ground arith
ends_nowhere (x ∷ start) e = ground arith

strip_return_lem : (line : List ℕ) → IsContent line (strip_return line)
unfolding strip_return
strip_return_lem [] = inr (refl, ends_nowhere)
strip_return_lem (b ∷ []) = elim (Bool-cases (b == 13)) [
  | inl returns ↦ rw (returns, strip_return) (inl (ground arith))
  | inr other ↦
      rw (other, strip_return) (inr (refl, λ start e. ground (arith, ends_here b start e)))
]
strip_return_lem (b ∷ c ∷ bs) = elim (strip_return_lem (c ∷ bs)) [
  | inl e ↦ inl (ap (λ cs. b ∷ cs) e)
  | inr (e, plain) ↦
      inr
        (ap (λ cs. b ∷ cs) e, λ start h. let (rest, k) = ends_alike b c bs start h in plain rest k)
]

finish_line-IsFirst :
    (all line behind : List ℕ)
    → split_line all ≡ some (line, behind)
    → let (frame, left) = finish_line all line behind in IsFirst all frame left
unfolding finish_line
finish_line-IsFirst all line behind e =
    let (whole, unbroken) = split_line-some all line behind e in
    elim (Bool-cases (ltb max_input_frame_bytes (length line))) [
      | inl long ↦ rw (long, finish_line) (long_line line behind whole unbroken (ground arith))
      | inr short ↦
          rw (short, finish_line)
            (a_line line behind (strip_return line) whole unbroken (ground arith)
              (strip_return_lem line))
    ]

finish_stream-IsFirst :
    (all : List ℕ)
    → split_line all ≡ none
    → let (frame, left) = finish_stream all in IsFirst all frame left
unfolding finish_stream
finish_stream-IsFirst [] e = at_end refl
finish_stream-IsFirst (b ∷ bs) e =
    let unbroken = split_line-none (b ∷ bs) e in
    elim (Bool-cases (ltb max_input_frame_bytes (length (b ∷ bs)))) [
      | inl long ↦ rw long (long_last_line unbroken (ground arith))
      | inr short ↦ rw short (
          last_line (strip_return (b ∷ bs)) (omega arith) unbroken (ground arith)
            (strip_return_lem (b ∷ bs)))
    ]

first_frame-IsFirst : (all : List ℕ) → let (frame, left) = first_frame all in IsFirst all frame left
unfolding first_frame
first_frame-IsFirst all = elim (Option-cases (split_line all)) [
  | inl e ↦ rw (e, first_frame) (finish_stream-IsFirst all e)
  | inr (p, e) ↦ rw (e, first_frame) (finish_line-IsFirst all p.0 p.1 e)
]

-- An answer came: the first frame of these bytes, with the bytes that are left in the reader.
abbrev pub IsNext : List ℕ → Option (Frame × BoundedJsonlReader) → Type 0
IsNext all o =
    (frame : Frame) × (reader : BoundedJsonlReader) × (o ≡ some (frame, reader))
    × IsFirst all frame (reader.buffered ++ bytes_of reader.source)
    × IsWhole reader.source

-- A reader whose stream ends without an error always gives its next frame, however the bytes arrive:
-- the bytes before the first line feed, without a carriage return at their end, the bytes behind the
-- line feed being left; at the end of the stream the last bytes are a frame too, or there is none. A
-- line of more than 16,384 bytes is refused and left.
pub next_frame_lem :
    (reader : BoundedJsonlReader)
    → IsWhole reader.source
    → IsNext (reader.buffered ++ bytes_of reader.source) (next_frame reader)
unfolding next_frame
next_frame_lem reader w =
    let all = reader.buffered ++ bytes_of reader.source in
    let (frame, next, gives, once, ends) =
      next_frame_loop-IsAtOnce next_frame_fuel reader.source reader.buffered w
        (omega arith, omega arith) in
    (
      frame,
      next,
      gives,
      subst (λ (p : Frame × List ℕ). IsFirst all p.0 p.1) once (first_frame-IsFirst all),
      ends,
    )
