-- ===== src/Textual/Frames/Stream.antt =====
-- `next_frame` of crates/paraegox/src/textual_stdio.rs depends on the bytes alone: how they arrive makes
-- no difference.
use para_egox.Prelude.{
  ℕ, zero, suc, ◌+◌, ◌≤◌, ◌<◌, ◌≡◌, refl, sym, ◌∙◌, ap, subst, true, false, Option, none, some,
  List, [], ◌∷◌, ◌++◌, arith, ltb, length, length-append, ok, err, Option-cases, Bool-cases, inl,
  inr,
}
use mathlib.Core.List.{append_assoc, append-nil}
use para_egox.Textual.Frames.{
  frame_too_large, broken_pipe, Arrival, piece, broken, Read, nothing, failed, bytes, put_back,
  take, drop, read, BoundedJsonlReader, split_line, Frame, finish_line, finish_stream, with_buffer,
  room, next_frame_loop, next_frame_fuel, max_input_frame_bytes, strip_return,
}

-- All bytes that still come.
abbrev pub bytes_of : List Arrival → List ℕ
bytes_of [] = []
bytes_of (piece b bs ∷ source) = b ∷ (bs ++ bytes_of source)
bytes_of (broken ∷ source) = bytes_of source

-- The stream ends without an error.
abbrev pub IsWhole : List Arrival → Type 0
IsWhole [] = Unit {0}
IsWhole (piece b bs ∷ source) = IsWhole source
IsWhole (broken ∷ source) = ⊥

-- What the reader gives when all these bytes are in its buffer and no more come.
unfoldable pub first_frame : List ℕ → Frame × List ℕ
first_frame all = elim (split_line all) [
  | some (line, behind) ↦ finish_line all line behind
  | none ↦ finish_stream all
]

take-drop : (n : ℕ) (bs : List ℕ) → take n bs ++ drop n bs ≡ bs
take-drop zero bs = refl
take-drop (suc n) [] = refl
take-drop (suc n) (b ∷ bs) = ap (λ cs. b ∷ cs) (take-drop n bs)

pub length-take_le : (n : ℕ) (bs : List ℕ) → length (take n bs) ≤ n
length-take_le zero bs = omega arith
length-take_le (suc n) [] = omega arith
length-take_le (suc n) (b ∷ bs) = omega (arith, length-take_le n bs)

bytes_of-put_back :
    (bs : List ℕ) (source : List Arrival) → bytes_of (put_back bs source) ≡ bs ++ bytes_of source
bytes_of-put_back [] source = refl
bytes_of-put_back (b ∷ bs) source = refl

put_back-IsWhole :
    (bs : List ℕ) (source : List Arrival) → IsWhole source → IsWhole (put_back bs source)
put_back-IsWhole [] source w = w
put_back-IsWhole (b ∷ bs) source w = w

-- A line that is there is the same line when more bytes follow.
split_line-append :
    (xs ys line behind : List ℕ)
    → split_line xs ≡ some (line, behind)
    → split_line (xs ++ ys) ≡ some (line, behind ++ ys)
unfolding split_line
split_line-append [] ys line behind h = absurd (ground arith)
split_line-append (x ∷ xs) ys line behind h = elim (Option-cases (split_line xs)) [
  | inl e ↦ ground arith
  | inr (p, e) ↦ ground (arith, split_line-append xs ys p.0 p.1)
]

-- A line that comes to its end later is at least as long as what is there.
split_line-longer :
    (xs ys line behind : List ℕ)
    → split_line xs ≡ none
    → split_line (xs ++ ys) ≡ some (line, behind)
    → length xs ≤ length line
unfolding split_line
split_line-longer [] ys line behind h k = omega arith
split_line-longer (x ∷ xs) ys line behind h k = elim (Option-cases (split_line (xs ++ ys))) [
  | inl e ↦ absurd (ground arith)
  | inr (p, e) ↦ ground (arith, split_line-longer xs ys p.0 p.1)
]

-- What is given and left is what all bytes at once would give and leave.
abbrev pub IsAtOnce : List ℕ → Option (Frame × BoundedJsonlReader) → Type 0
IsAtOnce all o =
    (frame : Frame) × (reader : BoundedJsonlReader) × (o ≡ some (frame, reader))
    × (first_frame all ≡ (frame, reader.buffered ++ bytes_of reader.source))
    × IsWhole reader.source

line_IsAtOnce :
    (source : List Arrival) (buffered line behind : List ℕ)
    → IsWhole source
    → split_line buffered ≡ some (line, behind)
    → IsAtOnce
        (buffered ++ bytes_of source)
        (some (with_buffer source (finish_line buffered line behind)))
unfolding first_frame finish_line
line_IsAtOnce source buffered line behind w e =
    let later = split_line-append buffered (bytes_of source) line behind e in
    elim (Bool-cases (ltb max_input_frame_bytes (length line))) [
      | inl long ↦ (
        err frame_too_large,
        record { source = source; buffered = buffered },
        rw (long, finish_line) refl,
        rw (later, first_frame, long) refl,
        w,
      )
      | inr short ↦ (
        ok (some (strip_return line)),
        record { source = source; buffered = behind },
        rw (short, finish_line) refl,
        rw (later, first_frame, short) refl,
        w,
      )
    ]

-- Without a line feed in the first 16,385 bytes, the frame is too long, whatever follows.
first_frame_long :
    (xs ys : List ℕ)
    → split_line xs ≡ none
    → ltb max_input_frame_bytes (length xs) ≡ true
    → first_frame (xs ++ ys) ≡ (err frame_too_large, xs ++ ys)
unfolding first_frame finish_line finish_stream
first_frame_long [] ys e long = absurd (ground arith)
first_frame_long (x ∷ xs) ys e long = elim (Option-cases (split_line ((x ∷ xs) ++ ys))) [
  | inl f ↦ rw (f, first_frame) (ground (arith, length-append xs ys))
  | inr (p, f) ↦ rw (f, first_frame) (ground (arith, split_line-longer (x ∷ xs) ys p.0 p.1 e f))
]

-- What a read is followed by, `continue` being the next turn of the loop.
abbrev pub after_read :
    (List Arrival → List ℕ → Option (Frame × BoundedJsonlReader))
    → List ℕ
    → Read
    → List Arrival
    → Option (Frame × BoundedJsonlReader)
after_read continue buffered result rest = elim result [
  | nothing ↦ some (with_buffer rest (finish_stream buffered))
  | failed ↦ some (err broken_pipe, record { source = rest; buffered = buffered })
  | bytes chunk ↦ continue rest (buffered ++ chunk)
]

finish_stream-IsAtOnce :
    (buffered : List ℕ)
    → split_line buffered ≡ none
    → ltb max_input_frame_bytes (length buffered) ≡ false
    → IsAtOnce (buffered ++ []) (some (with_buffer [] (finish_stream buffered)))
unfolding finish_stream first_frame
finish_stream-IsAtOnce [] e short = (ok none, _, refl, unfold split_line in refl, tt)
finish_stream-IsAtOnce (b ∷ bs) e short =
    rw (append-nil bs) (rw short (_, _, refl, rw (e, first_frame, finish_stream, short) refl, tt))

read-IsAtOnce :
    (continue : List Arrival → List ℕ → Option (Frame × BoundedJsonlReader)) (buffered : List ℕ)
    (source : List Arrival)
    → ((rest : List Arrival) (b : ℕ) (chunk : List ℕ)
        → IsWhole rest
        → IsAtOnce
            ((buffered ++ b ∷ chunk) ++ bytes_of rest)
            (continue rest (buffered ++ b ∷ chunk)))
    → split_line buffered ≡ none
    → ltb max_input_frame_bytes (length buffered) ≡ false
    → IsWhole source
    → let (result, rest) = read (room buffered) source in
      IsAtOnce (buffered ++ bytes_of source) (after_read continue buffered result rest)
unfolding read
read-IsAtOnce continue buffered [] next e short w = finish_stream-IsAtOnce buffered e short
read-IsAtOnce continue buffered (broken ∷ source) next e short w = absurd w
read-IsAtOnce continue buffered (piece b bs ∷ source) next e short w =
    let n = room buffered in
    subst (λ all. IsAtOnce all (continue (put_back (drop n bs) source) (buffered ++ b ∷ take n bs)))
      (append_assoc buffered (b ∷ take n bs) (bytes_of (put_back (drop n bs) source))
        ∙ ap (λ cs. buffered ++ b ∷ cs)
            (ap (λ cs. take n bs ++ cs) (bytes_of-put_back (drop n bs) source)
              ∙ sym (append_assoc (take n bs) (drop n bs) (bytes_of source))
              ∙ ap (λ cs. cs ++ bytes_of source) (take-drop n bs)))
      (next (put_back (drop n bs) source) b (take n bs) (put_back-IsWhole (drop n bs) source w))

abbrev pub EnoughFuel : ℕ → List ℕ → Type 0
EnoughFuel fuel buffered = (0 < fuel) × (next_frame_fuel ≤ fuel + length buffered)

pub next_frame_loop-IsAtOnce :
    (fuel : ℕ) (source : List Arrival) (buffered : List ℕ)
    → IsWhole source
    → EnoughFuel fuel buffered
    → IsAtOnce (buffered ++ bytes_of source) (next_frame_loop fuel source buffered)
unfolding next_frame_loop
next_frame_loop-IsAtOnce zero source buffered w f = absurd (omega arith)
next_frame_loop-IsAtOnce (suc fuel) source buffered w f =
    elim (Option-cases (split_line buffered)) [
      | inr (p, e) ↦ rw (e, next_frame_loop) (line_IsAtOnce source buffered p.0 p.1 w e)
      | inl e ↦ elim (Bool-cases (ltb max_input_frame_bytes (length buffered))) [
        | inl long ↦
            rw (e, next_frame_loop, long)
              (
                err frame_too_large,
                record { source = source; buffered = buffered },
                refl,
                first_frame_long buffered (bytes_of source) e long,
                w,
              )
        | inr short ↦
            rw (e, next_frame_loop, short)
              (read-IsAtOnce (next_frame_loop fuel) buffered source
                (λ rest b chunk v.
                  next_frame_loop-IsAtOnce fuel rest (buffered ++ b ∷ chunk) v
                    (ground arith, omega (arith, f, length-append buffered (b ∷ chunk))))
                e short w)
      ]
    ]
