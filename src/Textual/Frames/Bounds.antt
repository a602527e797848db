-- ===== src/Textual/Frames/Bounds.antt =====
-- How much `BoundedJsonlReader` of crates/paraegox/src/textual_stdio.rs holds and hands out.
use para_egox.Prelude.{
  ℕ, zero, suc, ◌≤◌, ◌≡◌, false, Option, none, some, List, [], ◌∷◌, ◌++◌, arith, ltb, length,
  length-append, ok, err, Option-cases, Bool-cases, inl, inr,
}
use para_egox.Textual.Frames.{
  Arrival, piece, broken, put_back, take, drop, read, BoundedJsonlReader, split_line, Frame,
  finish_line, finish_stream, with_buffer, room, next_frame_loop, next_frame, next_frame_fuel,
  max_input_frame_bytes, strip_return,
}
use para_egox.Textual.Frames.Stream.{length-take_le, after_read, EnoughFuel}

-- A frame of at most 16,384 bytes, or none, or an error.
abbrev pub FrameFits : Frame → Type 0
FrameFits (ok (some frame)) = length frame ≤ 16384
FrameFits (ok none) = Unit {0}
FrameFits (err e) = Unit {0}

-- An answer came, its frame fits, and the buffer is within its bound.
abbrev pub IsBounded : Option (Frame × BoundedJsonlReader) → Type 0
IsBounded none = ⊥
IsBounded (some (frame, reader)) = FrameFits frame × (length reader.buffered ≤ 16385)

length-strip_return : (bs : List ℕ) → length (strip_return bs) ≤ length bs
unfolding strip_return
length-strip_return [] = omega arith
length-strip_return (b ∷ []) = ground arith
length-strip_return (b ∷ c ∷ bs) = omega (arith, length-strip_return (c ∷ bs))

length-split_line :
    (bs line behind : List ℕ) → split_line bs ≡ some (line, behind) → length behind ≤ length bs
unfolding split_line
length-split_line [] line behind h = absurd (ground arith)
length-split_line (b ∷ bs) line behind h = elim (Option-cases (split_line bs)) [
  | inl e ↦ ground arith
  | inr (p, e) ↦ ground (arith, length-split_line bs p.0 p.1)
]

finish_line-IsBounded :
    (source : List Arrival) (buffered line behind : List ℕ)
    → length buffered ≤ suc max_input_frame_bytes
    → split_line buffered ≡ some (line, behind)
    → IsBounded (some (with_buffer source (finish_line buffered line behind)))
unfolding finish_line
finish_line-IsBounded source buffered line behind h e =
    let shorter = length-split_line buffered line behind e in
    elim (Bool-cases (ltb max_input_frame_bytes (length line))) [
      | inl long ↦ rw (long, finish_line) (tt, h)
      | inr short ↦
          rw (short, finish_line)
            (ground (arith, length-strip_return line), omega (arith, shorter, h))
    ]

finish_stream-IsBounded :
    (source : List Arrival) (buffered : List ℕ)
    → length buffered ≤ suc max_input_frame_bytes
    → IsBounded (some (with_buffer source (finish_stream buffered)))
unfolding finish_stream
finish_stream-IsBounded source [] h = (tt, omega arith)
finish_stream-IsBounded source (b ∷ bs) h =
    elim (Bool-cases (ltb max_input_frame_bytes (length (b ∷ bs)))) [
      | inl long ↦ rw long (tt, h)
      | inr short ↦ rw short (ground (arith, length-strip_return (b ∷ bs)), omega arith)
    ]

read-IsBounded :
    (continue : List Arrival → List ℕ → Option (Frame × BoundedJsonlReader)) (buffered : List ℕ)
    (source : List Arrival)
    → ((rest : List Arrival) (b : ℕ) (chunk : List ℕ)
        → length (buffered ++ b ∷ chunk) ≤ suc max_input_frame_bytes
        → IsBounded (continue rest (buffered ++ b ∷ chunk)))
    → ltb max_input_frame_bytes (length buffered) ≡ false
    → let (result, rest) = read (room buffered) source in
      IsBounded (after_read continue buffered result rest)
unfolding read
read-IsBounded continue buffered [] next short = finish_stream-IsBounded [] buffered (ground arith)
read-IsBounded continue buffered (broken ∷ source) next short = (tt, ground arith)
read-IsBounded continue buffered (piece b bs ∷ source) next short =
    next (put_back (drop (room buffered) bs) source) b (take (room buffered) bs) (
      ground (
        arith,
        length-append buffered (b ∷ take (room buffered) bs),
        length-take_le (room buffered) bs,
      ))

next_frame_loop-IsBounded :
    (fuel : ℕ) (source : List Arrival) (buffered : List ℕ)
    → length buffered ≤ suc max_input_frame_bytes
    → EnoughFuel fuel buffered
    → IsBounded (next_frame_loop fuel source buffered)
unfolding next_frame_loop
next_frame_loop-IsBounded zero source buffered h f = absurd (omega (arith, f))
next_frame_loop-IsBounded (suc fuel) source buffered h f =
    elim (Option-cases (split_line buffered)) [
      | inr (p, e) ↦ rw (e, next_frame_loop) (finish_line-IsBounded source buffered p.0 p.1 h e)
      | inl e ↦ elim (Bool-cases (ltb max_input_frame_bytes (length buffered))) [
        | inl long ↦ rw (e, next_frame_loop, long) (tt, h)
        | inr short ↦
            rw (e, next_frame_loop, short)
              (read-IsBounded (next_frame_loop fuel) buffered source
                (λ rest b chunk fits.
                  next_frame_loop-IsBounded fuel rest (buffered ++ b ∷ chunk) fits
                    (ground arith, omega (arith, f, length-append buffered (b ∷ chunk))))
                short)
      ]
    ]

-- Whatever arrives, an error too, a reader whose buffer is within 16,385 bytes gives an answer: its
-- buffer stays within 16,385 bytes, and a frame that it hands out is within 16,384.
pub next_frame-IsBounded :
    (reader : BoundedJsonlReader) → length reader.buffered ≤ 16385 → IsBounded (next_frame reader)
unfolding next_frame
next_frame-IsBounded reader h =
    next_frame_loop-IsBounded next_frame_fuel reader.source reader.buffered h
      (omega arith, omega arith)
