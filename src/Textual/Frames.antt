-- ===== src/Textual/Frames.antt =====
-- crates/paraegox/src/textual_stdio.rs: `BoundedJsonlReader`, which cuts a stream of bytes that
-- arrives in pieces into lines of at most 16 KiB.
pub mod Stream
pub mod Lines
pub mod Bounds
use para_egox.Prelude.{
  ℕ, zero, suc, ◌+◌, ◌-◌, ◌≤◌, ◌<◌, ◌≡◌, refl, sym, ◌∙◌, ap, Bool, true, false, Option, none, some,
  List, [], ◌∷◌, ◌++◌, arith, ltb, leb, ◌==◌, if◌then◌else◌, length, Result, ok, err,
}

abbrev pub max_input_frame_bytes : ℕ
max_input_frame_bytes = 16384

abbrev pub read_chunk_bytes : ℕ
read_chunk_bytes = 1024

pub data ReadError : Type 0 where
  frame_too_large broken_pipe : ReadError

-- What the stream still gives: pieces, none of them empty, or an error; at the end comes the end of
-- the file.
pub data Arrival : Type 0 where
  piece : ℕ → List ℕ → Arrival
  broken : Arrival

-- What one call of `read` gives: `nothing` is a read of no bytes.
pub data Read : Type 0 where
  nothing failed : Read
  bytes : List ℕ → Read

abbrev pub put_back : List ℕ → List Arrival → List Arrival
put_back [] source = source
put_back (b ∷ bs) source = piece b bs ∷ source

abbrev pub take : ℕ → List ℕ → List ℕ
take zero bs = []
take (suc n) [] = []
take (suc n) (b ∷ bs) = b ∷ take n bs

abbrev pub drop : ℕ → List ℕ → List ℕ
drop zero bs = bs
drop (suc n) [] = []
drop (suc n) (b ∷ bs) = drop n bs

-- `AsyncRead::read` into a buffer that holds at least one byte: at most that many of the bytes that
-- have arrived. The first argument is the room behind the first byte.
unfoldable pub read : ℕ → List Arrival → Read × List Arrival
read more [] = (nothing, [])
read more (broken ∷ source) = (failed, source)
read more (piece b bs ∷ source) = (bytes (b ∷ take more bs), put_back (drop more bs) source)

pub record BoundedJsonlReader : Type 0 where
  pub source : List Arrival
  pub buffered : List ℕ

-- The bytes before the first line feed, and those behind it.
unfoldable pub split_line : List ℕ → Option (List ℕ × List ℕ)
split_line [] = none
split_line (b ∷ bs) =
    let rest = split_line bs in
    if b == 10
    then some ([], bs)
    else elim rest [ none ↦ none | some (line, behind) ↦ some (b ∷ line, behind) ]

-- The frame without a carriage return at its end.
unfoldable pub strip_return : List ℕ → List ℕ
strip_return [] = []
strip_return (b ∷ []) = if b == 13 then [] else b ∷ []
strip_return (b ∷ c ∷ bs) = b ∷ strip_return (c ∷ bs)

abbrev pub Frame : Type 0
Frame = Result ReadError (Option (List ℕ))

-- What a line gives, with what stays in the buffer: a line that is too long stays there.
unfoldable pub finish_line : List ℕ → List ℕ → List ℕ → Frame × List ℕ
finish_line whole line behind =
    if ltb max_input_frame_bytes (length line)
    then (err frame_too_large, whole)
    else (ok (some (strip_return line)), behind)

-- The last frame needs no line feed.
unfoldable pub finish_stream : List ℕ → Frame × List ℕ
finish_stream [] = (ok none, [])
finish_stream (b ∷ bs) =
    if ltb max_input_frame_bytes (length (b ∷ bs))
    then (err frame_too_large, b ∷ bs)
    else (ok (some (strip_return (b ∷ bs))), [])

abbrev pub with_buffer : List Arrival → Frame × List ℕ → Frame × BoundedJsonlReader
with_buffer source (frame, buffered) = (frame, record { source = source; buffered = buffered })

-- The room of a read behind its first byte: `remaining.min(READ_CHUNK_BYTES)`, less one.
abbrev pub room : List ℕ → ℕ
room buffered =
    if ltb (max_input_frame_bytes - length buffered) read_chunk_bytes
    then max_input_frame_bytes - length buffered
    else read_chunk_bytes - 1

-- `next_frame`; `none` is fuel that ran out.
unfoldable pub next_frame_loop : ℕ → List Arrival → List ℕ → Option (Frame × BoundedJsonlReader)
next_frame_loop zero source buffered = none
next_frame_loop (suc fuel) source buffered = elim (split_line buffered) [
  | some (line, behind) ↦ some (with_buffer source (finish_line buffered line behind))
  | none ↦
      if ltb max_input_frame_bytes (length buffered)
      then some (err frame_too_large, record { source = source; buffered = buffered })
      else let (result, rest) = read (room buffered) source in
        elim result [
          | nothing ↦ some (with_buffer rest (finish_stream buffered))
          | failed ↦ some (err broken_pipe, record { source = rest; buffered = buffered })
          | bytes chunk ↦ next_frame_loop fuel rest (buffered ++ chunk)
        ]
]

abbrev pub next_frame_fuel : ℕ
next_frame_fuel = 16386

unfoldable pub next_frame : BoundedJsonlReader → Option (Frame × BoundedJsonlReader)
next_frame reader = next_frame_loop next_frame_fuel reader.source reader.buffered
