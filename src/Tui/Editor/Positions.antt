-- ===== src/Tui/Editor/Positions.antt =====
-- Positions in the text of crates/paraegox/src/tui/app.rs's `InputEditor`, from characters to bytes.
use para_egox.Prelude.{
  ℕ, zero, suc, ◌+◌, ◌-◌, ◌≤◌, ◌<◌, ◌≡◌, refl, ◌∙◌, ap, none, some, [], ◌∷◌, ◌++◌, arith, length,
  length-append, subst, get_elem?,
}
use mathlib.Core.List.{append_assoc, append-nil}
use para_egox.Text.{Text, len, len_utf8}
use para_egox.Tui.Editor.{split_bytes, char_indices, byte_index, insert_at, remove_range}

len_utf8-pos : (c : ℕ) → 0 < len_utf8 c
unfolding len_utf8
len_utf8-pos c = ground arith

split_bytes-cons :
    (c : ℕ) (t : Text) (n : ℕ) (before behind : Text)
    → len_utf8 c ≤ n
    → split_bytes t (n - len_utf8 c) ≡ some (before, behind)
    → split_bytes (c ∷ t) n ≡ some (c ∷ before, behind)
unfolding split_bytes
split_bytes-cons c t zero before behind h e = absurd (omega (arith, len_utf8-pos c))
split_bytes-cons c t (suc n) before behind h e = ground arith

pub split_bytes-append : (xs ys : Text) → split_bytes (xs ++ ys) (len xs) ≡ some (xs, ys)
unfolding split_bytes len
split_bytes-append [] ys = refl
split_bytes-append (c ∷ xs) ys =
    let behind : (len_utf8 c + len xs) - len_utf8 c ≡ len xs = omega arith in
    split_bytes-cons c (xs ++ ys) (len_utf8 c + len xs) xs ys (omega arith)
      (ap (split_bytes (xs ++ ys)) behind ∙ split_bytes-append xs ys)

char_indices-append :
    (offset : ℕ) (xs : Text) (y : ℕ) (ys : Text)
    → get_elem? (char_indices offset (xs ++ y ∷ ys)) (length xs) ≡ some (offset + len xs, y)
unfolding len
char_indices-append offset [] y ys = ground arith
char_indices-append offset (c ∷ xs) y ys =
    char_indices-append (offset + len_utf8 c) xs y ys ∙ ap (λ index. some (index, y)) (omega arith)

char_indices-end : (offset : ℕ) (xs : Text) → get_elem? (char_indices offset xs) (length xs) ≡ none
char_indices-end offset [] = refl
char_indices-end offset (c ∷ xs) = char_indices-end (offset + len_utf8 c) xs

pub byte_index-append : (xs ys : Text) → byte_index (xs ++ ys) (length xs) ≡ len xs
unfolding byte_index
byte_index-append xs [] = rw (append-nil xs) (rw (char_indices-end 0 xs, byte_index) refl)
byte_index-append xs (y ∷ ys) = rw (char_indices-append 0 xs y ys, byte_index) (omega arith)

-- The text is cut where the cursor is.
pub split_bytes-byte_index :
    (xs ys : Text) → split_bytes (xs ++ ys) (byte_index (xs ++ ys) (length xs)) ≡ some (xs, ys)
split_bytes-byte_index xs ys =
    ap (split_bytes (xs ++ ys)) (byte_index-append xs ys) ∙ split_bytes-append xs ys

pub insert_at_lem :
    (xs ys : Text) (c : ℕ)
    → insert_at (xs ++ ys) (byte_index (xs ++ ys) (length xs)) c ≡ some (xs ++ c ∷ ys)
unfolding insert_at
insert_at_lem xs ys c = rw (split_bytes-byte_index xs ys, insert_at) refl

-- The character between two neighbouring positions is removed.
pub remove_range_lem :
    (xs : Text) (c : ℕ) (ys : Text)
    → remove_range
        (xs ++ c ∷ ys)
        (byte_index (xs ++ c ∷ ys) (length xs))
        (byte_index (xs ++ c ∷ ys) (suc (length xs)))
      ≡ some (xs ++ ys)
unfolding remove_range
remove_range_lem xs c ys =
    let start = split_bytes-byte_index xs (c ∷ ys) in
    let end : split_bytes (xs ++ c ∷ ys) (byte_index (xs ++ c ∷ ys) (suc (length xs)))
        ≡ some (xs ++ c ∷ [], ys) =
      ap (λ n. split_bytes (xs ++ c ∷ ys) (byte_index (xs ++ c ∷ ys) n))
        (omega (arith, length-append xs (c ∷ [])))
      ∙ subst (λ t. split_bytes t (byte_index t (length (xs ++ c ∷ []))) ≡ some (xs ++ c ∷ [], ys))
          (append_assoc xs (c ∷ []) ys) (split_bytes-byte_index (xs ++ c ∷ []) ys) in
    rw (start, end, remove_range) refl
