-- ===== src/Text/Utf8.antt =====
-- The encoding of texts as bytes: it tells texts apart, and a text of ASCII is its own encoding.
use para_egox.Prelude.{ℕ, ◌≡◌, refl, sym, ap₂, List, [], ◌∷◌, ◌++◌, arith}
use para_egox.Text.{Text, encode_utf8, as_bytes}

-- No character's bytes begin those of another.
pub encode_utf8-append :
    (c d : ℕ) (r s : List ℕ) → encode_utf8 c ++ r ≡ encode_utf8 d ++ s → (c ≡ d) × (r ≡ s)
unfolding encode_utf8
encode_utf8-append c d r s h = ground arith

encode_utf8-ne_nil : (c : ℕ) (r : List ℕ) → encode_utf8 c ++ r ≡ [] → ⊥
unfolding encode_utf8
encode_utf8-ne_nil c r h = ground arith

-- Two texts with the same bytes are the same.
pub as_bytes-injective : (s t : Text) → as_bytes s ≡ as_bytes t → s ≡ t
unfolding as_bytes
as_bytes-injective [] [] h = refl
as_bytes-injective [] (d ∷ t) h = absurd (encode_utf8-ne_nil d (as_bytes t) (sym h))
as_bytes-injective (c ∷ s) [] h = absurd (encode_utf8-ne_nil c (as_bytes s) h)
as_bytes-injective (c ∷ s) (d ∷ t) h =
    let (e, f) = encode_utf8-append c d (as_bytes s) (as_bytes t) h in
    ap₂ ◌∷◌ e (as_bytes-injective s t f)
