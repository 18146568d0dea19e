-- ===== src/Text/Order.antt =====
-- Go's `<` on strings: byte by byte, which for UTF-8 is by code points.
use Prim.Native.String.{[], ◌∷◌}
use text.Mathlib.TextEquality.{Char-path}
use helix_acs.Prelude.{
  ◌≡◌, ◌⊎◌, inl, inr, refl, String, code, Bool, true, false, ◌&&◌, ◌||◌, ltb, ◌==◌, arith,
}

unfoldable pub text_lt : String → String → Bool
text_lt s [] = false
text_lt [] (d ∷ t) = true
text_lt (c ∷ s) (d ∷ t) = ltb (code c) (code d) || (code c == code d && text_lt s t)

pub text_lt_irrefl : (s : String) → text_lt s s ≡ false
unfolding text_lt
text_lt_irrefl [] = refl
text_lt_irrefl (c ∷ s) = ground (arith, text_lt_irrefl s)

pub text_lt_trans : (s t u : String) → text_lt s t ≡ true → text_lt t u ≡ true → text_lt s u ≡ true
unfolding text_lt
text_lt_trans s t [] h k = absurd (ground arith)
text_lt_trans s [] (e ∷ u) h k = absurd (ground arith)
text_lt_trans [] (d ∷ t) (e ∷ u) h k = refl
text_lt_trans (c ∷ s) (d ∷ t) (e ∷ u) h k = ground (arith, text_lt_trans s t u)

-- A text between two others is on one side of them.
pub text_lt_cotrans :
    (s t u : String) → text_lt s u ≡ true → (text_lt s t ≡ true) ⊎ (text_lt t u ≡ true)
unfolding text_lt
text_lt_cotrans s t [] h = absurd (ground arith)
text_lt_cotrans s [] (e ∷ u) h = inr refl
text_lt_cotrans [] (d ∷ t) (e ∷ u) h = inl refl
text_lt_cotrans (c ∷ s) (d ∷ t) (e ∷ u) h = ground (arith, text_lt_cotrans s t u)

pub text_lt_total : (s t : String) → text_lt s t ≡ false → text_lt t s ≡ false → s ≡ t
unfolding text_lt
text_lt_total [] [] h k = refl
text_lt_total [] (d ∷ t) h k = absurd (ground arith)
text_lt_total (c ∷ s) [] h k = absurd (ground arith)
text_lt_total (c ∷ s) (d ∷ t) h k =
    let e : code c ≡ code d = ground arith in
    let f : (text_lt s t ≡ false) × (text_lt t s ≡ false) = ground arith in
    rw (Char-path c d e, text_lt_total s t f.0 f.1) refl
