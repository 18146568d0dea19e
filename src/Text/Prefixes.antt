-- ===== src/Text/Prefixes.antt =====
-- Prefixes as decompositions of a text.
use Prim.Native.String.{[], ◌∷◌}
use text.Mathlib.TextEquality.{Char-path}
use text.Mathlib.TextLemmas.{cons-ne-nil, nil-append, cons-append}
use helix_acs.Prelude.{
  Char, false, str_eq, eq_iff, Bool-cases, inl, inr, String, ◌≡◌, refl, sym, ap, true, arith,
  ==_iff,
}
use helix_acs.Text.{◌+++◌, has_prefix, drop_chars, char_count, trim_prefix}
use mathlib.Core.Bool.{and-eq-true_iff}

pub has_prefix-append : (p t : String) → has_prefix (p +++ t) p ≡ true
unfolding has_prefix
has_prefix-append [] t = refl
has_prefix-append (c ∷ p) t = rw cons-append (ground (arith, has_prefix-append p t))

-- A text with a given prefix is that prefix and what is dropped behind it.
pub has_prefix-split :
    (s p : String) → has_prefix s p ≡ true → s ≡ p +++ drop_chars (char_count p) s
unfolding has_prefix
has_prefix-split s [] h = sym (nil-append s)
has_prefix-split [] (d ∷ p) h = cc
has_prefix-split (c ∷ s) (d ∷ p) h =
    let (same, rest) = (and-eq-true_iff _ _).0 h in
    rw (cons-append, Char-path c d ((==_iff _ _).0 same))
      (ap (λ t. d ∷ t) (has_prefix-split s p rest))

pub drop_chars-append : (p t : String) → drop_chars (char_count p) (p +++ t) ≡ t
drop_chars-append [] t = nil-append t
drop_chars-append (c ∷ p) t = rw cons-append (drop_chars-append p t)

pub trim_prefix-append : (p t : String) → trim_prefix (p +++ t) p ≡ t
unfolding trim_prefix
trim_prefix-append p t = rw (has_prefix-append p t) (drop_chars-append p t)

-- The test for the empty text fails at a text with a character.
pub cons-eq-nil_test : (c : Char) (s : String) → str_eq (c ∷ s) [] ≡ false
cons-eq-nil_test c s = elim (Bool-cases (str_eq (c ∷ s) [])) [
  | inl same ↦ absurd (cons-ne-nil c s ((eq_iff (c ∷ s) []).0 same))
  | inr other ↦ other
]

pub has_prefix-append_right :
    (s t p : String) → has_prefix s p ≡ true → has_prefix (s +++ t) p ≡ true
unfolding has_prefix
has_prefix-append_right s t [] h = refl
has_prefix-append_right [] t (d ∷ p) h = cc
has_prefix-append_right (c ∷ s) t (d ∷ p) h =
    rw cons-append (ground (arith, has_prefix-append_right s t p))
