-- ===== src/Schema/Vendor/Panics.antt =====
-- When the fallback of `normaliseVendor` indexes an empty slice.
use helix_acs.Prelude.{
  ◌≡◌, ◌≢◌, ◌↔◌, refl, String, Bool, true, false, not, List, [], ◌∷◌, none, arith, All, select,
  str_eq, eq_iff, Bool-cases, Option-cases, inl, inr,
}
use helix_acs.Text.{trim_space, to_lower, has_prefix}
use helix_acs.Text.Prefixes.{cons-eq-nil_test}
use helix_acs.Schema.Vendor.{
  sort_prefixes, first_prefix, is_separator, extend_first, pieces, fields, first, normalise_vendor,
}
use helix_acs.Schema.Vendor.Sorting.{sort_prefixes-All, All-sort_prefixes}
use helix_acs.Schema.Vendor.Longest.{first_prefix-none}

abbrev pub AreSeparators : String → Type 0
AreSeparators String.[] = Unit
AreSeparators (String.◌∷◌ c s) = (is_separator c ≡ true) × AreSeparators s

abbrev filled : String → Bool
filled w = not (str_eq w "")

extend_first-filled :
    (c : Prim.Native.Char.Char) (ws : List String) → select filled (extend_first c ws) ≢ []
extend_first-filled c [] = rw (cons-eq-nil_test c "") (cc)
extend_first-filled c (w ∷ ws) = rw (cons-eq-nil_test c w) (cc)

fields-empty : (s : String) → fields s ≡ [] → AreSeparators s
unfolding fields
fields-empty String.[] h = tt
fields-empty (String.◌∷◌ c s) h = elim (Bool-cases (is_separator c)) [
  | inl yes_sep ↦ (yes_sep, fields-empty s (ground arith))
  | inr no_sep ↦ absurd (extend_first-filled c (pieces s) (ground arith))
]

fields_of_separators : (s : String) → AreSeparators s → fields s ≡ []
unfolding fields
fields_of_separators String.[] h = refl
fields_of_separators (String.◌∷◌ c s) (p, h) = rw p (fields_of_separators s h)

first-none : (ws : List String) → first ws ≡ none → ws ≡ []
first-none [] h = refl
first-none (w ∷ ws) h = cc

no_prefix :
    (s : String) (ps : List String)
    → All (λ q. has_prefix s q ≡ false) ps
    → first_prefix s ps ≡ none
unfolding first_prefix
no_prefix s [] h = refl
no_prefix s (p ∷ ps) (e, h) = rw e (no_prefix s ps h)

-- The panic happens exactly for the manufacturers whose trimmed and lower-cased text is not
-- empty, begins with no listed vendor prefix, and holds nothing but the separators of the
-- fallback (space, comma, full stop, slash, backslash).
pub normalise_vendor-none_iff :
    (order : List String) (manufacturer : String)
    → (normalise_vendor order manufacturer ≡ none) ↔ (
        (to_lower (trim_space manufacturer) ≢ "")
        × All (λ q. has_prefix (to_lower (trim_space manufacturer)) q ≡ false) order
        × AreSeparators (to_lower (trim_space manufacturer)))
unfolding normalise_vendor
normalise_vendor-none_iff order manufacturer = (there, back)
  where
    text : String
    text = to_lower (trim_space manufacturer)

    there :
        normalise_vendor order manufacturer ≡ none
        → (text ≢ "") × All (λ q. has_prefix text q ≡ false) order × AreSeparators text
    there h = elim (Option-cases (first_prefix text (sort_prefixes order))) [
      | inl e ↦ (
        ground (arith, eq_iff text ""),
        All-sort_prefixes _ order (first_prefix-none text _ e),
        fields-empty text (first-none (fields text) (ground (arith, eq_iff text ""))),
      )
      | inr (p, e) ↦ absurd (ground (arith, eq_iff text ""))
    ]

    back :
        (text ≢ "") × All (λ q. has_prefix text q ≡ false) order × AreSeparators text
        → normalise_vendor order manufacturer ≡ none
    back (some_text, clear, seps) = ground (
      arith,
      eq_iff text "",
      no_prefix text (sort_prefixes order) (sort_prefixes-All _ order clear),
      fields_of_separators text seps,
    )
