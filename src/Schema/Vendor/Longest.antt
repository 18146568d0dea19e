-- ===== src/Schema/Vendor/Longest.antt =====
-- Which vendor a manufacturer's text selects: the longest known prefix, in whatever order Go
-- iterates over the table.
use text.Mathlib.TextPositions.{slice-append_left}
use Prim.Native.String.{slice}
use helix_acs.Prelude.{
  ◌≤◌, ◌≡◌, ◌≢◌, sym, ap, ◌∙◌, String, Bool, true, false, List, [], ◌∷◌, none, some, arith, All,
  str_eq, eq_iff, eq_refl, Bool-cases, inl, inr, ◌||◌, Option-cases,
}
use mathlib.Core.Path.{subst}
use mathlib.Core.Bool.{false≢true}
use helix_acs.Text.{byte_len, has_prefix, char_count, drop_chars, trim_space, to_lower}
use helix_acs.Text.Prefixes.{has_prefix-split}
use helix_acs.Dict.{value_of}
use helix_acs.Schema.Vendor.{known_vendors, sort_prefixes, first_prefix, normalise_vendor}
use helix_acs.Schema.Vendor.Sorting.{
  IsLongest, IsDescending, sort_prefixes-IsDescending, sort_prefixes-All, All-sort_prefixes,
}

unfoldable pub member : String → List String → Bool
member k [] = false
member k (x ∷ xs) = str_eq x k || member k xs

All-of_member :
    (P : String → Type 0) (xs : List String) → ((k : String) → member k xs ≡ true → P k) → All P xs
unfolding member
All-of_member P [] h = tt
All-of_member P (x ∷ xs) h =
    (h x (rw (eq_refl x)), All-of_member P xs (λ k m. h k (ground (arith, m))))

member_of_All :
    (P : String → Type 0) (xs : List String) (k : String) → All P xs → member k xs ≡ true → P k
unfolding member
member_of_All P [] k h m = cc
member_of_All P (x ∷ xs) k (p, h) m = elim (Bool-cases (str_eq x k)) [
  | inl same ↦ rw (← (eq_iff x k).0 same) p
  | inr other ↦ member_of_All P xs k h (rw other at m)
]

-- Two lists with the same elements, as two iterations over one map are.
abbrev pub SameElements : List String → List String → Type 0
SameElements xs ys = (k : String) → member k xs ≡ member k ys

-- Two prefixes of a text of the same length are equal.
prefix_unique :
    (s p q : String)
    → has_prefix s p ≡ true
    → has_prefix s q ≡ true
    → byte_len p ≡ byte_len q
    → p ≡ q
prefix_unique s p q hp hq e = sym (front p hp) ∙ ap (λ n. slice s 0 n) e ∙ front q hq
  where
    front : (r : String) → has_prefix s r ≡ true → slice s 0 (byte_len r) ≡ r
    front r h =
        ap (λ t. slice t 0 (byte_len r)) (has_prefix-split s r h)
        ∙ slice-append_left r (drop_chars (char_count r) s)

of_sorted :
    (xs : List String) (k : String) → member k (sort_prefixes xs) ≡ true → member k xs ≡ true
of_sorted xs k =
    member_of_All (λ j. member j xs ≡ true) (sort_prefixes xs) k
      (sort_prefixes-All _ xs (All-of_member (λ j. member j xs ≡ true) xs (λ j h. h)))

-- What the search has found: a prefix, and none of the others is longer.
abbrev pub IsBest : String → List String → String → Type 0
IsBest s ps p =
    (has_prefix s p ≡ true) × All (λ q. has_prefix s q ≡ true → byte_len q ≤ byte_len p) ps

weaken :
    (s p : String) (ps : List String)
    → IsLongest p ps
    → All (λ q. has_prefix s q ≡ true → byte_len q ≤ byte_len p) ps
weaken s p [] h = tt
weaken s p (q ∷ ps) (g, h) = ((λ _. g), weaken s p ps h)

first_prefix-IsBest :
    (s : String) (ps : List String) (p : String)
    → IsDescending ps
    → first_prefix s ps ≡ some p
    → IsBest s ps p × (member p ps ≡ true)
unfolding first_prefix member
first_prefix-IsBest s [] p d e = cc
first_prefix-IsBest s (q ∷ ps) p (l, d) e = elim (Bool-cases (has_prefix s q)) [
  | inl hit ↦
      let same : q ≡ p = ground arith in
      subst (λ r. IsBest s (q ∷ ps) r × (member r (q ∷ ps) ≡ true)) same
        ((hit, ((λ _. omega arith), weaken s q ps l)), rw (eq_refl q))
  | inr miss ↦
      let ((h, best), m) = first_prefix-IsBest s ps p d (rw miss at e) in
      ((h, ((λ g. cc), best)), ground arith)
]

pub first_prefix-none :
    (s : String) (ps : List String)
    → first_prefix s ps ≡ none
    → All (λ q. has_prefix s q ≡ false) ps
unfolding first_prefix
first_prefix-none s [] e = tt
first_prefix-none s (q ∷ ps) e = (ground arith, first_prefix-none s ps (ground arith))

module _ (xs ys : List String) (same : SameElements xs ys) where
  carry :
      (P : String → Type 0) (k : String)
      → All P (sort_prefixes xs)
      → member k (sort_prefixes ys) ≡ true
      → P k
  carry P k h =
      let on_xs = All-sort_prefixes P xs h in
      let on_ys = All-of_member P ys (λ j m. member_of_All P xs j on_xs (same j ∙ m)) in
      member_of_All P (sort_prefixes ys) k (sort_prefixes-All P ys on_ys)

  no_hit :
      (s p : String)
      → first_prefix s (sort_prefixes xs) ≡ none
      → first_prefix s (sort_prefixes ys) ≡ some p
      → ⊥
  no_hit s p e f =
      let ((h, _), m) =
        first_prefix-IsBest s (sort_prefixes ys) p (sort_prefixes-IsDescending ys) f in
      let miss = carry (λ q. has_prefix s q ≡ false) p (first_prefix-none s _ e) m in cc

  longest_le :
      (s p q : String)
      → first_prefix s (sort_prefixes xs) ≡ some p
      → first_prefix s (sort_prefixes ys) ≡ some q
      → byte_len q ≤ byte_len p
  longest_le s p q e f =
      let ((_, best), _) =
        first_prefix-IsBest s (sort_prefixes xs) p (sort_prefixes-IsDescending xs) e in
      let ((h, _), m) =
        first_prefix-IsBest s (sort_prefixes ys) q (sort_prefixes-IsDescending ys) f in
      carry (λ r. has_prefix s r ≡ true → byte_len r ≤ byte_len p) q best m h

first_prefix_order :
    (xs ys : List String) (s : String)
    → SameElements xs ys
    → first_prefix s (sort_prefixes xs) ≡ first_prefix s (sort_prefixes ys)
first_prefix_order xs ys s same = elim (Option-cases (first_prefix s (sort_prefixes xs))) [
  | inl e ↦ elim (Option-cases (first_prefix s (sort_prefixes ys))) [
    | inl f ↦ e ∙ sym f
    | inr (q, f) ↦ absurd (no_hit xs ys same s q e f)
  ]
  | inr (p, e) ↦ elim (Option-cases (first_prefix s (sort_prefixes ys))) [
    | inl f ↦ absurd (no_hit ys xs (λ k. sym (same k)) s p f e)
    | inr (q, f) ↦ e ∙ ap some (both p q e f) ∙ sym f
  ]
]
  where
    hit :
        (zs : List String) (p : String)
        → first_prefix s (sort_prefixes zs) ≡ some p
        → has_prefix s p ≡ true
    hit zs p e = (first_prefix-IsBest s (sort_prefixes zs) p (sort_prefixes-IsDescending zs) e).0.0

    both :
        (p q : String)
        → first_prefix s (sort_prefixes xs) ≡ some p
        → first_prefix s (sort_prefixes ys) ≡ some q
        → p ≡ q
    both p q e f = prefix_unique s p q (hit xs p e) (hit ys q f) (
        omega
          (arith, longest_le xs ys same s p q e f, longest_le ys xs (λ k. sym (same k)) s q p f e))

-- Two iteration orders over the same vendor prefixes give the same slug for every manufacturer,
-- whether a prefix is known, the fallback applies or the fallback panics.
pub normalise_vendor_order :
    (xs ys : List String) (manufacturer : String)
    → SameElements xs ys
    → normalise_vendor xs manufacturer ≡ normalise_vendor ys manufacturer
unfolding normalise_vendor
normalise_vendor_order xs ys manufacturer same =
    rw (first_prefix_order xs ys (to_lower (trim_space manufacturer)) same)

-- If a prefix of the trimmed and lower-cased text is in the table, the slug is the table's value
-- at a prefix p of the text than which no listed prefix of the text is longer.
pub normalise_vendor_longest :
    (order : List String) (manufacturer k : String)
    → to_lower (trim_space manufacturer) ≢ ""
    → member k order ≡ true
    → has_prefix (to_lower (trim_space manufacturer)) k ≡ true
    → (p : String) × IsBest (to_lower (trim_space manufacturer)) order p
      × (member p order ≡ true)
      × (normalise_vendor order manufacturer ≡ some (value_of p known_vendors))
unfolding normalise_vendor
normalise_vendor_longest order manufacturer k some_text listed hit =
    elim (Option-cases (first_prefix text (sort_prefixes order))) [
      | inl e ↦
          let miss =
            member_of_All (λ q. has_prefix text q ≡ false) order k
              (All-sort_prefixes _ order (first_prefix-none text _ e)) listed in
          absurd (false≢true (sym miss ∙ hit))
      | inr (p, e) ↦
          let ((h, best), m) =
            first_prefix-IsBest text (sort_prefixes order) p (sort_prefixes-IsDescending order) e in
          (p, (h, All-sort_prefixes _ order best), of_sorted order p m, rw (some_text_test, e))
    ]
  where
    text : String
    text = to_lower (trim_space manufacturer)

    some_text_test : str_eq text "" ≡ false
    some_text_test = ground (arith, eq_iff text "")
