-- ===== src/Text/Replace.antt =====
-- strings.ReplaceAll and strings.NewReplacer: one pass from the left, matches do not overlap.
use Prim.Native.String.{[], ◌∷◌}
use text.Mathlib.TextLemmas.{nil-append, cons-append}
use helix_acs.Prelude.{
  ℕ, zero, suc, ◌-◌, String, Char, code, ◌≡◌, ◌≢◌, refl, ap, true, false, List, Option, none, some,
  arith, ◌==◌, if◌then◌else◌,
}
use helix_acs.Text.{◌+++◌, has_prefix, char_count}

-- `skip` counts what is left of a match that has been replaced. The old text is not empty.
replace_from : String → String → ℕ → String → String
replace_from old new skip [] = []
replace_from old new (suc skip) (c ∷ s) = replace_from old new skip s
replace_from old new zero (c ∷ s) = elim (has_prefix (c ∷ s) old) [
  | true ↦ new +++ replace_from old new (char_count old - 1) s
  | false ↦ c ∷ replace_from old new zero s
]

-- strings.ReplaceAll for an old text that is not empty.
unfoldable pub replace_all : String → String → String → String
unfolding replace_from has_prefix
replace_all s old new = replace_from old new 0 s

-- The first pair whose old text stands at the front of `s`, as `Replacer` looks them up.
unfoldable pub first_match : List (String × String) → String → Option (String × String)
unfolding has_prefix
first_match List.[] s = none
first_match (List.◌∷◌ (old, new) ps) s =
    if has_prefix s old then some (old, new) else first_match ps s

unfoldable pub replacer_from : List (String × String) → ℕ → String → String
replacer_from ps skip [] = []
replacer_from ps (suc skip) (c ∷ s) = replacer_from ps skip s
replacer_from ps zero (c ∷ s) = elim (first_match ps (c ∷ s)) [
  | some (old, new) ↦ new +++ replacer_from ps (char_count old - 1) s
  | none ↦ c ∷ replacer_from ps zero s
]

-- strings.NewReplacer(pairs…).Replace(s)
unfoldable pub replacer : List (String × String) → String → String
unfolding replacer_from first_match
replacer ps s = replacer_from ps 0 s

-- No character of the text has this code.
abbrev pub Lacks : ℕ → String → Type 0
Lacks n [] = Unit
Lacks n (c ∷ s) = (code c ≢ n) × Lacks n s

pub Lacks-append : (n : ℕ) (s t : String) → Lacks n s → Lacks n t → Lacks n (s +++ t)
Lacks-append n [] t _ h = rw nil-append h
Lacks-append n (c ∷ s) t (p, g) h = rw cons-append (p, Lacks-append n s t g h)

-- A text without the first character of the old text is left as it is.
pub replace_all_absent :
    (s new : String) (c : Char) (old : String) → Lacks (code c) s → replace_all s (c ∷ old) new ≡ s
unfolding replace_all
replace_all_absent [] new c old h = refl
replace_all_absent (d ∷ s) new c old (p, h) = ground (arith, replace_all_absent s new c old h)

-- The steps of a replacement of one character.
pub replace_all-cons_match :
    (c d : Char) (s new : String)
    → (code c == code d) ≡ true
    → replace_all (c ∷ s) (d ∷ []) new ≡ new +++ replace_all s (d ∷ []) new
unfolding replace_all
replace_all-cons_match c d s new h = rw (h, replace_all, replace_from, has_prefix) refl

pub replace_all-cons_other :
    (c d : Char) (s new : String)
    → (code c == code d) ≡ false
    → replace_all (c ∷ s) (d ∷ []) new ≡ c ∷ replace_all s (d ∷ []) new
unfolding replace_all
replace_all-cons_other c d s new h = rw (h, replace_all, replace_from, has_prefix) refl

-- The same of a replacer whose old texts all begin with that character.
abbrev pub StartWith : ℕ → List (String × String) → Type 0
StartWith n List.[] = Unit
StartWith n (List.◌∷◌ ([], new) ps) = ⊥
StartWith n (List.◌∷◌ (c ∷ old, new) ps) = (code c ≡ n) × StartWith n ps

pub first_match-absent :
    (n : ℕ) (ps : List (String × String)) (d : Char) (s : String)
    → StartWith n ps
    → code d ≢ n
    → first_match ps (d ∷ s) ≡ none
unfolding first_match
first_match-absent n List.[] d s h p = refl
first_match-absent n (List.◌∷◌ ([], new) ps) d s h p = absurd h
first_match-absent n (List.◌∷◌ (c ∷ old, new) ps) d s (e, h) p =
    ground (arith, first_match-absent n ps d s h p)

pub replacer_absent :
    (n : ℕ) (ps : List (String × String)) (s : String)
    → StartWith n ps
    → Lacks n s
    → replacer ps s ≡ s
unfolding replacer
replacer_absent n ps [] h a = refl
replacer_absent n ps (d ∷ s) h (p, a) =
    rw (first_match-absent n ps d s h p, replacer_from)
      (ap (λ t. d ∷ t) (replacer_absent n ps s h a))
