-- ===== src/Text/Tokens.antt =====
-- A replacer over a table of tokens, none of which can begin another: each token is replaced by
-- its own text, wherever it stands behind text without the tokens' first character.
use text.Mathlib.TextLemmas.{nil-append, cons-append}
use helix_acs.Prelude.{
  ℕ, suc, ◌-◌, String, code, ◌≡◌, ap, sym, ◌∙◌, Bool, true, false, ◌||◌, not, List, [], ◌∷◌, some,
  arith, All, ◌==◌,
}
use helix_acs.Text.{◌+++◌, has_prefix, char_count}
use helix_acs.Text.Prefixes.{has_prefix-append}
use helix_acs.Text.Replace.{
  first_match, replacer_from, replacer, Lacks, StartWith, first_match-absent,
}

-- The two texts differ at a place that both have.
unfoldable pub differ : String → String → Bool
differ String.[] q = false
differ (String.◌∷◌ c p) String.[] = false
differ (String.◌∷◌ c p) (String.◌∷◌ d q) = not (code c == code d) || differ p q

differ-has_prefix : (p q t : String) → differ p q ≡ true → has_prefix (p +++ t) q ≡ false
unfolding differ has_prefix
differ-has_prefix String.[] q t h = cc
differ-has_prefix (String.◌∷◌ c p) String.[] t h = cc
differ-has_prefix (String.◌∷◌ c p) (String.◌∷◌ d q) t h =
    rw cons-append (ground (arith, differ-has_prefix p q t))

-- No token can stand where a later one of the table begins.
abbrev pub IsPrefixFree : List (String × String) → Type 0
IsPrefixFree [] = Unit
IsPrefixFree (e ∷ ps) = All (λ later. differ later.0 e.0 ≡ true) ps × IsPrefixFree ps

abbrev IsFound : List (String × String) → String × String → Type 0
IsFound ps e = (b : String) → first_match ps (e.0 +++ b) ≡ some e

later-IsFound :
    (e : String × String) (ps qs : List (String × String))
    → All (λ later. differ later.0 e.0 ≡ true) qs
    → All (IsFound ps) qs
    → All (IsFound (e ∷ ps)) qs
unfolding first_match
later-IsFound e ps [] _ _ = tt
later-IsFound e ps (l ∷ qs) (d, ds) (f, fs) =
    ((λ b. rw (differ-has_prefix l.0 e.0 b d) (f b)), later-IsFound e ps qs ds fs)

IsPrefixFree-IsFound : (ps : List (String × String)) → IsPrefixFree ps → All (IsFound ps) ps
IsPrefixFree-IsFound [] h = tt
IsPrefixFree-IsFound (e ∷ ps) (d, h) = (
  (λ b. unfold first_match in rw (has_prefix-append e.0 b)),
  later-IsFound e ps ps d (IsPrefixFree-IsFound ps h),
)

-- The rest of a match is skipped.
replacer_from-skip :
    (ps : List (String × String)) (u b : String)
    → replacer_from ps (char_count u) (u +++ b) ≡ replacer_from ps 0 b
unfolding replacer_from
replacer_from-skip ps String.[] b = rw nil-append
replacer_from-skip ps (String.◌∷◌ c u) b = rw cons-append (replacer_from-skip ps u b)

suc_less : (n : ℕ) → suc n - 1 ≡ n
suc_less n = omega arith

replacer-token :
    (n : ℕ) (all ps : List (String × String))
    → StartWith n ps
    → All (IsFound all) ps
    → All (λ e. (b : String) → replacer all (e.0 +++ b) ≡ e.1 +++ replacer all b) ps
unfolding replacer
replacer-token n all [] h f = tt
replacer-token n all ((String.[], new) ∷ ps) h f = absurd h
replacer-token n all ((String.◌∷◌ c old, new) ∷ ps) (e, h) (f, fs) = (
  (λ b.
      let found : first_match all (String.◌∷◌ c (old +++ b)) ≡ some (String.◌∷◌ c old, new) =
        rw (cons-append c old b) at (f b) in
      rw (cons-append c old b) (
        rw (found, replacer_from, suc_less (char_count old))
          (ap (λ t. new +++ t) (replacer_from-skip all old b)))),
  replacer-token n all ps h fs,
)

replacer-plain :
    (n : ℕ) (ps : List (String × String)) (a s : String)
    → StartWith n ps
    → Lacks n a
    → replacer ps (a +++ s) ≡ a +++ replacer ps s
unfolding replacer
replacer-plain n ps String.[] s h _ =
    ap (λ t. replacer ps t) (nil-append s) ∙ sym (nil-append (replacer ps s))
replacer-plain n ps (String.◌∷◌ d a) s h (p, l) = rw (cons-append d a s) (
    rw (first_match-absent n ps d (a +++ s) h p, replacer_from)
      (ap (λ t. String.◌∷◌ d t) (replacer-plain n ps a s h l) ∙ sym (cons-append d a _)))

-- Every token of the table.
pub replacer-tokens :
    (n : ℕ) (table : List (String × String))
    → StartWith n table
    → IsPrefixFree table
    → All
        (λ e.
          (a b : String)
          → Lacks n a
          → replacer table (a +++ (e.0 +++ b)) ≡ a +++ (e.1 +++ replacer table b))
        table
replacer-tokens n table h free =
    combine table (replacer-token n table table h (IsPrefixFree-IsFound table free))
  where
    combine :
        (ps : List (String × String))
        → All (λ e. (b : String) → replacer table (e.0 +++ b) ≡ e.1 +++ replacer table b) ps
        → All
            (λ e.
              (a b : String)
              → Lacks n a
              → replacer table (a +++ (e.0 +++ b)) ≡ a +++ (e.1 +++ replacer table b))
            ps
    combine [] _ = tt
    combine (e ∷ ps) (f, fs) = (
      (λ a b l. replacer-plain n table a (e.0 +++ b) h l ∙ ap (λ t. a +++ t) (f b)),
      combine ps fs,
    )
