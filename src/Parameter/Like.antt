-- ===== src/Parameter/Like.antt =====
-- The LIKE of SQL with a backslash as its escape character, and the patterns that
-- internal/parameter/postgresql.go builds for it.
use Prim.Native.String.{[], ◌∷◌}
use text.Mathlib.TextLemmas.{nil-append, cons-append, append_assoc}
use helix_acs.Prelude.{
  String, Char, code, Bool, true, false, ◌&&◌, ◌||◌, ◌==◌, ◌≡◌, ◌≢◌, refl, arith, if◌then◌else◌,
  inl, inr, Bool-cases,
}
use helix_acs.Text.{◌+++◌, has_prefix}
use helix_acs.Text.Replace.{replace_all, Lacks, replace_all-cons_match, replace_all-cons_other}

-- Whether some end of the text passes a test.
abbrev pub some_end : (String → Bool) → String → Bool
some_end p [] = p []
some_end p (c ∷ s) = p (c ∷ s) || some_end p s

abbrev pub literal_then : Char → (String → Bool) → String → Bool
literal_then c p [] = false
literal_then c p (d ∷ s) = code d == code c && p s

abbrev pub any_then : (String → Bool) → String → Bool
any_then p [] = false
any_then p (d ∷ s) = p s

-- text LIKE pattern ESCAPE '\'. A pattern that ends in the escape character is an error of SQL; here it
-- matches nothing.
unfoldable pub like : String → String → Bool
like [] [] = true
like [] (d ∷ s) = false
like (c ∷ []) s =
    if code c == b'%'
    then true
    else if code c == b'_'
    then any_then (like []) s
    else if code c == b'\\'
    then false
    else literal_then c (like []) s
like (c ∷ e ∷ p) s =
    if code c == b'%'
    then some_end (like (e ∷ p)) s
    else if code c == b'_'
    then any_then (like (e ∷ p)) s
    else if code c == b'\\'
    then literal_then e (like p) s
    else literal_then c (like (e ∷ p)) s

-- The pattern of `GetParametersByPrefix`.
unfoldable pub prefix_pattern : String → String
unfolding replace_all
prefix_pattern prefix = replace_all prefix "_" "\\_" +++ "%"

like_end : (s : String) → like "%" s ≡ true
unfolding like
like_end s = refl

like_literal :
    (c : Char) (p s : String)
    → code c ≢ b'%'
    → code c ≢ b'_'
    → code c ≢ b'\\'
    → like (c ∷ p) s ≡ literal_then c (like p) s
unfolding like
like_literal c [] s h k l = ground arith
like_literal c (e ∷ p) s h k l = ground arith

append_cons_cons : (c d : Char) (q : String) → (c ∷ d ∷ []) +++ q ≡ c ∷ d ∷ q
append_cons_cons c d q = rw (cons-append, cons-append, nil-append) refl

like_escaped : (e : Char) (p s : String) → like ("\\" ∷ e ∷ p) s ≡ literal_then e (like p) s
unfolding like
like_escaped e p s = refl

like_underscore : (q s : String) → like ("\\_" +++ q) s ≡ literal_then "_" (like q) s
like_underscore q s = rw (append_cons_cons "\\" "_" q) (like_escaped "_" q s)

prefix_pattern_underscore :
    (c : Char) (p : String)
    → (code c == b'_') ≡ true
    → prefix_pattern (c ∷ p) ≡ "\\_" +++ prefix_pattern p
unfolding prefix_pattern
prefix_pattern_underscore c p h =
    rw (replace_all-cons_match c "_" p "\\_" h) (append_assoc "\\_" _ "%")

prefix_pattern_other :
    (c : Char) (p : String)
    → (code c == b'_') ≡ false
    → prefix_pattern (c ∷ p) ≡ c ∷ prefix_pattern p
unfolding prefix_pattern
prefix_pattern_other c p h = rw (replace_all-cons_other c "_" p "\\_" h) (cons-append c _ "%")

literal_then-has_prefix :
    (c d : Char) (q : String → Bool) (p s : String)
    → code d ≡ code c
    → ((t : String) → q t ≡ has_prefix t p)
    → literal_then d q s ≡ has_prefix s (c ∷ p)
unfolding has_prefix
literal_then-has_prefix c d q p [] e same = refl
literal_then-has_prefix c d q p (b ∷ s) e same = rw (e, same s) refl

-- For a prefix without `%` and backslash the pattern matches the texts with that prefix.
pub like-prefix_pattern :
    (prefix s : String)
    → Lacks b'%' prefix
    → Lacks b'\\' prefix
    → like (prefix_pattern prefix) s ≡ has_prefix s prefix
unfolding prefix_pattern has_prefix
like-prefix_pattern [] s h k = like_end s
like-prefix_pattern (c ∷ p) s (h, hs) (k, ks) = elim (Bool-cases (code c == b'_')) [
  | inl wild ↦
      rw (prefix_pattern_underscore c p wild, like_underscore)
        (literal_then-has_prefix c "_" (like (prefix_pattern p)) p s (ground arith)
          (λ t. like-prefix_pattern p t hs ks))
  | inr plain ↦
      rw (prefix_pattern_other c p plain, like_literal c (prefix_pattern p) s h (ground arith) k)
        (literal_then-has_prefix c c (like (prefix_pattern p)) p s refl
          (λ t. like-prefix_pattern p t hs ks))
]
