-- ===== src/Text/Split.antt =====
-- strings.Split gives one part or more.
use Prim.Native.String.{[], ◌∷◌}
use helix_acs.Prelude.{ℕ, ◌≡◌, refl, String, code, List, ◌==◌, Bool-cases, inl, inr}
use helix_acs.Text.{split}

pub split-nonempty :
    (sep : ℕ) (s : String) → (p : String) × (ps : List String) × (split sep s ≡ List.◌∷◌ p ps)
unfolding split
split-nonempty sep [] = ([], List.[], refl)
split-nonempty sep (c ∷ s) =
    let (p, ps, e) = split-nonempty sep s in
    elim (Bool-cases (code c == sep)) [
      | inl is ↦ ([], split sep s, rw is refl)
      | inr other ↦ (c ∷ p, ps, rw (other, e) refl)
    ]
