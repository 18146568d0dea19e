-- ===== src/Dict/Laws.antt =====
-- The laws of maps, in the form of a conditional where a key is compared.
use helix_acs.Prelude.{
  Bool, String, ◌≡◌, refl, Bool, List, [], ◌∷◌, Option, none, some, arith, if◌then◌else◌, str_eq,
  eq_iff, or_else, eq_refl,
}
use helix_acs.Dict.{Dict, find, put, delete, drop_where, copy_into}

module _ {ℓ} {V : Type ℓ} where
  pub find-put :
      (k j : String) (v : V) (d : Dict V)
      → find j (put k v d) ≡ (if str_eq k j then some v else find j d)
  unfolding find put
  find-put k j v [] = refl
  find-put k j v ((i, w) ∷ d) = ground (arith, eq_iff k j, eq_iff i k, eq_iff i j, find-put k j v d)

  pub find-delete :
      (k j : String) (d : Dict V) → find j (delete k d) ≡ (if str_eq k j then none else find j d)
  unfolding find delete
  find-delete k j [] = ground arith
  find-delete k j ((i, w) ∷ d) =
      ground (arith, eq_iff k j, eq_iff i k, eq_iff i j, find-delete k j d)

  -- A copy: the entries of the source come first.
  pub find-copy_into :
      (src dst : Dict V) (j : String)
      → find j (copy_into src dst) ≡ or_else (find j src) (find j dst)
  unfolding find copy_into
  find-copy_into [] dst j = refl
  find-copy_into ((k, v) ∷ src) dst j =
      ground (arith, find-put k j v (copy_into src dst), find-copy_into src dst j)

-- What is left of an entry whose value may be dropped.
abbrev pub unless {ℓ} : {V : Type ℓ} → (V → Bool) → Option V → Option V
unless p none = none
unless p (some v) = if p v then none else some v

pub find-drop_where :
    {V : Type 0} (p : V → Bool) (d : Dict V) (j : String)
    → find j (drop_where p d) ≡ unless p (find j d)
unfolding find drop_where
find-drop_where p [] j = refl
find-drop_where p ((k, v) ∷ d) j =
    ground (arith, eq_iff k j, find-drop_where p d j, find-delete k j (drop_where p d))

pub ruleset dict_laws = (find-put, find-delete, find-copy_into, eq_refl)
