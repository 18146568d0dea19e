-- ===== src/Dict.antt =====
-- Go's `map` with string keys, as an association list. The order of the list stands for the order
-- of one iteration, which Go leaves open: a theorem over every list holds for every order.
pub mod Laws
use helix_acs.Prelude.{
  String, Bool, List, [], ◌∷◌, Option, none, some, if◌then◌else◌, str_eq, is_some,
}

abbrev pub Dict {ℓ} : Type ℓ → Type ℓ
Dict V = List (String × V)

module _ {ℓ} {V : Type ℓ} where
  -- v, ok := d[k]
  unfoldable pub find : String → Dict V → Option V
  find k [] = none
  find k ((j, v) ∷ d) = if str_eq j k then some v else find k d

  -- d[k] = v
  unfoldable pub put : String → V → Dict V → Dict V
  put k v [] = (k, v) ∷ []
  put k v ((j, w) ∷ d) = if str_eq j k then (k, v) ∷ d else (j, w) ∷ put k v d

  -- delete(d, k)
  unfoldable pub delete : String → Dict V → Dict V
  delete k [] = []
  delete k ((j, v) ∷ d) = let rest = delete k d in if str_eq j k then rest else (j, v) ∷ rest

  -- for k, v := range src { dst[k] = v }
  unfoldable pub copy_into : Dict V → Dict V → Dict V
  unfolding put
  copy_into [] dst = dst
  copy_into ((k, v) ∷ src) dst = put k v (copy_into src dst)

  -- for k, v := range d { if p(v) { delete(d, k) } }
  unfoldable pub drop_where : (V → Bool) → Dict V → Dict V
  unfolding delete
  drop_where p [] = []
  drop_where p ((k, v) ∷ d) =
      let rest = drop_where p d in if p v then delete k rest else (k, v) ∷ rest

  -- _, ok := d[k]
  unfoldable pub has_key : String → Dict V → Bool
  unfolding find
  has_key k d = is_some (find k d)

-- d[k] of a map of strings: the zero value is the empty text.
unfoldable pub value_of : String → Dict String → String
unfolding find
value_of k d = elim (find k d) [ none ↦ "" | some v ↦ v ]

-- d[k] of a map of flags.
unfoldable pub flag_of : String → Dict Bool → Bool
unfolding find
flag_of k d = elim (find k d) [ none ↦ Bool.false | some v ↦ v ]
