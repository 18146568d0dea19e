-- ===== src/Parameter/Storage/ByPrefix.antt =====
-- `GetParametersByPrefix` of internal/parameter/postgresql.go.
use helix_acs.Prelude.{
  ◌≡◌, refl, ◌∙◌, String, Bool, true, List, [], ◌∷◌, none, some, if◌then◌else◌, arith, eq_iff,
  select,
}
use helix_acs.Text.{has_prefix}
use helix_acs.Text.Replace.{Lacks}
use helix_acs.Dict.{Dict, find}
use helix_acs.Dict.Laws.{find-put}
use helix_acs.Parameter.Like.{like, prefix_pattern, like-prefix_pattern}
use helix_acs.Parameter.Storage.{Row, Storage, rows_of, rows_to_params, get_parameters_by_prefix}
use helix_acs.Parameter.Storage.Contents.{stored, find-rows_to_params}

find-selected :
    (p : String → Bool) (rows : List Row) (name : String)
    → find name (rows_to_params (select (λ r. p r.param_name) rows))
      ≡ (if p name then find name (rows_to_params rows) else none)
unfolding find rows_to_params
find-selected p [] name = ground arith
find-selected p (r ∷ rows) name = ground (
  arith,
  find-selected p rows name,
  eq_iff r.param_name name,
  find-put r.param_name name r.param_value (rows_to_params rows),
  find-put r.param_name name r.param_value (rows_to_params (select (λ q. p q.param_name) rows)),
)

-- When the database answers, the stored parameters of the device whose names have the prefix are
-- returned, with their values, and no others, for a prefix without `%` and backslash.
pub find-get_parameters_by_prefix :
    (serial prefix : String) (s : Storage)
    → Lacks b'%' prefix
    → Lacks b'\\' prefix
    → (params : Dict String) × (get_parameters_by_prefix true serial prefix s ≡ some params)
      × ((name : String)
          → find name params ≡ (if has_prefix name prefix then stored s.rows serial name else none))
unfolding get_parameters_by_prefix
find-get_parameters_by_prefix serial prefix s h k = (
  rows_to_params (select (λ r. like (prefix_pattern prefix) r.param_name) (rows_of serial s.rows)),
  refl,
  λ name.
      find-selected (like (prefix_pattern prefix)) (rows_of serial s.rows) name
      ∙ rw (like-prefix_pattern prefix name h k, find-rows_to_params serial s.rows name) refl,
)
