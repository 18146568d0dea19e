-- ===== src/Parameter/Storage/Contents.antt =====
-- What the rows of the parameters hold, as a function of device and name.
use helix_acs.Prelude.{
  ◌≡◌, refl, String, not, ◌&&◌, List, [], ◌∷◌, Option, none, some, arith, if◌then◌else◌, str_eq,
  eq_iff, select, or_else,
}
use helix_acs.Dict.{Dict, find}
use helix_acs.Dict.Laws.{find-put}
use helix_acs.Parameter.Storage.{
  Row, has_key_of, upsert_row, upsert_device_parameters, rows_to_params, rows_of,
}

unfoldable pub stored : List Row → String → String → Option String
stored [] serial name = none
stored (r ∷ rows) serial name =
    if has_key_of serial name r then some r.param_value else stored rows serial name

stored-upsert_row :
    (serial name v : String) (rows : List Row) (se na : String)
    → stored (upsert_row serial name v rows) se na
      ≡ (if str_eq serial se && str_eq name na then some v else stored rows se na)
unfolding stored upsert_row
stored-upsert_row serial name v [] se na = refl
stored-upsert_row serial name v (r ∷ rows) se na = ground (
  arith,
  eq_iff serial se,
  eq_iff name na,
  eq_iff r.device_serial serial,
  eq_iff r.param_name name,
  eq_iff r.device_serial se,
  eq_iff r.param_name na,
  stored-upsert_row serial name v rows se na,
)

-- An update of one device: what it names is as given, all else is kept.
pub stored-upsert_device_parameters :
    (serial : String) (params : Dict String) (rows : List Row) (se na : String)
    → stored (upsert_device_parameters serial params rows) se na ≡ (
        if str_eq serial se
        then or_else (find na params) (stored rows se na)
        else stored rows se na)
unfolding upsert_device_parameters find
stored-upsert_device_parameters serial [] rows se na = ground arith
stored-upsert_device_parameters serial ((k, v) ∷ params) rows se na = ground (
  arith,
  stored-upsert_row serial k v (upsert_device_parameters serial params rows) se na,
  stored-upsert_device_parameters serial params rows se na,
)

pub find-rows_to_params :
    (serial : String) (rows : List Row) (name : String)
    → find name (rows_to_params (rows_of serial rows)) ≡ stored rows serial name
unfolding stored rows_to_params rows_of find
find-rows_to_params serial [] name = refl
find-rows_to_params serial (r ∷ rows) name = ground (
  arith,
  find-rows_to_params serial rows name,
  find-put r.param_name name r.param_value (rows_to_params (rows_of serial rows)),
)

pub stored-deleted :
    (serial : String) (rows : List Row) (se na : String)
    → stored (select (λ r. not (str_eq r.device_serial serial)) rows) se na
      ≡ (if str_eq serial se then none else stored rows se na)
unfolding stored
stored-deleted serial [] se na = ground arith
stored-deleted serial (r ∷ rows) se na = ground (
  arith,
  eq_iff serial se,
  eq_iff r.device_serial serial,
  eq_iff r.device_serial se,
  stored-deleted serial rows se na,
)
