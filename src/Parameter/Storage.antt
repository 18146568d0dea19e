-- ===== src/Parameter/Storage.antt =====
-- `PostgreSQLRepository` of internal/parameter/postgresql.go over its cache in redis_cache.go. A table is the
-- list of its rows, and a statement is what its SQL says of them, with the stored procedures of
-- scripts/schema-postgresql.sql. Metadata, history and statistics are left out.
pub mod Contents
pub mod Coherent
pub mod Sequence
pub mod ByPrefix
mod Tests
use helix_acs.Prelude.{
  ℕ, ◌+◌, ◌-◌, ◌*◌, String, Bool, true, false, not, ◌&&◌, ◌||◌, List, [], ◌∷◌, ◌++◌, Option, none,
  some, if◌then◌else◌, str_eq, is_empty, length, select, take, ltb, leb,
}
use helix_acs.Text.{◌+++◌}
use helix_acs.Dict.{Dict, find, put, delete}
use helix_acs.Parameter.Like.{like, prefix_pattern}

-- A row of device_parameters. Its key is the serial and the name.
pub record Row : Type 0 where
  pub device_serial : String
  pub param_name : String
  pub param_value : String

-- A row of device_parameter_snapshots.
pub record Snapshot : Type 0 where
  pub snapshot_serial : String
  pub snapshot_type : String
  pub parameters : Dict String

-- A row of device_wan_traffic_samples.
pub record TrafficSample : Type 0 where
  pub sample_serial : String
  pub recorded_at : ℕ
  pub bytes_sent : ℕ
  pub bytes_received : ℕ

pub record Storage : Type 0 where
  pub rows : List Row
  pub snapshots : List Snapshot
  pub samples : List TrafficSample
  pub cache : Dict (Dict String)

-- A statement is executed, is not, or is executed and its answer is lost.
pub data Outcome : Type 0 where
  executed refused answer_lost : Outcome

unfoldable pub cache_key : String → String
cache_key serial = "params:" +++ serial

abbrev pub has_key_of : String → String → Row → Bool
has_key_of serial name r = str_eq r.device_serial serial && str_eq r.param_name name

-- INSERT … ON CONFLICT (device_serial, param_name) DO UPDATE
unfoldable pub upsert_row : String → String → String → List Row → List Row
upsert_row serial name v [] =
    record { device_serial = serial; param_name = name; param_value = v } ∷ []
upsert_row serial name v (r ∷ rows) =
    if has_key_of serial name r
    then record r { param_value = v } ∷ rows
    else r ∷ upsert_row serial name v rows

unfoldable pub upsert_device_parameters : String → Dict String → List Row → List Row
unfolding upsert_row
upsert_device_parameters serial [] rows = rows
upsert_device_parameters serial ((k, v) ∷ params) rows =
    upsert_row serial k v (upsert_device_parameters serial params rows)

-- The map of the selected rows.
unfoldable pub rows_to_params : List Row → Dict String
unfolding put
rows_to_params [] = []
rows_to_params (r ∷ rows) = put r.param_name r.param_value (rows_to_params rows)

unfoldable pub rows_of : String → List Row → List Row
rows_of serial rows = select (λ r. str_eq r.device_serial serial) rows

-- The cache's entry is dropped, if the call succeeds; whether it does is not looked at.
unfoldable pub invalidate : Bool → String → Storage → Storage
unfolding cache_key delete
invalidate deleted serial s =
    if deleted then record s { cache = delete (cache_key serial) s.cache } else s

unfoldable pub update_parameters : Outcome → Bool → String → Dict String → Storage → Storage × Bool
unfolding upsert_device_parameters invalidate
update_parameters outcome deleted serial params s =
    let updated = record s { rows = upsert_device_parameters serial params s.rows } in
    if is_empty params then (s, true) else elim outcome [
      | executed ↦ (invalidate deleted serial updated, true)
      | refused ↦ (s, false)
      | answer_lost ↦ (updated, false)
    ]

abbrev pub first_value : List Row → String
first_value [] = ""
first_value (r ∷ rows) = r.param_value

-- `none` is an error; without a row it is the empty text.
unfoldable pub get_parameter : Bool → String → String → Storage → Option String
get_parameter answered serial name s =
    if answered then some (first_value (select (has_key_of serial name) s.rows)) else none

unfoldable pub cached_params : Bool → String → Storage → Option (Dict String)
unfolding find cache_key
cached_params answered serial s = if answered then find (cache_key serial) s.cache else none

-- What a miss leads to: the query, and the new entry of the cache if the call succeeds.
abbrev pub queried : Bool → Bool → String → Storage → Storage × Option (Dict String)
unfolding rows_to_params rows_of put cache_key
queried false cached serial s = (s, none)
queried true cached serial s =
    let params = rows_to_params (rows_of serial s.rows) in
    (if cached then record s { cache = put (cache_key serial) params s.cache } else s, some params)

-- Whether the cache answers, whether the database does, and whether the cache stores the entry.
unfoldable pub get_all_parameters :
    Bool → Bool → Bool → String → Storage → Storage × Option (Dict String)
unfolding cached_params queried
get_all_parameters cache_answers answered cached serial s =
    elim (cached_params cache_answers serial s) [
      | some found ↦ (s, some found)
      | none ↦ queried answered cached serial s
    ]

unfoldable pub get_parameters_by_prefix : Bool → String → String → Storage → Option (Dict String)
unfolding rows_to_params rows_of like prefix_pattern
get_parameters_by_prefix answered serial prefix s =
    if answered
    then some (
        rows_to_params
          (select (λ r. like (prefix_pattern prefix) r.param_name) (rows_of serial s.rows)))
    else none

unfoldable pub count_parameters : Bool → String → Storage → Option ℕ
unfolding rows_of
count_parameters answered serial s =
    if answered then some (length (rows_of serial s.rows)) else none

-- Whether the two deletions are executed; only an error of the first is returned.
unfoldable pub delete_device_parameters : Outcome → Bool → String → Storage → Storage × Bool
unfolding invalidate
delete_device_parameters outcome deleted serial s =
    let emptied = record s { rows = select (λ r. not (str_eq r.device_serial serial)) s.rows } in
    elim outcome [
      | executed ↦ (invalidate deleted serial emptied, true)
      | refused ↦ (s, false)
      | answer_lost ↦ (emptied, false)
    ]

abbrev pub is_snapshot : String → String → Snapshot → Bool
is_snapshot serial snap_type n = str_eq n.snapshot_serial serial && str_eq n.snapshot_type snap_type

unfoldable pub put_snapshot : String → String → Dict String → List Snapshot → List Snapshot
put_snapshot serial snap_type params [] =
    record { snapshot_serial = serial; snapshot_type = snap_type; parameters = params } ∷ []
put_snapshot serial snap_type params (n ∷ ns) =
    if is_snapshot serial snap_type n
    then record n { parameters = params } ∷ ns
    else n ∷ put_snapshot serial snap_type params ns

unfoldable pub save_snapshot : Outcome → String → String → Dict String → Storage → Storage × Bool
unfolding put_snapshot
save_snapshot outcome serial snap_type params s =
    let saved = record s { snapshots = put_snapshot serial snap_type params s.snapshots } in
    elim outcome [ executed ↦ (saved, true) | refused ↦ (s, false) | answer_lost ↦ (saved, false) ]

abbrev pub first_snapshot : List Snapshot → Option (Dict String)
first_snapshot [] = none
first_snapshot (n ∷ ns) = some n.parameters

-- The outer `none` is an error, the inner one says that there is no snapshot.
unfoldable pub get_snapshot : Bool → String → String → Storage → Option (Option (Dict String))
get_snapshot answered serial snap_type s =
    if answered
    then some (first_snapshot (select (is_snapshot serial snap_type) s.snapshots))
    else none

unfoldable pub delete_snapshot : Outcome → String → String → Storage → Storage × Bool
delete_snapshot outcome serial snap_type s =
    let left = record s {
      snapshots = select (λ n. not (is_snapshot serial snap_type n)) s.snapshots;
    } in
    elim outcome [ executed ↦ (left, true) | refused ↦ (s, false) | answer_lost ↦ (left, false) ]

-- What the calls for one device come to in `CaptureAllDeviceSnapshots`.
pub record Capture : Type 0 where
  pub cache_answers : Bool
  pub answered : Bool
  pub cached : Bool
  pub saving : Outcome

abbrev pub save_all : Outcome → String → Storage × Option (Dict String) → Storage
unfolding save_snapshot
save_all saving serial (s, none) = s
save_all saving serial (s, some params) = (save_snapshot saving serial "last_known_good" params s).0

-- Over the serials that the first query gives.
unfoldable pub capture_all_device_snapshots : List (String × Capture) → Storage → Storage
unfolding get_all_parameters save_all
capture_all_device_snapshots [] s = s
capture_all_device_snapshots ((serial, c) ∷ devices) s =
    capture_all_device_snapshots devices
      (save_all c.saving serial (get_all_parameters c.cache_answers c.answered c.cached serial s))
