-- ===== src/Cwmp/Summon/Paths.antt =====
-- The paths that a targeted summon asks for.
use helix_acs.Prelude.{
  ◌≡◌, refl, arith, String, sym, Bool, true, false, not, ◌||◌, List, [], ◌∷◌, ◌++◌, Option,
  if◌then◌else◌, any, All, All-append,
}
use helix_acs.Text.{has_prefix}
use helix_acs.Task.Model.{Task, TaskType, type_wifi, type_wan}
use helix_acs.Schema.Driver.{DeviceDriver}
use helix_acs.Cwmp.Soap.{has_suffix}
use helix_acs.Cwmp.Summon.{
  Summon, targeted_pending, is_tr098_name, paths_of_task, tr098_ui_paths, tr181_ui_paths,
  extra_paths, targeted_summon_paths, ui_summon_paths, schedule_targeted, schedule_summon,
}

abbrev pub wants_discovery : TaskType → Bool
wants_discovery type_wifi = true
wants_discovery type_wan = true
wants_discovery _ = false

abbrev pub nonempty : List String → Bool
nonempty [] = false
nonempty (p ∷ ps) = true

abbrev pub root_of : Bool → String
root_of is_tr098 = if is_tr098 then "InternetGatewayDevice." else "Device."

-- An object of the schema's data model: a path below its root that ends in a dot.
abbrev pub IsObject : Bool → String → Type 0
IsObject is_tr098 path = (has_prefix path (root_of is_tr098) ≡ true) × (has_suffix path "." ≡ true)

abbrev pub PathsFit : Bool → Bool → List String → Type 0
PathsFit is_tr098 wanted paths = (nonempty paths ≡ wanted) × All (IsObject is_tr098) paths

paths_of_task-fit :
    (is_tr098 : Bool) (t : TaskType)
    → PathsFit is_tr098 (wants_discovery t) (paths_of_task is_tr098 t)
unfolding has_prefix has_suffix
paths_of_task-fit true type_wifi = (refl, ((refl, refl), tt))
paths_of_task-fit false type_wifi = (refl, ((refl, refl), tt))
paths_of_task-fit true type_wan = (refl, ((refl, refl), tt))
paths_of_task-fit false type_wan =
    (refl, ((refl, refl), ((refl, refl), ((refl, refl), ((refl, refl), tt)))))
paths_of_task-fit is_tr098 _ = (refl, tt)

or_else-fit :
    (is_tr098 wanted wanted_later : Bool) (paths later : List String)
    → PathsFit is_tr098 wanted paths
    → PathsFit is_tr098 wanted_later later
    → PathsFit is_tr098 (wanted || wanted_later) (elim paths [ [] ↦ later | p ∷ ps ↦ p ∷ ps ])
or_else-fit is_tr098 wanted wanted_later [] later (e, _) (f, all_later) = (rw (sym e) f, all_later)
or_else-fit is_tr098 wanted wanted_later (p ∷ ps) later (e, all_paths) _ =
    (rw (sym e) refl, all_paths)

-- A targeted summon is wanted just where a WiFi or a WAN task is pending, and asks for objects
-- of the schema's data model.
pub targeted_summon_paths-fit :
    (schema_name : String) (pending : List Task)
    → PathsFit
        (is_tr098_name schema_name)
        (any (λ t. wants_discovery t.task_type) pending)
        (targeted_summon_paths schema_name pending)
unfolding targeted_summon_paths
targeted_summon_paths-fit schema_name [] = (refl, tt)
targeted_summon_paths-fit schema_name (t ∷ ts) =
    or_else-fit (is_tr098_name schema_name) _ _
      (paths_of_task (is_tr098_name schema_name) t.task_type) _
      (paths_of_task-fit (is_tr098_name schema_name) t.task_type)
      (targeted_summon_paths-fit schema_name ts)

ui_paths-fit :
    (is_tr098 : Bool) → PathsFit is_tr098 true (if is_tr098 then tr098_ui_paths else tr181_ui_paths)
unfolding has_prefix has_suffix
ui_paths-fit true = (refl, ((refl, refl), ((refl, refl), ((refl, refl), ((refl, refl), tt)))))
ui_paths-fit false = (
  refl,
  (
    (refl, refl),
    (
      (refl, refl),
      (
        (refl, refl),
        (
          (refl, refl),
          (
            (refl, refl),
            ((refl, refl), ((refl, refl), ((refl, refl), ((refl, refl), ((refl, refl), tt))))),
          ),
        ),
      ),
    ),
  ),
)

-- What an Inform schedules where no full summon is asked for.
abbrev pub Scheduled : Bool → String → Summon → Summon → Type 0
Scheduled wanted schema_name s next =
    (wanted ≡ true
      → (next.phase ≡ targeted_pending)
        × PathsFit (is_tr098_name schema_name) true next.target_paths)
    × (wanted ≡ false → next ≡ s)

schedule_targeted-Scheduled :
    (wanted : Bool) (mode schema_name : String) (s : Summon) (paths : List String)
    → PathsFit (is_tr098_name schema_name) wanted paths
    → Scheduled wanted schema_name s (schedule_targeted mode schema_name s paths)
schedule_targeted-Scheduled wanted mode schema_name s [] (e, _) =
    (λ w. absurd (ground arith), λ _. refl)
schedule_targeted-Scheduled wanted mode schema_name s (p ∷ ps) (e, a) =
    (λ _. (refl, (refl, a)), λ w. absurd (ground arith))

append-fit :
    (is_tr098 : Bool) (paths more : List String)
    → PathsFit is_tr098 true paths
    → All (IsObject is_tr098) more
    → PathsFit is_tr098 true (paths ++ more)
append-fit is_tr098 [] more (e, _) h = absurd (ground arith)
append-fit is_tr098 (p ∷ ps) more (e, a) h =
    (refl, All-append (IsObject is_tr098) (p ∷ ps) more a h)

-- Where no full summon is asked for and the driver adds only objects of the data model, an Inform
-- schedules a targeted summon of one or more objects of the data model: always where none ran
-- in the last two minutes, and else just where a WiFi or a WAN task is pending. Otherwise it
-- leaves the summon as it was.
pub schedule_summon-targeted :
    (throttled : Bool) (schema_name : String) (driver : Option DeviceDriver) (pending : List Task)
    (s : Summon)
    → All (IsObject (is_tr098_name schema_name)) (extra_paths driver)
    → Scheduled
        (not throttled || any (λ t. wants_discovery t.task_type) pending)
        schema_name
        s
        (schedule_summon false throttled schema_name driver pending s).0
unfolding schedule_summon ui_summon_paths
schedule_summon-targeted true schema_name driver pending s extra =
    schedule_targeted-Scheduled _ "task_discovery" schema_name s
      (targeted_summon_paths schema_name pending) (targeted_summon_paths-fit schema_name pending)
schedule_summon-targeted false schema_name driver pending s extra =
    schedule_targeted-Scheduled _ "ui_refresh" schema_name s (ui_summon_paths schema_name driver)
      (append-fit (is_tr098_name schema_name) _ _ (ui_paths-fit (is_tr098_name schema_name)) extra)
