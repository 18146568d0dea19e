-- ===== src/Parameter/Storage/Sequence.antt =====
-- A sequence of calls whose writes are answered, and whose invalidations succeed, is read back as if there
-- were no cache. Between the calls Redis may drop an entry.
use mathlib.Core.Path.{fun_ext}
use helix_acs.Prelude.{
  ◌≡◌, refl, String, Bool, true, false, List, [], ◌∷◌, Option, none, some, if◌then◌else◌, str_eq,
  or_else, All, ap, ◌∙◌, arith,
}
use helix_acs.Dict.{Dict, find, delete}
use helix_acs.Parameter.Storage.{
  Storage, Outcome, executed, refused, answer_lost, Capture, cache_key, invalidate, queried,
  update_parameters, get_all_parameters, delete_device_parameters, save_snapshot, delete_snapshot,
  capture_all_device_snapshots, save_all,
}
use helix_acs.Parameter.Storage.Contents.{stored, stored-upsert_device_parameters, stored-deleted}
use helix_acs.Parameter.Storage.Coherent.{
  IsCoherent, update_parameters-IsCoherent, delete_device_parameters-IsCoherent,
  get_all_parameters-stored, get_all_parameters-IsCoherent, expired-IsCoherent,
}

pub data Call : Type 0 where
  update : Outcome → Bool → String → Dict String → Call
  delete_device : Outcome → Bool → String → Call
  read_all : Bool → Bool → Bool → String → Call
  save : Outcome → String → String → Dict String → Call
  forget : Outcome → String → String → Call
  capture : List (String × Capture) → Call
  -- The entry of a device is dropped.
  expire : String → Call

unfoldable pub step : Call → Storage → Storage
unfolding update_parameters delete_device_parameters get_all_parameters save_snapshot
    delete_snapshot capture_all_device_snapshots
step (update outcome deleted serial params) s =
    (update_parameters outcome deleted serial params s).0
step (delete_device outcome deleted serial) s =
    (delete_device_parameters outcome deleted serial s).0
step (read_all cache_answers answered cached serial) s =
    (get_all_parameters cache_answers answered cached serial s).0
step (save outcome serial snap_type params) s = (save_snapshot outcome serial snap_type params s).0
step (forget outcome serial snap_type) s = (delete_snapshot outcome serial snap_type s).0
step (capture devices) s = capture_all_device_snapshots devices s
step (expire serial) s = record s { cache = delete (cache_key serial) s.cache }

unfoldable pub run : List Call → Storage → Storage
unfolding step
run [] s = s
run (c ∷ calls) s = run calls (step c s)

-- The write is refused, or is answered and drops the entry.
abbrev pub Drops : Outcome → Bool → Type 0
Drops executed deleted = deleted ≡ true
Drops refused deleted = Unit
Drops answer_lost deleted = ⊥

abbrev pub IsAnswered : Call → Type 0
IsAnswered (update outcome deleted serial params) = Drops outcome deleted
IsAnswered (delete_device outcome deleted serial) = Drops outcome deleted
IsAnswered (read_all _ _ _ _) = Unit
IsAnswered (save _ _ _ _) = Unit
IsAnswered (forget _ _ _) = Unit
IsAnswered (capture _) = Unit
IsAnswered (expire _) = Unit

-- The values of all devices by name, and what a call makes of them.
abbrev pub Values : Type 0
Values = String → String → Option String

abbrev pub effect : Call → Values → Values
effect (update executed deleted serial params) values =
    λ se na. if str_eq serial se then or_else (find na params) (values se na) else values se na
effect (delete_device executed deleted serial) values =
    λ se na. if str_eq serial se then none else values se na
effect _ values = values

abbrev pub effects : List Call → Values → Values
effects [] values = values
effects (c ∷ calls) values = effects calls (effect c values)

-- A call that keeps the rows, and drops from the cache or adds to it what is true.
abbrev Keeps : Storage → Storage → Type 0
Keeps s t = (t.rows ≡ s.rows) × IsCoherent t

save_all-Keeps :
    (saving : Outcome) (serial : String) (r : Storage × Option (Dict String))
    → IsCoherent r.0
    → Keeps r.0 (save_all saving serial r)
unfolding save_all save_snapshot
save_all-Keeps saving serial (s, none) h = (refl, h)
save_all-Keeps executed serial (s, some params) h =
    (refl, record { entry_is_stored = h.entry_is_stored })
save_all-Keeps refused serial (s, some params) h = (refl, h)
save_all-Keeps answer_lost serial (s, some params) h =
    (refl, record { entry_is_stored = h.entry_is_stored })

rows-get_all_parameters :
    (cache_answers answered cached : Bool) (serial : String) (s : Storage)
    → (get_all_parameters cache_answers answered cached serial s).0.rows ≡ s.rows
unfolding get_all_parameters queried
rows-get_all_parameters cache_answers answered cached serial s = ground arith

capture-Keeps :
    (devices : List (String × Capture)) (s : Storage)
    → IsCoherent s
    → Keeps s (capture_all_device_snapshots devices s)
unfolding capture_all_device_snapshots
capture-Keeps [] s h = (refl, h)
capture-Keeps ((serial, c) ∷ devices) s h =
    let read = get_all_parameters c.cache_answers c.answered c.cached serial s in
    let here =
      save_all-Keeps c.saving serial read
        (get_all_parameters-IsCoherent serial s h c.cache_answers c.answered c.cached) in
    let later = capture-Keeps devices (save_all c.saving serial read) here.1 in
    (
      later.0 ∙ here.0 ∙ rows-get_all_parameters c.cache_answers c.answered c.cached serial s,
      later.1,
    )

update-rows :
    (serial : String) (params : Dict String) (s : Storage)
    → stored (update_parameters executed true serial params s).0.rows
      ≡ effect (update executed true serial params) (stored s.rows)
unfolding update_parameters invalidate find
update-rows serial [] s = fun_ext λ se. fun_ext λ na. ground arith
update-rows serial (e ∷ params) s =
    fun_ext λ se. fun_ext λ na. stored-upsert_device_parameters serial (e ∷ params) s.rows se na

step-effect :
    (c : Call) (s : Storage)
    → IsAnswered c
    → IsCoherent s
    → (stored (step c s).rows ≡ effect c (stored s.rows)) × IsCoherent (step c s)
unfolding step
step-effect (update executed true serial params) s h coherent =
    (update-rows serial params s, update_parameters-IsCoherent serial s coherent params)
step-effect (update executed false serial params) s h coherent = cc
step-effect (update refused deleted serial []) s h coherent = (refl, coherent)
step-effect (update refused deleted serial (e ∷ params)) s h coherent = (refl, coherent)
step-effect (update answer_lost deleted serial params) s h coherent = absurd h
step-effect (delete_device executed true serial) s h coherent = (
  fun_ext (λ se. fun_ext (λ na. stored-deleted serial s.rows se na)),
  delete_device_parameters-IsCoherent serial s coherent,
)
step-effect (delete_device executed false serial) s h coherent = cc
step-effect (delete_device refused deleted serial) s h coherent = (refl, coherent)
step-effect (delete_device answer_lost deleted serial) s h coherent = absurd h
step-effect (read_all cache_answers answered cached serial) s h coherent = (
  ap stored (rows-get_all_parameters cache_answers answered cached serial s),
  get_all_parameters-IsCoherent serial s coherent cache_answers answered cached,
)
step-effect (save executed serial snap_type params) s h coherent =
    (refl, record { entry_is_stored = coherent.entry_is_stored })
step-effect (save refused serial snap_type params) s h coherent = (refl, coherent)
step-effect (save answer_lost serial snap_type params) s h coherent =
    (refl, record { entry_is_stored = coherent.entry_is_stored })
step-effect (forget executed serial snap_type) s h coherent =
    (refl, record { entry_is_stored = coherent.entry_is_stored })
step-effect (forget refused serial snap_type) s h coherent = (refl, coherent)
step-effect (forget answer_lost serial snap_type) s h coherent =
    (refl, record { entry_is_stored = coherent.entry_is_stored })
step-effect (capture devices) s h coherent =
    let kept = capture-Keeps devices s coherent in (ap stored kept.0, kept.1)
step-effect (expire serial) s h coherent = (refl, expired-IsCoherent serial s coherent)

run-effects :
    (calls : List Call) (s : Storage)
    → All IsAnswered calls
    → IsCoherent s
    → (stored (run calls s).rows ≡ effects calls (stored s.rows)) × IsCoherent (run calls s)
unfolding run
run-effects [] s h coherent = (refl, coherent)
run-effects (c ∷ calls) s (h, hs) coherent =
    let here = step-effect c s h coherent in
    let later = run-effects calls (step c s) hs here.1 in
    (later.0 ∙ ap (effects calls) here.0, later.1)

-- Whatever is read before and whatever Redis drops, after calls whose writes are refused or else answered
-- and drop the entry, `GetAllParameters` returns, when the database answers, the values that the writes
-- leave, whether or not the cache answers or stores them.
pub get_all_parameters-run :
    (calls : List Call) (s : Storage) (cache_answers cached : Bool) (serial : String)
    → All IsAnswered calls
    → IsCoherent s
    → (params : Dict String) × ((get_all_parameters cache_answers true cached serial
          (run calls s)).1
        ≡ some params)
      × ((name : String) → find name params ≡ effects calls (stored s.rows) serial name)
get_all_parameters-run calls s cache_answers cached serial answered coherent =
    let after = run-effects calls s answered coherent in
    let (params, returned, values) =
      get_all_parameters-stored serial (run calls s) after.1 cache_answers cached in
    (params, returned, λ name. values name ∙ ap (λ (v : Values). v serial name) after.0)
