-- ===== src/Cwmp/Defaults/Settled.antt =====
-- A device that carries out what is injected for its driver's defaults meets them, and is left alone.
use helix_acs.Prelude.{
  ◌≡◌, refl, ap, ◌∙◌, String, true, [], ◌∷◌, Option, none, some, if◌then◌else◌, eq_iff, eq_refl,
  arith, or_else, is_empty, Bool-cases, inl, inr,
}
use helix_acs.Text.{◌+++◌, trim_space}
use helix_acs.Dict.{Dict, find, copy_into, value_of}
use helix_acs.Dict.Laws.{find-put, find-copy_into}
use helix_acs.Task.Payload.{Encoder}
use helix_acs.Schema.Driver.{DeviceDriver}
use helix_acs.Cwmp.Restore.{set_params_task}
use helix_acs.Cwmp.Defaults.{DefaultsSession, is_met, unmet, inject_default_param_task}

-- No key stands twice, as in a map of Go.
abbrev pub IsMap : Dict String → Type 0
IsMap [] = Unit
IsMap ((k, v) ∷ d) = (find k d ≡ none) × IsMap d

abbrev pub unless_met : Dict String → String → Option String → Option String
unless_met current path none = none
unless_met current path (some want) = if is_met current path want then none else some want

find-unmet :
    (defaults current : Dict String) (path : String)
    → IsMap defaults
    → find path (unmet defaults current) ≡ unless_met current path (find path defaults)
unfolding find unmet
find-unmet [] current path h = refl
find-unmet ((k, v) ∷ defaults) current path (new, h) = ground (
  arith,
  eq_iff k path,
  find-put k path v (unmet defaults current),
  find-unmet defaults current path h,
)

-- What the device has when it has set the unmet defaults.
abbrev pub after_set : Dict String → Dict String → Dict String
after_set defaults current = copy_into (unmet defaults current) current

find-after_set :
    (defaults current : Dict String) (path : String)
    → IsMap defaults
    → find path (after_set defaults current)
      ≡ or_else (unless_met current path (find path defaults)) (find path current)
find-after_set defaults current path h =
    find-copy_into (unmet defaults current) current path
    ∙ ap (λ o. or_else o (find path current)) (find-unmet defaults current path h)

is_met-find :
    (d d' : Dict String) (path want : String)
    → find path d ≡ find path d'
    → is_met d path want ≡ is_met d' path want
unfolding is_met value_of
is_met-find d d' path want e = rw (e, is_met, value_of) refl

is_met-found :
    (d : Dict String) (path want : String) → find path d ≡ some want → is_met d path want ≡ true
unfolding is_met value_of
is_met-found d path want e = rw (e, is_met, value_of) (eq_refl (trim_space want))

-- Each default is met afterwards.
is_met-after_set :
    (defaults current : Dict String) (path want : String)
    → IsMap defaults
    → find path defaults ≡ some want
    → is_met (after_set defaults current) path want ≡ true
is_met-after_set defaults current path want h e = elim (Bool-cases (is_met current path want)) [
  | inl met ↦
      let kept : find path (after_set defaults current) ≡ find path current =
        find-after_set defaults current path h ∙ rw (e, met) refl in
      is_met-find (after_set defaults current) current path want kept ∙ met
  | inr other ↦
      is_met-found (after_set defaults current) path want
        (find-after_set defaults current path h ∙ rw (e, other) refl)
]

unmet-nil :
    (defaults current : Dict String)
    → IsMap defaults
    → ((path want : String) → find path defaults ≡ some want → is_met current path want ≡ true)
    → unmet defaults current ≡ []
unfolding unmet find
unmet-nil [] current h met = refl
unmet-nil ((k, v) ∷ defaults) current (new, h) met =
    let rest =
      unmet-nil defaults current h (λ path want e. met path want (ground (arith, eq_iff k path))) in
    let here = met k v (ground (arith, eq_iff k k)) in rw (here, rest) refl

unmet-of_empty :
    (defaults current : Dict String)
    → is_empty defaults ≡ true
    → is_empty (unmet defaults current) ≡ true
unfolding unmet
unmet-of_empty [] current h = refl
unmet-of_empty (d ∷ defaults) current h = cc

-- The defaults that the device does not meet are given to it in one task, if there are any. When it has set
-- them, it has every default, up to white space around it, and all other parameters as before, and
-- nothing more is injected.
pub inject_default_param_task-settled :
    (e : Encoder) (serial : String) (drv : DeviceDriver) (current : Dict String)
    (s : DefaultsSession)
    → IsMap drv.default_params
    → let to_set = unmet drv.default_params current in
      let after = copy_into to_set current in
      ((inject_default_param_task e serial (some drv) current s).pending_tasks ≡ (
        if is_empty to_set
        then s.pending_tasks
        else set_params_task e ("default_params_" +++ serial) serial to_set ∷ s.pending_tasks))
      × ((path want : String)
          → find path drv.default_params ≡ some want
          → is_met after path want ≡ true)
      × ((path : String)
          → find path drv.default_params ≡ none
          → find path after ≡ find path current)
      × (inject_default_param_task e serial (some drv) after s ≡ s)
unfolding inject_default_param_task
inject_default_param_task-settled e serial drv current s h =
    let met = λ (path want : String) (w : find path drv.default_params ≡ some want).
      is_met-after_set drv.default_params current path want h w in
    (
      ground (arith, unmet-of_empty drv.default_params current),
      met,
      λ path w. find-after_set drv.default_params current path h ∙ rw w refl,
      rw
          (
            unmet-nil drv.default_params (after_set drv.default_params current) h met,
            inject_default_param_task,
          )
          (ground arith),
    )
