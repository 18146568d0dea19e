-- ===== src/Task/Executor/Diagnostics.antt =====
-- An asynchronous diagnostic is requested and collected at the same object of the data model.
use mathlib.Core.Path.{subst}
use mathlib.Core.Bool.{true≢false, false≢true}
use text.Mathlib.TextLemmas.{append_cancel_left}
use helix_acs.Prelude.{
  ℕ, ◌≡◌, refl, sym, ◌∙◌, inl, inr, String, true, false, List, [], ◌∷◌, Option, none, some, str_eq,
  eq_iff, eq_refl, ltb, map, All, Bool-cases,
}
use helix_acs.Text.{◌+++◌, has_prefix, itoa}
use helix_acs.Text.Prefixes.{has_prefix-append}
use helix_acs.Dict.{Dict, find, put}
use helix_acs.Dict.Laws.{find-put}
use helix_acs.Datamodel.Model.{Mapper}
use helix_acs.Task.Model.{
  Task, TaskType, type_ping_test, type_traceroute, type_speed_test, type_diagnostic,
  is_diagnostic_async,
}
use helix_acs.Task.Payload.{Decoder, PingTestPayload, TraceroutePayload, SpeedTestPayload}
use helix_acs.Task.Executor.{
  Built, refused, nothing, built, decoded, put_positive, requested, itoa_or, ping_params,
  traceroute_params, speed_test_params, build_set_params, build_diag_result_paths,
}

-- The object of a diagnostic.
abbrev pub diag_base : Mapper → TaskType → String
diag_base mapper type_traceroute = mapper.service.traceroute_base
diag_base mapper type_speed_test = mapper.service.download_base
diag_base mapper _ = mapper.service.ping_base

abbrev pub IsBelow : String → String → Type 0
IsBelow base path = has_prefix path base ≡ true

abbrev pub AllBelow : String → List String → Type 0
AllBelow base = All (IsBelow base)

-- The parameters lie below the base, and ask for the diagnostic.
abbrev pub Requests : String → Dict String → Type 0
Requests base params =
    AllBelow base (map (λ e. e.0) params)
    × (find (base +++ "DiagnosticsState") params ≡ some "Requested")

append-differ : (base a b : String) → str_eq a b ≡ false → str_eq (base +++ a) (base +++ b) ≡ false
append-differ base a b h = elim (Bool-cases (str_eq (base +++ a) (base +++ b))) [
  | inl e ↦ absurd (
      true≢false (
        sym ((eq_iff a b).1 (append_cancel_left base a b ((eq_iff (base +++ a) (base +++ b)).0 e)))
        ∙ h))
  | inr e ↦ e
]

AllBelow-put :
    (base k v : String) (params : Dict String)
    → IsBelow base k
    → AllBelow base (map (λ e. e.0) params)
    → AllBelow base (map (λ e. e.0) (put k v params))
unfolding put
AllBelow-put base k v [] h all = (h, tt)
AllBelow-put base k v ((j, w) ∷ params) h (first, rest) = elim (Bool-cases (str_eq j k)) [
  | inl e ↦ rw e (h, rest)
  | inr e ↦ rw e (first, AllBelow-put base k v params h rest)
]

Requests-put :
    (base leaf v : String) (params : Dict String)
    → str_eq leaf "DiagnosticsState" ≡ false
    → Requests base params
    → Requests base (put (base +++ leaf) v params)
Requests-put base leaf v params other (all, asked) = (
  AllBelow-put base (base +++ leaf) v params (has_prefix-append base leaf) all,
  rw
      (
        find-put (base +++ leaf) (base +++ "DiagnosticsState") v params,
        append-differ base leaf "DiagnosticsState" other,
      )
      asked,
)

Requests-put_positive :
    (base leaf : String) (n : ℕ) (params : Dict String)
    → str_eq leaf "DiagnosticsState" ≡ false
    → Requests base params
    → Requests base (put_positive (base +++ leaf) n params)
Requests-put_positive base leaf n params other h = elim (Bool-cases (ltb 0 n)) [
  | inl e ↦ rw e (Requests-put base leaf (itoa n) params other h)
  | inr e ↦ rw e h
]

requested-Requests : (base leaf target : String) → Requests base (requested base leaf target)
requested-Requests base leaf target = (
  AllBelow-put base (base +++ "DiagnosticsState") "Requested" _
      (has_prefix-append base "DiagnosticsState")
      (AllBelow-put base (base +++ leaf) target [] (has_prefix-append base leaf) tt),
  rw
      (
        find-put (base +++ "DiagnosticsState") (base +++ "DiagnosticsState") "Requested"
            (put (base +++ leaf) target []),
        eq_refl (base +++ "DiagnosticsState"),
      )
      refl,
)

ping_params-Requests : (base : String) (p : PingTestPayload) → Requests base (ping_params base p)
unfolding ping_params
ping_params-Requests base p = Requests-put_positive base "DSCP" p.dscp _ refl (
    Requests-put_positive base "Timeout" p.timeout _ refl (
      Requests-put_positive base "DataBlockSize" p.packet_size _ refl (
        Requests-put base "NumberOfRepetitions" (itoa_or p.count "4") _ refl
          (requested-Requests base "Host" p.host))))

traceroute_params-Requests :
    (base : String) (p : TraceroutePayload) → Requests base (traceroute_params base p)
unfolding traceroute_params
traceroute_params-Requests base p = Requests-put_positive base "DSCP" p.dscp _ refl (
    Requests-put_positive base "DataBlockSize" p.packet_size _ refl (
      Requests-put_positive base "Timeout" p.timeout _ refl (
        Requests-put base "MaxHopCount" (itoa_or p.max_hops "30") _ refl
          (requested-Requests base "Host" p.host))))

abbrev pub IfBuilt : String → Built (Dict String) → Type 0
IfBuilt base (refused e) = Unit
IfBuilt base nothing = Unit
IfBuilt base (built params) = Requests base params

speed_test_params-IfBuilt :
    (base : String) (p : SpeedTestPayload) → IfBuilt base (speed_test_params base p)
unfolding speed_test_params
speed_test_params-IfBuilt base p = elim (Bool-cases (str_eq p.download_url "")) [
  | inl e ↦ rw e tt
  | inr e ↦ rw e (
      Requests-put_positive base "DSCP" p.dscp _ refl (
        Requests-put_positive base "TestFileLength" p.file_size _ refl
          (requested-Requests base "DownloadURL" p.download_url)))
]

decoded-IfBuilt :
    {A : Type 0} (base name : String) (f : A → Built (Dict String)) (o : Option A)
    → ((p : A) → IfBuilt base (f p))
    → IfBuilt base (decoded name f o)
decoded-IfBuilt base name f none h = tt
decoded-IfBuilt base name f (some p) h = h p

build_set_params-IfBuilt :
    (d : Decoder) (mapper : Mapper) (t : Task) (type : TaskType)
    → is_diagnostic_async type ≡ true
    → IfBuilt (diag_base mapper type) (build_set_params d mapper (record t { task_type = type }))
unfolding is_diagnostic_async build_set_params
build_set_params-IfBuilt d mapper t type_ping_test h =
    decoded-IfBuilt _ "ping_test" _ (d.ping_test t.payload)
      (ping_params-Requests mapper.service.ping_base)
build_set_params-IfBuilt d mapper t type_traceroute h =
    decoded-IfBuilt _ "traceroute" _ (d.traceroute t.payload)
      (traceroute_params-Requests mapper.service.traceroute_base)
build_set_params-IfBuilt d mapper t type_speed_test h =
    decoded-IfBuilt _ "speed_test" _ (d.speed_test t.payload)
      (speed_test_params-IfBuilt mapper.service.download_base)
build_set_params-IfBuilt d mapper t type_diagnostic h = tt
build_set_params-IfBuilt d mapper t _ h = absurd (false≢true h)

-- The state of the diagnostic is collected first, and everything lies below the base.
abbrev pub Collects : String → List String → Type 0
Collects base paths =
    ((rest : List String) × (paths ≡ (base +++ "DiagnosticsState") ∷ rest)) × AllBelow base paths

build_diag_result_paths-Collects :
    (mapper : Mapper) (type : TaskType)
    → is_diagnostic_async type ≡ true
    → Collects (diag_base mapper type) (build_diag_result_paths type mapper)
unfolding is_diagnostic_async build_diag_result_paths
build_diag_result_paths-Collects mapper type_ping_test h = (
  (_, refl),
  (
    has_prefix-append _ _,
    (
      has_prefix-append _ _,
      (
        has_prefix-append _ _,
        (has_prefix-append _ _, (has_prefix-append _ _, (has_prefix-append _ _, tt))),
      ),
    ),
  ),
)
build_diag_result_paths-Collects mapper type_traceroute h = (
  (_, refl),
  (
    has_prefix-append _ _,
    (has_prefix-append _ _, (has_prefix-append _ _, (has_prefix-append _ _, tt))),
  ),
)
build_diag_result_paths-Collects mapper type_speed_test h = (
  (_, refl),
  (
    has_prefix-append _ _,
    (
      has_prefix-append _ _,
      (has_prefix-append _ _, (has_prefix-append _ _, (has_prefix-append _ _, tt))),
    ),
  ),
)
build_diag_result_paths-Collects mapper type_diagnostic h = (
  (_, refl),
  (
    has_prefix-append _ _,
    (
      has_prefix-append _ _,
      (
        has_prefix-append _ _,
        (has_prefix-append _ _, (has_prefix-append _ _, (has_prefix-append _ _, tt))),
      ),
    ),
  ),
)
build_diag_result_paths-Collects mapper _ h = absurd (false≢true h)

-- For an asynchronous diagnostic with parameters, they lie below one object of the mapper and ask it
-- for the diagnostic; what is collected afterwards is the state of the same object, first, and
-- further paths below it.
pub build_set_params-Requests :
    (d : Decoder) (mapper : Mapper) (t : Task) (params : Dict String)
    → is_diagnostic_async t.task_type ≡ true
    → build_set_params d mapper t ≡ built params
    → Requests (diag_base mapper t.task_type) params
      × Collects (diag_base mapper t.task_type) (build_diag_result_paths t.task_type mapper)
build_set_params-Requests d mapper t params async e = (
  subst (IfBuilt (diag_base mapper t.task_type)) e
      (build_set_params-IfBuilt d mapper t t.task_type async),
  build_diag_result_paths-Collects mapper t.task_type async,
)
