-- ===== src/Schema/Driver/Resolving.antt =====
-- Which driver a device gets, and its default parameters.
use helix_acs.Prelude.{
  String, ◌≡◌, refl, ap, ◌∙◌, inl, inr, true, [], ◌∷◌, Option, none, some, arith, if◌then◌else◌,
  eq_iff, or_else, is_empty, all, ◌≢◌, Bool-cases, Option-cases,
}
use helix_acs.Dict.{Dict, find, copy_into}
use helix_acs.Dict.Laws.{find-copy_into}
use helix_acs.Schema.Driver.{
  DeviceDriver, DriverRegistry, driver_name, model_driver_name, merged_default_params, is_value,
  same_map, resolve_slugs,
}

abbrev pub defaults_of : Option DeviceDriver → Dict String
defaults_of none = []
defaults_of (some d) = d.default_params

find-is_empty : {V : Type 0} (k : String) (d : Dict V) → is_empty d ≡ true → find k d ≡ none
unfolding find
find-is_empty k [] h = refl
find-is_empty k (e ∷ d) h = ground arith

-- A default parameter of the model's driver comes before the vendor's of the same name, and those
-- that only the vendor has remain; either driver may be missing.
pub find-merged_default_params :
    (vendor model : Option DeviceDriver) (k : String)
    → find k (merged_default_params vendor model)
      ≡ or_else (find k (defaults_of model)) (find k (defaults_of vendor))
unfolding merged_default_params find
find-merged_default_params none none k = refl
find-merged_default_params none (some m) k = ground arith
find-merged_default_params (some v) none k = refl
find-merged_default_params (some v) (some m) k = ground (
  arith,
  find-is_empty k v.default_params,
  find-is_empty k m.default_params,
  find-copy_into m.default_params (copy_into v.default_params []) k,
  find-copy_into v.default_params [] k,
)

is_value-find : (o : Option String) (v : String) → is_value o v ≡ true → o ≡ some v
is_value-find none v h = ground arith
is_value-find (some w) v h = ap some ((eq_iff w v).0 h)

included-find :
    (a b : Dict String) (k v : String)
    → all (λ e. is_value (find e.0 b) e.1) a ≡ true
    → find k a ≡ some v
    → find k b ≡ some v
unfolding find
included-find [] b k v h e = ground arith
included-find ((j, w) ∷ a) b k v h e =
    ground (arith, eq_iff j k, is_value-find (find j b) w, included-find a b k v)

same_map-find :
    (a b : Dict String) (k : String)
    → same_map a b ≡ true
    → (o : Option String) → find k a ≡ or_else (find k b) o
    → find k b ≡ or_else (find k b) o
unfolding same_map
same_map-find a b k h o e = elim (Option-cases (find k a)) [
  | inl missing ↦ ground arith
  | inr (v, found) ↦ ground (arith, included-find a b k v)
]

chosen_driver :
    (r : DriverRegistry) (vendor_slug model_slug data_model : String) (m : DeviceDriver)
    → vendor_slug ≢ ""
    → model_slug ≢ ""
    → find (model_driver_name vendor_slug model_slug data_model) r.drivers ≡ some m
    → resolve_slugs r vendor_slug model_slug data_model ≡ (
        let merged =
          merged_default_params (find (driver_name vendor_slug data_model) r.drivers) (some m) in
        some (if same_map merged m.default_params then m else record m { default_params = merged }))
unfolding resolve_slugs
chosen_driver r v ms dm m has_vendor has_model registered =
    ground (arith, eq_iff v "", eq_iff ms "")

-- When the registry has a driver for the device's model, the device gets that one, and only its
-- default parameters may differ: each is the model driver's own, or else the one of the vendor's
-- driver, when there is one.
pub resolve_slugs-model :
    (r : DriverRegistry) (vendor_slug model_slug data_model : String) (m : DeviceDriver)
    → vendor_slug ≢ ""
    → model_slug ≢ ""
    → find (model_driver_name vendor_slug model_slug data_model) r.drivers ≡ some m
    → (d : DeviceDriver) × ((resolve_slugs r vendor_slug model_slug data_model ≡ some d)
        × ((record d { default_params = m.default_params } ≡ m)
            × ((k : String)
                → find k d.default_params
                  ≡ or_else (find k m.default_params) (
                      find k (defaults_of (find (driver_name vendor_slug data_model) r.drivers))))))
resolve_slugs-model r vendor_slug model_slug data_model m has_vendor has_model registered =
    let vendor = find (driver_name vendor_slug data_model) r.drivers in
    let merged = merged_default_params vendor (some m) in
    let chosen : resolve_slugs r vendor_slug model_slug data_model
        ≡ some
            (if same_map merged m.default_params then m else record m { default_params = merged }) =
      chosen_driver r vendor_slug model_slug data_model m has_vendor has_model registered in
    elim (Bool-cases (same_map merged m.default_params)) [
      | inl same ↦ (
        m,
        (
          chosen ∙ rw same,
          (
            refl,
            λ k.
                same_map-find merged m.default_params k same (find k (defaults_of vendor))
                  (find-merged_default_params vendor (some m) k),
          ),
        ),
      )
      | inr other ↦ (
        record m { default_params = merged },
        (chosen ∙ rw other, (refl, find-merged_default_params vendor (some m))),
      )
    ]
