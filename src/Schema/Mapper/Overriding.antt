-- ===== src/Schema/Mapper/Overriding.antt =====
-- A schema name, the data model in it, and whose parameters are used.
use text.Mathlib.TextLemmas.{append_assoc, nil-append, cons-append}
use helix_acs.Prelude.{
  ℕ, String, Char, code, ◌≡◌, ◌≢◌, refl, ap, ◌∙◌, List, [], ◌∷◌, ◌++◌, some, arith, eq_iff, or_else,
  Option-cases, inl, inr,
}
use helix_acs.Text.{◌+++◌, split}
use helix_acs.Text.Replace.{Lacks}
use helix_acs.Dict.{find, copy_into}
use helix_acs.Dict.Laws.{find-copy_into}
use helix_acs.Schema.Registry.{Registry, param_map}
use helix_acs.Schema.Resolver.{vendor_schema, resolve}
use helix_acs.Schema.Vendor.{normalise_vendor}
use helix_acs.Schema.Mapper.{last_part, base_model_name, merged_params}

split-ne-nil : (n : ℕ) (s : String) → split n s ≢ []
unfolding split
split-ne-nil n String.[] = cc
split-ne-nil n (String.◌∷◌ c s) = ground (arith, split-ne-nil n s)

-- A separator cuts a text in two.
split-append :
    (n : ℕ) (s t : String) (c : Char)
    → code c ≡ n
    → split n (s +++ String.◌∷◌ c t) ≡ split n s ++ split n t
unfolding split
split-append n String.[] t c e = rw nil-append (ground arith)
split-append n (String.◌∷◌ d s) t c e =
    rw cons-append (ground (arith, split-append n s t c e, split-ne-nil n s))

split-absent : (n : ℕ) (s : String) → Lacks n s → split n s ≡ s ∷ []
unfolding split
split-absent n String.[] h = refl
split-absent n (String.◌∷◌ c s) (p, h) = ground (arith, split-absent n s h)

last_part-append : (xs : List String) (t : String) → last_part (xs ++ t ∷ []) ≡ t
last_part-append [] t = refl
last_part-append (x ∷ []) t = refl
last_part-append (x ∷ y ∷ xs) t = last_part-append (y ∷ xs) t

slash-append : (t : String) → "/" +++ t ≡ String.◌∷◌ "/" t
slash-append t = cons-append "/" "" t ∙ ap (λ u. String.◌∷◌ "/" u) (nil-append t)

-- What stands behind the last slash.
base_model_name-append : (s t : String) → Lacks b'/' t → base_model_name (s +++ ("/" +++ t)) ≡ t
unfolding base_model_name
base_model_name-append s t h =
    rw (slash-append t, split-append b'/' s t "/" refl, split-absent b'/' t h)
      (last_part-append (split b'/' s) t)

base_model_name_absent : (t : String) → Lacks b'/' t → base_model_name t ≡ t
unfolding base_model_name
base_model_name_absent t h = rw (split-absent b'/' t h)

vendor_schema-base : (v t : String) → Lacks b'/' t → base_model_name (vendor_schema v t) ≡ t
unfolding vendor_schema
vendor_schema-base v t h =
    rw (← append_assoc "vendor/" v ("/" +++ t)) (base_model_name-append ("vendor/" +++ v) t h)

-- The schema that the resolver names for a data model is one of that data model: the mapper takes
-- its generic parameters from the same data model. The data model's name is not empty and holds no
-- slash.
pub resolve-base_model_name :
    (order : List String) (reg : Registry) (manufacturer data_model name : String)
    → data_model ≢ ""
    → Lacks b'/' data_model
    → resolve order reg manufacturer data_model ≡ some name
    → base_model_name name ≡ data_model
unfolding resolve
resolve-base_model_name order reg manufacturer data_model name nonempty h e =
    elim (Option-cases (normalise_vendor order manufacturer)) [
      | inl panic ↦ absurd (ground arith)
      | inr (v, slug) ↦ ground (
        arith,
        eq_iff data_model "",
        base_model_name_absent data_model h,
        vendor_schema-base v data_model h,
      )
    ]

-- A parameter of a vendor's schema comes before the generic one of the same name, and the generic
-- ones that the vendor does not define remain.
pub find-merged_params :
    (reg : Registry) (schema_name k : String)
    → find k (merged_params reg schema_name)
      ≡ or_else
          (find k (param_map reg schema_name))
          (find k (param_map reg (base_model_name schema_name)))
unfolding find merged_params
find-merged_params reg schema_name k =
    let base = base_model_name schema_name in
    ground (
      arith,
      eq_iff schema_name base,
      find-copy_into (param_map reg base) [] k,
      find-copy_into (param_map reg schema_name) (copy_into (param_map reg base) []) k,
    )
