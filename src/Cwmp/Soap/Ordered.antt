-- ===== src/Cwmp/Soap/Ordered.antt =====
-- The order of the entries of a SetParameterValues request.
use mathlib.Core.List.{Perm, map-map, map-id, Pairwise}
use mathlib.Core.List.Pairwise
use helix_acs.Prelude.{
  ◌≤◌, ◌≡◌, ◌⊎◌, refl, sym, ◌∙◌, List, [], ◌∷◌, All, map, String, Bool, true, false, ltb, arith,
}
use native.Mathlib.Bridge.{le_prop}
use helix_acs.Text.{contains}
use helix_acs.Dict.{Dict, find, value_of}
use helix_acs.Sorting.{IsStrictWeak, Sorter, sort_unique}
use helix_acs.Text.Order.{text_lt, text_lt_irrefl, text_lt_trans, text_lt_cotrans, text_lt_total}
use helix_acs.Cwmp.Soap.{
  leaf_of, is_disable, is_enable, comes_before, infer_xsd_type, ParameterValue, parameter_value,
  build_set_parameter_values,
}
use helix_acs.Cwmp.Soap.Ranks.{Kind, place, ranked, kind_of, kind_of_leaf, comes_before-kind_of}

ranked_irrefl : (k : Kind) (less : Bool) → less ≡ false → ranked k k less ≡ false
ranked_irrefl k less h = ground arith

ranked_trans :
    (k l m : Kind) (a b c : Bool)
    → (a ≡ true → b ≡ true → c ≡ true)
    → ranked k l a ≡ true
    → ranked l m b ≡ true
    → ranked k m c ≡ true
ranked_trans k l m a b c h f g = ground (arith, h)

ranked_cotrans :
    (k l m : Kind) (a b c : Bool)
    → (c ≡ true → (a ≡ true) ⊎ (b ≡ true))
    → ranked k m c ≡ true
    → (ranked k l a ≡ true) ⊎ (ranked l m b ≡ true)
ranked_cotrans k l m a b c h f = ground (arith, h)

comes_before-weak : (params : Dict String) → IsStrictWeak (comes_before params)
comes_before-weak params = record {
  irrefl = λ i.
      rw (comes_before-kind_of params i i) (ranked_irrefl (kind_of params i) _ (text_lt_irrefl i));
  trans = λ i j k.
      rw
        (
          comes_before-kind_of params i j,
          comes_before-kind_of params j k,
          comes_before-kind_of params i k,
        )
        (ranked_trans (kind_of params i) (kind_of params j) (kind_of params k) _ _ _
          (text_lt_trans i j k));
  cotrans = λ i j k.
      rw
        (
          comes_before-kind_of params i j,
          comes_before-kind_of params j k,
          comes_before-kind_of params i k,
        )
        (ranked_cotrans (kind_of params i) (kind_of params j) (kind_of params k) _ _ _
          (text_lt_cotrans i j k));
}

ranked_total :
    (k l : Kind) (a b : Bool)
    → ranked k l a ≡ false
    → ranked l k b ≡ false
    → (a ≡ false) × (b ≡ false)
ranked_total k l a b f g = ground arith

comes_before_total :
    (params : Dict String) (i j : String)
    → comes_before params i j ≡ false
    → comes_before params j i ≡ false
    → i ≡ j
comes_before_total params i j =
    rw (comes_before-kind_of params i j, comes_before-kind_of params j i)
      λ f g.
        let h = ranked_total (kind_of params i) (kind_of params j) _ _ f g in
        text_lt_total i j h.0 h.1

-- What an entry does.
abbrev pub kind_of_value : ParameterValue → Kind
kind_of_value v = kind_of_leaf (leaf_of v.name) v.value (contains v.name "VLANTermination")

abbrev pub later : ParameterValue → ParameterValue → Bool
later v w = ltb (place (kind_of_value w)) (place (kind_of_value v))

ranked_places : (k l : Kind) (less : Bool) → ranked l k less ≡ false → place k ≤ place l
ranked_places k l less h = ground arith

-- The value that the map has for the name of the entry.
abbrev pub IsGiven : Dict String → ParameterValue → Type 0
IsGiven params v = (v.value ≡ value_of v.name params) × (v.xsd_type ≡ infer_xsd_type v.name)

name-parameter_value :
    (params : Dict String) (names : List String)
    → map (λ v. v.name) (map (parameter_value params) names) ≡ names
unfolding parameter_value
name-parameter_value params names = map-map _ _ names ∙ map-id names

places_in_order :
    (params : Dict String) (i j : String)
    → comes_before params j i ≡ false
    → place (kind_of_value (parameter_value params i))
      ≤ place (kind_of_value (parameter_value params j))
unfolding parameter_value kind_of
places_in_order params i j =
    rw (comes_before-kind_of params j i) λ h. ranked_places _ _ (text_lt j i) h

IsGiven-parameter_value :
    (params : Dict String) (names : List String)
    → All (IsGiven params) (map (parameter_value params) names)
unfolding parameter_value
IsGiven-parameter_value params [] = tt
IsGiven-parameter_value params (name ∷ names) = ((refl, refl), IsGiven-parameter_value params names)

-- The entries of a request stand in the order of what they do: disabling first, then the VLAN, the
-- credentials and the other values, then the modes, enabling last. They are named as the given parameters are,
-- each once, and each entry has the value that is given for its name and the type that its name suggests.
pub build_set_parameter_values-in_order :
    (slice : Sorter String) (params : Dict String)
    → (Pairwise
        (λ v w. place (kind_of_value v) ≤ place (kind_of_value w))
        (build_set_parameter_values slice params))
      × Perm (map (λ v. v.name) (build_set_parameter_values slice params)) (map (λ e. e.0) params)
      × All (IsGiven params) (build_set_parameter_values slice params)
unfolding build_set_parameter_values
build_set_parameter_values-in_order slice params = (
  Pairwise.map {S = λ v w. place (kind_of_value v) ≤ place (kind_of_value w)} (λ v w. le_prop)
      (parameter_value params) (places_in_order params)
      (slice.sort-InOrder (comes_before params) _ (comes_before-weak params)),
  rw (name-parameter_value params (slice.sort (comes_before params) (map (λ e. e.0) params)))
      (slice.sort-perm _ _),
  IsGiven-parameter_value params (slice.sort (comes_before params) (map (λ e. e.0) params)),
)

value_of-same :
    (params params' : Dict String)
    → ((k : String) → find k params ≡ find k params')
    → (k : String) → value_of k params ≡ value_of k params'
unfolding value_of
value_of-same params params' same k = rw (same k, value_of) refl

comes_before-same :
    (params params' : Dict String)
    → ((k : String) → find k params ≡ find k params')
    → comes_before params ≡ comes_before params'
unfolding comes_before is_disable is_enable
comes_before-same params params' same = λ t i j. pointwise i j t
  where
    pointwise : (i j : String) → comes_before params i j ≡ comes_before params' i j
    pointwise i j =
        rw (value_of-same params params' same i, value_of-same params params' same j) refl

parameter_value-same :
    (params params' : Dict String)
    → ((k : String) → find k params ≡ find k params')
    → parameter_value params ≡ parameter_value params'
unfolding parameter_value
parameter_value-same params params' same = λ t k. record {
  name = k;
  xsd_type = infer_xsd_type k;
  value = value_of-same params params' same k t;
}

-- The request does not depend on the order in which the map is iterated, nor on the sorting function.
pub build_set_parameter_values-stable :
    (slice slice' : Sorter String) (params params' : Dict String)
    → ((k : String) → find k params ≡ find k params')
    → Perm (map (λ e. e.0) params) (map (λ e. e.0) params')
    → build_set_parameter_values slice params ≡ build_set_parameter_values slice' params'
unfolding build_set_parameter_values
build_set_parameter_values-stable slice slice' params params' same p =
    let weak = comes_before-weak params in
    rw
      (
        sym (comes_before-same params params' same),
        sym (parameter_value-same params params' same),
        sort_unique (comes_before params) weak.irrefl (comes_before_total params) slice slice' _ _
            weak p,
      )
      refl
