-- ===== src/Cwmp/Summon/Batches.antt =====
-- The batches of a full summon, from the names of the device to the parameters that are saved.
use native.Mathlib.Numerals.{unary_clauses}
use helix_acs.Prelude.{
  ℕ, zero, suc, ◌+◌, ◌*◌, ◌≤◌, ◌<◌, ◌≡◌, inl, inr, refl, sym, ap, ◌∙◌, arith, String, Bool, true,
  false, List, [], ◌∷◌, ◌++◌, Option, none, some, leb, length, take, drop, All, Bool-cases,
  length-drop, take-append-drop, leb→le,
}
use helix_acs.Dict.{Dict, copy_into}
use helix_acs.Cwmp.Summon.{
  values_in_phase, fetch_leaves, fetch_from_start, fetching, Summon, Reply, get_parameter_values,
  summoned, leaf_names, is_tr098_name, summon_batch_size_for_schema, finish_summon,
  send_next_summon_batch, handle_get_parameter_names_response, handle_get_param_values_response,
}

-- A device answers every request for values with parameters.
abbrev pub Device : Type 0
Device = List String → Dict String

abbrev pub every_built : List String → Bool
every_built names = true

-- The requests for values that follow a reply, and the parameters that are saved at their end.
unfoldable pub exchange : Device → ℕ → Summon → Reply → Option (List (List String) × Dict String)
exchange device fuel s (summoned params) = some ([], params)
exchange device zero s (get_parameter_values names) = none
exchange device (suc fuel) s (get_parameter_values names) =
    let next = handle_get_param_values_response every_built (device names) s in
    let rest = exchange device fuel next.0 next.1 in
    elim rest [ none ↦ none | some (batches, params) ↦ some (names ∷ batches, params) ]
exchange device fuel s r = none

abbrev pub concat {ℓ} : {A : Type ℓ} → List (List A) → List A
concat [] = []
concat (xs ∷ xss) = xs ++ concat xss

-- The answers of a device to some batches, the later over the earlier, over given parameters.
abbrev pub collected : Device → List (List String) → Dict String → Dict String
collected device [] params = params
collected device (b ∷ bs) params = collected device bs (copy_into (device b) params)

-- Batches that are neither empty nor larger than allowed.
abbrev pub Sized : ℕ → List (List String) → Type 0
Sized size = All (λ b. (1 ≤ length b) × (length b ≤ size))

-- What is fetched from some batch on.
abbrev Fetched : Device → Summon → Option (List (List String) × Dict String) → Type 0
Fetched device s r =
    let size = summon_batch_size_for_schema s.schema_name in
    (batches : List (List String)) × ((r ≡ some (batches, collected device batches s.all_params))
      × ((concat batches ≡ drop (s.batch_idx * size) s.all_names) × Sized size batches))

size_positive : (schema_name : String) → 1 ≤ summon_batch_size_for_schema schema_name
unfolding summon_batch_size_for_schema
size_positive schema_name = elim (Bool-cases (is_tr098_name schema_name)) [
  | inl e ↦ rw (e, summon_batch_size_for_schema) (omega arith)
  | inr e ↦ rw (e, summon_batch_size_for_schema) (omega arith)
]

drop_all : {A : Type 0} (n : ℕ) (xs : List A) → length xs ≤ n → drop n xs ≡ []
drop_all zero [] h = refl
drop_all zero (x ∷ xs) h = absurd (omega arith)
drop_all (suc n) [] h = refl
drop_all (suc n) (x ∷ xs) h = drop_all n xs (omega arith)

drop-drop : {A : Type 0} (m n : ℕ) (xs : List A) → drop n (drop m xs) ≡ drop (m + n) xs
drop-drop zero n xs = let e : n ≡ 0 + n = omega arith in ap (λ k. drop k xs) e
drop-drop (suc m) zero [] = simp unary_clauses refl
drop-drop (suc m) (suc n) [] = simp unary_clauses refl
drop-drop (suc m) n (x ∷ xs) =
    let e : suc (m + n) ≡ suc m + n = omega arith in drop-drop m n xs ∙ ap (λ k. drop k (x ∷ xs)) e

length-take : {A : Type 0} (n : ℕ) (xs : List A) → length (take n xs) ≤ n
length-take zero xs = omega arith
length-take (suc n) [] = omega arith
length-take (suc n) (x ∷ xs) = omega (arith, length-take n xs)

take_some : {A : Type 0} (n : ℕ) (xs : List A) → 1 ≤ n → 1 ≤ length xs → 1 ≤ length (take n xs)
take_some zero xs h k = absurd (omega arith)
take_some (suc n) [] h k = absurd (omega arith)
take_some (suc n) (x ∷ xs) h k = omega arith

-- The batch that is next, and the state behind it.
abbrev next_batch : Summon → List String
next_batch s =
    let size = summon_batch_size_for_schema s.schema_name in
    take size (drop (s.batch_idx * size) s.all_names)

abbrev answered : Device → Summon → Summon
answered device s = record s {
  all_params = copy_into (device (next_batch s)) s.all_params;
  batch_idx = suc s.batch_idx;
}

send-finished :
    (s : Summon)
    → leb (length s.all_names) (s.batch_idx * summon_batch_size_for_schema s.schema_name) ≡ true
    → send_next_summon_batch every_built s ≡ finish_summon s
unfolding send_next_summon_batch
send-finished s h = rw (h, send_next_summon_batch) refl

send-next_batch :
    (s : Summon)
    → leb (length s.all_names) (s.batch_idx * summon_batch_size_for_schema s.schema_name) ≡ false
    → send_next_summon_batch every_built s ≡ (s, get_parameter_values (next_batch s))
unfolding send_next_summon_batch
send-next_batch s h = rw (h, send_next_summon_batch) refl

response-next :
    (device : Device) (s : Summon)
    → s.phase ≡ fetching
    → handle_get_param_values_response every_built (device (next_batch s)) s
      ≡ send_next_summon_batch every_built (answered device s)
unfolding handle_get_param_values_response
response-next device s h = ap (values_in_phase every_built (device (next_batch s)) s) h

Fetched-cons :
    (device : Device) (s : Summon) (r : Option (List (List String) × Dict String))
    → s.batch_idx * summon_batch_size_for_schema s.schema_name < length s.all_names
    → Fetched device (answered device s) r
    → Fetched device s
        (elim r [ none ↦ none | some (batches, params) ↦ some (next_batch s ∷ batches, params) ])
Fetched-cons device s r more (batches, (e, (c, z))) =
    let size = summon_batch_size_for_schema s.schema_name in
    let start = s.batch_idx * size in
    let shift : start + size ≡ suc s.batch_idx * size = omega arith in
    let left : 1 ≤ length (drop start s.all_names) =
      rw (length-drop start s.all_names) (omega arith) in
    (
      next_batch s ∷ batches,
      (
        rw e refl,
        (
          rw (c, sym shift, sym (drop-drop start size s.all_names))
              (take-append-drop size (drop start s.all_names)),
          (
            (
              take_some size (drop start s.all_names) (size_positive s.schema_name) left,
              length-take size (drop start s.all_names),
            ),
            z,
          ),
        ),
      ),
    )

Fetched-nil :
    (device : Device) (fuel : ℕ) (s : Summon)
    → length s.all_names ≤ s.batch_idx * summon_batch_size_for_schema s.schema_name
    → Fetched device s (exchange device fuel (finish_summon s).0 (finish_summon s).1)
unfolding exchange finish_summon
Fetched-nil device fuel s h = ([], (refl, (sym (drop_all _ s.all_names h), tt)))

exchange-cons :
    (device : Device) (fuel : ℕ) (s : Summon)
    → s.phase ≡ fetching
    → exchange device (suc fuel) s (get_parameter_values (next_batch s))
      ≡ elim (exchange device fuel
          (send_next_summon_batch every_built (answered device s)).0
          (send_next_summon_batch every_built (answered device s)).1) [
            | none ↦ none
            | some (batches, params) ↦ some (next_batch s ∷ batches, params)
          ]
unfolding exchange
exchange-cons device fuel s h =
    ap
      (λ p. elim (exchange device fuel p.0 p.1) [
        | none ↦ none
        | some (batches, params) ↦ some (next_batch s ∷ batches, params)
      ])
      (response-next device s h)

exchange-Fetched :
    (device : Device) (fuel : ℕ) (s : Summon)
    → s.phase ≡ fetching
    → length s.all_names ≤ s.batch_idx * summon_batch_size_for_schema s.schema_name + fuel
    → Fetched device s (
        exchange device fuel
          (send_next_summon_batch every_built s).0
          (send_next_summon_batch every_built s).1)
exchange-Fetched device zero s h b =
    let all_done : length s.all_names ≤ s.batch_idx * summon_batch_size_for_schema s.schema_name =
      omega arith in
    rw (send-finished s (ground arith)) (Fetched-nil device zero s all_done)
exchange-Fetched device (suc fuel) s h b =
    elim (Bool-cases
      (leb (length s.all_names) (s.batch_idx * summon_batch_size_for_schema s.schema_name))) [
        | inl e ↦ rw (send-finished s e) (Fetched-nil device (suc fuel) s (leb→le _ _ e))
        | inr e ↦
            rw (send-next_batch s e, exchange-cons device fuel s h)
              (Fetched-cons device s _ (ground arith) (
                exchange-Fetched device fuel (answered device s) h
                  (omega (arith, size_positive s.schema_name))))
      ]

response-leaves :
    (names : List String) (s : Summon)
    → 1 ≤ length (leaf_names names)
    → handle_get_parameter_names_response every_built names s
      ≡ send_next_summon_batch every_built (fetch_from_start (leaf_names names) s)
unfolding handle_get_parameter_names_response
response-leaves names s h = from (leaf_names names) h
  where
    from :
        (leaves : List String)
        → 1 ≤ length leaves
        → fetch_leaves every_built s leaves
          ≡ send_next_summon_batch every_built (fetch_from_start leaves s)
    from [] k = absurd (omega arith)
    from (n ∷ ns) k = refl

-- A full summon ends, within as many requests as there are leaf names, where the device has named a
-- leaf and every envelope can be built. The requests ask for the leaf names, each once and in their
-- order, in batches that are neither empty nor larger than the schema allows, and what is saved are
-- the device's answers to all of them, a later one over an earlier one.
pub full_summon_complete :
    (device : Device) (names : List String) (s : Summon) (fuel : ℕ)
    → 1 ≤ length (leaf_names names)
    → length (leaf_names names) ≤ fuel
    → (batches : List (List String)) × ((exchange device fuel
            (handle_get_parameter_names_response every_built names s).0
            (handle_get_parameter_names_response every_built names s).1
          ≡ some (batches, collected device batches []))
        × ((concat batches ≡ leaf_names names)
            × Sized (summon_batch_size_for_schema s.schema_name) batches))
full_summon_complete device names s fuel some_leaf enough =
    let from_start = fetch_from_start (leaf_names names) s in
    let (batches, (saved, (all, sized))) =
      exchange-Fetched device fuel from_start refl (omega arith) in
    let nothing_before : 0 * summon_batch_size_for_schema s.schema_name ≡ 0 = omega arith in
    (
      batches,
      (
        rw (response-leaves names s some_leaf) saved,
        (all ∙ ap (λ k. drop k (leaf_names names)) nothing_before, sized),
      ),
    )
