-- ===== src/Schema/Provision/Progress.antt =====
-- What the executor's loop over inactive steps and its two ways to advance leave behind.
use helix_acs.Prelude.{
  ℕ, zero, suc, ◌+◌, ◌≤◌, ◌≡◌, refl, Bool, true, List, [], ◌∷◌, Option, none, some, arith, leb,
  leb→le, length, get_elem?, drop, select, length-drop, ◌↔◌,
}
use helix_acs.Dict.{Dict}
use helix_acs.Schema.Flow.{ProvisionStep}
use helix_acs.Schema.Provision.{
  ProvisionExecutor, is_active, inactive_count, skip_inactive, done, step_at,
}

abbrev ActiveOrNone : Dict Bool → Option ProvisionStep → Type 0
ActiveOrNone features none = Unit
ActiveOrNone features (some s) = is_active features s ≡ true

-- The executor is done, or the condition of its current step holds.
unfoldable pub IsSettled : ProvisionExecutor → Type 0
IsSettled pe = ActiveOrNone pe.features (step_at pe)

-- The steps from the current one on whose condition holds.
unfoldable pub pending : ProvisionExecutor → List ProvisionStep
pending pe = select (is_active pe.features) (drop pe.cur pe.flow.steps)

zero_plus : (n : ℕ) → 0 + n ≡ n
zero_plus n = omega arith

suc_plus : (n i : ℕ) → suc n + i ≡ suc (n + i)
suc_plus n i = omega arith

get_elem?-drop :
    (n i : ℕ) (xs : List ProvisionStep) → get_elem? (drop n xs) i ≡ get_elem? xs (n + i)
get_elem?-drop zero i xs = rw (zero_plus i)
get_elem?-drop (suc n) i [] = refl
get_elem?-drop (suc n) i (x ∷ xs) = rw (suc_plus n i) (get_elem?-drop n i xs)

drop-drop : (n i : ℕ) (xs : List ProvisionStep) → drop i (drop n xs) ≡ drop (n + i) xs
drop-drop zero i xs = rw (zero_plus i)
drop-drop (suc n) zero [] = rw (suc_plus n 0)
drop-drop (suc n) (suc i) [] = rw (suc_plus n (suc i))
drop-drop (suc n) i (x ∷ xs) = rw (suc_plus n i) (drop-drop n i xs)

inactive_count-ActiveOrNone :
    (fs : Dict Bool) (steps : List ProvisionStep)
    → ActiveOrNone fs (get_elem? steps (inactive_count fs steps))
unfolding inactive_count
inactive_count-ActiveOrNone fs [] = tt
inactive_count-ActiveOrNone fs (s ∷ steps) = ground (arith, inactive_count-ActiveOrNone fs steps)

inactive_count-select :
    (fs : Dict Bool) (steps : List ProvisionStep)
    → select (is_active fs) (drop (inactive_count fs steps) steps) ≡ select (is_active fs) steps
unfolding inactive_count
inactive_count-select fs [] = refl
inactive_count-select fs (s ∷ steps) = ground (arith, inactive_count-select fs steps)

inactive_count-length :
    (fs : Dict Bool) (steps : List ProvisionStep) → inactive_count fs steps ≤ length steps
unfolding inactive_count
inactive_count-length fs [] = omega arith
inactive_count-length fs (s ∷ steps) = ground (arith, inactive_count-length fs steps)

pub skip_inactive-IsSettled : (pe : ProvisionExecutor) → IsSettled (skip_inactive pe)
unfolding IsSettled step_at skip_inactive
skip_inactive-IsSettled pe =
    let rest = drop pe.cur pe.flow.steps in
    rw (← get_elem?-drop pe.cur (inactive_count pe.features rest) pe.flow.steps)
      (inactive_count-ActiveOrNone pe.features rest)

pub pending-skip_inactive : (pe : ProvisionExecutor) → pending (skip_inactive pe) ≡ pending pe
unfolding pending skip_inactive
pending-skip_inactive pe =
    let rest = drop pe.cur pe.flow.steps in
    rw (← drop-drop pe.cur (inactive_count pe.features rest) pe.flow.steps)
      (inactive_count-select pe.features rest)

-- After `skip_inactive` nothing runs beyond the flow's end.
pub skip_inactive_le :
    (pe : ProvisionExecutor)
    → pe.cur ≤ length pe.flow.steps
    → (skip_inactive pe).cur ≤ length pe.flow.steps
unfolding skip_inactive
skip_inactive_le pe h =
    let rest = drop pe.cur pe.flow.steps in
    omega (arith, inactive_count-length pe.features rest, length-drop pe.cur pe.flow.steps)

step_at-drop :
    (n : ℕ) (xs : List ProvisionStep) (s : ProvisionStep)
    → get_elem? xs n ≡ some s
    → drop n xs ≡ s ∷ drop (suc n) xs
step_at-drop n [] s h = ground arith
step_at-drop zero (x ∷ xs) s h = ground arith
step_at-drop (suc n) (x ∷ xs) s h = step_at-drop n xs s h

-- The current step of a settled executor is the first of the pending ones.
pub pending-step_at :
    (pe : ProvisionExecutor) (s : ProvisionStep)
    → IsSettled pe
    → step_at pe ≡ some s
    → pending pe ≡ s ∷ select (is_active pe.features) (drop (suc pe.cur) pe.flow.steps)
unfolding IsSettled step_at pending
pending-step_at pe s settled h =
    rw (step_at-drop pe.cur pe.flow.steps s h)
      (let active : is_active pe.features s ≡ true = rw h at settled in rw active)

get_elem?-length :
    (n : ℕ) (xs : List ProvisionStep) → (get_elem? xs n ≡ none) ↔ (leb (length xs) n ≡ true)
get_elem?-length n [] = ground arith
get_elem?-length zero (x ∷ xs) = ground arith
get_elem?-length (suc n) (x ∷ xs) = ground (arith, get_elem?-length n xs)

pub step_at-done : (pe : ProvisionExecutor) → (step_at pe ≡ none) ↔ (done pe ≡ true)
unfolding step_at done
step_at-done pe = get_elem?-length pe.cur pe.flow.steps

drop-nil : (n : ℕ) (xs : List ProvisionStep) → length xs ≤ n → drop n xs ≡ []
drop-nil zero [] h = refl
drop-nil (suc n) [] h = refl
drop-nil zero (x ∷ xs) h = absurd (omega arith)
drop-nil (suc n) (x ∷ xs) h = drop-nil n xs (omega arith)

pub pending-done : (pe : ProvisionExecutor) → done pe ≡ true → pending pe ≡ []
unfolding done pending
pending-done pe h = rw (drop-nil pe.cur pe.flow.steps (leb→le (length pe.flow.steps) pe.cur h))
