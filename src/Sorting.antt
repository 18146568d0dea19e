-- ===== src/Sorting.antt =====
-- `sort.Slice` of Go's library, as the code uses it: what it promises of a strict weak order.
pub mod Insertion
use mathlib.Core.Bool.{Bool-set}
use mathlib.Core.Path.{subst}
use mathlib.Core.List.{Perm, Mem, Pairwise, mem-cons_self, eq-or-mem_of_mem-cons}
use mathlib.Core.List.Perm
use mathlib.Core.Logic.Or
use helix_acs.Prelude.{◌≡◌, ◌⊎◌, refl, sym, ap, ◌∙◌, List, [], ◌∷◌, Bool, true, false}

module _ {ℓ} {A : Type ℓ} where
  -- A strict weak order as a Boolean test.
  pub record IsStrictWeak (lt : A → A → Bool) : Type ℓ where
    pub irrefl : (x : A) → lt x x ≡ false
    pub trans : (x y z : A) → lt x y ≡ true → lt y z ≡ true → lt x z ≡ true
    pub cotrans : (x y z : A) → lt x z ≡ true → (lt x y ≡ true) ⊎ (lt y z ≡ true)

  -- No element comes before one that stands to its left.
  abbrev pub InOrder : (A → A → Bool) → List A → Type ℓ
  InOrder lt = Pairwise (λ x y. lt y x ≡ false)

-- The order of equal elements is left open.
pub record Sorter {ℓ} (A : Type ℓ) : Type ℓ where
  pub sort : (A → A → Bool) → List A → List A
  pub sort-perm : (lt : A → A → Bool) (xs : List A) → Perm (sort lt xs) xs
  pub sort-InOrder : (lt : A → A → Bool) (xs : List A) → IsStrictWeak lt → InOrder lt (sort lt xs)

-- Where elements that are not ordered are the same, there is one list in order.
module _ {ℓ} {A : Type ℓ} (lt : A → A → Bool) (irrefl : (x : A) → lt x x ≡ false)
    (total : (x y : A) → lt x y ≡ false → lt y x ≡ false → x ≡ y) where
  InOrder-tail : {x : A} {xs : List A} → InOrder lt (x ∷ xs) → InOrder lt xs
  InOrder-tail (Pairwise.cons h p) = p

  not_before_head : (x y : A) (ys : List A) → InOrder lt (y ∷ ys) → Mem x (y ∷ ys) → lt x y ≡ false
  not_before_head x y ys (Pairwise.cons h p) m =
      Or.elim (Bool-set _ _) (eq-or-mem_of_mem-cons m) (λ e. ap (λ z. lt x z) (sym e) ∙ irrefl x)
        (λ n. h x n)

  pub InOrder-unique : (xs ys : List A) → InOrder lt xs → InOrder lt ys → Perm xs ys → xs ≡ ys
  InOrder-unique [] ys p q r = Perm.nil-eq r
  InOrder-unique (x ∷ xs) [] p q r = Perm.eq-nil r
  InOrder-unique (x ∷ xs) (y ∷ ys) p q r =
      let e : x ≡ y =
        total x y (not_before_head x y ys q (Perm.subset r x mem-cons_self))
          (not_before_head y x xs p (Perm.subset (Perm.symm r) y mem-cons_self)) in
      let rest : xs ≡ ys =
        InOrder-unique xs ys (InOrder-tail p) (InOrder-tail q)
          (Perm.cons_inv (subst (λ z. Perm (x ∷ xs) (z ∷ ys)) (sym e) r)) in
      rw (e, rest) refl

  -- So two sorting functions agree, on lists with the same elements.
  pub sort_unique :
      (slice slice' : Sorter A) (xs ys : List A)
      → IsStrictWeak lt
      → Perm xs ys
      → slice.sort lt xs ≡ slice'.sort lt ys
  sort_unique slice slice' xs ys weak p =
      InOrder-unique _ _ (slice.sort-InOrder lt xs weak) (slice'.sort-InOrder lt ys weak)
        (Perm.trans (slice.sort-perm lt xs) (Perm.trans p (Perm.symm (slice'.sort-perm lt ys))))
