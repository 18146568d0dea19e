-- ===== src/Sorting/Insertion.antt =====
-- A sorting function that keeps what `sort.Slice` promises.
use mathlib.Core.Bool.{Bool-set}
use mathlib.Core.List.{Perm, Pairwise, not-mem-nil, eq-or-mem_of_mem-cons}
use mathlib.Core.List.Perm
use mathlib.Core.Logic.Or
use helix_acs.Prelude.{
  ◌≡◌, inl, inr, ap, ◌∙◌, List, [], ◌∷◌, Bool, true, false, if◌then◌else◌, Bool-cases, arith,
}
use helix_acs.Sorting.{IsStrictWeak, InOrder, Sorter}

module _ {ℓ} {A : Type ℓ} (lt : A → A → Bool) where
  abbrev pub insert : A → List A → List A
  insert x [] = x ∷ []
  insert x (y ∷ ys) = let rest = insert x ys in if lt y x then y ∷ rest else x ∷ y ∷ ys

  abbrev pub insertion_sort : List A → List A
  insertion_sort [] = []
  insertion_sort (x ∷ xs) = insert x (insertion_sort xs)

  insert-perm : (x : A) (ys : List A) → Perm (insert x ys) (x ∷ ys)
  insert-perm x [] = Perm.rfl
  insert-perm x (y ∷ ys) = elim (Bool-cases (lt y x)) [
    | inl b ↦ rw b (Perm.trans (Perm.cons y (insert-perm x ys)) (Perm.swap x y ys))
    | inr b ↦ rw b Perm.rfl
  ]

  pub insertion_sort-perm : (xs : List A) → Perm (insertion_sort xs) xs
  insertion_sort-perm [] = Perm.rfl
  insertion_sort-perm (x ∷ xs) =
      Perm.trans (insert-perm x (insertion_sort xs)) (Perm.cons x (insertion_sort-perm xs))

  module _ (weak : IsStrictWeak lt) where
    not_after : (x y : A) → lt y x ≡ true → lt x y ≡ false
    not_after x y h = ground (arith, weak.trans x y x, weak.irrefl x)

    not_before : (x y z : A) → lt z y ≡ false → lt y x ≡ false → lt z x ≡ false
    not_before x y z h k = ground (arith, weak.cotrans z y x)

    insert-InOrder : (x : A) (ys : List A) → InOrder lt ys → InOrder lt (insert x ys)
    insert-InOrder x [] p = Pairwise.cons (λ z m. absurd (not-mem-nil m)) Pairwise.nil
    insert-InOrder x (y ∷ ys) (Pairwise.cons h p) = elim (Bool-cases (lt y x)) [
      | inl b ↦ rw b (
          Pairwise.cons
            (λ z m.
              Or.elim (Bool-set _ _) (eq-or-mem_of_mem-cons (Perm.subset (insert-perm x ys) z m))
                (λ e. ap (λ w. lt w y) e ∙ not_after x y b) (h z))
            (insert-InOrder x ys p))
      | inr b ↦ rw b (
          Pairwise.cons
            (λ z m.
              Or.elim (Bool-set _ _) (eq-or-mem_of_mem-cons m) (λ e. ap (λ w. lt w x) e ∙ b)
                (λ n. not_before x y z (h z n) b))
            (Pairwise.cons h p))
    ]

    pub insertion_sort-InOrder : (xs : List A) → InOrder lt (insertion_sort xs)
    insertion_sort-InOrder [] = Pairwise.nil
    insertion_sort-InOrder (x ∷ xs) =
        insert-InOrder x (insertion_sort xs) (insertion_sort-InOrder xs)

abbrev pub insertion {ℓ} : (A : Type ℓ) → Sorter A
insertion A = record {
  sort = insertion_sort;
  sort-perm = insertion_sort-perm;
  sort-InOrder = λ lt xs weak. insertion_sort-InOrder lt weak xs;
}
