-- ===== src/Schema/Vendor/Sorting.antt =====
-- The exchange sort keeps the elements and puts longer texts first.
use helix_acs.Prelude.{
  ℕ, zero, suc, ◌≤◌, ◌≡◌, refl, ap, String, List, [], ◌∷◌, arith, All, length, ltb, if◌then◌else◌,
}
use helix_acs.Text.{byte_len}
use helix_acs.Schema.Vendor.{exchange, sort_rounds, sort_prefixes}

length-exchange : (x : String) (ys : List String) → length (exchange x ys).1 ≡ length ys
unfolding exchange
length-exchange x [] = refl
length-exchange x (y ∷ ys) =
    ap suc (length-exchange (if ltb (byte_len x) (byte_len y) then y else x) ys)

module _ (P : String → Type 0) where
  exchange-All :
      (x : String) (ys : List String)
      → P x
      → All P ys
      → P (exchange x ys).0 × All P (exchange x ys).1
  unfolding exchange
  exchange-All x [] p h = (p, tt)
  exchange-All x (y ∷ ys) p (q, h) =
      let longer = ltb (byte_len x) (byte_len y) in
      let ih = exchange-All (if longer then y else x) ys (ground arith) h in
      (ih.0, (ground arith, ih.1))

  All-exchange :
      (x : String) (ys : List String)
      → P (exchange x ys).0
      → All P (exchange x ys).1
      → P x × All P ys
  unfolding exchange
  All-exchange x [] p h = (p, tt)
  All-exchange x (y ∷ ys) p (q, h) =
      let longer = ltb (byte_len x) (byte_len y) in
      let ih = All-exchange (if longer then y else x) ys p h in (ground arith, (ground arith, ih.1))

  sort_rounds-All : (n : ℕ) (xs : List String) → All P xs → All P (sort_rounds n xs)
  unfolding sort_rounds
  sort_rounds-All zero xs h = h
  sort_rounds-All (suc n) [] h = tt
  sort_rounds-All (suc n) (x ∷ xs) (p, h) =
      let (q, g) = exchange-All x xs p h in (q, sort_rounds-All n (exchange x xs).1 g)

  All-sort_rounds : (n : ℕ) (xs : List String) → All P (sort_rounds n xs) → All P xs
  unfolding sort_rounds
  All-sort_rounds zero xs h = h
  All-sort_rounds (suc n) [] h = tt
  All-sort_rounds (suc n) (x ∷ xs) (q, h) =
      All-exchange x xs q (All-sort_rounds n (exchange x xs).1 h)

abbrev pub IsLongest : String → List String → Type 0
IsLongest m = All (λ y. byte_len y ≤ byte_len m)

abbrev pub IsDescending : List String → Type 0
IsDescending [] = Unit
IsDescending (x ∷ xs) = IsLongest x xs × IsDescending xs

exchange-IsLongest :
    (x : String) (ys : List String)
    → (byte_len x ≤ byte_len (exchange x ys).0) × IsLongest (exchange x ys).0 (exchange x ys).1
unfolding exchange
exchange-IsLongest x [] = (omega arith, tt)
exchange-IsLongest x (y ∷ ys) =
    let longer = ltb (byte_len x) (byte_len y) in
    let ih = exchange-IsLongest (if longer then y else x) ys in
    (ground (arith, ih.0), (ground (arith, ih.0), ih.1))

sort_rounds-IsDescending :
    (n : ℕ) (xs : List String) → length xs ≤ n → IsDescending (sort_rounds n xs)
unfolding sort_rounds
sort_rounds-IsDescending zero [] h = tt
sort_rounds-IsDescending zero (x ∷ xs) h = absurd (omega arith)
sort_rounds-IsDescending (suc n) [] h = tt
sort_rounds-IsDescending (suc n) (x ∷ xs) h = (
  sort_rounds-All (λ y. byte_len y ≤ byte_len (exchange x xs).0) n (exchange x xs).1
      (exchange-IsLongest x xs).1,
  sort_rounds-IsDescending n (exchange x xs).1 (omega (arith, length-exchange x xs)),
)

pub sort_prefixes-IsDescending : (xs : List String) → IsDescending (sort_prefixes xs)
unfolding sort_prefixes
sort_prefixes-IsDescending xs = sort_rounds-IsDescending (length xs) xs (omega arith)

pub sort_prefixes-All :
    (P : String → Type 0) (xs : List String) → All P xs → All P (sort_prefixes xs)
unfolding sort_prefixes
sort_prefixes-All P xs = sort_rounds-All P (length xs) xs

pub All-sort_prefixes :
    (P : String → Type 0) (xs : List String) → All P (sort_prefixes xs) → All P xs
unfolding sort_prefixes
All-sort_prefixes P xs = All-sort_rounds P (length xs) xs
