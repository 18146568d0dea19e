-- ===== src/Schema/Vendor.antt =====
-- `normaliseVendor` of internal/schema/resolver.go: a manufacturer's text to a vendor slug.
pub mod Sorting
pub mod Longest
pub mod Panics
mod Tests
use Prim.Native.String
use helix_acs.Prelude.{
  ℕ, zero, suc, Char, code, String, Bool, true, false, not, ◌&&◌, ◌||◌, List, [], ◌∷◌, Option, none,
  some, ltb, ◌==◌, if◌then◌else◌, str_eq, map, length, select,
}
use helix_acs.Text.{byte_len, has_prefix, trim_space, to_lower}
use helix_acs.Dict.{Dict, value_of}

abbrev pub known_vendors : Dict String
known_vendors =
    ("huawei", "huawei")
    ∷ ("zte", "zte")
    ∷ ("tp-link", "tplink")
    ∷ ("tp link", "tplink")
    ∷ ("tplink", "tplink")
    ∷ ("fiberhome", "fiberhome")
    ∷ ("intelbras", "intelbras")
    ∷ ("datacom", "datacom")
    ∷ ("nokia", "nokia")
    ∷ ("ericsson", "ericsson")
    ∷ ("sagemcom", "sagemcom")
    ∷ ("technicolor", "technicolor")
    ∷ ("arcadyan", "arcadyan")
    ∷ ("sercomm", "sercomm")
    ∷ ("askey", "askey")
    ∷ ("zteg", "cdata")
    ∷ ("c-data", "cdata")
    ∷ ("cdata", "cdata")
    ∷ ("cdtc", "cdata")
    ∷ ("mtn", "ruijie")
    ∷ ("ruijie", "ruijie")
    ∷ []

-- The inner loop: position i against every later j, swapped where the later text is longer.
-- The results are what ends up at i, and the later positions.
exchange : String → List String → String × List String
exchange x [] = (x, [])
exchange x (y ∷ ys) =
    let longer = ltb (byte_len x) (byte_len y) in
    let (m, rest) = exchange (if longer then y else x) ys in (m, (if longer then x else y) ∷ rest)

-- The outer loop, one round for each position.
sort_rounds : ℕ → List String → List String
sort_rounds zero xs = xs
sort_rounds (suc n) [] = []
sort_rounds (suc n) (x ∷ xs) = let (m, rest) = exchange x xs in m ∷ sort_rounds n rest

unfoldable pub sort_prefixes : List String → List String
unfolding sort_rounds exchange
sort_prefixes xs = sort_rounds (length xs) xs

unfoldable pub first_prefix : String → List String → Option String
unfolding has_prefix
first_prefix s [] = none
first_prefix s (p ∷ ps) = if has_prefix s p then some p else first_prefix s ps

unfoldable pub is_separator : Char → Bool
is_separator c = let n = code c in n == b' ' || n == b',' || n == b'.' || n == b'/' || n == b'\\'

abbrev extend_first : Char → List String → List String
extend_first c [] = String.◌∷◌ c String.[] ∷ []
extend_first c (w ∷ ws) = String.◌∷◌ c w ∷ ws

-- The pieces between separators, empty ones included.
pieces : String → List String
pieces String.[] = "" ∷ []
pieces (String.◌∷◌ c s) =
    let rest = pieces s in if is_separator c then "" ∷ rest else extend_first c rest

-- strings.FieldsFunc: the pieces that are not empty.
unfoldable pub fields : String → List String
unfolding pieces is_separator
fields s = select (λ w. not (str_eq w "")) (pieces s)

abbrev first : List String → Option String
first [] = none
first (w ∷ ws) = some w

-- The argument `order` lists the keys of `known_vendors` as the iteration over the map meets them.
-- `none` is the panic of indexing an empty slice.
unfoldable pub normalise_vendor : List String → String → Option String
unfolding sort_prefixes first_prefix fields
normalise_vendor order manufacturer =
    let s = to_lower (trim_space manufacturer) in
    if str_eq s "" then some "" else elim (first_prefix s (sort_prefixes order)) [
      | some p ↦ some (value_of p known_vendors)
      | none ↦ first (fields s)
    ]
