-- ===== src/Parameter/Storage/Coherent.antt =====
-- The cache against the rows: a sequence of calls whose writes are answered, and whose invalidations
-- succeed, is read back as if there were no cache.
use text.Mathlib.TextLemmas.{append_cancel_left}
use helix_acs.Prelude.{
  ◌≡◌, refl, ap, String, Bool, true, false, not, List, some, arith, str_eq, eq_iff, Bool-cases,
  Option-cases, inl, inr, is_empty, select,
}
use helix_acs.Dict.{Dict, find, put, delete}
use helix_acs.Dict.Laws.{find-put, find-delete}
use helix_acs.Parameter.Storage.{
  Row, Storage, executed, cache_key, rows_of, rows_to_params, cached_params, queried,
  upsert_device_parameters, invalidate, update_parameters, get_all_parameters,
  delete_device_parameters,
}
use helix_acs.Parameter.Storage.Contents.{
  stored, stored-upsert_device_parameters, find-rows_to_params, stored-deleted,
}

cache_key-inj : (s t : String) → cache_key s ≡ cache_key t → s ≡ t
unfolding cache_key
cache_key-inj s t e = append_cancel_left "params:" s t e

cache_key-eq_test : (s t : String) → str_eq (cache_key s) (cache_key t) ≡ str_eq s t
cache_key-eq_test s t = ground (
  arith,
  eq_iff s t,
  eq_iff (cache_key s) (cache_key t),
  cache_key-inj s t,
  λ (e : s ≡ t). ap cache_key e,
)

-- Every entry of the cache holds what the rows of its device hold.
pub record IsCoherent (s : Storage) : Type 0 where
  pub entry_is_stored :
      (serial : String) (cached : Dict String)
      → find (cache_key serial) s.cache ≡ some cached
      → (name : String) → find name cached ≡ stored s.rows serial name

module _ (serial : String) (s : Storage) (coherent : IsCoherent s) where
  -- A device's rows may change when its entry is dropped.
  changed-IsCoherent :
      (rows' : List Row)
      → ((se na : String) → str_eq serial se ≡ false → stored rows' se na ≡ stored s.rows se na)
      → IsCoherent (record s { rows = rows'; cache = delete (cache_key serial) s.cache })
  changed-IsCoherent rows' others = record {
    entry_is_stored = λ se cached found name. ground (
      arith,
      find-delete (cache_key serial) (cache_key se) s.cache,
      cache_key-eq_test serial se,
      others se name,
      λ (p : find (cache_key se) s.cache ≡ some cached). coherent.entry_is_stored se cached p name,
    );
  }

  pub update_parameters-IsCoherent :
      (params : Dict String) → IsCoherent (update_parameters executed true serial params s).0
  unfolding update_parameters invalidate
  update_parameters-IsCoherent params = elim (Bool-cases (is_empty params)) [
    | inl nothing ↦ rw nothing coherent
    | inr more ↦ rw more (
        changed-IsCoherent (upsert_device_parameters serial params s.rows) (λ se na other.
          rw (stored-upsert_device_parameters serial params s.rows se na, other) refl))
  ]

  pub delete_device_parameters-IsCoherent :
      IsCoherent (delete_device_parameters executed true serial s).0
  unfolding delete_device_parameters invalidate
  delete_device_parameters-IsCoherent =
      changed-IsCoherent (select (λ r. not (str_eq r.device_serial serial)) s.rows)
        (λ se na other. rw (stored-deleted serial s.rows se na, other) refl)

  filled-IsCoherent :
      IsCoherent (record s {
        cache = put (cache_key serial) (rows_to_params (rows_of serial s.rows)) s.cache;
      })
  filled-IsCoherent = record {
    entry_is_stored = λ se cached found name. ground (
      arith,
      find-put (cache_key serial) (cache_key se) (rows_to_params (rows_of serial s.rows)) s.cache,
      cache_key-eq_test serial se,
      eq_iff serial se,
      find-rows_to_params serial s.rows name,
      λ (p : find (cache_key se) s.cache ≡ some cached). coherent.entry_is_stored se cached p name,
    );
  }

  queried-IsCoherent : (answered cached : Bool) → IsCoherent (queried answered cached serial s).0
  unfolding queried
  queried-IsCoherent true true = filled-IsCoherent
  queried-IsCoherent true false = coherent
  queried-IsCoherent false cached = coherent

  -- Whatever it finds, it gives the stored values.
  pub get_all_parameters-stored :
      (cache_answers cached : Bool)
      → (params : Dict String) × ((get_all_parameters cache_answers true cached serial s).1
          ≡ some params)
        × ((name : String) → find name params ≡ stored s.rows serial name)
  unfolding get_all_parameters cached_params
  get_all_parameters-stored true cached = elim (Option-cases (find (cache_key serial) s.cache)) [
    | inl miss ↦ (
      rows_to_params (rows_of serial s.rows),
      rw (miss, get_all_parameters, cached_params) refl,
      find-rows_to_params serial s.rows,
    )
    | inr (found, hit) ↦ (
      found,
      rw (hit, get_all_parameters, cached_params) refl,
      coherent.entry_is_stored serial found hit,
    )
  ]
  get_all_parameters-stored false cached =
      (rows_to_params (rows_of serial s.rows), refl, find-rows_to_params serial s.rows)

  pub get_all_parameters-IsCoherent :
      (cache_answers answered cached : Bool)
      → IsCoherent (get_all_parameters cache_answers answered cached serial s).0
  unfolding get_all_parameters
  get_all_parameters-IsCoherent cache_answers answered cached =
      elim (Option-cases (cached_params cache_answers serial s)) [
        | inl miss ↦ rw (miss, get_all_parameters) (queried-IsCoherent answered cached)
        | inr (found, hit) ↦ rw (hit, get_all_parameters) coherent
      ]

  pub expired-IsCoherent : IsCoherent (record s { cache = delete (cache_key serial) s.cache })
  expired-IsCoherent = changed-IsCoherent s.rows (λ se na other. refl)
