-- ===== src/Tests/Index.antt =====
-- The registry and the label keys at concrete inputs.
use marchimetrics.Base.{
  ℕ, ◌≡◌, ◌≤◌, ◌↔◌, arith, List, [], ◌∷◌, ◌&&◌, ◌||◌, not, none, if◌then◌else◌,
}
use marchimetrics.Base.Str.{Str, str_key, nat_key, ◌==◌}
use marchimetrics.GoMap.{lookup, lookup_or, contains}
use marchimetrics.GoMap.Laws.{IsSorted}
use marchimetrics.Label.{Label, canonical_key, sorted_labels}
use marchimetrics.Label.Key.{canonical_key-eq}
use marchimetrics.Registry.{
  Registry, Matcher, new_registry, resolve, resolve_locked, add_inverted, unindexed_ids,
  mark_indexed, load_inverted_entry, drop_day, match_ids,
}
use marchimetrics.Registry.Resolve.{
  IsValid, new_registry-IsValid, resolve_locked-IsValid, resolve_all, resolve-eq,
  next_id-resolve_locked,
}
use marchimetrics.Registry.Inverted.{
  findable, satisfies, is_empty, contains-match_ids, match_ids-IsSorted,
}
use marchimetrics.Registry.Days.{
  has_key, findable_on, findable-add_inverted, drop_day-load_inverted_entry, contains-unindexed_ids,
}

abbrev job_a : Label
job_a = record { name = 106 ∷ 111 ∷ 98 ∷ []; value = 97 ∷ [] }

abbrev job_b : Label
job_b = record { name = 106 ∷ 111 ∷ 98 ∷ []; value = 98 ∷ [] }

abbrev host_a : Label
host_a = record { name = 104 ∷ []; value = 97 ∷ [] }

-- "20240101"
abbrev first_day : Str
first_day = 50 ∷ 48 ∷ 50 ∷ 52 ∷ 48 ∷ 49 ∷ 48 ∷ 49 ∷ []

abbrev two_series : Registry
two_series =
    (resolve_locked (resolve_locked new_registry (job_a ∷ host_a ∷ [])).0 (job_b ∷ host_a ∷ [])).0

abbrev indexed : Registry
indexed =
    add_inverted (add_inverted two_series first_day 2 (job_b ∷ host_a ∷ [])) first_day 1
      (job_a ∷ host_a ∷ [])

resolve_locked-IsValid_example : IsValid (resolve_locked new_registry (job_a ∷ [])).0
resolve_locked-IsValid_example =
    resolve_locked-IsValid new_registry (job_a ∷ []) new_registry-IsValid (omega arith)

abbrev one_series : Registry
one_series = (resolve_locked new_registry (job_a ∷ host_a ∷ [])).0

one_series-IsValid : IsValid one_series
one_series-IsValid =
    resolve_locked-IsValid new_registry (job_a ∷ host_a ∷ []) new_registry-IsValid (omega arith)

one_series_room : one_series.next_id ≤ 2
one_series_room =
    next_id-resolve_locked new_registry (job_a ∷ host_a ∷ []) new_registry-IsValid (omega arith)

resolve-eq_example :
    ((resolve one_series (job_a ∷ host_a ∷ [])).1
      ≡ (resolve
          (resolve_all (resolve one_series (job_a ∷ host_a ∷ [])).0 ((job_b ∷ []) ∷ []))
          (host_a ∷ job_a ∷ [])).1)
    ↔ (canonical_key (job_a ∷ host_a ∷ []) ≡ canonical_key (host_a ∷ job_a ∷ []))
resolve-eq_example =
    resolve-eq one_series (job_a ∷ host_a ∷ []) (host_a ∷ job_a ∷ []) ((job_b ∷ []) ∷ [])
      one_series-IsValid (omega (arith, one_series_room))

canonical_key-eq_example :
    (canonical_key (job_a ∷ host_a ∷ []) ≡ canonical_key (host_a ∷ job_a ∷ []))
    ↔ (sorted_labels (job_a ∷ host_a ∷ []) ≡ sorted_labels (host_a ∷ job_a ∷ []))
canonical_key-eq_example =
    canonical_key-eq (job_a ∷ host_a ∷ []) (host_a ∷ job_a ∷ []) (omega arith) (omega arith)

abbrev find_host : List Matcher
find_host =
    record { name = 104 ∷ []; value = 97 ∷ [] }
    ∷ record { name = 106 ∷ 111 ∷ 98 ∷ []; value = 97 ∷ [] }
    ∷ []

contains-match_ids_example :
    contains 1 (match_ids indexed find_host)
    ≡ (not (is_empty find_host) && satisfies indexed 1 find_host)
contains-match_ids_example = contains-match_ids indexed 1 find_host

match_ids-IsSorted_example : IsSorted (match_ids indexed find_host)
match_ids-IsSorted_example = match_ids-IsSorted indexed find_host

findable-add_inverted_example :
    let r' = add_inverted indexed first_day 3 (job_a ∷ []) in
    (findable_on r' first_day (104 ∷ 61 ∷ 97 ∷ []) 3 ≡ (
      findable_on indexed first_day (104 ∷ 61 ∷ 97 ∷ []) 3
      || ((◌==◌ {K = Str} first_day first_day)
          && ((◌==◌ {K = ℕ} 3 3) && has_key (104 ∷ 61 ∷ 97 ∷ []) (job_a ∷ [])))))
    × (findable r' (104 ∷ 61 ∷ 97 ∷ []) 3 ≡ (
        findable indexed (104 ∷ 61 ∷ 97 ∷ []) 3
        || ((◌==◌ {K = ℕ} 3 3) && has_key (104 ∷ 61 ∷ 97 ∷ []) (job_a ∷ []))))
    × (record r' { inverted_by_day = [] } ≡ record indexed { inverted_by_day = [] })
findable-add_inverted_example =
    findable-add_inverted indexed first_day first_day 3 (job_a ∷ []) (104 ∷ 61 ∷ 97 ∷ []) 3

drop_day-load_inverted_entry_example :
    let r' = drop_day (load_inverted_entry indexed first_day 3 (job_a ∷ [])) first_day in
    (lookup first_day r'.inverted_by_day ≡ (
      if ◌==◌ {K = Str} first_day first_day
      then none
      else lookup first_day indexed.inverted_by_day))
    × (lookup first_day r'.persisted
        ≡ (if ◌==◌ {K = Str} first_day first_day then none else lookup first_day indexed.persisted))
    × (record r' { inverted_by_day = []; persisted = [] }
        ≡ record indexed { inverted_by_day = []; persisted = [] })
drop_day-load_inverted_entry_example =
    drop_day-load_inverted_entry indexed first_day 3 (job_a ∷ []) first_day

abbrev some_persisted : Registry
some_persisted = mark_indexed indexed first_day (1 ∷ [])

contains-unindexed_ids_example :
    contains {K = ℕ} 2 (
      unindexed_ids
        (mark_indexed some_persisted first_day
          (unindexed_ids some_persisted first_day (1 ∷ 2 ∷ [])))
        first_day
        (1 ∷ 2 ∷ 3 ∷ []))
    ≡ (contains {K = ℕ} 2 (1 ∷ 2 ∷ 3 ∷ [])
        && (not (contains {K = ℕ} 2 (1 ∷ 2 ∷ []))
            && not (contains 2 (lookup_or [] first_day some_persisted.persisted))))
contains-unindexed_ids_example =
    contains-unindexed_ids some_persisted first_day (1 ∷ 2 ∷ []) (1 ∷ 2 ∷ 3 ∷ []) 2
