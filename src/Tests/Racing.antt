-- ===== src/Tests/Racing.antt =====
-- Calls of Resolve at once, a registry that is loaded again, and reads of a written part, at concrete
-- inputs.
use marchimetrics.Base.{◌≤◌, All, map, ℕ, ◌≡◌, ◌↔◌, refl, arith, List, [], ◌∷◌, ok, if◌then◌else◌}
use marchimetrics.Base.Str.{nat_key}
use marchimetrics.GoMap.{lookup, lookup_or, contains}
use marchimetrics.Label.{Label, canonical_key}
use marchimetrics.Sample.{within, FitsSamples}
use marchimetrics.Segment.{Entry, segment_bytes}
use marchimetrics.Engine.Lifecycle.{load_forward, replay_files}
use marchimetrics.Engine.Lifecycle.Reload.{FitsAll, resolve-replay_files}
use marchimetrics.Registry.{Registry, new_registry, resolve, resolve_locked}
use marchimetrics.Registry.Resolve.{
  IsValid, next_id-resolve_locked, by_key-resolve_self, resolve_locked-IsValid,
  new_registry-IsValid,
}
use marchimetrics.Registry.Concurrent.{
  returned, missed, wrote, here, there, Run, stop, go, left, all_calling, returned-Run,
}
use marchimetrics.Part.{PartData, QueryStats, small, read_part, write_part}
use marchimetrics.Part.Range.{stored, read_part-write_part}
use marchimetrics.Engine.Query.{no_stats}
use marchimetrics.Tests.Disk.{sorted_samples, insert_sample}
use marchimetrics.Tests.Engine.{morning, next_day}
use marchimetrics.Tests.Reaching.{host_a}

abbrev two_calls : List (List Label)
two_calls = host_a ∷ host_a ∷ []

abbrev registered : Registry
registered = (resolve_locked new_registry host_a).0

abbrev first_id : ℕ
first_id = (resolve_locked new_registry host_a).1

abbrev second_id : ℕ
second_id = (resolve_locked registered host_a).1

-- Both calls miss before one of them writes.
race :
    Run new_registry
      (all_calling two_calls)
      (resolve_locked registered host_a).0
      (returned host_a first_id ∷ returned host_a second_id ∷ [])
unfolding lookup
race = go _ _ _ _ _ _ (here _ _ _ _ (missed host_a refl)) (
    go _ _ _ _ _ _ (there _ _ _ _ (here _ _ _ _ (missed host_a refl))) (
      go _ _ _ _ _ _ (here _ _ _ _ (wrote host_a))
        (go _ _ _ _ _ _ (there _ _ _ _ (here _ _ _ _ (wrote host_a))) (stop _ _))))

returned-Run_example : (first_id ≡ second_id) ↔ (canonical_key host_a ≡ canonical_key host_a)
unfolding left
returned-Run_example =
    returned-Run new_registry (resolve_locked registered host_a).0 two_calls
      (returned host_a first_id ∷ returned host_a second_id ∷ []) race new_registry-IsValid
      (omega arith) 0 1 host_a host_a first_id second_id refl refl

abbrev one_series : PartData
one_series = (7, next_day ∷ morning ∷ []) ∷ []

one_series_fits : (id : ℕ) → FitsSamples (sorted_samples (lookup_or [] id one_series))
unfolding sorted_samples insert_sample lookup_or lookup
one_series_fits id = ground arith

-- The first day of the two.
read_part-write_part_example :
    (found : PartData) × (st' : QueryStats) × (read_part
        (write_part sorted_samples one_series small)
        (7 ∷ [])
        0
        900000000
        no_stats
      ≡ ok (found, st'))
    × ((j : ℕ)
        → lookup_or [] j found ≡ (
            if contains j (7 ∷ [])
            then within 0 900000000 (stored sorted_samples one_series j)
            else []))
read_part-write_part_example =
    read_part-write_part sorted_samples one_series small one_series_fits (7 ∷ []) 0 900000000
      no_stats

-- The segment of a flush of one series.
abbrev host_entry : Entry
host_entry = record { id = first_id; labels = host_a }

registered-IsValid : IsValid registered
registered-IsValid = resolve_locked-IsValid new_registry host_a new_registry-IsValid (omega arith)

few_registered : registered.next_id ≤ 2
few_registered = next_id-resolve_locked new_registry host_a new_registry-IsValid (omega arith)

host_entry-FitsAll : All (FitsAll registered) ((host_entry ∷ []) ∷ [])
host_entry-FitsAll =
    let written = by_key-resolve_self new_registry host_a new_registry-IsValid (omega arith) in
    let (positive, below) = registered-IsValid.key_id (canonical_key host_a) first_id written in
    (
      (
        (
          record {
            id = omega (arith, below, few_registered);
            count = omega arith;
            labels = ((omega arith, omega arith), tt);
          },
          tt,
        ),
        (written, tt),
      ),
      tt,
    )

resolve-replay_files_example :
    (l : Registry) × (replay_files load_forward new_registry
        (map segment_bytes ((host_entry ∷ []) ∷ []))
      ≡ ok l)
    × IsValid l
    × (l.next_id ≤ registered.next_id)
    × All (All (λ (e : Entry). resolve l e.labels ≡ (l, e.id))) ((host_entry ∷ []) ∷ [])
resolve-replay_files_example =
    resolve-replay_files registered registered-IsValid (omega (arith, few_registered))
      ((host_entry ∷ []) ∷ []) host_entry-FitsAll
