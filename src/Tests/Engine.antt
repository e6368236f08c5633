-- ===== src/Tests/Engine.antt =====
-- Partitions and the storage at concrete inputs.
use marchimetrics.Base.{
  refl, ◌+◌, true, false, err, io_failure, ℕ, ◌≡◌, ◌/◌, arith, [], ◌∷◌, Option, none, ok,
  if◌then◌else◌,
}
use marchimetrics.Base.Str.{Str, str_lt, str_key, nat_key, ◌==◌}
use marchimetrics.GoMap.{lookup, lookup_or}
use marchimetrics.Sample.{Sample, count}
use marchimetrics.Part.{PartData}
use marchimetrics.Part.RoundTrip.{has_entry}
use marchimetrics.Partition.Counting.{total}
use marchimetrics.Engine.Grouping.{grouped, count-grouped, count-restore}
use marchimetrics.Engine.Failing.{flush-registry_fails}
use marchimetrics.Tests.Disk.{sorted_samples}
use marchimetrics.Registry.{new_registry}
use marchimetrics.Partition.{no_fault, opened_partition}
use marchimetrics.Engine.{Storage, FlushFaults, flush, restore, group_by_day}
use marchimetrics.Engine.Lifecycle.{apply_retention, cutoff_ms}
use marchimetrics.Engine.Lifecycle.Retention.{all_removed, partitions-apply_retention}

-- A day as one letter, which keeps the order of the days.
abbrev pub day_letter : ℕ → Str
day_letter ms = ms / 86400000 ∷ []

abbrev pub no_number : Str → Option ℕ
no_number name = none

abbrev day_of_ten : Str
day_of_ten = 10 ∷ []

abbrev two_days : Storage
two_days = record {
  registry = new_registry;
  mem = [];
  partitions =
      (day_of_ten, opened_partition no_number day_of_ten [] [])
      ∷ (20 ∷ [], opened_partition no_number (20 ∷ []) [] [])
      ∷ [];
  small_parts_merge_threshold = 3;
  forward_segments = [];
  inverted_segments = [];
  left_files = [];
}

partitions-apply_retention_example :
    ((apply_retention day_letter all_removed two_days 5 1900000000).1 ≡ ok tt)
    × (lookup day_of_ten (apply_retention day_letter all_removed two_days 5 1900000000).0.partitions
        ≡ (if str_lt day_of_ten (day_letter (cutoff_ms 5 1900000000))
            then none
            else lookup day_of_ten two_days.partitions))
partitions-apply_retention_example =
    partitions-apply_retention day_letter two_days 5 1900000000 day_of_ten (omega arith)

abbrev pub morning : Sample
morning = record { timestamp = 864000000; value = 5 }

abbrev pub next_day : Sample
next_day = record { timestamp = 950400000; value = 5 }

abbrev buffer : PartData
buffer = (7, morning ∷ next_day ∷ morning ∷ []) ∷ (8, morning ∷ []) ∷ []

count-grouped_example : count morning (grouped day_of_ten 7 (group_by_day day_letter [] buffer)) ≡ (
    if ◌==◌ {K = Str} (day_letter morning.timestamp) day_of_ten then total morning 7 buffer else 0)
count-grouped_example = count-grouped day_letter buffer morning 7 day_of_ten

count-restore_example :
    count morning (lookup_or [] 7 (restore buffer buffer))
    ≡ count morning (lookup_or [] 7 buffer) + total morning 7 buffer
count-restore_example = count-restore morning 7 buffer buffer

abbrev buffered : Storage
buffered = record two_days {
  mem = buffer;
  registry = record new_registry { pending = (7, []) ∷ [] };
}

abbrev no_registry : FlushFaults
no_registry = record {
  registry_fails = true;
  index_fails = λ day. false;
  open_fails = λ day. false;
  part_fault = λ day. no_fault;
  merge_fault = λ day. no_fault;
}

flush-registry_fails_example :
    let r = flush day_letter sorted_samples day_letter no_number no_registry buffered in
    (r.1 ≡ err io_failure)
    × (count morning (lookup_or [] 7 r.0.mem) ≡ total morning 7 buffered.mem)
    × (r.0.partitions ≡ buffered.partitions)
    × (r.0.forward_segments ≡ buffered.forward_segments)
    × (r.0.inverted_segments ≡ buffered.inverted_segments)
    × (record r.0.registry { pending = [] } ≡ record buffered.registry { pending = [] })
    × ((i : ℕ) → lookup i r.0.registry.pending ≡ lookup i buffered.registry.pending)
unfolding has_entry
flush-registry_fails_example =
    flush-registry_fails day_letter sorted_samples day_letter no_number no_registry buffered (7, [])
      [] morning 7 refl refl (refl, tt)
