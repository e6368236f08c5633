-- ===== src/Tests/Merging.antt =====
-- A merge of two parts that an older version wrote.
use marchimetrics.Base.{ℕ, ◌+◌, if◌then◌else◌, ◌≡◌, refl, sym, ◌∙◌, arith, List, [], ◌∷◌, ok, false}
use marchimetrics.Base.Str.{Str, str_key, nat_key, str_eq}
use marchimetrics.GoMap.{lookup, lookup_or, insert, contains, insert_id, sort_ids}
use marchimetrics.Fixed64.{le_bytes, le_value, put_u64}
use marchimetrics.Sample.{Sample, count, weigh, rank, lt64, FitsSamples, IsTimeSorted, SortsByTime}
use marchimetrics.Part.{
  Part, PartData, small, raw, write_part_encoded, write_all, write_series, write_block, empty_part,
  keys, widen, raw_cells, sample_timestamps, sample_values, read_part_all, read_blocks,
  read_series_block, read_at, raw_samples,
}
use marchimetrics.Partition.{
  Partition, no_fault, manifest_fails, add_part, merge_named, merge_in, read_named,
  compact_partition, is_small,
}
use marchimetrics.Partition.Counting.{live_count}
use marchimetrics.Partition.Merging.{smalls, small_name, live-compact_partition}
use marchimetrics.Partition.Adding.{is_listed, outcome, live-add_part}
use marchimetrics.Tests.Disk.{insert_sample, sorted_samples}

weigh-insert_sample :
    (w : Sample → ℕ) (a : Sample) (s : List Sample) → weigh w (insert_sample a s) ≡ weigh w (a ∷ s)
unfolding weigh insert_sample
weigh-insert_sample w a [] = refl
weigh-insert_sample w a (b ∷ s) = ground (arith, weigh-insert_sample w a s)

weigh-sorted_samples : (w : Sample → ℕ) (s : List Sample) → weigh w (sorted_samples s) ≡ weigh w s
unfolding weigh sorted_samples
weigh-sorted_samples w [] = refl
weigh-sorted_samples w (a ∷ s) =
    weigh-insert_sample w a (sorted_samples s) ∙ ground (arith, weigh-sorted_samples w s)

insert_sample-IsTimeSorted :
    (a : Sample) (s : List Sample) → IsTimeSorted s → IsTimeSorted (insert_sample a s)
unfolding insert_sample
insert_sample-IsTimeSorted a [] h = tt
insert_sample-IsTimeSorted a (b ∷ []) h = ground arith
insert_sample-IsTimeSorted a (b ∷ c ∷ s) (hb, h) =
    ground (arith, insert_sample-IsTimeSorted a (c ∷ s) h)

sorted_samples-IsTimeSorted : (s : List Sample) → IsTimeSorted (sorted_samples s)
unfolding sorted_samples
sorted_samples-IsTimeSorted [] = tt
sorted_samples-IsTimeSorted (a ∷ s) =
    insert_sample-IsTimeSorted a (sorted_samples s) (sorted_samples-IsTimeSorted s)

pub sorted_samples-SortsByTime : SortsByTime sorted_samples
sorted_samples-SortsByTime = record {
  same_samples = weigh-sorted_samples;
  ascending = sorted_samples-IsTimeSorted;
}

abbrev later : Sample
later = record { timestamp = 2000; value = 5 }

abbrev earlier : Sample
earlier = record { timestamp = 1000; value = 0 }

-- Names of one letter.
abbrev pub letter : ℕ → Str
letter n = n ∷ []

abbrev legacy_part : Sample → Part
legacy_part sm = write_part_encoded sorted_samples ((7, sm ∷ []) ∷ []) small raw

abbrev two_parts : Partition
two_parts = record {
  day = 50 ∷ [];
  parts = letter 1 ∷ letter 2 ∷ [];
  next_id = 3;
  dropped = false;
  dirs = (letter 1, legacy_part later) ∷ (letter 2, legacy_part earlier) ∷ [];
  manifest = letter 1 ∷ letter 2 ∷ [];
}

abbrev both_merged : PartData
both_merged = (7, later ∷ earlier ∷ []) ∷ []

merge_named-two_parts :
    merge_named two_parts.dirs (smalls two_parts.dirs two_parts.parts) [] ≡ ok both_merged
unfolding merge_named merge_in read_named smalls small_name is_small lookup lookup_or insert
    write_part_encoded write_all write_series write_block empty_part keys widen raw_cells
    sample_timestamps sample_values read_part_all read_blocks read_series_block read_at raw_samples
    put_u64 le_bytes le_value sort_ids insert_id sorted_samples insert_sample str_eq lt64 rank
merge_named-two_parts = refl

both_fit : (j : ℕ) → FitsSamples (sorted_samples (lookup_or [] j both_merged))
unfolding sorted_samples insert_sample lookup_or lookup rank
both_fit j = ground arith

merged_fits :
    (merged : PartData) (j : ℕ)
    → merge_named two_parts.dirs (smalls two_parts.dirs two_parts.parts) [] ≡ ok merged
    → FitsSamples (sorted_samples (lookup_or [] j merged))
merged_fits merged j h =
    let both : ok both_merged ≡ ok merged = sym merge_named-two_parts ∙ h in
    let same : both_merged ≡ merged = cc in rw (← same) (both_fit j)

live-compact_partition_example :
    let p' = (compact_partition sorted_samples letter no_fault two_parts 2).0 in
    live_count earlier 7 p'.dirs p'.parts ≡ live_count earlier 7 two_parts.dirs two_parts.parts
unfolding contains str_eq
live-compact_partition_example =
    live-compact_partition sorted_samples letter no_fault two_parts 2 earlier 7
      sorted_samples-SortsByTime refl merged_fits

live-add_part_example :
    let r = add_part sorted_samples letter manifest_fails two_parts both_merged in
    (r.1 ≡ outcome manifest_fails)
    × (live_count earlier 7 r.0.dirs r.0.parts
        ≡ live_count earlier 7 two_parts.dirs two_parts.parts
          + (if is_listed manifest_fails then count earlier (lookup_or [] 7 both_merged) else 0))
unfolding contains str_eq
live-add_part_example =
    live-add_part sorted_samples letter manifest_fails two_parts both_merged earlier 7
      sorted_samples-SortsByTime refl refl both_fit
