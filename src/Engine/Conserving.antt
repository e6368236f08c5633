-- ===== src/Engine/Conserving.antt =====
-- Flush of storage/storage.go when nothing but the merges may fail.
use marchimetrics.Base.{
  ℕ, ◌+◌, ◌^◌, ◌<◌, ◌≡◌, refl, ap, ◌∙◌, arith, false, List, [], ◌∷◌, All, Option, Result, ok,
}
use marchimetrics.Base.Str.{Str, str_key, nat_key}
use marchimetrics.GoMap.{GoMap, lookup, lookup_or}
use marchimetrics.GoMap.Laws.{All-insert}
use marchimetrics.GoMap.Sums.{sum_of, sum_of-insert, value_of-le}
use marchimetrics.Label.{Label}
use marchimetrics.Registry.{Registry, labels_of}
use marchimetrics.Sample.{Sample, FitsSamples, SortsByTime}
use marchimetrics.Part.{PartData}
use marchimetrics.Partition.{Partition, Fault, no_fault, add_part, compact_partition}
use marchimetrics.Partition.Counting.{live_weight}
use marchimetrics.Partition.Sizes.{
  one, misfit, weigh-FitsSamples_sorted, IsNamed, IsInjective, IsNamed-add_part,
  IsNamed-compact_partition, live_weight-added, live_weight-compacted,
}
use marchimetrics.Engine.{
  Storage, FlushFaults, persist_day_index, flush_part, flush_day, flush_days,
}
use marchimetrics.Engine.Holding.{partition_weight, series_weight, disk_weight}
use marchimetrics.Engine.Opening.{AllSwept, OnlyMergesFail, AllNamed, IsGot, get_partition-IsGot}
use marchimetrics.Engine.DayIndex.{series_of, AllKnown, persist_day_index-IsIndexed}

-- The day's samples and those on disk have Go's sizes together.
abbrev pub HasRoom : GoMap Str Partition → (((Sample → ℕ) → ℕ → ℕ)) → Type 0
HasRoom ps more =
    (j : ℕ)
    → (disk_weight one j ps + more one j < 2 ^ 64) × (disk_weight misfit j ps + more misfit j ≡ 0)

-- A step that moves samples to disk.
pub record IsFlushed (part_name : ℕ → Str) (st : Storage) (more : (Sample → ℕ) → ℕ → ℕ)
    (r : Storage × Result (Unit {0})) : Type 0 where
  pub done : r.1 ≡ ok tt
  pub mem_kept : r.0.mem ≡ st.mem
  pub left_kept : r.0.left_files ≡ st.left_files
  pub series_kept : series_of r.0.registry ≡ series_of st.registry
  pub named : AllNamed part_name r.0.partitions
  pub weight :
      (w : Sample → ℕ) (id : ℕ)
      → disk_weight w id r.0.partitions ≡ disk_weight w id st.partitions + more w id

pub AllKnown-series_of :
    (r r' : Registry) (series : PartData)
    → series_of r ≡ series_of r'
    → AllKnown r' series
    → AllKnown r series
unfolding labels_of
AllKnown-series_of r r' [] same h = tt
AllKnown-series_of r r' ((id, s) ∷ series) same ((labels, k), h) = (
  (labels, ap (λ (x : ℕ × GoMap Str ℕ × GoMap ℕ (List Label)). lookup id x.2) same ∙ k),
  AllKnown-series_of r r' series same h,
)

All-known :
    (r r' : Registry) (by_day : GoMap Str PartData)
    → series_of r ≡ series_of r'
    → All (λ (e : Str × PartData). AllKnown r' e.1) by_day
    → All (λ (e : Str × PartData). AllKnown r e.1) by_day
All-known r r' [] same h = tt
All-known r r' ((day, series) ∷ by_day) same (k, h) =
    (AllKnown-series_of r r' series same k, All-known r r' by_day same h)

module _ (day_string : ℕ → Str) (sort_slice : List Sample → List Sample) (part_name : ℕ → Str)
    (atoi : Str → Option ℕ) (sorts : SortsByTime sort_slice)
    (distinct : IsInjective part_name) where
  abbrev more_of : PartData → (Sample → ℕ) → ℕ → ℕ
  more_of series w id = series_weight w id series

  series_fits :
      (st : Storage) (series : PartData)
      → HasRoom st.partitions (more_of series)
      → (j : ℕ) → FitsSamples (sort_slice (lookup_or [] j series))
  unfolding series_weight
  series_fits st series room j =
      let (few, none_odd) = room j in
      weigh-FitsSamples_sorted sort_slice (lookup_or [] j series) sorts (omega (arith, few))
        (omega (arith, none_odd))

  flush_part-IsFlushed :
      (merge : Fault) (st : Storage) (day : Str) (series : PartData) (p : Partition)
      → IsGot day_string sort_slice part_name atoi st day p
      → AllNamed part_name st.partitions
      → HasRoom st.partitions (more_of series)
      → IsFlushed part_name st
          (more_of series)
          (flush_part day_string sort_slice part_name atoi no_fault merge st day series p)
  unfolding flush_part disk_weight partition_weight series_weight
  flush_part-IsFlushed merge st day series p got all_named room =
      let fits = series_fits st series room in
      let added = λ (w : Sample → ℕ) (id : ℕ).
        live_weight-added sort_slice part_name p sorts distinct got.named series w id fits in
      let p' = (add_part sort_slice part_name no_fault p series).0 in
      let named' = IsNamed-add_part sort_slice part_name p series got.named in
      let below =
        λ (w : Sample → ℕ) (j : ℕ). value_of-le (partition_weight w j) day st.partitions in
      let sized : (j : ℕ)
          → (live_weight one j p'.dirs p'.parts < 2 ^ 64)
            × (live_weight misfit j p'.dirs p'.parts ≡ 0) =
        λ j.
          let (few, none_odd) = room j in
          (
            omega (arith, few, (added one j).1, got.weight one j, below one j),
            omega (arith, none_odd, (added misfit j).1, got.weight misfit j, below misfit j),
          ) in
      let min = st.small_parts_merge_threshold in
      let c = (compact_partition sort_slice part_name merge p' min).0 in
      rw (flush_part, (added one 0).0)
        (record {
          done = refl;
          mem_kept = refl;
          left_kept = refl;
          series_kept = refl;
          named =
              All-insert (λ e. IsNamed part_name e.1) day c st.partitions
                (IsNamed-compact_partition sort_slice part_name merge p' min named') all_named;
          weight = λ w id. omega (
            arith,
            sum_of-insert (partition_weight w id) day c st.partitions,
            live_weight-compacted sort_slice part_name p' sorts distinct named' merge min w id
                sized,
            (added w id).1,
            got.weight w id,
          );
        })

  flush_day-IsFlushed :
      (merge : Fault) (st : Storage) (day : Str) (series : PartData)
      → AllKnown st.registry series
      → AllNamed part_name st.partitions
      → AllSwept st.left_files
      → HasRoom st.partitions (more_of series)
      → IsFlushed part_name st
          (more_of series)
          (flush_day day_string sort_slice part_name atoi false false no_fault merge st day series)
  unfolding flush_day
  flush_day-IsFlushed merge st day series known named swept room =
      let ix = persist_day_index-IsIndexed st day series known in
      let st1 = (persist_day_index false st day series).0 in
      let named1 : AllNamed part_name st1.partitions = rw ix.partitions_kept named in
      let room1 : HasRoom st1.partitions (more_of series) = rw ix.partitions_kept room in
      let (p, got) =
        get_partition-IsGot day_string sort_slice part_name atoi st1 day named1
          (rw ix.left_kept swept) in
      let flushed = flush_part-IsFlushed merge st1 day series p got named1 room1 in
      let moved : IsFlushed part_name st (more_of series)
          (flush_part day_string sort_slice part_name atoi no_fault merge st1 day series p) =
        record {
          done = flushed.done;
          mem_kept = flushed.mem_kept ∙ ix.mem_kept;
          left_kept = flushed.left_kept ∙ ix.left_kept;
          series_kept = flushed.series_kept ∙ ix.series_kept;
          named = flushed.named;
          weight = λ w id.
              flushed.weight w id
              ∙ ap (λ ps. disk_weight w id ps + more_of series w id) ix.partitions_kept;
        } in
      rw (flush_day, ix.done, got.got) moved

  module _ (faults : FlushFaults) (only : OnlyMergesFail faults) where
    -- The samples of all the days.
    abbrev pub more_days : GoMap Str PartData → (Sample → ℕ) → ℕ → ℕ
    more_days by_day w id = sum_of (series_weight w id) by_day

    flush_first :
        (st : Storage) (day : Str) (series : PartData)
        → AllKnown st.registry series
        → AllNamed part_name st.partitions
        → AllSwept st.left_files
        → HasRoom st.partitions (more_of series)
        → IsFlushed part_name st (more_of series) (
            flush_day day_string sort_slice part_name atoi
              (faults.index_fails day)
              (faults.open_fails day)
              (faults.part_fault day)
              (faults.merge_fault day)
              st
              day
              series)
    flush_first st day series known named swept room =
        rw (only.index_saved day, only.opened day, only.published day)
          (flush_day-IsFlushed (faults.merge_fault day) st day series known named swept room)

    pub flush_days-IsFlushed :
        (by_day : GoMap Str PartData) (st : Storage)
        → All (λ (e : Str × PartData). AllKnown st.registry e.1) by_day
        → AllNamed part_name st.partitions
        → AllSwept st.left_files
        → HasRoom st.partitions (more_days by_day)
        → IsFlushed part_name st
            (more_days by_day)
            (flush_days day_string sort_slice part_name atoi faults st by_day)
    unfolding flush_days sum_of
    flush_days-IsFlushed [] st known named swept room = record {
      done = refl;
      mem_kept = refl;
      left_kept = refl;
      series_kept = refl;
      named = named;
      weight = λ w id. omega arith;
    }
    flush_days-IsFlushed ((day, series) ∷ by_day) st (known, rest_known) named swept room =
        let st1 =
          (flush_day day_string sort_slice part_name atoi (faults.index_fails day)
            (faults.open_fails day) (faults.part_fault day) (faults.merge_fault day) st day
            series).0 in
        let first =
          flush_first st day series known named swept
            λ j. let (few, none_odd) = room j in (omega (arith, few), omega (arith, none_odd)) in
        let known1 = All-known st1.registry st.registry by_day first.series_kept rest_known in
        let rest =
          flush_days-IsFlushed by_day st1 known1 first.named (rw first.left_kept swept) λ j.
            let (few, none_odd) = room j in
            (
              omega (arith, few, first.weight one j),
              omega (arith, none_odd, first.weight misfit j),
            ) in
        rw (flush_days, first.done)
          (record {
            done = rest.done;
            mem_kept = rest.mem_kept ∙ first.mem_kept;
            left_kept = rest.left_kept ∙ first.left_kept;
            series_kept = rest.series_kept ∙ first.series_kept;
            named = rest.named;
            weight = λ w id. omega (arith, rest.weight w id, first.weight w id);
          })
