-- ===== src/Engine.antt =====
-- Append, Flush and ForceMerge of storage/storage.go and storage/compaction.go.
-- Each operation is one step on the whole storage: the operations that flushMu, compactMu and the
-- partitions' locks keep apart are sequences of these steps. What the file system may refuse is an
-- argument of the step.
pub mod Query
pub mod Grouping
pub mod Failing
pub mod Holding
pub mod DayIndex
pub mod Opening
pub mod Conserving
pub mod Flushing
pub mod Appending
pub mod Compacting
pub mod Refinement
pub mod Lifecycle
use marchimetrics.Base.{
  ℕ, zero, suc, ◌+◌, ◌-◌, ◌*◌, ◌%◌, ◌^◌, List, [], ◌∷◌, ◌++◌, Bool, true, false, not, ◌&&◌, ◌||◌,
  Option, none, some, Result, Error, ok, err, ◌>>=◌, io_failure, missing_series, if◌then◌else◌, ltb,
  length,
}
use marchimetrics.Base.{◌==◌ as nat_eq}
use marchimetrics.Base.Str.{Str, str_eq, str_lt, str_key, nat_key}
use marchimetrics.GoMap.{GoMap, lookup, lookup_or, insert, delete, contains, add, sort_ids}
use marchimetrics.Label.{Label}
use marchimetrics.Segment.{Entry, segment_bytes, read_index_segment}
use marchimetrics.Registry.{
  Registry, Matcher, new_registry, resolve, labels_of, index_for_day, drain_pending, track_pending,
  unindexed_ids, mark_indexed, load_entries, load_inverted_entry, drop_day, match_ids,
}
use marchimetrics.Fixed64.{sub64}
use marchimetrics.Sample.{Sample, within}
use marchimetrics.Part.{Part, PartData, QueryStats, keys, read_part}
use marchimetrics.Partition.{Partition, Fault, open_partition, add_part, compact_partition}

-- The fields of Storage, and the segment files under its path: the bytes of each file, in the
-- order of the names, which is the order of writing for the first 999999 of a directory. `left_files`
-- has what a failed removal left of the directories of days, the entries of the parts directory and the
-- manifest's list; it is looked at only while a day has no open partition.
pub record Storage : Type 0 where
  pub registry : Registry
  pub mem : PartData
  pub partitions : GoMap Str Partition
  pub small_parts_merge_threshold : ℕ
  pub forward_segments : List (List ℕ)
  pub inverted_segments : GoMap Str (List (List ℕ))
  pub left_files : GoMap Str (GoMap Str Part × List Str)

-- What fails during one flush.
pub record FlushFaults : Type 0 where
  pub registry_fails : Bool
  pub index_fails : Str → Bool
  pub open_fails : Str → Bool
  pub part_fault : Str → Fault
  pub merge_fault : Str → Fault

-- `m[id] = append(m[id], samples...)`
unfoldable pub append_at : ℕ → List Sample → PartData → PartData
append_at id samples m = insert id (lookup_or [] id m ++ samples) m

-- restoreMem's loop
unfoldable pub restore : PartData → PartData → PartData
unfolding append_at
restore mem [] = mem
restore mem ((id, samples) ∷ series) = restore (append_at id samples mem) series

unfoldable pub restore_mem : Storage → PartData → Storage
unfolding restore
restore_mem st series = record st { mem = restore st.mem series }

-- The entries of a segment in the order of their ids.
unfoldable pub entries_of : GoMap ℕ (List Label) → List ℕ → List Entry
entries_of m [] = []
entries_of m (id ∷ ids) = record { id = id; labels = lookup_or [] id m } ∷ entries_of m ids

-- appendIndexSegment on the files of a directory.
unfoldable pub append_index_segment :
    Bool → List (List ℕ) → GoMap ℕ (List Label) → List (List ℕ) × Result (Unit {0})
unfolding entries_of
append_index_segment fails files [] = (files, ok tt)
append_index_segment true files (e ∷ entries) = (files, err io_failure)
append_index_segment false files (e ∷ entries) = (
  files ++ (segment_bytes (entries_of (e ∷ entries) (sort_ids (keys (e ∷ entries)))) ∷ []),
  ok tt,
)

-- The labels of the new ids; an id without labels is an error.
unfoldable pub labels_for : Registry → List ℕ → GoMap ℕ (List Label) → Result (GoMap ℕ (List Label))
labels_for r [] entries = ok entries
labels_for r (id ∷ ids) entries = elim (labels_of r id) [
  | none ↦ err missing_series
  | some labels ↦ labels_for r ids (insert id labels entries)
]

unfoldable pub write_day_index :
    Bool → Storage → Str → List ℕ → Result (GoMap ℕ (List Label)) → Storage × Result (Unit {0})
unfolding append_index_segment
write_day_index fails st day new_ids (err e) = (st, err e)
write_day_index fails st day new_ids (ok entries) =
    let (files, r) = append_index_segment fails (lookup_or [] day st.inverted_segments) entries in
    elim r [
      | err e ↦ (st, err e)
      | ok u ↦ (
        record st {
          inverted_segments = insert day files st.inverted_segments;
          registry = mark_indexed st.registry day new_ids;
        },
        ok tt,
      )
    ]

abbrev pub if_new :
    List ℕ → Storage → (List ℕ → Storage × Result (Unit {0})) → Storage × Result (Unit {0})
if_new [] st next = (st, ok tt)
if_new (id ∷ ids) st next = next (id ∷ ids)

unfoldable pub persist_day_index : Bool → Storage → Str → PartData → Storage × Result (Unit {0})
unfolding write_day_index labels_for
persist_day_index fails st day series =
    if_new (unindexed_ids st.registry day (keys series)) st
      λ new_ids. write_day_index fails st day new_ids (labels_for st.registry new_ids [])

-- `day_string` is time.UnixMilli(ms).UTC().Format("20060102").
module _ (day_string : ℕ → Str) where
  -- The days in which samples lie.
  unfoldable pub days_of : List Sample → List Str → List Str
  days_of [] days = days
  days_of (sm ∷ sms) days = days_of sms (add (day_string sm.timestamp) days)

  unfoldable pub index_days : Registry → List Str → ℕ → Registry
  index_days r [] id = r
  index_days r (day ∷ days) id = index_days (index_for_day r day id) days id

  -- Append, and the id it returns.
  unfoldable pub append_samples : Storage → List Label → List Sample → Storage × ℕ
  unfolding index_days days_of append_at
  append_samples st labels [] = (st, 0)
  append_samples st labels (sm ∷ sms) =
      let (r, id) = resolve st.registry labels in
      let samples = sm ∷ sms in
      (
        record st {
          registry = index_days r (days_of samples []) id;
          mem = append_at id samples st.mem;
        },
        id,
      )

  -- Flush's loops that group the samples by day.
  unfoldable pub group_samples : GoMap Str PartData → ℕ → List Sample → GoMap Str PartData
  unfolding append_at
  group_samples by_day id [] = by_day
  group_samples by_day id (sm ∷ sms) =
      let day = day_string sm.timestamp in
      group_samples (insert day (append_at id (sm ∷ []) (lookup_or [] day by_day)) by_day) id sms

  unfoldable pub group_by_day : GoMap Str PartData → PartData → GoMap Str PartData
  unfolding group_samples
  group_by_day by_day [] = by_day
  group_by_day by_day ((id, samples) ∷ mem) = group_by_day (group_samples by_day id samples) mem

  module _ (sort_slice : List Sample → List Sample) (part_name : ℕ → Str)
      (atoi : Str → Option ℕ) where
    -- getPartition: for a day without a partition it opens the directory, which is new unless a
    -- removal left something of it.
    unfoldable pub get_partition : Bool → Storage → Str → Result Partition
    get_partition fails st day = elim (lookup day st.partitions) [
      | some p ↦ ok p
      | none ↦
          (let (entries, manifest) = lookup_or ([], []) day st.left_files in
            open_partition atoi fails day entries manifest)
    ]

    -- addPart on the day's partition, and maybeCompact, whose error is only logged.
    unfoldable pub flush_part :
        Fault → Fault → Storage → Str → PartData → Partition → Storage × Result (Unit {0})
    flush_part part_fault merge_fault st day series p =
        let (p', r) = add_part sort_slice part_name part_fault p series in
        elim r [
          | err e ↦
              (restore_mem (record st { partitions = insert day p' st.partitions }) series, err e)
          | ok u ↦
              let compacted =
                compact_partition sort_slice part_name merge_fault p'
                  st.small_parts_merge_threshold in
              (record st { partitions = insert day compacted.0 st.partitions }, ok tt)
        ]

    unfoldable pub flush_day :
        Bool → Bool → Fault → Fault → Storage → Str → PartData → Storage × Result (Unit {0})
    unfolding get_partition flush_part persist_day_index restore_mem
    flush_day index_fails open_fails part_fault merge_fault st day series =
        let (st', r) = persist_day_index index_fails st day series in
        elim r [
          | err e ↦ (restore_mem st' series, err e)
          | ok u ↦ elim (get_partition open_fails st' day) [
            | err e ↦ (restore_mem st' series, err e)
            | ok p ↦ flush_part part_fault merge_fault st' day series p
          ]
        ]

    -- The loop over the days: an error ends it, and the days behind it are dropped.
    unfoldable pub flush_days :
        FlushFaults → Storage → GoMap Str PartData → Storage × Result (Unit {0})
    unfolding flush_day
    flush_days faults st [] = (st, ok tt)
    flush_days faults st ((day, series) ∷ by_day) =
        let (st', r) =
          flush_day (faults.index_fails day) (faults.open_fails day) (faults.part_fault day)
            (faults.merge_fault day) st day series in
        let rest = flush_days faults st' by_day in elim r [ err e ↦ (st', err e) | ok u ↦ rest ]

    unfoldable pub flush : FlushFaults → Storage → Storage × Result (Unit {0})
    unfolding flush_days group_by_day restore_mem append_index_segment
    flush faults st =
        let mem = st.mem in
        let (registry, pending) = drain_pending st.registry in
        let st' = record st { mem = []; registry = registry } in
        let (files, r) = append_index_segment faults.registry_fails st.forward_segments pending in
        elim r [
          | err e ↦
              (restore_mem (record st' { registry = track_pending registry pending }) mem, err e)
          | ok u ↦ flush_days faults (record st' { forward_segments = files }) (group_by_day [] mem)
        ]

    -- ForceMerge's loop.
    unfoldable pub force_merge :
        (Str → Fault) → GoMap Str Partition → GoMap Str Partition × Result (Unit {0})
    force_merge faults [] = ([], ok tt)
    force_merge faults ((day, p) ∷ ps) =
        let (p', r) = compact_partition sort_slice part_name (faults day) p 2 in
        let (ps', rest) = force_merge faults ps in
        elim r [ err e ↦ ((day, p') ∷ ps, err e) | ok u ↦ ((day, p') ∷ ps', rest) ]
