-- ===== src/Engine/Lifecycle.antt =====
-- ApplyRetention of storage/retention.go, and loadRegistry, loadInverted and loadPartitions of
-- storage/storage.go, which Open runs.
pub mod Retention
pub mod Reload
use marchimetrics.Base.{
  Bool, true, not, ◌&&◌, ◌||◌, leb, length, ℕ, ◌*◌, ◌%◌, ◌^◌, List, [], ◌∷◌, Option, Result, ok,
  err, ◌>>=◌, io_failure, if◌then◌else◌,
}
use marchimetrics.Base.{◌==◌ as nat_eq}
use marchimetrics.Base.Str.{Str, str_lt, str_key}
use marchimetrics.GoMap.{GoMap, insert, delete}
use marchimetrics.Fixed64.{sub64}
use marchimetrics.Segment.{Entry, read_index_segment}
use marchimetrics.Registry.{Registry, new_registry, load_entries, load_inverted_entry, drop_day}
use marchimetrics.Part.{Part}
use marchimetrics.Partition.{Partition, open_partition}
use marchimetrics.Engine.{Storage}

-- The partitions with `day < cutoff`.
unfoldable pub expired_days : Str → GoMap Str Partition → List Str
expired_days cutoff [] = []
expired_days cutoff ((day, p) ∷ ps) =
    let rest = expired_days cutoff ps in if str_lt day cutoff then day ∷ rest else rest

-- Which of the two RemoveAll calls of a day fails, and what the first then leaves of the day's parts
-- and of its manifest.
pub data DropFault : Type 0 where
  both_removed : DropFault
  data_kept : GoMap Str Part → List Str → DropFault
  index_kept : DropFault

abbrev pub without_partition : Storage → Str → Storage
without_partition st day = record st {
  partitions = delete day st.partitions;
  left_files = delete day st.left_files;
}

-- One round of ApplyRetention. The next flush of the day opens what a failed RemoveAll left.
unfoldable pub drop_partition : DropFault → Storage → Str → Storage × Result (Unit {0})
drop_partition (data_kept entries manifest) st day = (
  record st {
    partitions = delete day st.partitions;
    left_files = insert day (entries, manifest) st.left_files;
  },
  err io_failure,
)
drop_partition index_kept st day = (without_partition st day, err io_failure)
drop_partition both_removed st day = (
  record st {
    partitions = delete day st.partitions;
    left_files = delete day st.left_files;
    inverted_segments = delete day st.inverted_segments;
    registry = drop_day st.registry day;
  },
  ok tt,
)

unfoldable pub drop_expired : (Str → DropFault) → Storage → List Str → Storage × Result (Unit {0})
unfolding drop_partition
drop_expired faults st [] = (st, ok tt)
drop_expired faults st (day ∷ days) =
    let (st', r) = drop_partition (faults day) st day in
    let rest = drop_expired faults st' days in elim r [ err e ↦ (st', err e) | ok u ↦ rest ]

-- `nowMs - int64(retentionDays)*dayMs`
unfoldable pub cutoff_ms : ℕ → ℕ → ℕ
cutoff_ms retention_days now_ms = sub64 now_ms (retention_days * 86400000 % 2 ^ 64)

-- The callback of loadRegistry.
unfoldable pub load_forward : Registry → Entry → Result Registry
load_forward r e = ok (load_entries r (e ∷ []))

-- The callback of loadInverted.
unfoldable pub load_inverted_record : Str → Registry → Entry → Result Registry
load_inverted_record day r e = ok (load_inverted_entry r day e.id e.labels)

-- The loop over the files of a directory, in the order of their names.
unfoldable pub replay_files :
    (Registry → Entry → Result Registry) → Registry → List (List ℕ) → Result Registry
replay_files fn r [] = ok r
replay_files fn r (file ∷ files) = do r' ← read_index_segment fn file r; replay_files fn r' files

-- partitionNameRE: `^\d{8}$`.
abbrev all_digits : Str → Bool
all_digits [] = true
all_digits (c ∷ s) = leb 48 c && (leb c 57 && all_digits s)

unfoldable pub is_day_name : Str → Bool
is_day_name s = nat_eq (length s) 8 && all_digits s

-- An entry of the inverted directory, with the files in it if it is a directory.
pub record IndexDir : Type 0 where
  pub name : Str
  pub is_dir : Bool
  pub files : List (List ℕ)

-- An entry of the partitions directory: the parts and the manifest's list in it, and whether opening it
-- fails.
pub record DayDir : Type 0 where
  pub name : Str
  pub is_dir : Bool
  pub fails : Bool
  pub parts : GoMap Str Part
  pub manifest : List Str

unfoldable pub load_inverted : Registry → List IndexDir → Result Registry
unfolding replay_files load_inverted_record is_day_name
load_inverted r [] = ok r
load_inverted r (e ∷ es) =
    let skipped = load_inverted r es in
    let loaded = (do
      r' ← replay_files (load_inverted_record e.name) r e.files
      load_inverted r' es) in
    if not e.is_dir || not (is_day_name e.name) then skipped else loaded

-- The segment files of the days' directories.
unfoldable pub day_files : List IndexDir → GoMap Str (List (List ℕ))
unfolding is_day_name
day_files [] = []
day_files (e ∷ es) =
    let rest = day_files es in
    if not e.is_dir || not (is_day_name e.name) then rest else insert e.name e.files rest

unfoldable pub load_registry : List (List ℕ) → List IndexDir → Result Registry
unfolding load_inverted load_forward
load_registry forward inverted = do
  r ← replay_files load_forward new_registry forward
  load_inverted r inverted

module _ (day_string : ℕ → Str) where
  -- `retention_days` is 0 also for a negative number of days.
  unfoldable pub apply_retention : (Str → DropFault) → Storage → ℕ → ℕ → Storage × Result (Unit {0})
  unfolding drop_expired expired_days cutoff_ms
  apply_retention faults st retention_days now_ms =
      if nat_eq retention_days 0
      then (st, ok tt)
      else drop_expired faults st
          (expired_days (day_string (cutoff_ms retention_days now_ms)) st.partitions)

-- The loop of loadPartitions.
unfoldable pub load_partitions :
    (Str → Option ℕ) → List DayDir → GoMap Str Partition → Result (GoMap Str Partition)
unfolding is_day_name
load_partitions atoi [] ps = ok ps
load_partitions atoi (e ∷ es) ps =
    let skipped = load_partitions atoi es ps in
    let loaded = (do
      p ← open_partition atoi e.fails e.name e.parts e.manifest
      load_partitions atoi es (insert e.name p ps)) in
    if not e.is_dir || not (is_day_name e.name) then skipped else loaded

-- Open on the files that a process left.
unfoldable pub open_storage :
    (Str → Option ℕ) → List (List ℕ) → List IndexDir → List DayDir → Result Storage
unfolding load_registry load_partitions day_files
open_storage atoi forward inverted days = do
  r ← load_registry forward inverted
  ps ← load_partitions atoi days []
  ok (record {
    registry = r;
    mem = [];
    partitions = ps;
    small_parts_merge_threshold = 3;
    forward_segments = forward;
    inverted_segments = day_files inverted;
    left_files = [];
  })
