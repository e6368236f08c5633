-- ===== src/Partition.antt =====
-- storage/partition.go, storage/manifest.go and the merges of storage/compaction.go. A partition's
-- directory is the parts it holds by name, and manifest.json the list of names last saved. The
-- staging directories are left out: no operation reads one, and openPartition removes them.
pub mod Counting
pub mod Live
pub mod Merging
pub mod Adding
pub mod Sizes
use marchimetrics.Base.{
  ℕ, ◌+◌, List, [], ◌∷◌, ◌++◌, Bool, true, false, Option, none, some, Result, ok, err, ◌>>=◌,
  io_failure, dropped_partition, if◌then◌else◌, ltb, length, take,
}
use marchimetrics.Base.Str.{Str, str_eq, str_lt, str_key, nat_key}
use marchimetrics.GoMap.{GoMap, lookup, lookup_or, insert, delete, contains}
use marchimetrics.Sample.{Sample}
use marchimetrics.Part.{small, big, Part, PartData, write_part, read_part_all}

pub record Partition : Type 0 where
  pub day : Str
  pub parts : List Str
  pub next_id : ℕ
  pub dropped : Bool
  pub dirs : GoMap Str Part
  pub manifest : List Str

-- Which of the file operations of addPart or mergeParts fails, if any.
pub data Fault : Type 0 where
  no_fault : Fault
  write_fails : Fault
  rename_fails : Fault
  manifest_fails : Fault

-- ".publishing-"
abbrev pub publishing_prefix : Str
publishing_prefix = 46 ∷ 112 ∷ 117 ∷ 98 ∷ 108 ∷ 105 ∷ 115 ∷ 104 ∷ 105 ∷ 110 ∷ 103 ∷ 45 ∷ []

abbrev larger : Option ℕ → ℕ → ℕ
larger none max_id = max_id
larger (some id) max_id = if ltb max_id id then id else max_id

module _ (atoi : Str → Option ℕ) where
  -- The loop of openPartition over the directory: what it keeps, and the largest id.
  unfoldable pub scan_dir : GoMap Str Part → GoMap Str Part → ℕ → GoMap Str Part × ℕ
  scan_dir [] kept max_id = (kept, max_id)
  scan_dir ((name, p) ∷ entries) kept max_id =
      let staged = scan_dir entries kept max_id in
      let live = scan_dir entries (kept ++ ((name, p) ∷ [])) (larger (atoi name) max_id) in
      if str_eq (take 12 name) publishing_prefix then staged else live

  -- What openPartition returns of the entries of the parts directory and of the manifest's list, which
  -- loadManifest gives empty where there is no file.
  unfoldable pub opened_partition : Str → GoMap Str Part → List Str → Partition
  unfolding scan_dir
  opened_partition day entries manifest =
      let (kept, max_id) = scan_dir entries [] 0 in
      record {
        day = day;
        parts = manifest;
        next_id = max_id + 1;
        dropped = false;
        dirs = kept;
        manifest = manifest;
      }

  -- openPartition; `fails` when making or reading the directory or reading the manifest does.
  unfoldable pub open_partition : Bool → Str → GoMap Str Part → List Str → Result Partition
  unfolding opened_partition
  open_partition fails day entries manifest =
      if fails then err io_failure else ok (opened_partition day entries manifest)

-- The parts with the tier "small".
unfoldable pub is_small : Part → Bool
is_small p = elim p.meta.tier [ small ↦ true | big ↦ false ]

abbrev pub after_meta : Option Part → (Part → Result (List Str)) → Result (List Str)
after_meta none next = err io_failure
after_meta (some p) next = next p

-- The loop of smallParts.
unfoldable pub small_among : GoMap Str Part → List Str → Result (List Str)
unfolding is_small
small_among dirs [] = ok []
small_among dirs (name ∷ names) =
    let rest = small_among dirs names in
    after_meta (lookup name dirs) λ p. do more ← rest; ok (if is_small p then name ∷ more else more)

unfoldable pub small_parts : Partition → Result (List Str)
unfolding small_among
small_parts p = small_among p.dirs p.parts

-- `merged[id] = append(merged[id], samples...)` for every series of a part.
unfoldable pub merge_in : PartData → PartData → PartData
merge_in merged [] = merged
merge_in merged ((id, samples) ∷ series) =
    merge_in (insert id (lookup_or [] id merged ++ samples) merged) series

unfoldable pub read_named : GoMap Str Part → Str → Result PartData
read_named dirs name = elim (lookup name dirs) [ none ↦ err io_failure | some p ↦ read_part_all p ]

-- The first loop of mergeParts.
unfoldable pub merge_named : GoMap Str Part → List Str → PartData → Result PartData
unfolding read_named merge_in
merge_named dirs [] merged = ok merged
merge_named dirs (name ∷ names) merged = do
  series ← read_named dirs name
  merge_named dirs names (merge_in merged series)

unfoldable pub not_removed : List Str → List Str → List Str
not_removed removed [] = []
not_removed removed (n ∷ names) =
    let rest = not_removed removed names in if contains n removed then rest else n ∷ rest

unfoldable pub insert_string : Str → List Str → List Str
insert_string a [] = a ∷ []
insert_string a (b ∷ s) = if str_lt b a then b ∷ insert_string a s else a ∷ b ∷ s

-- sort.Strings
unfoldable pub sort_strings : List Str → List Str
unfolding insert_string
sort_strings [] = []
sort_strings (a ∷ s) = insert_string a (sort_strings s)

unfoldable pub delete_all : List Str → GoMap Str Part → GoMap Str Part
delete_all [] dirs = dirs
delete_all (n ∷ names) dirs = delete_all names (delete n dirs)

-- `part_name` is fmt.Sprintf("%06d", id).
module _ (sort_slice : List Sample → List Sample) (part_name : ℕ → Str) where
  -- What addPart does once it has taken its id. A failed save leaves the part listed.
  unfoldable pub publish : Fault → Partition → Str → Part → Partition × Result (Unit {0})
  publish write_fails p name part = (p, err io_failure)
  publish rename_fails p name part = (p, err io_failure)
  publish manifest_fails p name part =
      (record p { parts = p.parts ++ (name ∷ []); dirs = insert name part p.dirs }, err io_failure)
  publish no_fault p name part = (
    record p {
      parts = p.parts ++ (name ∷ []);
      dirs = insert name part p.dirs;
      manifest = p.parts ++ (name ∷ []);
    },
    ok tt,
  )

  unfoldable pub add_part : Fault → Partition → PartData → Partition × Result (Unit {0})
  unfolding publish
  add_part fault p series =
      if p.dropped
      then (p, err dropped_partition)
      else publish fault (record p { next_id = p.next_id + 1 }) (part_name p.next_id)
          (write_part sort_slice series small)

  -- The swap phase of mergeParts. A failed save leaves the small parts live, and the new part's
  -- directory beside them.
  unfoldable pub swap : Fault → Partition → Str → Part → List Str → Partition × Result (Unit {0})
  unfolding not_removed sort_strings delete_all
  swap write_fails p name part names = (p, err io_failure)
  swap rename_fails p name part names = (p, err io_failure)
  swap manifest_fails p name part names =
      (record p { dirs = insert name part p.dirs }, err io_failure)
  swap no_fault p name part names =
      let kept = sort_strings (not_removed names p.parts ++ (name ∷ [])) in
      (
        record p {
          parts = kept;
          manifest = kept;
          dirs = delete_all names (insert name part p.dirs);
        },
        ok tt,
      )

  unfoldable pub merge_read :
      Fault → Partition → List Str → Result PartData → Partition × Result (Unit {0})
  unfolding swap
  merge_read fault p names (err e) = (p, err e)
  merge_read fault p names (ok merged) =
      swap fault (record p { next_id = p.next_id + 1 }) (part_name p.next_id)
        (write_part sort_slice merged big) names

  unfoldable pub merge_parts : Fault → Partition → List Str → Partition × Result (Unit {0})
  unfolding merge_named merge_read
  merge_parts fault p names = merge_read fault p names (merge_named p.dirs names [])

  unfoldable pub compact_small :
      Fault → Partition → ℕ → Result (List Str) → Partition × Result (Unit {0})
  unfolding merge_parts
  compact_small fault p min (err e) = (p, err e)
  compact_small fault p min (ok names) =
      if ltb (length names) min then (p, ok tt) else merge_parts fault p names

  unfoldable pub compact_partition : Fault → Partition → ℕ → Partition × Result (Unit {0})
  unfolding compact_small small_parts
  compact_partition fault p min = compact_small fault p min (small_parts p)
