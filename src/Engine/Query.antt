-- ===== src/Engine/Query.antt =====
-- QueryRange of storage/query.go, and partitionsInRange of storage/storage.go.
use marchimetrics.Base.{
  ℕ, ◌+◌, List, [], ◌∷◌, ◌++◌, Bool, not, ◌&&◌, none, some, Result, ok, err, ◌>>=◌, io_failure,
  if◌then◌else◌, length,
}
use marchimetrics.Base.Str.{Str, str_lt, str_key, nat_key}
use marchimetrics.GoMap.{GoMap, lookup, lookup_or, insert}
use marchimetrics.Label.{Label}
use marchimetrics.Registry.{Registry, Matcher, match_ids}
use marchimetrics.Sample.{Sample, within}
use marchimetrics.Part.{Part, PartData, QueryStats, read_part}
use marchimetrics.Partition.{Partition, merge_in}
use marchimetrics.Engine.{Storage}

pub record SeriesResult : Type 0 where
  pub id : ℕ
  pub labels : List Label
  pub samples : List Sample

-- The days of a range, `day >= lo && day <= hi`.
unfoldable pub day_within : Str → Str → Str → Bool
day_within lo hi day = not (str_lt day lo) && not (str_lt hi day)

unfoldable pub insert_partition : Partition → List Partition → List Partition
insert_partition p [] = p ∷ []
insert_partition p (q ∷ ps) = if str_lt q.day p.day then q ∷ insert_partition p ps else p ∷ q ∷ ps

unfoldable pub partitions_between : Str → Str → GoMap Str Partition → List Partition
unfolding day_within insert_partition
partitions_between lo hi [] = []
partitions_between lo hi ((day, p) ∷ ps) =
    let rest = partitions_between lo hi ps in
    if day_within lo hi day then insert_partition p rest else rest

-- readPart on a listed part, whose directory may be missing.
unfoldable pub read_listed :
    GoMap Str Part → List ℕ → ℕ → ℕ → Str → QueryStats → Result (PartData × QueryStats)
read_listed dirs want start_ms end_ms name st = elim (lookup name dirs) [
  | none ↦ err io_failure
  | some p ↦ read_part p want start_ms end_ms st
]

-- The loop over the parts of a partition.
unfoldable pub scan_parts :
    GoMap Str Part
    → List ℕ
    → ℕ
    → ℕ
    → List Str
    → PartData
    → QueryStats
    → Result (PartData × QueryStats)
unfolding read_listed
scan_parts dirs want start_ms end_ms [] merged st = ok (merged, st)
scan_parts dirs want start_ms end_ms (name ∷ names) merged st = do
  (blocks, st') ← read_listed dirs want start_ms end_ms name st
  scan_parts dirs want start_ms end_ms names (merge_in merged blocks) st'

-- The loop over the partitions: a dropped one is skipped.
unfoldable pub scan_partitions :
    List ℕ → ℕ → ℕ → List Partition → PartData → QueryStats → Result (PartData × QueryStats)
unfolding scan_parts
scan_partitions want start_ms end_ms [] merged st = ok (merged, st)
scan_partitions want start_ms end_ms (p ∷ ps) merged st =
    let skipped = scan_partitions want start_ms end_ms ps merged st in
    let scanned = (do
      (merged', st') ← scan_parts p.dirs want start_ms end_ms p.parts merged st
      scan_partitions want start_ms end_ms ps merged' st') in
    if p.dropped then skipped else scanned

-- The loop over the memory tier; a series gets a key only with its first sample.
unfoldable pub put_found : ℕ → List Sample → PartData → PartData
put_found id [] merged = merged
put_found id (sm ∷ sms) merged = insert id (lookup_or [] id merged ++ (sm ∷ sms)) merged

unfoldable pub scan_mem : PartData → List ℕ → ℕ → ℕ → PartData → PartData
unfolding put_found
scan_mem mem [] start_ms end_ms merged = merged
scan_mem mem (id ∷ ids) start_ms end_ms merged =
    scan_mem mem ids start_ms end_ms
      (put_found id (within start_ms end_ms (lookup_or [] id mem)) merged)

-- One series of the answer, unless it has no sample.
unfoldable pub result_of :
    (List Sample → List Sample) → Registry → ℕ → List Sample → List SeriesResult
result_of sort_slice r id [] = []
result_of sort_slice r id (sm ∷ sms) =
    record { id = id; labels = lookup_or [] id r.names; samples = sort_slice (sm ∷ sms) } ∷ []

unfoldable pub results_of :
    (List Sample → List Sample) → Registry → PartData → List ℕ → List SeriesResult
unfolding result_of
results_of sort_slice r merged [] = []
results_of sort_slice r merged (id ∷ ids) =
    result_of sort_slice r id (lookup_or [] id merged) ++ results_of sort_slice r merged ids

-- stats.PointsReturned
unfoldable pub points_of : List SeriesResult → ℕ
points_of [] = 0
points_of (r ∷ rs) = length r.samples + points_of rs

abbrev pub no_stats : QueryStats
no_stats = record { parts_scanned = 0; blocks_scanned = 0; points_scanned = 0; points_returned = 0 }

abbrev pub if_matched :
    List ℕ → Result (List SeriesResult × QueryStats) → Result (List SeriesResult × QueryStats)
if_matched [] next = ok ([], no_stats)
if_matched (id ∷ ids) next = next

module _ (day_string : ℕ → Str) (sort_slice : List Sample → List Sample) where
  unfoldable pub partitions_in_range : Storage → ℕ → ℕ → List Partition
  unfolding partitions_between
  partitions_in_range st start_ms end_ms =
      partitions_between (day_string start_ms) (day_string end_ms) st.partitions

  -- The stats that go with an error are left out.
  unfoldable pub query_range :
      Storage → List Matcher → ℕ → ℕ → Result (List SeriesResult × QueryStats)
  unfolding partitions_in_range scan_partitions scan_mem results_of points_of
  query_range st matchers start_ms end_ms =
      let ids = match_ids st.registry matchers in
      if_matched ids do
        (merged, stats) ←
            scan_partitions ids start_ms end_ms (partitions_in_range st start_ms end_ms) [] no_stats
        (let results =
              results_of sort_slice st.registry (scan_mem st.mem ids start_ms end_ms merged) ids in
            ok (results, record stats { points_returned = points_of results }))
