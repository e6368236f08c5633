-- ===== src/Partition/Adding.antt =====
-- The live samples of a partition around addPart of storage/partition.go.
use marchimetrics.Base.{
  ℕ, ◌+◌, ◌≡◌, refl, ap, ◌∙◌, arith, Bool, true, false, List, [], ◌∷◌, ◌++◌, some, Result, ok, err,
  io_failure, if◌then◌else◌,
}
use marchimetrics.Base.Str.{Str, str_key, nat_key, str_eq_iff}
use marchimetrics.GoMap.{lookup, lookup_or, insert, contains}
use marchimetrics.GoMap.Laws.{lookup-insert}
use marchimetrics.Sample.{Sample, weigh, occurs, count, FitsSamples, SortsByTime}
use marchimetrics.Part.{Part, PartData, small, write_part, read_part_all}
use marchimetrics.Partition.{
  Partition, Fault, no_fault, write_fails, rename_fails, manifest_fails, publish, add_part,
  read_named,
}
use marchimetrics.Partition.Counting.{read_weight, live_weight, live_count, read_weight-write_part}
use marchimetrics.Partition.Live.{live_weight-append, live_weight-insert}

-- The new part becomes live.
abbrev pub is_listed : Fault → Bool
is_listed write_fails = false
is_listed rename_fails = false
is_listed manifest_fails = true
is_listed no_fault = true

-- What addPart returns.
abbrev pub outcome : Fault → Result (Unit {0})
outcome no_fault = ok tt
outcome _ = err io_failure

live_weight-listed :
    (w : Sample → ℕ) (id : ℕ) (p : Partition) (name : Str) (part : Part)
    → contains name p.parts ≡ false
    → live_weight w id (insert name part p.dirs) (p.parts ++ (name ∷ []))
      ≡ live_weight w id p.dirs p.parts + read_weight w id (read_part_all part)
unfolding live_weight read_named
live_weight-listed w id p name part fresh =
    let dirs = insert name part p.dirs in
    let there : lookup name dirs ≡ some part =
      lookup-insert name name part p.dirs ∙ rw ((str_eq_iff name name).1 refl) refl in
    let read : read_named dirs name ≡ read_part_all part = rw (read_named, there) refl in
    omega (
      arith,
      live_weight-append w id dirs p.parts (name ∷ []),
      live_weight-insert w id p.dirs name part p.parts fresh,
      ap (read_weight w id) read,
    )

live-publish :
    (sort_slice : List Sample → List Sample) (part_name : ℕ → Str) (fault : Fault) (p : Partition)
    (name : Str) (part : Part) (w : Sample → ℕ) (id : ℕ)
    → contains name p.parts ≡ false
    → let r = publish sort_slice part_name fault p name part in
      (r.1 ≡ outcome fault)
      × (live_weight w id r.0.dirs r.0.parts
          ≡ live_weight w id p.dirs p.parts
            + (if is_listed fault then read_weight w id (read_part_all part) else 0))
unfolding publish
live-publish sort_slice part_name write_fails p name part w id fresh = (refl, omega arith)
live-publish sort_slice part_name rename_fails p name part w id fresh = (refl, omega arith)
live-publish sort_slice part_name manifest_fails p name part w id fresh =
    (refl, live_weight-listed w id p name part fresh)
live-publish sort_slice part_name no_fault p name part w id fresh =
    (refl, live_weight-listed w id p name part fresh)

-- The same for every weight of the samples.
pub live_weight-add_part :
    (sort_slice : List Sample → List Sample) (part_name : ℕ → Str) (fault : Fault) (p : Partition)
    (series : PartData) (w : Sample → ℕ) (id : ℕ)
    → SortsByTime sort_slice
    → p.dropped ≡ false
    → contains (part_name p.next_id) p.parts ≡ false
    → ((j : ℕ) → FitsSamples (sort_slice (lookup_or [] j series)))
    → let r = add_part sort_slice part_name fault p series in
      (r.1 ≡ outcome fault)
      × (live_weight w id r.0.dirs r.0.parts
          ≡ live_weight w id p.dirs p.parts
            + (if is_listed fault then weigh w (lookup_or [] id series) else 0))
unfolding add_part
live_weight-add_part sort_slice part_name fault p series w id sorts there fresh fits =
    rw (there, ← read_weight-write_part sort_slice series small w id sorts fits)
      (live-publish sort_slice part_name fault
        (record p { next_id = p.next_id + 1; dropped = false }) (part_name p.next_id)
        (write_part sort_slice series small) w id fresh)

-- On a partition that is not dropped, addPart returns an error exactly as the file operations do. If
-- writing or renaming the part fails, every sample is live as often as before; if the manifest is
-- saved, and also if saving it fails, every sample of every series is live as often as before and in
-- the new series together. This holds if sort.Slice is a sort, the name of the next part is not that
-- of a live part, and the samples of every id have Go's sizes.
pub live-add_part :
    (sort_slice : List Sample → List Sample) (part_name : ℕ → Str) (fault : Fault) (p : Partition)
    (series : PartData) (x : Sample) (id : ℕ)
    → SortsByTime sort_slice
    → p.dropped ≡ false
    → contains (part_name p.next_id) p.parts ≡ false
    → ((j : ℕ) → FitsSamples (sort_slice (lookup_or [] j series)))
    → let r = add_part sort_slice part_name fault p series in
      (r.1 ≡ outcome fault)
      × (live_count x id r.0.dirs r.0.parts
          ≡ live_count x id p.dirs p.parts
            + (if is_listed fault then count x (lookup_or [] id series) else 0))
live-add_part sort_slice part_name fault p series x id =
    live_weight-add_part sort_slice part_name fault p series (occurs x) id
