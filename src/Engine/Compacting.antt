-- ===== src/Engine/Compacting.antt =====
-- What the storage holds before and after ForceMerge of storage/compaction.go.
use marchimetrics.Base.{
  ℕ, ◌^◌, ◌<◌, ◌≡◌, refl, arith, List, [], ◌∷◌, Option, Result-cases, inl, inr,
}
use marchimetrics.Base.Str.{Str, str_key}
use marchimetrics.GoMap.{GoMap}
use marchimetrics.GoMap.Sums.{sum_of}
use marchimetrics.Sample.{Sample, SortsByTime}
use marchimetrics.Partition.{Partition, Fault, compact_partition}
use marchimetrics.Partition.Sizes.{
  one, misfit, IsInjective, IsNamed-compact_partition, live_weight-compacted,
}
use marchimetrics.Engine.{Storage, force_merge}
use marchimetrics.Engine.Holding.{partition_weight, disk_weight, held}
use marchimetrics.Engine.Opening.{AllNamed}
use marchimetrics.Engine.Flushing.{IsSound}

-- The live samples of every series have Go's sizes.
abbrev AllSized : GoMap Str Partition → Type 0
AllSized ps = (j : ℕ) → (disk_weight one j ps < 2 ^ 64) × (disk_weight misfit j ps ≡ 0)

record IsCompacted (part_name : ℕ → Str) (ps ps' : GoMap Str Partition) : Type 0 where
  named : AllNamed part_name ps'
  weight : (w : Sample → ℕ) (id : ℕ) → disk_weight w id ps' ≡ disk_weight w id ps

-- The storage after ForceMerge.
abbrev pub merged_storage :
    (ℕ → Str)
    → (List Sample → List Sample)
    → (ℕ → Str)
    → (Str → Option ℕ)
    → (Str → Fault)
    → Storage
    → Storage
merged_storage day_string sort_slice part_name atoi faults st = record st {
  partitions = (force_merge day_string sort_slice part_name atoi faults st.partitions).0;
}

module _ (day_string : ℕ → Str) (sort_slice : List Sample → List Sample) (part_name : ℕ → Str)
    (atoi : Str → Option ℕ) (sorts : SortsByTime sort_slice) (distinct : IsInjective part_name)
    (faults : Str → Fault) where
  force_merge-IsCompacted :
      (ps : GoMap Str Partition)
      → AllNamed part_name ps
      → AllSized ps
      → IsCompacted part_name ps (force_merge day_string sort_slice part_name atoi faults ps).0
  unfolding force_merge disk_weight partition_weight sum_of
  force_merge-IsCompacted [] named sized = record { named = tt; weight = λ w id. refl }
  force_merge-IsCompacted ((day, p) ∷ ps) (head_named, rest_named) sized =
      let p' = (compact_partition sort_slice part_name (faults day) p 2).0 in
      let head = IsNamed-compact_partition sort_slice part_name (faults day) p 2 head_named in
      let same = λ (w : Sample → ℕ) (id : ℕ).
        live_weight-compacted sort_slice part_name p sorts distinct head_named (faults day) 2 w id
          λ j. let (few, none_odd) = sized j in (omega (arith, few), omega (arith, none_odd)) in
      let rest =
        force_merge-IsCompacted ps rest_named
          λ j. let (few, none_odd) = sized j in (omega (arith, few), omega (arith, none_odd)) in
      elim (Result-cases (compact_partition sort_slice part_name (faults day) p 2).1) [
        | inl (u, e) ↦
            rw (force_merge, e)
              (record {
                named = (head, rest.named);
                weight = λ w id. omega (arith, same w id, rest.weight w id);
              })
        | inr (x, e) ↦
            rw (force_merge, e)
              (record { named = (head, rest_named); weight = λ w id. omega (arith, same w id) })
      ]

  -- ForceMerge keeps what the storage holds, and the storage sound, whatever fails.
  pub held-force_merge :
      (st : Storage)
      → IsSound part_name st
      → let st' = merged_storage day_string sort_slice part_name atoi faults st in
        IsSound part_name st' × ((w : Sample → ℕ) (id : ℕ) → held w id st' ≡ held w id st)
  unfolding held
  held-force_merge st sound =
      let compacted =
        force_merge-IsCompacted st.partitions sound.named λ j.
          let (few, none_odd) = sound.sized j in (omega (arith, few), omega (arith, none_odd)) in
      let same = λ (w : Sample → ℕ) (id : ℕ). compacted.weight w id in
      (
        record {
          valid = sound.valid;
          unused = λ w id above. omega (arith, same w id, sound.unused w id above);
          known = sound.known;
          named = compacted.named;
          swept = sound.swept;
          sized = λ j.
              let (few, none_odd) = sound.sized j in
              (omega (arith, few, same one j), omega (arith, none_odd, same misfit j));
        },
        λ w id. omega (arith, same w id),
      )
