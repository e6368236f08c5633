-- ===== src/Engine/Opening.antt =====
-- getPartition of storage/storage.go when nothing but the merges may fail.
use marchimetrics.Base.{
  ℕ, ◌≡◌, refl, false, inl, inr, Bool-cases, List, [], ◌∷◌, All, Option, some, Option-cases, ok,
}
use marchimetrics.Base.Str.{Str, str_key, nat_key, ◌==◌}
use marchimetrics.GoMap.{GoMap, lookup, contains}
use marchimetrics.GoMap.Sums.{value_of}
use marchimetrics.Sample.{Sample}
use marchimetrics.Partition.{Partition, no_fault, open_partition}
use marchimetrics.Partition.Counting.{live_weight}
use marchimetrics.Partition.Sizes.{IsNamed}
use marchimetrics.Base.{true}
use marchimetrics.GoMap.{lookup_or}
use marchimetrics.GoMap.Laws.{All-lookup_or}
use marchimetrics.Part.{Part}
use marchimetrics.Partition.{opened_partition}
use marchimetrics.Engine.{Storage, FlushFaults, get_partition}
use marchimetrics.Engine.Holding.{partition_weight}

-- Only a merge may fail.
pub record OnlyMergesFail (faults : FlushFaults) : Type 0 where
  pub registry_saved : faults.registry_fails ≡ false
  pub index_saved : (day : Str) → faults.index_fails day ≡ false
  pub opened : (day : Str) → faults.open_fails day ≡ false
  pub published : (day : Str) → faults.part_fault day ≡ no_fault

abbrev pub AllNamed : (ℕ → Str) → GoMap Str Partition → Type 0
AllNamed part_name ps = All (λ (e : Str × Partition). IsNamed part_name e.1) ps

-- What a failed removal left of a day has no live part.
abbrev pub AllSwept : GoMap Str (GoMap Str Part × List Str) → Type 0
AllSwept left = All (λ (e : Str × (GoMap Str Part × List Str)). e.1.1 ≡ []) left

-- The value at a key of a map all of whose values have a property.
All-lookup :
    (P : Partition → Type 0) (k : Str) (p : Partition) (m : GoMap Str Partition)
    → All (λ (e : Str × Partition). P e.1) m
    → lookup k m ≡ some p
    → P p
unfolding lookup
All-lookup P k p [] h e = absurd (cc)
All-lookup P k p ((j, q) ∷ m) (hq, h) e = elim (Bool-cases (j == k)) [
  | inl c ↦
      let e' : ◌≡◌ {A = Option Partition} (some q) (some p) = rw c at e in
      let same : q ≡ p = cc in rw (← same) hq
  | inr c ↦ All-lookup P k p m h (rw c at e)
]

module _ (day_string : ℕ → Str) (sort_slice : List Sample → List Sample) (part_name : ℕ → Str)
    (atoi : Str → Option ℕ) where
  no_name : (n : Str) (names : List Str) → names ≡ [] → contains n names ≡ true → ⊥
  unfolding contains
  no_name n [] e h = cc
  no_name n (m ∷ names) e h = cc

  -- The partition that a flush writes to: the one of the day, or a new one.
  pub record IsGot (st : Storage) (day : Str) (p : Partition) : Type 0 where
    pub got : get_partition day_string sort_slice part_name atoi false st day ≡ ok p
    pub named : IsNamed part_name p
    pub weight :
        (w : Sample → ℕ) (id : ℕ)
        → partition_weight w id p ≡ value_of (partition_weight w id) (lookup day st.partitions)

  pub get_partition-IsGot :
      (st : Storage) (day : Str)
      → AllNamed part_name st.partitions
      → AllSwept st.left_files
      → (p : Partition) × IsGot st day p
  unfolding get_partition open_partition opened_partition contains partition_weight live_weight
  get_partition-IsGot st day named swept = elim (Option-cases (lookup day st.partitions)) [
    | inl e ↦
        let files = lookup_or ([], []) day st.left_files in
        let none_live : files.1 ≡ [] =
          All-lookup_or (λ (f : GoMap Str Part × List Str). f.1 ≡ []) ([], []) day st.left_files
            refl swept in
        (
          opened_partition atoi day files.0 files.1,
          record {
            got = rw (get_partition, e) refl;
            named = record {
              present = refl;
              from_id = λ n h. absurd (no_name n files.1 none_live h);
            };
            weight = λ w id. rw (e, none_live) refl;
          },
        )
    | inr (p, e) ↦ (
      p,
      record {
        got = rw (get_partition, e) refl;
        named = All-lookup (IsNamed part_name) day p st.partitions named e;
        weight = λ w id. rw e refl;
      },
    )
  ]
