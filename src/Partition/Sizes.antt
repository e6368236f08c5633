-- ===== src/Partition/Sizes.antt =====
-- Sizes and names of the parts of a partition, which addPart and compactPartition keep in order.
use marchimetrics.Base.{
  ℕ, ◌+◌, ◌^◌, ◌<◌, ◌≡◌, refl, sym, ◌∙◌, arith, true, false, Bool-cases, inl, inr, List, [], ◌∷◌,
  ◌++◌, ok, Result-cases, All, length, ltb, if◌then◌else◌, ◌&&◌, ◌||◌,
}
use marchimetrics.Base.Str.{Str, str_key, nat_key, ◌==◌, str_eq_iff}
use marchimetrics.GoMap.{lookup_or, contains}
use marchimetrics.Sample.{Sample, weigh, FitsSample, FitsSamples, SortsByTime}
use marchimetrics.Part.{Part, PartData, big, write_part}
use marchimetrics.Partition.{
  Partition, Fault, no_fault, write_fails, rename_fails, manifest_fails, small_among, small_parts,
  merge_named, not_removed, insert_string, sort_strings, publish, add_part, swap, merge_read,
  merge_parts, compact_small, compact_partition,
}
use marchimetrics.Partition.Counting.{live_weight, weigh-merge_named}
use marchimetrics.Partition.Live.{contains-append, contains-not_removed}
use marchimetrics.Partition.Merging.{
  nothing_yet, smalls, live_weight-smalls, live_weight-compact_partition,
}
use marchimetrics.Partition.Adding.{live_weight-add_part}

-- Every sample weighs one: the number of samples.
unfoldable pub one : Sample → ℕ
one y = 1

-- The samples that no int64 and float64 hold.
unfoldable pub misfit : Sample → ℕ
misfit y = if ltb y.timestamp (2 ^ 64) && ltb y.value (2 ^ 64) then 0 else 1

pub weigh-one : (s : List Sample) → weigh one s ≡ length s
unfolding weigh one
weigh-one [] = refl
weigh-one (y ∷ s) = omega (arith, weigh-one s)

All-misfit : (s : List Sample) → weigh misfit s ≡ 0 → All FitsSample s
unfolding weigh misfit
All-misfit [] h = tt
All-misfit (y ∷ s) h =
    let head : FitsSample y = ground (arith, h) in (head, All-misfit s (omega (arith, h)))

pub misfit-FitsSample : (s : List Sample) → All FitsSample s → weigh misfit s ≡ 0
unfolding weigh misfit
misfit-FitsSample [] h = refl
misfit-FitsSample (y ∷ s) (h, hs) = ground (arith, h, misfit-FitsSample s hs)

pub weigh-FitsSamples :
    (s : List Sample) → weigh one s < 2 ^ 64 → weigh misfit s ≡ 0 → FitsSamples s
weigh-FitsSamples s few none_odd = (omega (arith, weigh-one s, few), All-misfit s none_odd)

-- Sorted, they have the same sizes.
pub weigh-FitsSamples_sorted :
    (sort_slice : List Sample → List Sample) (s : List Sample)
    → SortsByTime sort_slice
    → weigh one s < 2 ^ 64
    → weigh misfit s ≡ 0
    → FitsSamples (sort_slice s)
weigh-FitsSamples_sorted sort_slice s sorts few none_odd =
    weigh-FitsSamples (sort_slice s) (omega (arith, sorts.same_samples one s, few))
      (sorts.same_samples misfit s ∙ none_odd)

-- The live samples of every series have Go's sizes.
abbrev pub IsSized : Partition → Type 0
IsSized p =
    (j : ℕ)
    → (live_weight one j p.dirs p.parts < 2 ^ 64) × (live_weight misfit j p.dirs p.parts ≡ 0)

-- Part names come from ids below the next one, and the partition is not dropped.
pub record IsNamed (part_name : ℕ → Str) (p : Partition) : Type 0 where
  pub present : p.dropped ≡ false
  pub from_id :
      (n : Str) → contains n p.parts ≡ true → (i : ℕ) × (i < p.next_id) × (n ≡ part_name i)

-- fmt.Sprintf("%06d", id) is another text for every id.
abbrev pub IsInjective : (ℕ → Str) → Type 0
IsInjective part_name = (i j : ℕ) → part_name i ≡ part_name j → i ≡ j

module _ (part_name : ℕ → Str) (distinct : IsInjective part_name) (p : Partition)
    (named : IsNamed part_name p) where
  pub fresh_name : contains (part_name p.next_id) p.parts ≡ false
  fresh_name = elim (Bool-cases (contains (part_name p.next_id) p.parts)) [
    | inl e ↦
        let (i, below, same) = named.from_id (part_name p.next_id) e in
        absurd (omega (arith, below, distinct p.next_id i same))
    | inr e ↦ e
  ]

contains-insert_string :
    (n m : Str) (names : List Str)
    → contains n (insert_string m names) ≡ ((m == n) || contains n names)
unfolding contains insert_string
contains-insert_string n m [] = refl
contains-insert_string n m (k ∷ names) = ground (arith, contains-insert_string n m names)

contains-sort_strings :
    (n : Str) (names : List Str) → contains n (sort_strings names) ≡ contains n names
unfolding contains sort_strings
contains-sort_strings n [] = refl
contains-sort_strings n (m ∷ names) =
    contains-insert_string n m (sort_strings names) ∙ ground (arith, contains-sort_strings n names)

contains-snoc :
    (n m : Str) (names : List Str) → contains n (names ++ (m ∷ [])) ≡ (contains n names || (m == n))
unfolding contains
contains-snoc n m names = contains-append n names (m ∷ []) ∙ ground arith

module _ (part_name : ℕ → Str) where
  -- After a step that may list the new name and drop others.
  IsNamed-later :
      (p q : Partition)
      → IsNamed part_name p
      → q.dropped ≡ false
      → q.next_id ≡ p.next_id + 1
      → ((n : Str)
          → contains n q.parts ≡ true
          → contains n (p.parts ++ (part_name p.next_id ∷ [])) ≡ true)
      → IsNamed part_name q
  IsNamed-later p q named present next sub = record {
    present = present;
    from_id = λ n h. elim (Bool-cases (contains n p.parts)) [
      | inl e ↦ let (i, below, same) = named.from_id n e in (i, omega (arith, below, next), same)
      | inr e ↦
          let last : (part_name p.next_id == n) ≡ true =
            ground (arith, sub n h, e, contains-snoc n (part_name p.next_id) p.parts) in
          (p.next_id, omega (arith, next), sym ((str_eq_iff (part_name p.next_id) n).0 last))
    ];
  }

  IsNamed-listed :
      (p : Partition) (n : Str)
      → contains n p.parts ≡ true
      → contains n (p.parts ++ (part_name p.next_id ∷ [])) ≡ true
  IsNamed-listed p n h = ground (arith, h, contains-snoc n (part_name p.next_id) p.parts)

module _ (sort_slice : List Sample → List Sample) (part_name : ℕ → Str) where
  IsNamed-swap :
      (fault : Fault) (p : Partition) (part : Part) (names : List Str)
      → IsNamed part_name p
      → IsNamed part_name
          (swap sort_slice part_name fault
            (record p { next_id = p.next_id + 1 })
            (part_name p.next_id)
            part
            names).0
  unfolding swap
  IsNamed-swap write_fails p part names named =
      IsNamed-later part_name p _ named named.present refl (IsNamed-listed part_name p)
  IsNamed-swap rename_fails p part names named =
      IsNamed-later part_name p _ named named.present refl (IsNamed-listed part_name p)
  IsNamed-swap manifest_fails p part names named =
      IsNamed-later part_name p _ named named.present refl (IsNamed-listed part_name p)
  IsNamed-swap no_fault p part names named =
      IsNamed-later part_name p _ named named.present refl λ n h. ground (
        arith,
        h,
        contains-sort_strings n (not_removed names p.parts ++ (part_name p.next_id ∷ [])),
        contains-snoc n (part_name p.next_id) (not_removed names p.parts),
        contains-snoc n (part_name p.next_id) p.parts,
        contains-not_removed one 0 names n p.parts,
      )

  pub IsNamed-compact_partition :
      (fault : Fault) (p : Partition) (min : ℕ)
      → IsNamed part_name p
      → IsNamed part_name (compact_partition sort_slice part_name fault p min).0
  unfolding compact_partition compact_small merge_parts merge_read small_parts
  IsNamed-compact_partition fault p min named = elim (Result-cases (small_among p.dirs p.parts)) [
    | inr (e, r) ↦ rw r named
    | inl (names, r) ↦ elim (Bool-cases (ltb (length names) min)) [
      | inl few ↦ rw (r, few) named
      | inr few ↦ elim (Result-cases (merge_named p.dirs names [])) [
        | inr (e, q) ↦ rw (r, few, q) named
        | inl (merged, q) ↦
            rw (r, few, q) (IsNamed-swap fault p (write_part sort_slice merged big) names named)
      ]
    ]
  ]

  pub IsNamed-add_part :
      (p : Partition) (series : PartData)
      → IsNamed part_name p
      → IsNamed part_name (add_part sort_slice part_name no_fault p series).0
  unfolding add_part publish
  IsNamed-add_part p series named =
      rw named.present (IsNamed-later part_name p _ named refl refl (λ n h. h))

merged-FitsSamples :
    (sort_slice : List Sample → List Sample) (p : Partition) (merged : PartData) (j : ℕ)
    → SortsByTime sort_slice
    → IsSized p
    → merge_named p.dirs (smalls p.dirs p.parts) [] ≡ ok merged
    → FitsSamples (sort_slice (lookup_or [] j merged))
merged-FitsSamples sort_slice p merged j sorts sized h =
    let (few, none_odd) = sized j in
    let read =
      λ (w : Sample → ℕ). weigh-merge_named w j p.dirs (smalls p.dirs p.parts) [] merged h in
    let nothing = λ (w : Sample → ℕ). nothing_yet w j in
    let part = λ (w : Sample → ℕ). live_weight-smalls w j p.dirs p.parts in
    weigh-FitsSamples_sorted sort_slice (lookup_or [] j merged) sorts
      (omega (arith, few, read one, nothing one, part one))
      (omega (arith, none_odd, read misfit, nothing misfit, part misfit))

module _ (sort_slice : List Sample → List Sample) (part_name : ℕ → Str) (p : Partition)
    (sorts : SortsByTime sort_slice) (distinct : IsInjective part_name)
    (named : IsNamed part_name p) where
  pub live_weight-compacted :
      (fault : Fault) (min : ℕ) (w : Sample → ℕ) (id : ℕ)
      → IsSized p
      → let p' = (compact_partition sort_slice part_name fault p min).0 in
        live_weight w id p'.dirs p'.parts ≡ live_weight w id p.dirs p.parts
  live_weight-compacted fault min w id sized =
      live_weight-compact_partition sort_slice part_name fault p min w id sorts
        (fresh_name part_name distinct p named)
        λ merged j h. merged-FitsSamples sort_slice p merged j sorts sized h

  pub live_weight-added :
      (series : PartData) (w : Sample → ℕ) (id : ℕ)
      → ((j : ℕ) → FitsSamples (sort_slice (lookup_or [] j series)))
      → let r = add_part sort_slice part_name no_fault p series in
        (r.1 ≡ ok tt)
        × (live_weight w id r.0.dirs r.0.parts
            ≡ live_weight w id p.dirs p.parts + weigh w (lookup_or [] id series))
  live_weight-added series w id fits =
      live_weight-add_part sort_slice part_name no_fault p series w id sorts named.present
        (fresh_name part_name distinct p named) fits
