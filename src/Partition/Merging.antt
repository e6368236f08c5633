-- ===== src/Partition/Merging.antt =====
-- The live samples of a partition around compactPartition of storage/compaction.go.
use marchimetrics.Base.{
  ℕ, ◌+◌, ◌≡◌, refl, sym, ap, ◌∙◌, arith, Bool, true, false, Bool-cases, inl, inr, List, [], ◌∷◌,
  ◌++◌, none, some, Option-cases, Result, ok, err, io_failure, Result-cases, if◌then◌else◌, ltb,
  length, ◌&&◌,
}
use marchimetrics.Base.Str.{Str, nat_key, str_key, ◌==◌, str_eq_iff}
use marchimetrics.GoMap.{GoMap, lookup, lookup_or, insert, contains}
use marchimetrics.GoMap.Laws.{lookup-insert}
use marchimetrics.Sample.{Sample, weigh, occurs, FitsSamples, SortsByTime}
use marchimetrics.Part.{Part, PartData, big, write_part, read_part_all}
use marchimetrics.Partition.{
  Partition, Fault, no_fault, write_fails, rename_fails, manifest_fails, is_small, after_meta,
  small_among, small_parts, read_named, merge_named, not_removed, delete_all, swap, merge_read,
  merge_parts, compact_small, compact_partition,
}
use marchimetrics.Partition.Live.{
  contains-append, live_weight-append, live_weight-sort_strings, live_weight-insert,
  live_weight-delete_all, contains-not_removed,
}
use marchimetrics.Partition.Counting.{
  read_weight, live_weight, live_count, weigh-merge_named, read_weight-write_part,
}

-- The part of the name is small.
unfoldable pub small_name : GoMap Str Part → Str → Bool
small_name dirs n = elim (lookup n dirs) [ none ↦ false | some p ↦ is_small p ]

-- The names whose parts are small.
unfoldable pub smalls : GoMap Str Part → List Str → List Str
unfolding small_name
smalls dirs [] = []
smalls dirs (n ∷ names) =
    let rest = smalls dirs names in if small_name dirs n then n ∷ rest else rest

small_among-ok :
    (dirs : GoMap Str Part) (names found : List Str)
    → small_among dirs names ≡ ok found
    → found ≡ smalls dirs names
unfolding small_among smalls small_name
small_among-ok dirs [] found h = cc
small_among-ok dirs (n ∷ names) found h = elim (Option-cases (lookup n dirs)) [
  | inl e ↦
      let h' : ◌≡◌ {A = Result (List Str)} (err io_failure) (ok found) = rw (e, after_meta) at h in
      cc
  | inr (p, e) ↦ elim (Result-cases (small_among dirs names)) [
    | inr (f, r) ↦
        let h' : ◌≡◌ {A = Result (List Str)} (err f) (ok found) = rw (e, after_meta, r) at h in cc
    | inl (more, r) ↦
        let h' : ◌≡◌ {A = Result (List Str)} (ok (if is_small p then n ∷ more else more))
            (ok found) =
          rw (e, after_meta, r) at h in
        let rest = small_among-ok dirs names more r in
        let same : (if is_small p then n ∷ more else more) ≡ found = cc in
        let small : small_name dirs n ≡ is_small p = rw (small_name, e) refl in
        rw (small, ← rest) (sym same)
  ]
]

contains-smalls :
    (dirs : GoMap Str Part) (n : Str) (names : List Str)
    → contains n (smalls dirs names) ≡ (small_name dirs n && contains n names)
unfolding contains smalls
contains-smalls dirs n [] = ground arith
contains-smalls dirs n (m ∷ names) = elim (Bool-cases (m == n)) [
  | inl e ↦
      let same : small_name dirs m ≡ small_name dirs n =
        ap (small_name dirs) ((str_eq_iff m n).0 e) in
      ground (arith, e, same, contains-smalls dirs n names)
  | inr e ↦ ground (arith, e, contains-smalls dirs n names)
]

module _ (w : Sample → ℕ) (id : ℕ) where
  -- The small parts and those that stay behind are all the parts.
  live_weight-split :
      (dirs : GoMap Str Part) (removed names : List Str)
      → ((n : Str) → contains n names ≡ true → contains n removed ≡ small_name dirs n)
      → live_weight w id dirs names
        ≡ live_weight w id dirs (not_removed removed names)
          + live_weight w id dirs (smalls dirs names)
  unfolding live_weight contains not_removed smalls
  live_weight-split dirs removed [] h = omega arith
  live_weight-split dirs removed (n ∷ names) h =
      let rest = live_weight-split dirs removed names (λ m c. h m (ground (arith, c))) in
      let here : contains n removed ≡ small_name dirs n = h n (ground (arith, str_eq_iff n n)) in
      elim (Bool-cases (small_name dirs n)) [
        | inl e ↦ rw (here, e) (omega (arith, rest))
        | inr e ↦ rw (here, e) (omega (arith, rest))
      ]

  pub live_weight-smalls :
      (dirs : GoMap Str Part) (names : List Str)
      → live_weight w id dirs names
        ≡ live_weight w id dirs (not_removed (smalls dirs names) names)
          + live_weight w id dirs (smalls dirs names)
  live_weight-smalls dirs names =
      live_weight-split dirs (smalls dirs names) names
        λ n c. ground (arith, c, contains-smalls dirs n names)

  abbrev live : Partition → ℕ
  live p = live_weight w id p.dirs p.parts

  -- The swap keeps the weigh, if the new part holds what the small ones held.
  live-swap :
      (sort_slice : List Sample → List Sample) (part_name : ℕ → Str) (fault : Fault) (p : Partition)
      (name : Str) (part : Part)
      → contains name p.parts ≡ false
      → read_weight w id (read_part_all part) ≡ live_weight w id p.dirs (smalls p.dirs p.parts)
      → live (swap sort_slice part_name fault p name part (smalls p.dirs p.parts)).0 ≡ live p
  unfolding swap live_weight contains read_named
  live-swap sort_slice part_name write_fails p name part fresh held = refl
  live-swap sort_slice part_name rename_fails p name part fresh held = refl
  live-swap sort_slice part_name manifest_fails p name part fresh held =
      live_weight-insert w id p.dirs name part p.parts fresh
  live-swap sort_slice part_name no_fault p name part fresh held =
      let small = smalls p.dirs p.parts in
      let kept = not_removed small p.parts in
      let dirs = insert name part p.dirs in
      let not_small : contains name small ≡ false =
        ground (arith, fresh, contains-smalls p.dirs name p.parts) in
      let not_kept : contains name kept ≡ false =
        ground (arith, fresh, contains-not_removed w id small name p.parts) in
      let apart : (n : Str) → contains n small ≡ true → contains n (kept ++ (name ∷ [])) ≡ false =
        λ n c.
          let gone : contains n kept ≡ false =
            ground (arith, c, contains-not_removed w id small n p.parts) in
          let other : (name == n) ≡ false = elim (Bool-cases (name == n)) [
            | inl e ↦
                let same : contains name small ≡ contains n small =
                  ap (λ k. contains k small) ((str_eq_iff name n).0 e) in
                cc
            | inr e ↦ e
          ] in
          contains-append n kept (name ∷ []) ∙ ground (arith, gone, other) in
      let new : live_weight w id dirs (name ∷ []) ≡ read_weight w id (read_part_all part) =
        let there : lookup name dirs ≡ some part =
          lookup-insert name name part p.dirs ∙ rw ((str_eq_iff name name).1 refl) refl in
        let read : read_named dirs name ≡ read_part_all part = rw (read_named, there) refl in
        omega (arith, ap (read_weight w id) read) in
      let sum = live_weight-append w id dirs kept (name ∷ []) in
      let old = live_weight-insert w id p.dirs name part kept not_kept in
      live_weight-sort_strings w id (delete_all small dirs) (kept ++ (name ∷ []))
      ∙ live_weight-delete_all w id small dirs (kept ++ (name ∷ [])) apart
      ∙ omega (arith, sum, old, new, held, live_weight-smalls p.dirs p.parts)

pub nothing_yet : (w : Sample → ℕ) (id : ℕ) → weigh w (lookup_or [] id []) ≡ 0
unfolding weigh lookup_or lookup
nothing_yet w id = refl

-- The same for every weight of the samples.
pub live_weight-compact_partition :
    (sort_slice : List Sample → List Sample) (part_name : ℕ → Str) (fault : Fault) (p : Partition)
    (min : ℕ) (w : Sample → ℕ) (id : ℕ)
    → SortsByTime sort_slice
    → contains (part_name p.next_id) p.parts ≡ false
    → ((merged : PartData) (j : ℕ)
        → merge_named p.dirs (smalls p.dirs p.parts) [] ≡ ok merged
        → FitsSamples (sort_slice (lookup_or [] j merged)))
    → let p' = (compact_partition sort_slice part_name fault p min).0 in
      live_weight w id p'.dirs p'.parts ≡ live_weight w id p.dirs p.parts
unfolding compact_partition compact_small merge_parts merge_read small_parts
live_weight-compact_partition sort_slice part_name fault p min w id sorts fresh fits =
    elim (Result-cases (small_among p.dirs p.parts)) [
      | inr (e, r) ↦ rw r refl
      | inl (names, r) ↦
          let same : names ≡ smalls p.dirs p.parts = small_among-ok p.dirs p.parts names r in
          elim (Bool-cases (ltb (length names) min)) [
            | inl few ↦ rw (r, few) refl
            | inr few ↦ elim (Result-cases (merge_named p.dirs names [])) [
              | inr (e, q) ↦ rw (r, few, q) refl
              | inl (merged, q) ↦
                  let q' : merge_named p.dirs (smalls p.dirs p.parts) [] ≡ ok merged =
                    rw same at q in
                  let written =
                    read_weight-write_part sort_slice merged big w id sorts
                      (λ j. fits merged j q') in
                  let read = weigh-merge_named w id p.dirs (smalls p.dirs p.parts) [] merged q' in
                  let held : read_weight w id (read_part_all (write_part sort_slice merged big))
                      ≡ live_weight w id p.dirs (smalls p.dirs p.parts) =
                    omega (arith, written, read, nothing_yet w id) in
                  rw (r, few, q, same)
                    (live-swap w id sort_slice part_name fault
                      (record p { next_id = p.next_id + 1 }) (part_name p.next_id)
                      (write_part sort_slice merged big) fresh held)
            ]
          ]
    ]

-- compactPartition, whatever its threshold and whichever file operation fails, leaves every sample
-- of every series in the live parts exactly as often as before: if sort.Slice is a sort, the name of
-- the next part is not that of a live part, and the merged samples of every id have Go's sizes.
pub live-compact_partition :
    (sort_slice : List Sample → List Sample) (part_name : ℕ → Str) (fault : Fault) (p : Partition)
    (min : ℕ) (x : Sample) (id : ℕ)
    → SortsByTime sort_slice
    → contains (part_name p.next_id) p.parts ≡ false
    → ((merged : PartData) (j : ℕ)
        → merge_named p.dirs (smalls p.dirs p.parts) [] ≡ ok merged
        → FitsSamples (sort_slice (lookup_or [] j merged)))
    → let p' = (compact_partition sort_slice part_name fault p min).0 in
      live_count x id p'.dirs p'.parts ≡ live_count x id p.dirs p.parts
live-compact_partition sort_slice part_name fault p min x id =
    live_weight-compact_partition sort_slice part_name fault p min (occurs x) id
