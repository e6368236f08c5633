-- ===== src/Partition/Counting.antt =====
-- How often a sample of a series stands in the live parts of a partition, and what writing and
-- reading parts does to that number.
use marchimetrics.Base.{
  ℕ, ◌+◌, ◌≡◌, refl, sym, ap, ◌∙◌, arith, false, Bool-cases, inl, inr, List, [], ◌∷◌, ◌++◌, none,
  some, Option-cases, Result, ok, err, io_failure, Result-cases, if◌then◌else◌, ==_iff,
}
use marchimetrics.Base.{◌==◌ as nat_eq}
use marchimetrics.Base.Str.{Str, nat_key, str_key}
use marchimetrics.GoMap.{GoMap, lookup, lookup_or, insert}
use marchimetrics.GoMap.Laws.{lookup-insert}
use marchimetrics.Sample.{Sample, weigh, occurs, FitsSamples, SortsByTime}
use marchimetrics.Part.{
  Tier, SeriesIndexEntry, Part, PartData, write_part, read_series_block, read_blocks, read_part_all,
}
use marchimetrics.Part.RoundTrip.{read_part_all-write_part}
use marchimetrics.Partition.{merge_in, read_named, merge_named}

pub weigh-append : (w : Sample → ℕ) (s t : List Sample) → weigh w (s ++ t) ≡ weigh w s + weigh w t
unfolding weigh
weigh-append w [] t = omega arith
weigh-append w (y ∷ s) t = ground (arith, weigh-append w s t)

-- The occurrences under one id, with every entry of the list counted.
unfoldable pub total_weight : (Sample → ℕ) → ℕ → PartData → ℕ
total_weight w id [] = 0
total_weight w id ((j, s) ∷ series) =
    let rest = total_weight w id series in if nat_eq j id then weigh w s + rest else rest

IsFresh : ℕ → PartData → Type 0
IsFresh id [] = Unit {0}
IsFresh id ((j, s) ∷ series) = (nat_eq j id ≡ false) × IsFresh id series

-- No id stands twice.
pub IsDistinct : PartData → Type 0
unfolding IsFresh
IsDistinct [] = Unit {0}
IsDistinct ((j, s) ∷ series) = IsFresh j series × IsDistinct series

total_weight-IsFresh :
    (w : Sample → ℕ) (id : ℕ) (series : PartData) → IsFresh id series → total_weight w id series ≡ 0
unfolding total_weight IsFresh
total_weight-IsFresh w id [] h = refl
total_weight-IsFresh w id ((j, s) ∷ series) (hj, h) =
    ground (arith, hj, total_weight-IsFresh w id series h)

IsFresh-insert :
    (id j : ℕ) (s : List Sample) (series : PartData)
    → nat_eq j id ≡ false
    → IsFresh id series
    → IsFresh id (insert j s series)
unfolding IsFresh insert
IsFresh-insert id j s [] hj h = (hj, tt)
IsFresh-insert id j s ((k, t) ∷ series) hj (hk, h) = elim (Bool-cases (nat_eq k j)) [
  | inl e ↦ rw e (hj, h)
  | inr e ↦ rw e (hk, IsFresh-insert id j s series hj h)
]

IsDistinct-insert :
    (j : ℕ) (s : List Sample) (series : PartData)
    → IsDistinct series
    → IsDistinct (insert j s series)
unfolding IsDistinct IsFresh insert
IsDistinct-insert j s [] h = (tt, tt)
IsDistinct-insert j s ((k, t) ∷ series) (hk, h) = elim (Bool-cases (nat_eq k j)) [
  | inl e ↦
      let same : k ≡ j = (==_iff k j).0 e in
      let fresh : IsFresh j series = rw same at hk in rw e (fresh, h)
  | inr e ↦
      rw e (IsFresh-insert k j s series (ground (arith, e)) hk, IsDistinct-insert j s series h)
]

-- Where no id stands twice, lookup finds all occurrences.
total_weight-IsDistinct :
    (w : Sample → ℕ) (id : ℕ) (series : PartData)
    → IsDistinct series
    → total_weight w id series ≡ weigh w (lookup_or [] id series)
unfolding total_weight IsDistinct lookup_or lookup
total_weight-IsDistinct w id [] h = unfold weigh in refl
total_weight-IsDistinct w id ((j, s) ∷ series) (hj, h) = elim (Bool-cases (nat_eq j id)) [
  | inl e ↦
      let same : j ≡ id = (==_iff j id).0 e in
      let fresh : IsFresh id series = rw same at hj in
      rw (lookup_or, e) (omega (arith, total_weight-IsFresh w id series fresh))
  | inr e ↦ rw (lookup_or, e) (total_weight-IsDistinct w id series h)
]

IsDistinct-read_blocks :
    (p : Part) (index : GoMap ℕ SeriesIndexEntry) (out found : PartData)
    → IsDistinct out
    → read_blocks p index out ≡ ok found
    → IsDistinct found
unfolding read_blocks
IsDistinct-read_blocks p [] out found h r = let same : out ≡ found = cc in rw same at h
IsDistinct-read_blocks p ((id, e) ∷ index) out found h r =
    elim (Result-cases (read_series_block p.timestamps_bin p.values_bin e p.meta.encoding)) [
      | inl (s, q) ↦
          IsDistinct-read_blocks p index (insert id s out) found (IsDistinct-insert id s out h)
            (rw q at r)
      | inr (f, q) ↦ let r' : ◌≡◌ {A = Result PartData} (err f) (ok found) = rw q at r in cc
    ]

lookup_or-insert :
    (j id : ℕ) (s : List Sample) (series : PartData)
    → lookup_or [] id (insert j s series) ≡ (if nat_eq j id then s else lookup_or [] id series)
unfolding lookup_or
lookup_or-insert j id s series = ground (arith, lookup-insert j id s series)

-- mergeParts' append keeps every occurrence.
weigh-merge_in :
    (w : Sample → ℕ) (id : ℕ) (series merged : PartData)
    → weigh w (lookup_or [] id (merge_in merged series))
      ≡ weigh w (lookup_or [] id merged) + total_weight w id series
unfolding merge_in total_weight
weigh-merge_in w id [] merged = omega arith
weigh-merge_in w id ((j, s) ∷ series) merged =
    weigh-merge_in w id series (insert j (lookup_or [] j merged ++ s) merged)
    ∙ elim (Bool-cases (nat_eq j id)) [
      | inl e ↦
          let same : j ≡ id = (==_iff j id).0 e in
          let more : weigh w (lookup_or [] id (insert j (lookup_or [] j merged ++ s) merged))
              ≡ weigh w (lookup_or [] id merged) + weigh w s =
            ap (weigh w) (
              lookup_or-insert j id (lookup_or [] j merged ++ s) merged
              ∙ rw e (ap (λ i. lookup_or [] i merged ++ s) same))
            ∙ weigh-append w (lookup_or [] id merged) s in
          rw e (omega (arith, more))
      | inr e ↦
          let more : weigh w (lookup_or [] id (insert j (lookup_or [] j merged ++ s) merged))
              ≡ weigh w (lookup_or [] id merged) =
            ap (weigh w) (lookup_or-insert j id (lookup_or [] j merged ++ s) merged ∙ rw e refl) in
          rw e (omega (arith, more))
    ]

-- The occurrences in what a read of a part gives.
unfoldable pub read_weight : (Sample → ℕ) → ℕ → Result PartData → ℕ
read_weight w id (err e) = 0
read_weight w id (ok series) = weigh w (lookup_or [] id series)

-- The occurrences in the listed parts.
unfoldable pub live_weight : (Sample → ℕ) → ℕ → GoMap Str Part → List Str → ℕ
unfolding read_weight read_named
live_weight w id dirs [] = 0
live_weight w id dirs (name ∷ names) =
    read_weight w id (read_named dirs name) + live_weight w id dirs names

IsDistinct-read_named :
    (dirs : GoMap Str Part) (name : Str) (series : PartData)
    → read_named dirs name ≡ ok series
    → IsDistinct series
unfolding read_named read_part_all IsDistinct
IsDistinct-read_named dirs name series h = elim (Option-cases (lookup name dirs)) [
  | inl e ↦
      let h' : ◌≡◌ {A = Result PartData} (err io_failure) (ok series) = rw (read_named, e) at h in
      cc
  | inr (p, e) ↦ IsDistinct-read_blocks p p.index [] series tt (rw (read_named, e) at h)
]

-- What mergeParts reads holds every occurrence that the parts of the names hold.
pub weigh-merge_named :
    (w : Sample → ℕ) (id : ℕ) (dirs : GoMap Str Part) (names : List Str) (merged found : PartData)
    → merge_named dirs names merged ≡ ok found
    → weigh w (lookup_or [] id found)
      ≡ weigh w (lookup_or [] id merged) + live_weight w id dirs names
unfolding merge_named live_weight
weigh-merge_named w id dirs [] merged found h =
    let same : merged ≡ found = cc in rw same (omega arith)
weigh-merge_named w id dirs (name ∷ names) merged found h =
    elim (Result-cases (read_named dirs name)) [
      | inr (f, q) ↦ let h' : ◌≡◌ {A = Result PartData} (err f) (ok found) = rw q at h in cc
      | inl (series, q) ↦
          let d = IsDistinct-read_named dirs name series q in
          let c : read_weight w id (read_named dirs name) ≡ total_weight w id series =
            rw (q, read_weight) (sym (total_weight-IsDistinct w id series d)) in
          let rest = weigh-merge_named w id dirs names (merge_in merged series) found (rw q at h) in
          omega (arith, c, rest, weigh-merge_in w id series merged)
    ]

-- A part that writePart wrote holds every sample of its series as often as it was given.
pub read_weight-write_part :
    (sort_slice : List Sample → List Sample) (series : PartData) (tier : Tier) (w : Sample → ℕ)
    (id : ℕ)
    → SortsByTime sort_slice
    → ((j : ℕ) → FitsSamples (sort_slice (lookup_or [] j series)))
    → read_weight w id (read_part_all (write_part sort_slice series tier))
      ≡ weigh w (lookup_or [] id series)
unfolding read_weight lookup_or
read_weight-write_part sort_slice series tier w id sorts fits =
    let (found, r, l) = read_part_all-write_part sort_slice series tier fits in
    elim (Option-cases (lookup id series)) [
      | inl e ↦
          let m : lookup id found ≡ none = l id ∙ rw e refl in
          rw (r, read_weight, lookup_or, m, e) refl
      | inr (s, e) ↦
          let m : lookup id found ≡ some (sort_slice s) = l id ∙ rw e refl in
          rw (r, read_weight, lookup_or, m, e) (sorts.same_samples w s)
    ]

-- The same for the number of occurrences of a sample.
abbrev pub total : Sample → ℕ → PartData → ℕ
total x id series = total_weight (occurs x) id series

abbrev pub live_count : Sample → ℕ → GoMap Str Part → List Str → ℕ
live_count x id dirs names = live_weight (occurs x) id dirs names
