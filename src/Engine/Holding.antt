-- ===== src/Engine/Holding.antt =====
-- What the storage holds of a series: the samples of the buffer and of the live parts of every day.
use marchimetrics.Base.{
  ℕ, ◌+◌, ◌≡◌, ◌∙◌, arith, Bool-cases, inl, inr, List, [], ◌∷◌, ◌++◌, if◌then◌else◌, ==_iff,
}
use marchimetrics.Base.{◌==◌ as nat_eq}
use marchimetrics.Base.Str.{Str, str_key, nat_key}
use marchimetrics.GoMap.{GoMap, lookup, lookup_or, insert}
use marchimetrics.GoMap.Sums.{sum_of, sum_of-insert_or}
use marchimetrics.Sample.{Sample, weigh}
use marchimetrics.Part.{PartData}
use marchimetrics.Partition.{Partition}
use marchimetrics.Partition.Counting.{total_weight, weigh-append, live_weight}
use marchimetrics.Partition.Merging.{nothing_yet}
use marchimetrics.Engine.{Storage, append_at, group_samples, group_by_day}
use marchimetrics.Engine.Grouping.{weigh-append_at}

-- The live samples of a series in a partition.
unfoldable pub partition_weight : (Sample → ℕ) → ℕ → Partition → ℕ
partition_weight w id p = live_weight w id p.dirs p.parts

-- The samples of a series in the data of a day.
unfoldable pub series_weight : (Sample → ℕ) → ℕ → PartData → ℕ
series_weight w id series = weigh w (lookup_or [] id series)

unfoldable pub disk_weight : (Sample → ℕ) → ℕ → GoMap Str Partition → ℕ
unfolding partition_weight
disk_weight w id ps = sum_of (partition_weight w id) ps

-- With the weight `occurs x`: how often the storage holds the sample `x` of the series.
unfoldable pub held : (Sample → ℕ) → ℕ → Storage → ℕ
unfolding disk_weight
held w id st = total_weight w id st.mem + disk_weight w id st.partitions

module _ (w : Sample → ℕ) (id : ℕ) where
  total_weight-insert :
      (k : ℕ) (s : List Sample) (m : PartData)
      → total_weight w id (insert k s m) + (if nat_eq k id then weigh w (lookup_or [] k m) else 0)
        ≡ total_weight w id m + (if nat_eq k id then weigh w s else 0)
  unfolding total_weight insert lookup_or lookup
  total_weight-insert k s [] = ground (arith, nothing_yet w k)
  total_weight-insert k s ((j, t) ∷ m) = elim (Bool-cases (nat_eq j k)) [
    | inl e ↦ let same : j ≡ k = (==_iff j k).0 e in rw (lookup_or, e, same) (ground arith)
    | inr e ↦ rw (lookup_or, e) (ground (arith, total_weight-insert k s m))
  ]

  -- Appending to a series of the buffer adds the samples.
  pub total_weight-append_at :
      (id0 : ℕ) (s : List Sample) (m : PartData)
      → total_weight w id (append_at id0 s m)
        ≡ total_weight w id m + (if nat_eq id0 id then weigh w s else 0)
  unfolding append_at
  total_weight-append_at id0 s m =
      let old = lookup_or [] id0 m in
      ground (arith, total_weight-insert id0 (old ++ s) m, weigh-append w old s)

  pub days_weight-group_samples :
      (day_string : ℕ → Str) (id0 : ℕ) (s : List Sample) (by_day : GoMap Str PartData)
      → sum_of (series_weight w id) (group_samples day_string by_day id0 s)
        ≡ sum_of (series_weight w id) by_day + (if nat_eq id0 id then weigh w s else 0)
  unfolding group_samples weigh series_weight
  days_weight-group_samples day_string id0 [] by_day = ground arith
  days_weight-group_samples day_string id0 (sm ∷ sms) by_day =
      let day = day_string sm.timestamp in
      let sub = lookup_or [] day by_day in
      let next = append_at id0 (sm ∷ []) sub in
      let put = sum_of-insert_or (series_weight w id) [] day next by_day (nothing_yet w id) in
      let added : series_weight w id next
          ≡ series_weight w id sub + (if nat_eq id0 id then weigh w (sm ∷ []) else 0) =
        weigh-append_at w id id0 (sm ∷ []) sub in
      days_weight-group_samples day_string id0 sms (insert day next by_day)
      ∙ ground (arith, put, added)

  -- Grouping by day keeps the samples of the buffer.
  pub days_weight-group_by_day :
      (day_string : ℕ → Str) (mem : PartData) (by_day : GoMap Str PartData)
      → sum_of (series_weight w id) (group_by_day day_string by_day mem)
        ≡ sum_of (series_weight w id) by_day + total_weight w id mem
  unfolding group_by_day total_weight
  days_weight-group_by_day day_string [] by_day = omega arith
  days_weight-group_by_day day_string ((id0, s) ∷ mem) by_day =
      days_weight-group_by_day day_string mem (group_samples day_string by_day id0 s)
      ∙ ground (arith, days_weight-group_samples day_string id0 s by_day)
