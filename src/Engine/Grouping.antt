-- ===== src/Engine/Grouping.antt =====
-- The loops of Flush and restoreMem of storage/storage.go that move samples between maps.
use marchimetrics.Base.{
  ℕ, ◌+◌, ◌≡◌, refl, ap, ◌∙◌, arith, Bool-cases, inl, inr, List, [], ◌∷◌, ◌++◌, if◌then◌else◌,
  ==_iff,
}
use marchimetrics.Base.{◌==◌ as nat_eq}
use marchimetrics.Base.Str.{Key, Str, str_key, nat_key, ◌==◌, str_eq_iff}
use marchimetrics.GoMap.{GoMap, lookup, lookup_or, insert}
use marchimetrics.GoMap.Laws.{lookup-insert}
use marchimetrics.Sample.{Sample, weigh, occurs, count, sample_eq}
use marchimetrics.Part.{PartData}
use marchimetrics.Partition.Counting.{total, total_weight, weigh-append}
use marchimetrics.Engine.{append_at, restore, group_samples, group_by_day}

lookup_or-insert :
    {K V : Type 0} ⦃e : Key K⦄ (d : V) (key j : K) (v : V) (m : GoMap K V)
    → lookup_or d j (insert key v m) ≡ (if key == j then v else lookup_or d j m)
unfolding lookup_or
lookup_or-insert d key j v m = elim (Bool-cases (key == j)) [
  | inl e ↦ rw (lookup_or, lookup-insert key j v m, e) refl
  | inr e ↦ rw (lookup_or, lookup-insert key j v m, e) refl
]

-- The samples of a series in the data of a day.
abbrev pub grouped : Str → ℕ → GoMap Str PartData → List Sample
grouped day id by_day = lookup_or [] id (lookup_or [] day by_day)

module _ (w : Sample → ℕ) (id : ℕ) where
  pub weigh-append_at :
      (id0 : ℕ) (s : List Sample) (m : PartData)
      → weigh w (lookup_or [] id (append_at id0 s m))
        ≡ weigh w (lookup_or [] id m) + (if nat_eq id0 id then weigh w s else 0)
  unfolding append_at
  weigh-append_at id0 s m = elim (Bool-cases (nat_eq id0 id)) [
    | inl e ↦
        let same : lookup_or [] id0 m ≡ lookup_or [] id m =
          ap (λ i. lookup_or [] i m) ((==_iff id0 id).0 e) in
        let there : lookup_or [] id (insert id0 (lookup_or [] id0 m ++ s) m)
            ≡ lookup_or [] id0 m ++ s =
          lookup_or-insert [] id0 id (lookup_or [] id0 m ++ s) m ∙ rw e refl in
        rw (there, e, same) (weigh-append w (lookup_or [] id m) s)
    | inr e ↦
        let there : lookup_or [] id (insert id0 (lookup_or [] id0 m ++ s) m) ≡ lookup_or [] id m =
          lookup_or-insert [] id0 id (lookup_or [] id0 m ++ s) m ∙ rw e refl in
        rw (there, e) (omega arith)
  ]

module _ (day_string : ℕ → Str) (w : Sample → ℕ) (id : ℕ) (day : Str) where
  abbrev day_of : Sample → Str
  day_of sm = day_string sm.timestamp

  -- The weight of the samples of the day.
  unfoldable pub of_day : Sample → ℕ
  of_day sm = if day_of sm == day then w sm else 0

  weigh-group_samples :
      (id0 : ℕ) (s : List Sample) (by_day : GoMap Str PartData)
      → weigh w (grouped day id (group_samples day_string by_day id0 s))
        ≡ weigh w (grouped day id by_day) + (if nat_eq id0 id then weigh of_day s else 0)
  unfolding group_samples weigh of_day
  weigh-group_samples id0 [] by_day = ground arith
  weigh-group_samples id0 (sm ∷ sms) by_day =
      let sub = lookup_or [] (day_of sm) by_day in
      let next = insert (day_of sm) (append_at id0 (sm ∷ []) sub) by_day in
      let step : weigh w (grouped day id next)
          ≡ weigh w (grouped day id by_day) + (if nat_eq id0 id then of_day sm else 0) =
        elim (Bool-cases (day_of sm == day)) [
          | inl e ↦
              let same : sub ≡ lookup_or [] day by_day =
                ap (λ d. lookup_or [] d by_day) ((str_eq_iff (day_of sm) day).0 e) in
              let there : lookup_or [] day next ≡ append_at id0 (sm ∷ []) sub =
                lookup_or-insert [] (day_of sm) day (append_at id0 (sm ∷ []) sub) by_day
                ∙ rw e refl in
              rw (there, e, same)
                (weigh-append_at w id id0 (sm ∷ []) (lookup_or [] day by_day) ∙ ground arith)
          | inr e ↦
              let there : lookup_or [] day next ≡ lookup_or [] day by_day =
                lookup_or-insert [] (day_of sm) day (append_at id0 (sm ∷ []) sub) by_day
                ∙ rw e refl in
              rw (there, e) (ground arith)
        ] in
      weigh-group_samples id0 sms next ∙ ground (arith, step)

  weigh-group_by_day :
      (mem : PartData) (by_day : GoMap Str PartData)
      → weigh w (grouped day id (group_by_day day_string by_day mem))
        ≡ weigh w (grouped day id by_day) + total_weight of_day id mem
  unfolding group_by_day total_weight
  weigh-group_by_day [] by_day = ground arith
  weigh-group_by_day ((id0, s) ∷ mem) by_day =
      weigh-group_by_day mem (group_samples day_string by_day id0 s)
      ∙ ground (arith, weigh-group_samples id0 s by_day)

nothing_grouped : (w : Sample → ℕ) (id : ℕ) (day : Str) → weigh w (grouped day id []) ≡ 0
unfolding weigh lookup_or lookup
nothing_grouped w id day = refl

pub weigh-grouped :
    (day_string : ℕ → Str) (mem : PartData) (w : Sample → ℕ) (id : ℕ) (day : Str)
    → weigh w (grouped day id (group_by_day day_string [] mem))
      ≡ total_weight (of_day day_string w id day) id mem
weigh-grouped day_string mem w id day =
    let all = weigh-group_by_day day_string w id day mem [] in
    omega (arith, all, nothing_grouped w id day)

module _ (day_string : ℕ → Str) (x : Sample) (id : ℕ) (day : Str) where
  -- Where a sample is not `x`, its day does not matter.
  same_day :
      (sm : Sample)
      → of_day day_string (occurs x) id day sm
        ≡ (if day_string x.timestamp == day then occurs x sm else 0)
  unfolding of_day occurs sample_eq
  same_day sm = elim (Bool-cases (sample_eq x sm)) [
    | inl e ↦ let stamp : x.timestamp ≡ sm.timestamp = ground (arith, e) in rw stamp refl
    | inr e ↦ ground (arith, e)
  ]

  weigh-of_day :
      (s : List Sample)
      → weigh (of_day day_string (occurs x) id day) s
        ≡ (if day_string x.timestamp == day then count x s else 0)
  unfolding weigh
  weigh-of_day [] = ground arith
  weigh-of_day (sm ∷ s) = ground (arith, same_day sm, weigh-of_day s)

  total_weight-of_day :
      (mem : PartData)
      → total_weight (of_day day_string (occurs x) id day) id mem
        ≡ (if day_string x.timestamp == day then total x id mem else 0)
  unfolding total_weight
  total_weight-of_day [] = ground arith
  total_weight-of_day ((j, s) ∷ mem) = ground (arith, weigh-of_day s, total_weight-of_day mem)

-- Flush's grouping puts every sample of a series into the data of its own day exactly as often as it
-- stands in the buffer, and into no other day's, for any function that names the days.
pub count-grouped :
    (day_string : ℕ → Str) (mem : PartData) (x : Sample) (id : ℕ) (day : Str)
    → count x (grouped day id (group_by_day day_string [] mem))
      ≡ (if day_string x.timestamp == day then total x id mem else 0)
count-grouped day_string mem x id day =
    weigh-grouped day_string mem (occurs x) id day ∙ total_weight-of_day day_string x id day mem

pub weigh-restore :
    (w : Sample → ℕ) (id : ℕ) (series mem : PartData)
    → weigh w (lookup_or [] id (restore mem series))
      ≡ weigh w (lookup_or [] id mem) + total_weight w id series
unfolding restore total_weight
weigh-restore w id [] mem = omega arith
weigh-restore w id ((j, s) ∷ series) mem =
    weigh-restore w id series (append_at j s mem) ∙ ground (arith, weigh-append_at w id j s mem)

-- restoreMem's loop keeps what the buffer holds and adds every sample that it is given.
pub count-restore :
    (x : Sample) (id : ℕ) (series mem : PartData)
    → count x (lookup_or [] id (restore mem series))
      ≡ count x (lookup_or [] id mem) + total x id series
count-restore x id series mem = weigh-restore (occurs x) id series mem
