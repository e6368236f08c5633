-- ===== src/Engine/Lifecycle/Retention.antt =====
-- The partitions around ApplyRetention of storage/retention.go.
use marchimetrics.Base.{
  ℕ, ◌≡◌, ◌≢◌, refl, ap, ◌∙◌, arith, Bool, false, Bool-cases, inl, inr, List, [], ◌∷◌, none, ok,
  if◌then◌else◌, ◌&&◌, ◌||◌,
}
use marchimetrics.Base.{◌==◌ as nat_eq}
use marchimetrics.Base.Str.{Str, str_lt, str_key, str_eq_iff, ◌==◌}
use marchimetrics.GoMap.{GoMap, lookup, contains}
use marchimetrics.GoMap.Laws.{lookup-delete}
use marchimetrics.Partition.{Partition}
use marchimetrics.Engine.{Storage}
use marchimetrics.Engine.Lifecycle.{
  DropFault, both_removed, expired_days, drop_partition, drop_expired, cutoff_ms, apply_retention,
}

-- No RemoveAll fails.
abbrev pub all_removed : Str → DropFault
all_removed day = both_removed

partitions-drop_expired :
    (days : List Str) (st : Storage) (day : Str)
    → lookup day (drop_expired all_removed st days).0.partitions
      ≡ (if contains day days then none else lookup day st.partitions)
unfolding drop_expired drop_partition contains
partitions-drop_expired [] st day = refl
partitions-drop_expired (d ∷ days) st day =
    partitions-drop_expired days (drop_partition both_removed st d).0 day
    ∙ ground (arith, lookup-delete d day st.partitions)

drop_expired-ok : (days : List Str) (st : Storage) → (drop_expired all_removed st days).1 ≡ ok tt
unfolding drop_expired drop_partition
drop_expired-ok [] st = refl
drop_expired-ok (d ∷ days) st = drop_expired-ok days (drop_partition both_removed st d).0

held : Str → GoMap Str Partition → Bool
held day [] = false
held day ((d, p) ∷ ps) = (d == day) || held day ps

contains-expired_days :
    (cutoff : Str) (ps : GoMap Str Partition) (day : Str)
    → contains day (expired_days cutoff ps) ≡ (str_lt day cutoff && held day ps)
unfolding expired_days contains held
contains-expired_days cutoff [] day = ground arith
contains-expired_days cutoff ((d, p) ∷ ps) day = elim (Bool-cases (d == day)) [
  | inl e ↦
      let same : str_lt d cutoff ≡ str_lt day cutoff =
        ap (λ x. str_lt x cutoff) ((str_eq_iff d day).0 e) in
      ground (arith, e, same, contains-expired_days cutoff ps day)
  | inr e ↦ ground (arith, e, contains-expired_days cutoff ps day)
]

lookup-held : (ps : GoMap Str Partition) (day : Str) → held day ps ≡ false → lookup day ps ≡ none
unfolding held lookup
lookup-held [] day h = refl
lookup-held ((d, p) ∷ ps) day h = ground (arith, h, lookup-held ps day)

dropped_or_kept :
    (cutoff : Str) (ps : GoMap Str Partition) (day : Str)
    → (if contains day (expired_days cutoff ps) then none else lookup day ps)
      ≡ (if str_lt day cutoff then none else lookup day ps)
dropped_or_kept cutoff ps day = elim (Bool-cases (held day ps)) [
  | inl e ↦ ground (arith, contains-expired_days cutoff ps day, e)
  | inr e ↦ ground (arith, lookup-held ps day e)
]

-- With a retention of some days and no failing removal, ApplyRetention succeeds and leaves of every
-- day before the cutoff day no partition, and of every other day the partition it had.
pub partitions-apply_retention :
    (day_string : ℕ → Str) (st : Storage) (retention_days now_ms : ℕ) (day : Str)
    → retention_days ≢ 0
    → ((apply_retention day_string all_removed st retention_days now_ms).1 ≡ ok tt)
      × (lookup day (apply_retention day_string all_removed st retention_days now_ms).0.partitions
          ≡ (if str_lt day (day_string (cutoff_ms retention_days now_ms))
              then none
              else lookup day st.partitions))
unfolding apply_retention
partitions-apply_retention day_string st retention_days now_ms day some_days =
    let z : nat_eq retention_days 0 ≡ false = ground (arith, some_days) in
    let cutoff = day_string (cutoff_ms retention_days now_ms) in
    let days = expired_days cutoff st.partitions in
    rw z (
      drop_expired-ok days st,
      partitions-drop_expired days st day ∙ dropped_or_kept cutoff st.partitions day,
    )
