-- ===== src/Engine/Flushing.antt =====
-- What the storage holds before and after Append and Flush.
use marchimetrics.Base.{
  ℕ, ◌^◌, ◌≤◌, ◌<◌, ◌≡◌, refl, sym, ap, ◌∙◌, arith, List, [], ◌∷◌, ◌++◌, All, Option, ok,
}
use marchimetrics.Base.Str.{Str, str_key, nat_key}
use marchimetrics.GoMap.{GoMap, lookup, lookup_or, insert}
use marchimetrics.GoMap.Laws.{All-insert, All-lookup_or}
use marchimetrics.GoMap.Sums.{sum_of}
use marchimetrics.Registry.{Registry, drain_pending, labels_of}
use marchimetrics.Registry.Resolve.{IsValid}
use marchimetrics.Sample.{Sample, SortsByTime}
use marchimetrics.Part.{PartData}
use marchimetrics.Partition.Counting.{total_weight}
use marchimetrics.Partition.Sizes.{one, misfit, IsInjective}
use marchimetrics.Engine.{
  Storage, FlushFaults, append_at, group_samples, group_by_day, append_index_segment, flush,
  flush_days,
}
use marchimetrics.Engine.Holding.{held, days_weight-group_by_day}
use marchimetrics.Engine.DayIndex.{Series, series_of, IsKnown, AllKnown, append_index_segment-ok}
use marchimetrics.Engine.Opening.{AllSwept, OnlyMergesFail, AllNamed}
use marchimetrics.Engine.Conserving.{HasRoom, more_days, flush_days-IsFlushed}

module _ (r : Registry) where
  abbrev DayKnown : Str × PartData → Type 0
  DayKnown e = AllKnown r e.1

  pub AllKnown-append_at :
      (id : ℕ) (s : List Sample) (m : PartData)
      → IsKnown r id
      → AllKnown r m
      → AllKnown r (append_at id s m)
  unfolding append_at
  AllKnown-append_at id s m k h =
      All-insert (λ (e : ℕ × List Sample). IsKnown r e.0) id (lookup_or [] id m ++ s) m k h

  module _ (day_string : ℕ → Str) where
    DayKnown-group_samples :
        (id : ℕ) (s : List Sample) (by_day : GoMap Str PartData)
        → IsKnown r id
        → All DayKnown by_day
        → All DayKnown (group_samples day_string by_day id s)
    unfolding group_samples
    DayKnown-group_samples id [] by_day k h = h
    DayKnown-group_samples id (sm ∷ sms) by_day k h =
        let day = day_string sm.timestamp in
        let next = append_at id (sm ∷ []) (lookup_or [] day by_day) in
        DayKnown-group_samples id sms (insert day next by_day) k (
          All-insert DayKnown day next by_day
            (AllKnown-append_at id (sm ∷ []) (lookup_or [] day by_day) k
              (All-lookup_or (AllKnown r) [] day by_day tt h))
            h)

    DayKnown-group_by_day :
        (mem : PartData) (by_day : GoMap Str PartData)
        → AllKnown r mem
        → All DayKnown by_day
        → All DayKnown (group_by_day day_string by_day mem)
    unfolding group_by_day
    DayKnown-group_by_day [] by_day km h = h
    DayKnown-group_by_day ((id, s) ∷ mem) by_day (k, km) h =
        DayKnown-group_by_day mem (group_samples day_string by_day id s) km
          (DayKnown-group_samples id s by_day k h)

next_id-series_of : (r r' : Registry) → series_of r ≡ series_of r' → r.next_id ≡ r'.next_id
next_id-series_of r r' same = ap (λ (x : Series). x.0) same

pub IsValid-series_of : (r r' : Registry) → series_of r' ≡ series_of r → IsValid r → IsValid r'
IsValid-series_of r r' same v =
    let next = ap (λ (x : Series). x.0) same in
    let keys = λ (k : Str). ap (λ (x : Series). lookup k x.1) same in
    let names = λ (id : ℕ). ap (λ (x : Series). lookup id x.2) same in
    record {
      started = omega (arith, next, v.started);
      key_id =
          λ k id h. let lt = v.key_id k id (sym (keys k) ∙ h) in (lt.0, omega (arith, next, lt.1));
      named = λ k id h.
          let (ls, e, same_key) = v.named k id (sym (keys k) ∙ h) in (ls, names id ∙ e, same_key);
    }

-- What the operations keep: every series of the buffer has labels, part names come from ids below
-- the next one, what is held of every series has Go's sizes, the registry is well formed, and
-- nothing is held of the ids that it has not given. What a failed removal left of a day has no live part.
pub record IsSound (part_name : ℕ → Str) (st : Storage) : Type 0 where
  pub valid : IsValid st.registry
  pub unused : (w : Sample → ℕ) (id : ℕ) → st.registry.next_id ≤ id → held w id st ≡ 0
  pub known : AllKnown st.registry st.mem
  pub named : AllNamed part_name st.partitions
  pub swept : AllSwept st.left_files
  pub sized : (j : ℕ) → (held one j st < 2 ^ 64) × (held misfit j st ≡ 0)

-- On a sound storage, where at most merges fail, Flush succeeds, empties the buffer, keeps the
-- storage sound and the registry's series, and the storage holds every sample of every series exactly as often as before, all
-- of them now in live parts.
pub held-flush :
    (day_string : ℕ → Str) (sort_slice : List Sample → List Sample) (part_name : ℕ → Str)
    (atoi : Str → Option ℕ) (faults : FlushFaults) (st : Storage)
    → SortsByTime sort_slice
    → IsInjective part_name
    → OnlyMergesFail faults
    → IsSound part_name st
    → let r = flush day_string sort_slice part_name atoi faults st in
      (r.1 ≡ ok tt)
      × (r.0.mem ≡ [])
      × IsSound part_name r.0
      × (series_of r.0.registry ≡ series_of st.registry)
      × ((w : Sample → ℕ) (id : ℕ) → held w id r.0 ≡ held w id st)
unfolding flush drain_pending labels_of held total_weight sum_of
held-flush day_string sort_slice part_name atoi faults st sorts distinct only sound =
    let pending = st.registry.pending in
    let (files, e) = append_index_segment-ok st.forward_segments pending in
    let saved : append_index_segment faults.registry_fails st.forward_segments pending
        ≡ (files, ok tt) =
      rw only.registry_saved e in
    let registry = record st.registry { pending = [] } in
    let st1 : Storage = record st { mem = []; registry = registry; forward_segments = files } in
    let by_day = group_by_day day_string [] st.mem in
    let grouped = λ (w : Sample → ℕ) (id : ℕ). days_weight-group_by_day w id day_string st.mem [] in
    let room : HasRoom st.partitions
        (more_days day_string sort_slice part_name atoi sorts distinct faults only by_day) =
      λ j.
        let (few, none_odd) = sound.sized j in
        (omega (arith, few, grouped one j), omega (arith, none_odd, grouped misfit j)) in
    let flushed =
      flush_days-IsFlushed day_string sort_slice part_name atoi sorts distinct faults only by_day
        st1 (DayKnown-group_by_day registry day_string st.mem [] sound.known tt) sound.named
        sound.swept room in
    let r = flush_days day_string sort_slice part_name atoi faults st1 by_day in
    let kept : (w : Sample → ℕ) (id : ℕ) → held w id r.0 ≡ held w id st = λ w id.
      omega (arith, flushed.weight w id, grouped w id, ap (total_weight w id) flushed.mem_kept) in
    let lands : flush day_string sort_slice part_name atoi faults st ≡ r =
      rw (flush, saved) (rw saved refl) in
    rw lands (
      flushed.done,
      flushed.mem_kept,
      record {
        valid =
            IsValid-series_of registry r.0.registry flushed.series_kept
              (IsValid-series_of st.registry registry refl sound.valid);
        unused = λ w id above.
            kept w id
            ∙ sound.unused w id
                (rw (← next_id-series_of r.0.registry registry flushed.series_kept) above);
        known = rw flushed.mem_kept tt;
        named = flushed.named;
        swept = rw flushed.left_kept sound.swept;
        sized = λ j. rw (kept one j, kept misfit j) (sound.sized j);
      },
      flushed.series_kept,
      kept,
    )
