-- ===== src/Engine/DayIndex.antt =====
-- persistDayIndex of storage/storage.go when nothing fails.
use marchimetrics.Base.{
  ℕ, ◌≡◌, refl, false, Bool-cases, inl, inr, List, [], ◌∷◌, All, some, Result, ok,
}
use marchimetrics.Base.Str.{Str, str_key, nat_key}
use marchimetrics.GoMap.{GoMap, lookup_or, insert, contains}
use marchimetrics.Label.{Label}
use marchimetrics.Sample.{Sample}
use marchimetrics.Registry.{
  Registry, labels_of, unindexed_ids, mark_indexed, not_in, mark_persisted,
}
use marchimetrics.Part.{PartData, keys}
use marchimetrics.Engine.{
  Storage, append_index_segment, labels_for, write_day_index, if_new, persist_day_index,
}

-- The series of a registry: next id, ids by key, labels by id.
abbrev pub Series : Type 0
Series = ℕ × GoMap Str ℕ × GoMap ℕ (List Label)

abbrev pub series_of : Registry → Series
series_of r = (r.next_id, r.by_key, r.names)

-- The registry has labels for the id.
abbrev pub IsKnown : Registry → ℕ → Type 0
IsKnown r id = (labels : List Label) × (labels_of r id ≡ some labels)

abbrev pub AllKnown : Registry → PartData → Type 0
AllKnown r series = All (λ (e : ℕ × List Sample). IsKnown r e.0) series

AllKnown-keys :
    (r : Registry) (series : PartData) → AllKnown r series → All (IsKnown r) (keys series)
unfolding keys
AllKnown-keys r [] h = tt
AllKnown-keys r ((id, s) ∷ series) (k, h) = (k, AllKnown-keys r series h)

All-not_in : (P : ℕ → Type 0) (seen ids : List ℕ) → All P ids → All P (not_in seen ids)
unfolding not_in
All-not_in P seen [] h = tt
All-not_in P seen (id ∷ ids) (hd, h) = elim (Bool-cases (contains id seen)) [
  | inl e ↦ rw e (All-not_in P seen ids h)
  | inr e ↦ rw e (hd, All-not_in P seen ids h)
]

labels_for-ok :
    (r : Registry) (ids : List ℕ) (entries : GoMap ℕ (List Label))
    → All (IsKnown r) ids
    → (found : GoMap ℕ (List Label)) × (labels_for r ids entries ≡ ok found)
unfolding labels_for
labels_for-ok r [] entries h = (entries, refl)
labels_for-ok r (id ∷ ids) entries ((labels, e), h) =
    let (found, q) = labels_for-ok r ids (insert id labels entries) h in
    (found, rw (labels_for, e) q)

pub append_index_segment-ok :
    (files : List (List ℕ)) (entries : GoMap ℕ (List Label))
    → (files' : List (List ℕ)) × (append_index_segment false files entries ≡ (files', ok tt))
unfolding append_index_segment
append_index_segment-ok files [] = (files, refl)
append_index_segment-ok files (e ∷ entries) = (_, refl)

series_of-mark_indexed :
    (ids : List ℕ) (r : Registry) (day : Str) → series_of (mark_indexed r day ids) ≡ series_of r
unfolding mark_indexed mark_persisted
series_of-mark_indexed [] r day = refl
series_of-mark_indexed (id ∷ ids) r day = series_of-mark_indexed ids (mark_persisted r day id) day

-- What persistDayIndex leaves alone.
pub record IsIndexed (st : Storage) (r : Storage × Result (Unit {0})) : Type 0 where
  pub done : r.1 ≡ ok tt
  pub mem_kept : r.0.mem ≡ st.mem
  pub partitions_kept : r.0.partitions ≡ st.partitions
  pub left_kept : r.0.left_files ≡ st.left_files
  pub series_kept : series_of r.0.registry ≡ series_of st.registry

if_new-IsIndexed :
    (ids : List ℕ) (st : Storage) (next : List ℕ → Storage × Result (Unit {0}))
    → IsIndexed st (next ids)
    → IsIndexed st (if_new ids st next)
if_new-IsIndexed [] st next h = record {
  done = refl;
  mem_kept = refl;
  partitions_kept = refl;
  left_kept = refl;
  series_kept = refl;
}
if_new-IsIndexed (id ∷ ids) st next h = h

write_day_index-IsIndexed :
    (st : Storage) (day : Str) (ids : List ℕ) (entries : GoMap ℕ (List Label))
    → IsIndexed st (write_day_index false st day ids (ok entries))
unfolding write_day_index
write_day_index-IsIndexed st day ids entries =
    let (files, e) = append_index_segment-ok (lookup_or [] day st.inverted_segments) entries in
    rw (write_day_index, e)
      (record {
        done = refl;
        mem_kept = refl;
        partitions_kept = refl;
        left_kept = refl;
        series_kept = series_of-mark_indexed ids st.registry day;
      })

pub persist_day_index-IsIndexed :
    (st : Storage) (day : Str) (series : PartData)
    → AllKnown st.registry series
    → IsIndexed st (persist_day_index false st day series)
unfolding persist_day_index unindexed_ids
persist_day_index-IsIndexed st day series known =
    let new_ids = not_in (lookup_or [] day st.registry.persisted) (keys series) in
    let (entries, e) = labels_for-ok st.registry new_ids [] (
      All-not_in (IsKnown st.registry) (lookup_or [] day st.registry.persisted) (keys series)
        (AllKnown-keys st.registry series known)) in
    if_new-IsIndexed new_ids st
      (λ ids. write_day_index false st day ids (labels_for st.registry ids []))
      (rw e (write_day_index-IsIndexed st day new_ids entries))
