-- ===== src/Engine/Failing.antt =====
-- Flush of storage/storage.go when it cannot save the new series.
use marchimetrics.Base.{ℕ, ◌≡◌, refl, ap, ◌∙◌, arith, true, List, [], ◌∷◌, Option, err, io_failure}
use marchimetrics.Base.Str.{Str, nat_key}
use marchimetrics.GoMap.{GoMap, lookup, lookup_or}
use marchimetrics.Label.{Label}
use marchimetrics.Registry.{drain_pending, track_pending}
use marchimetrics.Registry.Pending.{lookup-put_back_empty}
use marchimetrics.Part.Range.{IsUnique}
use marchimetrics.Sample.{Sample, weigh, count}
use marchimetrics.Partition.Counting.{total}
use marchimetrics.Engine.{Storage, FlushFaults, flush, append_index_segment, restore_mem}
use marchimetrics.Engine.Grouping.{count-restore}

nothing_held : (x : Sample) (id : ℕ) → count x (lookup_or [] id []) ≡ 0
unfolding weigh lookup_or lookup
nothing_held x id = refl

-- When there are new series and their segment cannot be written, Flush returns the error, puts every
-- sample of the buffer back as often as it stood there, and leaves the partitions and the segment
-- files, of the registry and of the days, as they were: every id that was pending is pending again with
-- its labels, and the rest of the registry is kept. This holds where no id is pending twice, as in a Go
-- map.
pub flush-registry_fails :
    (day_string : ℕ → Str) (sort_slice : List Sample → List Sample) (part_name : ℕ → Str)
    (atoi : Str → Option ℕ) (faults : FlushFaults) (st : Storage) (e : ℕ × List Label)
    (pending : GoMap ℕ (List Label)) (x : Sample) (id : ℕ)
    → faults.registry_fails ≡ true
    → st.registry.pending ≡ e ∷ pending
    → IsUnique st.registry.pending
    → let r = flush day_string sort_slice part_name atoi faults st in
      (r.1 ≡ err io_failure)
      × (count x (lookup_or [] id r.0.mem) ≡ total x id st.mem)
      × (r.0.partitions ≡ st.partitions)
      × (r.0.forward_segments ≡ st.forward_segments)
      × (r.0.inverted_segments ≡ st.inverted_segments)
      × (record r.0.registry { pending = [] } ≡ record st.registry { pending = [] })
      × ((i : ℕ) → lookup i r.0.registry.pending ≡ lookup i st.registry.pending)
unfolding flush append_index_segment restore_mem drain_pending track_pending
flush-registry_fails day_string sort_slice part_name atoi faults st e pending x id fails new
      unique =
    let same = λ (i : ℕ). lookup-put_back_empty i st.registry.pending unique ∙ ap (lookup i) new in
    rw (new, fails)
      (
        refl,
        omega (arith, count-restore x id st.mem [], nothing_held x id),
        refl,
        refl,
        refl,
        refl,
        same,
      )
