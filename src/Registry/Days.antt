-- ===== src/Registry/Days.antt =====
-- What indexing a day, persisting it and dropping it do to the registry.
use marchimetrics.Base.{
  ℕ, ◌≡◌, refl, ap, ◌∙◌, arith, Bool, false, Bool-cases, not, inl, inr, List, [], ◌∷◌, ◌&&◌, ◌||◌,
  if◌then◌else◌, none,
}
use marchimetrics.Base.Str.{Str, str_key, nat_key, ◌==◌, str_eq_iff}
use marchimetrics.GoMap.{GoMap, lookup, insert, lookup_or, contains, add, delete}
use marchimetrics.GoMap.Laws.{lookup-insert, contains-add, delete-insert, lookup-delete}
use marchimetrics.Label.{Label, label_key}
use marchimetrics.Registry.{
  Registry, Inverted, index_labels, add_inverted, mark_persisted, load_inverted_entry, drop_day,
  not_in, unindexed_ids, mark_indexed,
}
use marchimetrics.Registry.Inverted.{any_day, findable}

-- Some label of the list has the key.
pub has_key : Str → List Label → Bool
has_key key [] = false
has_key key (l ∷ ls) = (label_key l.name l.value == key) || has_key key ls

lookup_or-insert :
    (inv : Inverted) (k key : Str) (s : List ℕ)
    → lookup_or [] key (insert k s inv) ≡ (if k == key then s else lookup_or [] key inv)
unfolding lookup_or
lookup_or-insert inv k key s = ground (arith, lookup-insert k key s inv)

contains-index_labels :
    (key : Str) (j id : ℕ) (ls : List Label) (inv : Inverted)
    → contains j (lookup_or [] key (index_labels inv id ls))
      ≡ (contains j (lookup_or [] key inv) || ((id == j) && has_key key ls))
unfolding index_labels has_key
contains-index_labels key j id [] inv = ground arith
contains-index_labels key j id (l ∷ ls) inv =
    let k = label_key l.name l.value in
    contains-index_labels key j id ls (insert k (add id (lookup_or [] k inv)) inv)
    ∙ ground (
      arith,
      lookup_or-insert inv k key (add id (lookup_or [] k inv)),
      contains-add id j (lookup_or [] k inv),
      str_eq_iff k key,
    )

lookup_or_nil : (key : Str) → lookup_or {V = Inverted} [] key [] ≡ []
unfolding lookup_or
lookup_or_nil key = unfold lookup in refl

lookup_or_cons :
    (day d : Str) (old : Inverted) (days : GoMap Str Inverted)
    → lookup_or [] day ((d, old) ∷ days) ≡ (if d == day then old else lookup_or [] day days)
unfolding lookup_or lookup
lookup_or_cons day d old days = ground arith

none_at_key : (key : Str) (j : ℕ) → contains j (lookup_or {V = List ℕ} [] key []) ≡ false
unfolding lookup_or lookup contains
none_at_key key j = refl

-- A day's set that only grew by `extra` grows the union by as much.
any_day-insert :
    (key : Str) (j : ℕ) (day : Str) (inv : Inverted) (extra : Bool) (days : GoMap Str Inverted)
    → contains j (lookup_or [] key inv)
      ≡ (contains j (lookup_or [] key (lookup_or [] day days)) || extra)
    → any_day key j (insert day inv days) ≡ (any_day key j days || extra)
unfolding any_day insert
any_day-insert key j day inv extra [] h =
    let h' : contains j (lookup_or [] key inv)
        ≡ (contains j (lookup_or {V = List ℕ} [] key []) || extra) =
      rw (lookup_or_nil day) at h in
    ground (arith, h', none_at_key key j)
any_day-insert key j day inv extra ((d, old) ∷ days) h = elim (Bool-cases (d == day)) [
  | inl e ↦
      let o : lookup_or [] day ((d, old) ∷ days) ≡ old = lookup_or_cons day d old days ∙ rw e in
      let h' : contains j (lookup_or [] key inv) ≡ (contains j (lookup_or [] key old) || extra) =
        rw o at h in
      rw e (ground (arith, h'))
  | inr e ↦
      let o : lookup_or [] day ((d, old) ∷ days) ≡ lookup_or [] day days =
        lookup_or_cons day d old days ∙ rw e in
      rw e (ground (arith, any_day-insert key j day inv extra days (rw o at h)))
]

-- The set of a key on a day holds the id.
unfoldable pub findable_on : Registry → Str → Str → ℕ → Bool
findable_on r day key j = contains j (lookup_or [] key (lookup_or [] day r.inverted_by_day))

lookup_or-insert_day :
    (days : GoMap Str Inverted) (day d : Str) (inv : Inverted)
    → lookup_or [] d (insert day inv days) ≡ (if day == d then inv else lookup_or [] d days)
unfolding lookup_or
lookup_or-insert_day days day d inv = ground (arith, lookup-insert day d inv days)

-- Indexing a series into a day puts it on that day, under the keys of its own labels, and leaves the
-- rest alone: every other entry of every day is there as before, the union over the days grows by
-- exactly those entries, and the series, the pending entries and the persisted sets are kept.
pub findable-add_inverted :
    (r : Registry) (day d : Str) (id : ℕ) (labels : List Label) (key : Str) (j : ℕ)
    → let r' = add_inverted r day id labels in
      (findable_on r' d key j
        ≡ (findable_on r d key j || ((day == d) && ((id == j) && has_key key labels))))
      × (findable r' key j ≡ (findable r key j || ((id == j) && has_key key labels)))
      × (record r' { inverted_by_day = [] } ≡ record r { inverted_by_day = [] })
unfolding findable findable_on add_inverted
findable-add_inverted r day d id labels key j =
    let inv = index_labels (lookup_or [] day r.inverted_by_day) id labels in
    let grown = contains-index_labels key j id labels (lookup_or [] day r.inverted_by_day) in
    let put = lookup_or-insert_day r.inverted_by_day day d inv in
    (
      elim (Bool-cases (day == d)) [
        | inl e ↦
            let same : day ≡ d = (str_eq_iff day d).0 e in rw (put, e) (grown ∙ rw (← same) refl)
        | inr e ↦ rw (put, e) (ground arith)
      ],
      any_day-insert key j day inv ((id == j) && has_key key labels) r.inverted_by_day grown,
      refl,
    )

lookup-delete-insert :
    {V : Type 0} (m : GoMap Str V) (day d : Str) (v : V)
    → lookup d (delete day (insert day v m)) ≡ (if day == d then none else lookup d m)
lookup-delete-insert m day d v = ap (lookup d) (delete-insert day v m) ∙ lookup-delete day d m

-- Dropping a day undoes whatever indexing and persisting was done in it: of that day no inverted
-- index and no persisted set is left, every other day has those it had before, and the next id, the
-- ids of the keys, the labels of the ids and the pending entries are kept.
pub drop_day-load_inverted_entry :
    (r : Registry) (day : Str) (id : ℕ) (labels : List Label) (d : Str)
    → let r' = drop_day (load_inverted_entry r day id labels) day in
      (lookup d r'.inverted_by_day ≡ (if day == d then none else lookup d r.inverted_by_day))
      × (lookup d r'.persisted ≡ (if day == d then none else lookup d r.persisted))
      × (record r' { inverted_by_day = []; persisted = [] }
          ≡ record r { inverted_by_day = []; persisted = [] })
unfolding drop_day load_inverted_entry add_inverted mark_persisted
drop_day-load_inverted_entry r day id labels d = (
  lookup-delete-insert r.inverted_by_day day d
      (index_labels (lookup_or [] day r.inverted_by_day) id labels),
  lookup-delete-insert r.persisted day d (add id (lookup_or [] day r.persisted)),
  refl,
)

persisted-mark_persisted :
    (r : Registry) (day : Str) (id j : ℕ)
    → contains j (lookup_or [] day (mark_persisted r day id).persisted)
      ≡ ((id == j) || contains j (lookup_or [] day r.persisted))
unfolding mark_persisted
persisted-mark_persisted r day id j =
    ap (contains j) (lookup_or-insert r.persisted day day (add id (lookup_or [] day r.persisted)))
    ∙ ground (arith, str_eq_iff day day, contains-add id j (lookup_or [] day r.persisted))

persisted-mark_indexed :
    (ids : List ℕ) (r : Registry) (day : Str) (j : ℕ)
    → contains j (lookup_or [] day (mark_indexed r day ids).persisted)
      ≡ (contains j ids || contains j (lookup_or [] day r.persisted))
unfolding mark_indexed contains
persisted-mark_indexed [] r day j = refl
persisted-mark_indexed (id ∷ ids) r day j = ground (
  arith,
  persisted-mark_indexed ids (mark_persisted r day id) day j,
  persisted-mark_persisted r day id j,
)

contains-not_in :
    (done : List ℕ) (j : ℕ) (ids : List ℕ)
    → contains j (not_in done ids) ≡ (not (contains j done) && contains j ids)
unfolding not_in contains
contains-not_in done j [] = ground arith
contains-not_in done j (id ∷ ids) = ground (arith, contains-not_in done j ids)

-- After the ids that UnindexedIDs returned are marked, exactly the ids asked for and those
-- persisted before are known to be on disk, so a second flush writes none of them again.
pub contains-unindexed_ids :
    (r : Registry) (day : Str) (ids more : List ℕ) (j : ℕ)
    → contains j (unindexed_ids (mark_indexed r day (unindexed_ids r day ids)) day more) ≡ (
        contains j more
        && (not (contains j ids) && not (contains j (lookup_or [] day r.persisted))))
unfolding unindexed_ids
contains-unindexed_ids r day ids more j =
    contains-not_in
      (lookup_or [] day (mark_indexed r day (not_in (lookup_or [] day r.persisted) ids)).persisted)
      j more
    ∙ ground (
      arith,
      persisted-mark_indexed (not_in (lookup_or [] day r.persisted) ids) r day j,
      contains-not_in (lookup_or [] day r.persisted) j ids,
    )
