-- ===== src/Part/Range.antt =====
-- What readPart of storage/part.go finds in a part that writePart wrote.
use marchimetrics.Base.{
  ℕ, ◌+◌, ◌≡◌, refl, sym, ap, ◌∙◌, arith, List, [], ◌∷◌, ◌++◌, append-nil, ok, inl, inr, Bool, true,
  false, Bool-cases, ◌&&◌, ◌||◌, length, All, Option, none, some, if◌then◌else◌, ==_iff,
}
use marchimetrics.Base.{◌==◌ as nat_eq}
use marchimetrics.Base.Str.{nat_key}
use marchimetrics.GoMap.{GoMap, lookup, lookup_or, insert, contains, sort_ids}
use marchimetrics.GoMap.Laws.{lookup-insert, contains-sort_ids}
use marchimetrics.Sample.{Sample, lt64, within, FitsSamples}
use marchimetrics.Part.{
  gorilla, PartMeta, widen, Tier, SeriesIndexEntry, Part, PartData, PartWriter, QueryStats,
  write_block, write_series, write_all, write_part, write_part_encoded, empty_part, keys,
  put_samples, scan_blocks, read_part,
}
use marchimetrics.Part.RoundTrip.{
  has_entry, has_entry-insert, sorted_of, IsGood, AllGood-write_all, contains-write_all,
  encoding-write_all, sort_found, found_in, found_in-keys,
}
use marchimetrics.Part.Bounds.{
  InBounds, Wider, All-Wider, Wider-widen, InBounds-widen, within-skipped,
}

-- No key stands twice.
abbrev pub IsUnique : {V : Type 0} → GoMap ℕ V → Type 0
IsUnique [] = Unit {0}
IsUnique ((k, v) ∷ m) = (has_entry k m ≡ false) × IsUnique m

IsUnique-insert :
    {V : Type 0} (k : ℕ) (v : V) (m : GoMap ℕ V) → IsUnique m → IsUnique (insert k v m)
unfolding insert has_entry
IsUnique-insert k v [] h = (refl, tt)
IsUnique-insert k v ((i, w) ∷ m) (fresh, h) = elim (Bool-cases (nat_eq i k)) [
  | inl e ↦ let same : i ≡ k = (==_iff i k).0 e in rw e (rw same at fresh, h)
  | inr e ↦ rw e (has_entry-insert i k v m ∙ ground (arith, fresh, e), IsUnique-insert k v m h)
]

lookup_or-put_samples :
    (j id : ℕ) (s : List Sample) (out : PartData)
    → lookup_or [] j (put_samples id s out) ≡ lookup_or [] j out ++ (if nat_eq id j then s else [])
unfolding put_samples lookup_or
lookup_or-put_samples j id [] out = elim (Bool-cases (nat_eq id j)) [
  | inl e ↦ rw e (sym (append-nil (lookup_or [] j out)))
  | inr e ↦ rw e (sym (append-nil (lookup_or [] j out)))
]
lookup_or-put_samples j id (sm ∷ s) out =
    let new = lookup_or [] id out ++ (sm ∷ s) in
    elim (Bool-cases (nat_eq id j)) [
      | inl e ↦
          let same : id ≡ j = (==_iff id j).0 e in
          rw (lookup_or, lookup-insert id j new out, e) (rw same refl)
      | inr e ↦
          rw (lookup_or, lookup-insert id j new out, e) (sym (append-nil (lookup_or [] j out)))
    ]

module _ (sort_slice : List Sample → List Sample) (series : PartData) where
  -- The bounds hold for the series of the ids.
  AllBounded : PartMeta → List ℕ → Type 0
  AllBounded m ids =
      (j : ℕ) → contains j ids ≡ true → All (InBounds m) (sorted_of sort_slice series j)

  IsUnique-write_all :
      (ids : List ℕ) (w : PartWriter)
      → IsUnique w.part.index
      → IsUnique (write_all sort_slice gorilla series w ids).part.index
  unfolding write_all write_series write_block
  IsUnique-write_all [] w h = h
  IsUnique-write_all (id ∷ ids) w h =
      IsUnique-write_all ids (write_series gorilla w id (sorted_of sort_slice series id))
        (IsUnique-insert id _ w.part.index h)

  Wider-write_series :
      (w : PartWriter) (id : ℕ) (s : List Sample)
      → Wider w.part.meta (write_series gorilla w id s).part.meta
        × All (InBounds (write_series gorilla w id s).part.meta) s
  unfolding write_series write_block
  Wider-write_series w id s =
      let m = widen w.part.meta s in
      let m' : PartMeta = record m { samples_count = m.samples_count + length s } in
      (
        Wider-widen s w.part.meta,
        All-Wider m m' s (omega arith, omega arith) (InBounds-widen s w.part.meta),
      )

  Wider-write_all :
      (ids : List ℕ) (w : PartWriter)
      → Wider w.part.meta (write_all sort_slice gorilla series w ids).part.meta
  unfolding write_all
  Wider-write_all [] w = (omega arith, omega arith)
  Wider-write_all (id ∷ ids) w =
      let s = sorted_of sort_slice series id in
      let ((lo, hi), inside) = Wider-write_series w id s in
      let (lo', hi') = Wider-write_all ids (write_series gorilla w id s) in
      (omega (arith, lo, lo'), omega (arith, hi, hi'))

  AllBounded-write_all :
      (ids : List ℕ) (w : PartWriter)
      → AllBounded (write_all sort_slice gorilla series w ids).part.meta ids
  unfolding AllBounded write_all contains
  AllBounded-write_all [] w j h = absurd (cc)
  AllBounded-write_all (id ∷ ids) w j h =
      let s = sorted_of sort_slice series id in
      let w' = write_series gorilla w id s in
      let m = (write_all sort_slice gorilla series w' ids).part.meta in
      elim (Bool-cases (nat_eq id j)) [
        | inl e ↦
            let same : id ≡ j = (==_iff id j).0 e in
            let here : All (InBounds m) s =
              All-Wider w'.part.meta m s (Wider-write_all ids w') (Wider-write_series w id s).1 in
            rw (← same) here
        | inr e ↦ AllBounded-write_all ids w' j (rw e at h)
      ]

  -- What the loop over the index puts behind the samples of a series.
  abbrev put_behind : List ℕ → ℕ → ℕ → GoMap ℕ SeriesIndexEntry → ℕ → List Sample
  put_behind want lo hi index j =
      if contains j want && has_entry j index
      then within lo hi (sorted_of sort_slice series j)
      else []

  nothing_behind : (b : Bool) (old s : List Sample) → old ≡ old ++ (if b && false then s else [])
  nothing_behind true old s = sym (append-nil old)
  nothing_behind false old s = sym (append-nil old)

  wanted_behind :
      (want : List ℕ) (lo hi j id : ℕ) (old : List Sample) (index : GoMap ℕ SeriesIndexEntry)
      → contains id want ≡ true
      → has_entry id index ≡ false
      → (old ++ (if nat_eq id j then within lo hi (sorted_of sort_slice series id) else []))
          ++ put_behind want lo hi index j
        ≡ old
          ++ (if contains j want && (nat_eq id j || has_entry j index)
              then within lo hi (sorted_of sort_slice series j)
              else [])
  wanted_behind want lo hi j id old index c fresh = elim (Bool-cases (nat_eq id j)) [
    | inl e ↦
        let same : id ≡ j = (==_iff id j).0 e in
        rw (e, ← same, c, fresh) (append-nil (old ++ within lo hi (sorted_of sort_slice series id)))
    | inr e ↦ rw (e, append-nil old) refl
  ]

  unwanted_behind :
      (want : List ℕ) (lo hi j id : ℕ) (old : List Sample) (index : GoMap ℕ SeriesIndexEntry)
      → contains id want ≡ false
      → old ++ put_behind want lo hi index j
        ≡ old
          ++ (if contains j want && (nat_eq id j || has_entry j index)
              then within lo hi (sorted_of sort_slice series j)
              else [])
  unwanted_behind want lo hi j id old index c = elim (Bool-cases (nat_eq id j)) [
    | inl e ↦ let same : id ≡ j = (==_iff id j).0 e in rw (e, ← same, c) refl
    | inr e ↦ rw e refl
  ]

  lookup_or-scan_blocks :
      (p : Part) (want : List ℕ) (lo hi : ℕ) (index : GoMap ℕ SeriesIndexEntry) (out : PartData)
      (st : QueryStats)
      → p.meta.encoding ≡ gorilla
      → All (IsGood sort_slice series p.timestamps_bin p.values_bin) index
      → IsUnique index
      → (found : PartData) × (st' : QueryStats) × (scan_blocks p want lo hi index out st
          ≡ ok (found, st'))
        × ((j : ℕ) → lookup_or [] j found ≡ lookup_or [] j out ++ put_behind want lo hi index j)
  unfolding scan_blocks has_entry
  lookup_or-scan_blocks p want lo hi [] out st g good unique = (
    out,
    st,
    refl,
    λ j.
        nothing_behind (contains j want) (lookup_or [] j out)
          (within lo hi (sorted_of sort_slice series j)),
  )
  lookup_or-scan_blocks p want lo hi ((id, e) ∷ index) out st g (here, good) (fresh, unique) =
      elim (Bool-cases (contains id want)) [
        | inl c ↦
            let s = within lo hi (sorted_of sort_slice series id) in
            let st1 : QueryStats = record st {
              blocks_scanned = st.blocks_scanned + 1;
              points_scanned = st.points_scanned + e.count;
            } in
            let (found, st', r, l) =
              lookup_or-scan_blocks p want lo hi index (put_samples id s out) st1 g good unique in
            (
              found,
              st',
              rw (c, g, here) r,
              λ j.
                  l j
                  ∙ rw (lookup_or-put_samples j id s out)
                      (wanted_behind want lo hi j id (lookup_or [] j out) index c fresh),
            )
        | inr c ↦
            let (found, st', r, l) =
              lookup_or-scan_blocks p want lo hi index out st g good unique in
            (
              found,
              st',
              rw c r,
              λ j. l j ∙ unwanted_behind want lo hi j id (lookup_or [] j out) index c,
            )
      ]

abbrev pub samples_or : Option (List Sample) → List Sample
samples_or none = []
samples_or (some s) = s

-- The samples that a written part holds of a series.
abbrev pub stored : (List Sample → List Sample) → PartData → ℕ → List Sample
stored sort_slice series j = samples_or (sort_found sort_slice (lookup j series))

samples_or-found_in :
    (sort_slice : List Sample → List Sample) (series : PartData) (j : ℕ) (b : Bool)
    → samples_or (found_in sort_slice series j b none)
      ≡ (if b then sorted_of sort_slice series j else [])
samples_or-found_in sort_slice series j true = refl
samples_or-found_in sort_slice series j false = refl

stored_of :
    (sort_slice : List Sample → List Sample) (series : PartData) (j : ℕ)
    → stored sort_slice series j
      ≡ (if contains j (keys series) then sorted_of sort_slice series j else [])
stored_of sort_slice series j =
    sym (ap samples_or (found_in-keys sort_slice series j series refl))
    ∙ samples_or-found_in sort_slice series j (contains j (keys series))

behind_stored :
    (w b : Bool) (lo hi : ℕ) (s : List Sample)
    → (if w && b then within lo hi s else [])
      ≡ (if w then within lo hi (if b then s else []) else [])
unfolding within
behind_stored false b lo hi s = refl
behind_stored true true lo hi s = refl
behind_stored true false lo hi s = refl

skipped_stored :
    (w b : Bool) (lo hi : ℕ) (s : List Sample)
    → (b ≡ true → within lo hi s ≡ [])
    → [] ≡ (if w then within lo hi (if b then s else []) else [])
unfolding within
skipped_stored false b lo hi s h = refl
skipped_stored true true lo hi s h = sym (h refl)
skipped_stored true false lo hi s h = refl

-- When for every id the sorted samples have Go's sizes, readPart succeeds on the part that writePart
-- writes, whatever the wanted ids and the time range, and returns of every wanted series exactly its
-- samples in the range, sorted, and of no other series any: skipping the part by its time range
-- loses none.
pub read_part-write_part :
    (sort_slice : List Sample → List Sample) (series : PartData) (tier : Tier)
    → ((id : ℕ) → FitsSamples (sort_slice (lookup_or [] id series)))
    → (want : List ℕ) (start_ms end_ms : ℕ) (st : QueryStats)
    → (found : PartData) × (st' : QueryStats) × (read_part
          (write_part sort_slice series tier)
          want
          start_ms
          end_ms
          st
        ≡ ok (found, st'))
      × ((j : ℕ)
          → lookup_or [] j found
            ≡ (if contains j want then within start_ms end_ms (stored sort_slice series j) else []))
unfolding read_part write_part write_part_encoded empty_part has_entry AllBounded lookup_or lookup
read_part-write_part sort_slice series tier fits want lo hi st =
    let ids = sort_ids (keys series) in
    let w0 : PartWriter = record { part = empty_part tier gorilla (length ids); offset = 0 } in
    let p = write_part sort_slice series tier in
    let known = λ (j : ℕ). contains-sort_ids j (keys series) in
    let whole = λ (j : ℕ).
      ap (λ s. if contains j want then within lo hi s else [])
        (sym (stored_of sort_slice series j)) in
    let bounded = AllBounded-write_all sort_slice series ids w0 in
    elim (Bool-cases (lt64 p.meta.max_time lo || lt64 hi p.meta.min_time)) [
      | inl skip ↦ (
        [],
        st,
        rw (read_part, skip) refl,
        λ j.
            skipped_stored (contains j want) (contains j (keys series)) lo hi
              (sorted_of sort_slice series j)
              (λ b.
                within-skipped p.meta lo hi (sorted_of sort_slice series j) skip
                  (bounded j (known j ∙ b)))
            ∙ whole j,
      )
      | inr read ↦
          let st1 : QueryStats = record st { parts_scanned = st.parts_scanned + 1 } in
          let (found, st', r, l) =
            lookup_or-scan_blocks sort_slice series p want lo hi p.index [] st1
              (encoding-write_all sort_slice series ids w0)
              (AllGood-write_all sort_slice series ids w0 fits tt)
              (IsUnique-write_all sort_slice series ids w0 tt) in
          (
            found,
            st',
            rw (read_part, read) r,
            λ j.
                l j
                ∙ ap
                    (λ b.
                      if contains j want && b
                      then within lo hi (sorted_of sort_slice series j)
                      else [])
                    (contains-write_all sort_slice series j ids w0 ∙ known j)
                ∙ behind_stored (contains j want) (contains j (keys series)) lo hi
                    (sorted_of sort_slice series j)
                ∙ whole j,
          )
    ]
