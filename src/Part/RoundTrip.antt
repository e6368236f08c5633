-- ===== src/Part/RoundTrip.antt =====
-- What readPartAll finds in a part that writePart wrote.
use marchimetrics.Base.{
  ℕ, ◌≡◌, refl, ap, ◌∙◌, arith, List, [], ◌∷◌, ◌++◌, ok, inl, inr, Bool, true, false, Bool-cases,
  ◌||◌, length, All, Option, none, some, ==_iff,
}
use marchimetrics.Base.{◌==◌ as nat_eq}
use marchimetrics.Base.Str.{nat_key}
use marchimetrics.GoMap.{GoMap, lookup, lookup_or, insert, contains, sort_ids}
use marchimetrics.GoMap.Laws.{All-insert, lookup-insert, contains-sort_ids}
use marchimetrics.Timestamps.{encode_timestamps}
use marchimetrics.Values.{encode_values}
use marchimetrics.Sample.{Sample, FitsSamples}
use marchimetrics.Part.Blocks.{read_series_block-grown, read_series_block-written}
use marchimetrics.Part.{
  gorilla, PartMeta, widen, Tier, SeriesIndexEntry, Part, PartData, PartWriter, sample_timestamps,
  sample_values, write_block, write_series, write_all, write_part, write_part_encoded, empty_part,
  keys, read_series_block, read_blocks, read_part_all,
}

unfoldable pub has_entry : {V : Type 0} → ℕ → GoMap ℕ V → Bool
has_entry j [] = false
has_entry j ((k, v) ∷ m) = nat_eq k j || has_entry j m

pub has_entry-insert :
    {V : Type 0} (j k : ℕ) (v : V) (m : GoMap ℕ V)
    → has_entry j (insert k v m) ≡ (nat_eq k j || has_entry j m)
unfolding has_entry insert
has_entry-insert j k v [] = refl
has_entry-insert j k v ((i, w) ∷ m) = ground (arith, has_entry-insert j k v m)

encoding-widen : (s : List Sample) (m : PartMeta) → (widen m s).encoding ≡ m.encoding
unfolding widen
encoding-widen [] m = refl
encoding-widen (x ∷ s) m = encoding-widen s _

module _ (sort_slice : List Sample → List Sample) (series : PartData) where
  abbrev pub sorted_of : ℕ → List Sample
  sorted_of id = sort_slice (lookup_or [] id series)

  -- The entry leads to the samples of its series.
  abbrev pub IsGood : List ℕ → List ℕ → ℕ × SeriesIndexEntry → Type 0
  IsGood ts vs (id, e) = read_series_block ts vs e gorilla ≡ ok (sorted_of id)

  IsGood-grown :
      (ts vs more_ts more_vs : List ℕ) (index : GoMap ℕ SeriesIndexEntry)
      → All (IsGood ts vs) index
      → All (IsGood (ts ++ more_ts) (vs ++ more_vs)) index
  IsGood-grown ts vs more_ts more_vs [] h = tt
  IsGood-grown ts vs more_ts more_vs ((id, e) ∷ index) (g, h) = (
    read_series_block-grown ts vs more_ts more_vs e (sorted_of id) g,
    IsGood-grown ts vs more_ts more_vs index h,
  )

  abbrev pub AllGood : PartWriter → Type 0
  AllGood w = All (IsGood w.part.timestamps_bin w.part.values_bin) w.part.index

  AllGood-write_series :
      (w : PartWriter) (id : ℕ)
      → FitsSamples (sorted_of id)
      → AllGood w
      → AllGood (write_series gorilla w id (sorted_of id))
  unfolding write_series write_block
  AllGood-write_series w id fits h =
      let ts_block = encode_timestamps (sample_timestamps (sorted_of id)) in
      let val_block = encode_values (sample_values (sorted_of id)) in
      All-insert (IsGood (w.part.timestamps_bin ++ ts_block) (w.part.values_bin ++ val_block)) id _
        w.part.index
        (read_series_block-written w.part.timestamps_bin w.part.values_bin (sorted_of id) fits)
        (IsGood-grown w.part.timestamps_bin w.part.values_bin ts_block val_block w.part.index h)

  pub AllGood-write_all :
      (ids : List ℕ) (w : PartWriter)
      → ((id : ℕ) → FitsSamples (sorted_of id))
      → AllGood w
      → AllGood (write_all sort_slice gorilla series w ids)
  unfolding write_all
  AllGood-write_all [] w fits h = h
  AllGood-write_all (id ∷ ids) w fits h =
      AllGood-write_all ids (write_series gorilla w id (sorted_of id)) fits
        (AllGood-write_series w id (fits id) h)

  has_entry-write_series :
      (j : ℕ) (w : PartWriter) (id : ℕ) (s : List Sample)
      → has_entry j (write_series gorilla w id s).part.index
        ≡ (nat_eq id j || has_entry j w.part.index)
  unfolding write_series write_block
  has_entry-write_series j w id s = has_entry-insert j id _ w.part.index

  -- The ids that have an entry.
  pub contains-write_all :
      (j : ℕ) (ids : List ℕ) (w : PartWriter)
      → has_entry j (write_all sort_slice gorilla series w ids).part.index
        ≡ (has_entry j w.part.index || contains j ids)
  unfolding write_all contains
  contains-write_all j [] w = ground arith
  contains-write_all j (id ∷ ids) w =
      contains-write_all j ids (write_series gorilla w id (sorted_of id))
      ∙ ground (arith, has_entry-write_series j w id (sorted_of id))

  pub encoding-write_all :
      (ids : List ℕ) (w : PartWriter)
      → (write_all sort_slice gorilla series w ids).part.meta.encoding ≡ w.part.meta.encoding
  unfolding write_all write_series write_block
  encoding-write_all [] w = refl
  encoding-write_all (id ∷ ids) w =
      encoding-write_all ids (write_series gorilla w id (sorted_of id))
      ∙ encoding-widen (sorted_of id) w.part.meta

  abbrev pub found_in : ℕ → Bool → Option (List Sample) → Option (List Sample)
  found_in j true otherwise = some (sorted_of j)
  found_in j false otherwise = otherwise

  found_in_either :
      (j id : ℕ) (index : GoMap ℕ SeriesIndexEntry) (out : PartData)
      → found_in j (has_entry j index) (lookup j (insert id (sorted_of id) out))
        ≡ found_in j (nat_eq id j || has_entry j index) (lookup j out)
  found_in_either j id index out = elim (Bool-cases (nat_eq id j)) [
    | inl e ↦
        let same : id ≡ j = (==_iff id j).0 e in
        let l : lookup j (insert id (sorted_of id) out) ≡ some (sorted_of j) =
          lookup-insert id j (sorted_of id) out ∙ rw e (ap (λ i. some (sorted_of i)) same) in
        elim (Bool-cases (has_entry j index)) [ inl h ↦ rw (h, e) refl | inr h ↦ rw (h, e) l ]
    | inr e ↦
        let l : lookup j (insert id (sorted_of id) out) ≡ lookup j out =
          lookup-insert id j (sorted_of id) out ∙ rw e refl in
        rw (e, l) refl
  ]

  -- The loop over the index ends well, with the samples of every series of the index.
  lookup-read_blocks :
      (p : Part) (index : GoMap ℕ SeriesIndexEntry) (out : PartData)
      → p.meta.encoding ≡ gorilla
      → All (IsGood p.timestamps_bin p.values_bin) index
      → (found : PartData) × (read_blocks p index out ≡ ok found)
        × ((j : ℕ) → lookup j found ≡ found_in j (has_entry j index) (lookup j out))
  unfolding read_blocks has_entry
  lookup-read_blocks p [] out g h = (out, refl, λ j. refl)
  lookup-read_blocks p ((id, e) ∷ index) out g (good, h) =
      let out' = insert id (sorted_of id) out in
      let (found, r, l) = lookup-read_blocks p index out' g h in
      (found, rw (g, good) r, λ j. l j ∙ found_in_either j id index out)

-- A series that the map holds, with its samples sorted.
abbrev pub sort_found : (List Sample → List Sample) → Option (List Sample) → Option (List Sample)
sort_found sort_slice none = none
sort_found sort_slice (some s) = some (sort_slice s)

pub found_in-keys :
    (sort_slice : List Sample → List Sample) (series : PartData) (j : ℕ) (whole : PartData)
    → lookup_or [] j whole ≡ lookup_or [] j series
    → found_in sort_slice whole j (contains j (keys series)) none
      ≡ sort_found sort_slice (lookup j series)
unfolding lookup lookup_or contains keys
found_in-keys sort_slice [] j whole h = refl
found_in-keys sort_slice ((i, s) ∷ series) j whole h = elim (Bool-cases (nat_eq i j)) [
  | inl e ↦ rw e (ap (λ t. some (sort_slice t)) (h ∙ rw (lookup_or, e) refl))
  | inr e ↦ rw e (found_in-keys sort_slice series j whole (h ∙ rw (lookup_or, e) refl))
]

-- When for every id the sorted samples have Go's sizes, readPartAll succeeds on the part that
-- writePart writes, and returns for every id of the map its samples in the order that sort.Slice
-- gave them, and nothing for any other id.
pub read_part_all-write_part :
    (sort_slice : List Sample → List Sample) (series : PartData) (tier : Tier)
    → ((id : ℕ) → FitsSamples (sort_slice (lookup_or [] id series)))
    → (found : PartData) × (read_part_all (write_part sort_slice series tier) ≡ ok found)
      × ((j : ℕ) → lookup j found ≡ sort_found sort_slice (lookup j series))
unfolding read_part_all write_part write_part_encoded lookup empty_part has_entry
read_part_all-write_part sort_slice series tier fits =
    let ids = sort_ids (keys series) in
    let w0 : PartWriter = record { part = empty_part tier gorilla (length ids); offset = 0 } in
    let p = write_part sort_slice series tier in
    let (found, r, l) =
      lookup-read_blocks sort_slice series p p.index []
        (encoding-write_all sort_slice series ids w0)
        (AllGood-write_all sort_slice series ids w0 fits tt) in
    (
      found,
      r,
      λ j.
          l j
          ∙ ap (λ b. found_in sort_slice series j b none)
              (contains-write_all sort_slice series j ids w0 ∙ contains-sort_ids j (keys series))
          ∙ found_in-keys sort_slice series j series refl,
    )
