-- ===== src/Segment/Files/Order.antt =====
-- The order of the segment files of storage/indexdb.go and the number of the next one.
use marchimetrics.Base.{
  ℕ, ◌+◌, ◌-◌, ◌≤◌, ◌<◌, ◌≡◌, refl, ap, arith, Bool-cases, inl, inr, List, [], ◌∷◌, ◌++◌, true,
  false, Option, some, ok, ltb, leb, length, take, All, map, length-append, take-append_left,
}
use marchimetrics.Base.Str.{Str, str_lt}
use marchimetrics.GoMap.{insert_id, sort_ids}
use marchimetrics.GoMap.Laws.{IsSorted, sort_ids-IsSorted}
use marchimetrics.Partition.{insert_string, sort_strings}
use marchimetrics.Segment.Files.{
  DirEntry, entries, seg_suffix, segment_names, list_index_segments, last_name, index_segment_name,
  next_seq, next_index_segment_seq,
}

-- A sequence number of six digits.
abbrev pub IsSix : ℕ → Type 0
IsSix n = n < 1000000

-- What `%06d` and strconv.Atoi do to six digits: the order of the names is that of the numbers, and
-- the digits give the number back.
pub record SixDigits (six_digits : ℕ → Str) (atoi : Str → Option ℕ) : Type 0 where
  pub ordered :
      (a b : ℕ)
      → IsSix a
      → IsSix b
      → str_lt (six_digits a ++ seg_suffix) (six_digits b ++ seg_suffix) ≡ ltb a b
  pub back : (a : ℕ) → IsSix a → atoi (six_digits a) ≡ some a

All-insert_id : (P : ℕ → Type 0) (a : ℕ) (s : List ℕ) → P a → All P s → All P (insert_id a s)
unfolding insert_id
All-insert_id P a [] h hs = (h, tt)
All-insert_id P a (b ∷ s) h (hb, hs) = elim (Bool-cases (leb a b)) [
  | inl e ↦ rw e (h, (hb, hs))
  | inr e ↦ rw e (hb, All-insert_id P a s h hs)
]

All-sort_ids : (P : ℕ → Type 0) (s : List ℕ) → All P s → All P (sort_ids s)
unfolding sort_ids
All-sort_ids P [] h = tt
All-sort_ids P (a ∷ s) (h, hs) = All-insert_id P a (sort_ids s) h (All-sort_ids P s hs)

All-inserted : (P : ℕ → Type 0) (a : ℕ) (s : List ℕ) → All P (insert_id a s) → P a × All P s
unfolding insert_id
All-inserted P a [] (h, hs) = (h, tt)
All-inserted P a (b ∷ s) h = elim (Bool-cases (leb a b)) [
  | inl e ↦ let h' : All P (a ∷ b ∷ s) = rw e at h in (h'.0, h'.1)
  | inr e ↦
      let h' : All P (b ∷ insert_id a s) = rw e at h in
      let (ha, hs) = All-inserted P a s h'.1 in (ha, (h'.0, hs))
]

All-sorted : (P : ℕ → Type 0) (s : List ℕ) → All P (sort_ids s) → All P s
unfolding sort_ids
All-sorted P [] h = tt
All-sorted P (a ∷ s) h = let (ha, hs) = All-inserted P a (sort_ids s) h in (ha, All-sorted P s hs)

last_id : ℕ → List ℕ → ℕ
last_id a [] = a
last_id a (b ∷ s) = last_id b s

All-le : (a b : ℕ) (s : List ℕ) → a ≤ b → All (λ c. c ≤ a) s → All (λ c. c ≤ b) s
All-le a b [] h hs = tt
All-le a b (c ∷ s) h (hc, hs) = (omega (arith, h, hc), All-le a b s h hs)

last_id-max : (a : ℕ) (s : List ℕ) → IsSorted (a ∷ s) → All (λ c. c ≤ last_id a s) (a ∷ s)
unfolding last_id
last_id-max a [] h = (omega arith, tt)
last_id-max a (b ∷ s) (hab, h) =
    let (hb, hs) = last_id-max b s h in (omega (arith, hab, hb), (hb, hs))

All-last_id : (P : ℕ → Type 0) (a : ℕ) (s : List ℕ) → All P (a ∷ s) → P (last_id a s)
unfolding last_id
All-last_id P a [] (h, hs) = h
All-last_id P a (b ∷ s) (h, hs) = All-last_id P b s hs

below : (top : ℕ) (s : List ℕ) → All (λ n. n ≤ top) s → All (λ n. n < top + 1) s
below top [] h = tt
below top (a ∷ s) (h, hs) = (omega (arith, h), below top s hs)

module _ (six_digits : ℕ → Str) (atoi : Str → Option ℕ) (six : SixDigits six_digits atoi) where
  abbrev name_of : ℕ → Str
  name_of n = six_digits n ++ seg_suffix

  insert_string-names :
      (a : ℕ) (s : List ℕ)
      → IsSix a
      → All IsSix s
      → insert_string (name_of a) (map name_of s) ≡ map name_of (insert_id a s)
  unfolding insert_string insert_id
  insert_string-names a [] h hs = refl
  insert_string-names a (b ∷ s) h (hb, hs) = elim (Bool-cases (leb a b)) [
    | inl e ↦ let lt : ltb b a ≡ false = ground (arith, e) in rw (six.ordered b a hb h, lt, e) refl
    | inr e ↦
        let lt : ltb b a ≡ true = ground (arith, e) in
        rw (six.ordered b a hb h, lt, e) (ap (λ r. name_of b ∷ r) (insert_string-names a s h hs))
  ]

  sort_strings-names :
      (s : List ℕ) → All IsSix s → sort_strings (map name_of s) ≡ map name_of (sort_ids s)
  unfolding sort_strings sort_ids
  sort_strings-names [] h = refl
  sort_strings-names (a ∷ s) (h, hs) =
      rw (sort_strings-names s hs) (insert_string-names a (sort_ids s) h (All-sort_ids IsSix s hs))

  last_name-names :
      (a : ℕ) (s : List ℕ) → last_name (name_of a) (map name_of s) ≡ name_of (last_id a s)
  unfolding last_name last_id
  last_name-names a [] = refl
  last_name-names a (b ∷ s) = last_name-names b s

  take-name_of : (n : ℕ) → take (length (name_of n) - length seg_suffix) (name_of n) ≡ six_digits n
  take-name_of n =
      take-append_left (length (name_of n) - length seg_suffix) (six_digits n) seg_suffix
        (omega (arith, length-append (six_digits n) seg_suffix))

  next_seq-names :
      (s : List ℕ)
      → All IsSix s
      → IsSorted s
      → (m : ℕ) × (next_seq atoi (map name_of s) ≡ ok m) × All (λ n. n < m) s
  unfolding next_seq
  next_seq-names [] h sorted = (1, refl, tt)
  next_seq-names (a ∷ s) h sorted =
      let top = last_id a s in
      let e = last_name-names a s in
      (
        top + 1,
        rw (next_seq, e, take-name_of top, six.back top (All-last_id IsSix a s h)) refl,
        below top (a ∷ s) (last_id-max a s sorted),
      )

  -- In a directory whose segment files have the names of some numbers of at most six digits, in any
  -- order and among any other entries, the next number is found, and it is above all of them. This
  -- holds where names of six digits are in the order of their numbers and Atoi reads them back.
  pub next_index_segment_seq-above :
      (es : List DirEntry) (seqs : List ℕ)
      → segment_names es ≡ map (index_segment_name six_digits) seqs
      → All IsSix seqs
      → (m : ℕ) × (next_index_segment_seq atoi (entries es) ≡ ok m) × All (λ n. n < m) seqs
  unfolding next_index_segment_seq list_index_segments index_segment_name
  next_index_segment_seq-above es seqs named small =
      let (m, found, above) =
        next_seq-names (sort_ids seqs) (All-sort_ids IsSix seqs small) (sort_ids-IsSorted seqs) in
      (m, rw (named, sort_strings-names seqs small) found, All-sorted (λ n. n < m) seqs above)
