-- ===== src/GoMap/Laws.antt =====
-- The laws of the map and set operations, as equations with no side condition.
use marchimetrics.Base.{
  Bool-cases, inl, inr, All, ℕ, ◌≡◌, refl, arith, true, List, [], ◌∷◌, none, some, ◌||◌,
  if◌then◌else◌, ◌≤◌,
}
use marchimetrics.Base.Str.{Key, ◌==◌, nat_key}
use marchimetrics.GoMap.{
  GoMap, lookup, lookup_or, insert, delete, contains, add, insert_id, sort_ids,
}

module _ {K : Type 0} {V : Type 0} ⦃e : Key K⦄ where
  pub lookup-insert :
      (key j : K) (new : V) (m : GoMap K V)
      → lookup j (insert key new m) ≡ (if key == j then some new else lookup j m)
  unfolding insert lookup
  lookup-insert k j v [] = refl
  lookup-insert k j v ((i, w) ∷ m) =
      ground (arith, e.same_iff k j, e.same_iff i k, e.same_iff i j, lookup-insert k j v m)

  pub lookup-delete :
      (k j : K) (m : GoMap K V) → lookup j (delete k m) ≡ (if k == j then none else lookup j m)
  unfolding lookup delete
  lookup-delete k j [] = ground arith
  lookup-delete k j ((i, w) ∷ m) =
      ground (arith, e.same_iff k j, e.same_iff i k, e.same_iff i j, lookup-delete k j m)

module _ {K : Type 0} ⦃e : Key K⦄ where
  pub eq_refl : (k : K) → (k == k) ≡ true
  eq_refl k = (e.same_iff k k).1 refl

  pub contains-add : (k j : K) (s : List K) → contains j (add k s) ≡ ((k == j) || contains j s)
  unfolding add contains
  contains-add k j s = ground (arith, e.same_iff k j)

-- Sorting keeps the members.
contains-insert_id :
    (a j : ℕ) (s : List ℕ) → contains j (insert_id a s) ≡ ((a == j) || contains j s)
unfolding contains insert_id
contains-insert_id a j [] = refl
contains-insert_id a j (b ∷ s) = ground (arith, contains-insert_id a j s)

pub contains-sort_ids : (j : ℕ) (s : List ℕ) → contains j (sort_ids s) ≡ contains j s
unfolding contains sort_ids
contains-sort_ids j [] = refl
contains-sort_ids j (a ∷ s) =
    ground (arith, contains-insert_id a j (sort_ids s), contains-sort_ids j s)

-- Ascending, neighbours first.
abbrev pub IsSorted : List ℕ → Type 0
IsSorted [] = Unit {0}
IsSorted (a ∷ []) = Unit {0}
IsSorted (a ∷ b ∷ s) = (a ≤ b) × IsSorted (b ∷ s)

insert_id-IsSorted : (a : ℕ) (s : List ℕ) → IsSorted s → IsSorted (insert_id a s)
unfolding insert_id
insert_id-IsSorted a [] h = tt
insert_id-IsSorted a (b ∷ []) h = ground arith
insert_id-IsSorted a (b ∷ c ∷ s) (hb, h) = ground (arith, insert_id-IsSorted a (c ∷ s) h)

pub sort_ids-IsSorted : (s : List ℕ) → IsSorted (sort_ids s)
unfolding sort_ids
sort_ids-IsSorted [] = tt
sort_ids-IsSorted (a ∷ s) = insert_id-IsSorted a (sort_ids s) (sort_ids-IsSorted s)

module _ {K : Type 0} {V : Type 0} ⦃e : Key K⦄ where
  -- What is put at a key goes with the key.
  pub delete-insert : (k : K) (v : V) (m : GoMap K V) → delete k (insert k v m) ≡ delete k m
  unfolding delete insert
  delete-insert k v [] = ground (arith, e.same_iff k k)
  delete-insert k v ((j, w) ∷ m) = ground (arith, e.same_iff k k, delete-insert k v m)

pub All-insert :
    {K : Type 0} {V : Type 0} ⦃q : Key K⦄ (P : K × V → Type 0) (k : K) (v : V) (m : GoMap K V)
    → P (k, v)
    → All P m
    → All P (insert k v m)
unfolding insert
All-insert P k v [] h hs = (h, tt)
All-insert P k v ((j, w) ∷ m) h (hw, hs) = elim (Bool-cases (j == k)) [
  | inl e ↦ rw e (h, hs)
  | inr e ↦ rw e (hw, All-insert P k v m h hs)
]

-- What holds of every entry holds of the value at a key, if it holds of the default.
pub All-lookup_or :
    {K : Type 0} {V : Type 0} ⦃q : Key K⦄ (P : V → Type 0) (d : V) (k : K) (m : GoMap K V)
    → P d
    → All (λ (e : K × V). P e.1) m
    → P (lookup_or d k m)
unfolding lookup_or lookup
All-lookup_or P d k [] hd h = hd
All-lookup_or P d k ((j, w) ∷ m) hd (hw, h) = elim (Bool-cases (j == k)) [
  | inl e ↦ rw (lookup_or, e) hw
  | inr e ↦ rw (lookup_or, e) (All-lookup_or P d k m hd h)
]
