-- ===== src/GoMap/Sums.antt =====
-- Sums over the values of a map.
use marchimetrics.Base.{ℕ, ◌+◌, ◌≤◌, ◌≡◌, arith, Bool-cases, inl, inr, [], ◌∷◌, Option, none, some}
use marchimetrics.Base.Str.{Key, ◌==◌}
use marchimetrics.GoMap.{GoMap, lookup, lookup_or, insert}

abbrev pub value_of : {V : Type 0} → (V → ℕ) → Option V → ℕ
value_of f none = 0
value_of f (some v) = f v

module _ {K : Type 0} {V : Type 0} (f : V → ℕ) where
  unfoldable pub sum_of : GoMap K V → ℕ
  sum_of [] = 0
  sum_of ((k, v) ∷ m) = f v + sum_of m

  -- A new value comes in place of the old one.
  pub sum_of-insert :
      ⦃e : Key K⦄ (k : K) (v : V) (m : GoMap K V)
      → sum_of (insert k v m) + value_of f (lookup k m) ≡ sum_of m + f v
  unfolding sum_of insert lookup
  sum_of-insert k v [] = omega arith
  sum_of-insert k v ((j, u) ∷ m) = elim (Bool-cases (j == k)) [
    | inl h ↦ rw h (omega arith)
    | inr h ↦ rw h (omega (arith, sum_of-insert k v m))
  ]

  pub sum_of-insert_or :
      ⦃e : Key K⦄ (d : V) (k : K) (v : V) (m : GoMap K V)
      → f d ≡ 0
      → sum_of (insert k v m) + f (lookup_or d k m) ≡ sum_of m + f v
  unfolding sum_of insert lookup_or lookup
  sum_of-insert_or d k v [] h = omega (arith, h)
  sum_of-insert_or d k v ((j, u) ∷ m) h = elim (Bool-cases (j == k)) [
    | inl e ↦ rw (lookup_or, e) (omega arith)
    | inr e ↦ rw (lookup_or, e) (omega (arith, sum_of-insert_or d k v m h))
  ]

  pub value_of-le : ⦃e : Key K⦄ (k : K) (m : GoMap K V) → value_of f (lookup k m) ≤ sum_of m
  unfolding sum_of lookup
  value_of-le k [] = omega arith
  value_of-le k ((j, u) ∷ m) = elim (Bool-cases (j == k)) [
    | inl h ↦ rw h (omega arith)
    | inr h ↦ rw h (omega (arith, value_of-le k m))
  ]
