-- ===== src/Label/Sort.antt =====
-- sortedLabels of storage/series.go.
use marchimetrics.Base.{
  ◌≡◌, refl, ap, ◌∙◌, arith, true, false, Bool-cases, inl, inr, List, [], ◌∷◌, ◌++◌,
}
use marchimetrics.Base.Str.{Str, str_eq, str_lt, str_eq_iff}
use marchimetrics.Label.{Label, label_lt, insert_label, sorted_labels, join_labels, canonical_key}

str_lt_asym : (s t : Str) → str_lt s t ≡ true → str_lt t s ≡ false
unfolding str_lt
str_lt_asym [] [] h = cc
str_lt_asym [] (b ∷ t) h = refl
str_lt_asym (a ∷ s) [] h = cc
str_lt_asym (a ∷ s) (b ∷ t) h = ground (arith, str_lt_asym s t)

str_lt_trans : (s t u : Str) → str_lt s t ≡ true → str_lt t u ≡ true → str_lt s u ≡ true
unfolding str_lt
str_lt_trans s t [] h k = cc
str_lt_trans s [] (c ∷ u) h k = cc
str_lt_trans [] (b ∷ t) (c ∷ u) h k = refl
str_lt_trans (a ∷ s) (b ∷ t) (c ∷ u) h k = ground (arith, str_lt_trans s t u)

-- Strings that neither precedes are equal.
str_lt_connex : (s t : Str) → str_lt s t ≡ false → str_lt t s ≡ false → str_eq s t ≡ true
unfolding str_lt str_eq
str_lt_connex [] [] h k = refl
str_lt_connex [] (b ∷ t) h k = cc
str_lt_connex (a ∷ s) [] h k = cc
str_lt_connex (a ∷ s) (b ∷ t) h k = ground (arith, str_lt_connex s t)

label_lt_asym : (a b : Label) → label_lt a b ≡ true → label_lt b a ≡ false
unfolding label_lt
label_lt_asym a b h = ground (
  arith,
  str_lt_asym a.name b.name,
  str_lt_asym a.value b.value,
  str_eq_iff a.name b.name,
  str_eq_iff b.name a.name,
)

label_lt_trans : (a b c : Label) → label_lt a b ≡ true → label_lt b c ≡ true → label_lt a c ≡ true
unfolding label_lt
label_lt_trans a b c h k = ground (
  arith,
  str_lt_trans a.name b.name c.name,
  str_lt_trans a.value b.value c.value,
  str_lt_asym a.name b.name,
  str_eq_iff a.name b.name,
  str_eq_iff b.name c.name,
  str_eq_iff a.name c.name,
)

pub Label-eq : (a b : Label) → a.name ≡ b.name → a.value ≡ b.value → a ≡ b
Label-eq a b p q = λ i. record { name = p i; value = q i }

-- Labels that neither precedes are equal.
label_lt_connex : (a b : Label) → label_lt a b ≡ false → label_lt b a ≡ false → a ≡ b
unfolding label_lt
label_lt_connex a b h k =
    let n : a.name ≡ b.name =
      ground
        (arith, str_lt_connex a.name b.name, str_eq_iff a.name b.name, str_eq_iff b.name a.name) in
    let v : a.value ≡ b.value = ground (
      arith,
      n,
      str_lt_connex a.value b.value,
      str_eq_iff a.name b.name,
      str_eq_iff b.name a.name,
      str_eq_iff a.value b.value,
    ) in
    Label-eq a b n v

-- No label stands behind one that it precedes.
abbrev pub Ordered : List Label → Type 0
Ordered [] = Unit {0}
Ordered (a ∷ []) = Unit {0}
Ordered (a ∷ b ∷ ls) = (label_lt b a ≡ false) × Ordered (b ∷ ls)

insert_label-Ordered : (l : Label) (ls : List Label) → Ordered ls → Ordered (insert_label l ls)
unfolding insert_label
insert_label-Ordered l [] h = tt
insert_label-Ordered l (a ∷ []) h = ground (arith, label_lt_asym a l)
insert_label-Ordered l (a ∷ b ∷ ls) (hb, h) =
    ground (arith, label_lt_asym a l, insert_label-Ordered l (b ∷ ls) h)

pub sorted_labels-Ordered : (ls : List Label) → Ordered (sorted_labels ls)
unfolding sorted_labels
sorted_labels-Ordered [] = tt
sorted_labels-Ordered (l ∷ ls) =
    insert_label-Ordered l (sorted_labels ls) (sorted_labels-Ordered ls)

sorted_labels_fixed : (ls : List Label) → Ordered ls → sorted_labels ls ≡ ls
unfolding sorted_labels insert_label
sorted_labels_fixed [] h = refl
sorted_labels_fixed (a ∷ []) h = refl
sorted_labels_fixed (a ∷ b ∷ ls) (hb, h) =
    ap (insert_label a) (sorted_labels_fixed (b ∷ ls) h) ∙ rw hb

-- Sorting again changes nothing.
pub sorted_labels_twice : (ls : List Label) → sorted_labels (sorted_labels ls) ≡ sorted_labels ls
sorted_labels_twice ls = sorted_labels_fixed (sorted_labels ls) (sorted_labels-Ordered ls)

pub canonical_key-sorted_labels :
    (ls : List Label) → canonical_key (sorted_labels ls) ≡ canonical_key ls
unfolding canonical_key
canonical_key-sorted_labels ls = ap join_labels (sorted_labels_twice ls)

-- Two labels go in in either order.
insert_label_comm :
    (a b : Label) (ls : List Label)
    → insert_label a (insert_label b ls) ≡ insert_label b (insert_label a ls)
unfolding insert_label
insert_label_comm a b [] = elim (Bool-cases (label_lt a b)) [
  | inl ab ↦ rw (ab, label_lt_asym a b ab)
  | inr ab ↦ elim (Bool-cases (label_lt b a)) [
    | inl ba ↦ rw (ab, ba)
    | inr ba ↦ rw (label_lt_connex a b ab ba)
  ]
]
insert_label_comm a b (c ∷ ls) = ground (
  arith,
  insert_label_comm a b ls,
  label_lt_trans c a b,
  label_lt_trans c b a,
  label_lt_asym a b,
  label_lt_connex a b,
)

-- The order in which the labels are given does not matter.
pub sorted_labels_swap :
    (xs : List Label) (a b : Label) (ys : List Label)
    → sorted_labels (xs ++ (a ∷ b ∷ ys)) ≡ sorted_labels (xs ++ (b ∷ a ∷ ys))
unfolding sorted_labels
sorted_labels_swap [] a b ys = insert_label_comm a b (sorted_labels ys)
sorted_labels_swap (x ∷ xs) a b ys = ap (insert_label x) (sorted_labels_swap xs a b ys)
