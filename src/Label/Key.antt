-- ===== src/Label/Key.antt =====
-- CanonicalKey of storage/series.go and its separators.
use marchimetrics.Base.{
  ℕ, ◌≡◌, ◌≢◌, ◌↔◌, refl, sym, ap, Bool-cases, inl, inr, List, [], ◌∷◌, ◌++◌, All,
}
use marchimetrics.Base.Str.{Str}
use marchimetrics.Label.{
  Label, label_lt, insert_label, sorted_labels, join_labels, canonical_key, name_value_sep,
  label_pair_sep,
}
use mathlib.Core.Path.{ap₂}
use marchimetrics.Label.Sort.{Label-eq}

-- A name without the byte that ends it, and a value without the byte that ends it.
abbrev pub IsFree : ℕ → Str → Type 0
IsFree sep s = All (λ c. c ≢ sep) s

abbrev pub Separable : Label → Type 0
Separable l = IsFree name_value_sep l.name × IsFree label_pair_sep l.value

-- Text up to the first separator is determined.
split_at_sep :
    (sep : ℕ) (s t x y : Str)
    → IsFree sep s
    → IsFree sep t
    → s ++ (sep ∷ x) ≡ t ++ (sep ∷ y)
    → (s ≡ t) × (x ≡ y)
split_at_sep sep [] [] x y hs ht e = (refl, cc)
split_at_sep sep [] (b ∷ t) x y hs (hb, ht) e = absurd (hb (cc))
split_at_sep sep (a ∷ s) [] x y (ha, hs) ht e = absurd (ha (cc))
split_at_sep sep (a ∷ s) (b ∷ t) x y (ha, hs) (hb, ht) e =
    let (p, q) = split_at_sep sep s t x y hs ht (cc) in
    let h : a ≡ b = cc in (ap₂ (λ (c : ℕ) (r : Str). c ∷ r) h p, q)

join_labels_nonempty : (l : Label) (ls : List Label) → join_labels (l ∷ ls) ≢ []
unfolding join_labels
join_labels_nonempty l ls e = behind l.name _ e
  where
    behind : (s rest : Str) → s ++ (name_value_sep ∷ rest) ≡ [] → ⊥
    behind [] rest e = cc
    behind (c ∷ s) rest e = cc

join_labels-injective :
    (ls ms : List Label)
    → All Separable ls
    → All Separable ms
    → join_labels ls ≡ join_labels ms
    → ls ≡ ms
unfolding join_labels
join_labels-injective [] [] hl hm e = refl
join_labels-injective [] (m ∷ ms) hl hm e = absurd (join_labels_nonempty m ms (sym e))
join_labels-injective (l ∷ ls) [] hl hm e = absurd (join_labels_nonempty l ls e)
join_labels-injective (l ∷ ls) (m ∷ ms) ((ln, lv), hl) ((mn, mv), hm) e =
    let (n, e1) = split_at_sep name_value_sep l.name m.name _ _ ln mn e in
    let (v, e2) = split_at_sep label_pair_sep l.value m.value _ _ lv mv e1 in
    ap₂ (λ (x : Label) (r : List Label). x ∷ r) (Label-eq l m n v)
      (join_labels-injective ls ms hl hm e2)

insert_label-Separable :
    (l : Label) (ls : List Label)
    → Separable l
    → All Separable ls
    → All Separable (insert_label l ls)
unfolding insert_label
insert_label-Separable l [] hl h = (hl, tt)
insert_label-Separable l (x ∷ ls) hl (hx, h) = elim (Bool-cases (label_lt x l)) [
  | inl e ↦ rw e (hx, insert_label-Separable l ls hl h)
  | inr e ↦ rw e (hl, (hx, h))
]

sorted_labels-Separable : (ls : List Label) → All Separable ls → All Separable (sorted_labels ls)
unfolding sorted_labels
sorted_labels-Separable [] h = tt
sorted_labels-Separable (l ∷ ls) (hl, h) =
    insert_label-Separable l (sorted_labels ls) hl (sorted_labels-Separable ls h)

-- Where no name holds the byte that CanonicalKey puts behind a name, and no value the one it puts
-- behind a value, two label sets have the same key exactly when they are the same when sorted.
pub canonical_key-eq :
    (ls ms : List Label)
    → All Separable ls
    → All Separable ms
    → (canonical_key ls ≡ canonical_key ms) ↔ (sorted_labels ls ≡ sorted_labels ms)
unfolding canonical_key
canonical_key-eq ls ms hl hm = (
  λ e.
      join_labels-injective (sorted_labels ls) (sorted_labels ms) (sorted_labels-Separable ls hl)
        (sorted_labels-Separable ms hm) e,
  λ e. ap join_labels e,
)
