-- ===== src/Selector/Split.antt =====
-- splitLabelPairs of storage/query.go.
use marchimetrics.Base.{ℕ, ◌≡◌, refl, arith, List, [], ◌∷◌, ◌++◌, Bool, false, Bool-cases, inl, inr}
use marchimetrics.Base.Str.{Str}
use marchimetrics.Selector.{comma, next_state, splits, split_from, split_label_pairs}

-- The parts with commas between.
unfoldable pub join_parts : Str → List Str → Str
join_parts part [] = part
join_parts part (next ∷ parts) = part ++ (comma ∷ join_parts next parts)

abbrev pub joined : List Str → Str
joined [] = []
joined (part ∷ parts) = join_parts part parts

join_parts-cons :
    (c : ℕ) (part : Str) (parts : List Str)
    → join_parts (c ∷ part) parts ≡ c ∷ join_parts part parts
unfolding join_parts
join_parts-cons c part [] = refl
join_parts-cons c part (next ∷ parts) = refl

join_parts-split_from :
    (in_quote escaped : Bool) (s : Str)
    → join_parts (split_from in_quote escaped s).0 (split_from in_quote escaped s).1 ≡ s
unfolding split_from join_parts splits
join_parts-split_from q e [] = refl
join_parts-split_from q e (c ∷ s) =
    let state = next_state q e c in
    let ih = join_parts-split_from state.0 state.1 s in
    elim (Bool-cases (splits q e c)) [
      | inl h ↦
          let is_comma : c ≡ comma = ground (arith, h) in
          rw (split_from, h) (rw (ih, is_comma) refl)
      | inr h ↦ rw (split_from, h) (rw (join_parts-cons, ih) refl)
    ]

-- Whatever the string, the parts that splitLabelPairs returns give it back with commas between.
pub joined-split_label_pairs : (s : Str) → joined (split_label_pairs s) ≡ s
unfolding split_label_pairs
joined-split_label_pairs s = join_parts-split_from false false s
