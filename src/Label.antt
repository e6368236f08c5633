-- ===== src/Label.antt =====
-- Label of storage/series.go, with its order and its keys.
pub mod Sort
pub mod Key
use marchimetrics.Base.{ℕ, List, [], ◌∷◌, ◌++◌, Bool, not, if◌then◌else◌}
use marchimetrics.Base.Str.{Str, str_eq, str_lt}

pub record Label : Type 0 where
  pub name : Str
  pub value : Str

-- MetricNameLabel, "__name__".
abbrev pub metric_name_label : Str
metric_name_label = 95 ∷ 95 ∷ 110 ∷ 97 ∷ 109 ∷ 101 ∷ 95 ∷ 95 ∷ []

abbrev pub name_value_sep : ℕ
name_value_sep = 1

abbrev pub label_pair_sep : ℕ
label_pair_sep = 2

-- The order that sortedLabels hands to sort.Slice.
unfoldable pub label_lt : Label → Label → Bool
unfolding str_eq str_lt
label_lt a b = if not (str_eq a.name b.name) then str_lt a.name b.name else str_lt a.value b.value

-- sort.Slice on labels. The order is total, and labels that it does not tell apart are equal, so
-- any sorting algorithm gives this list.
insert_label : Label → List Label → List Label
insert_label l [] = l ∷ []
insert_label l (x ∷ xs) = if label_lt x l then x ∷ insert_label l xs else l ∷ x ∷ xs

unfoldable pub sorted_labels : List Label → List Label
unfolding insert_label label_lt
sorted_labels [] = []
sorted_labels (l ∷ ls) = insert_label l (sorted_labels ls)

unfoldable pub label_key : Str → Str → Str
label_key name value = name ++ (name_value_sep ∷ value)

-- The loop of CanonicalKey over the sorted labels.
join_labels : List Label → Str
join_labels [] = []
join_labels (l ∷ ls) = l.name ++ (name_value_sep ∷ (l.value ++ (label_pair_sep ∷ join_labels ls)))

unfoldable pub canonical_key : List Label → Str
unfolding sorted_labels join_labels
canonical_key labels = join_labels (sorted_labels labels)
