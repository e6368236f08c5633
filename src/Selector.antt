-- ===== src/Selector.antt =====
-- ParseSelector and splitLabelPairs of storage/query.go, and formatLabels of cmd/mmctl/main.go, which
-- prints the labels that ParseSelector reads.
pub mod Split
pub mod Format
pub mod RoundTrip
pub mod Names
pub mod Parts
use marchimetrics.Base.{
  ℕ, List, [], ◌∷◌, ◌++◌, Bool, true, false, not, ◌&&◌, ◌||◌, Option, none, some, Result, ok, err,
  ◌>>=◌, bad_selector, bad_name, bad_matcher, bad_value, if◌then◌else◌, leb, ◌==◌,
}
use marchimetrics.Base.Str.{Str, str_eq}
use marchimetrics.Label.{Label, metric_name_label}
use marchimetrics.Registry.{Matcher}

abbrev pub double_quote : ℕ
double_quote = 34

abbrev pub comma : ℕ
comma = 44

abbrev pub equals : ℕ
equals = 61

abbrev pub backslash : ℕ
backslash = 92

abbrev pub open_brace : ℕ
open_brace = 123

abbrev pub close_brace : ℕ
close_brace = 125

abbrev pub between : ℕ → ℕ → ℕ → Bool
between lo hi c = leb lo c && leb c hi

-- metricNameRE: `^[a-zA-Z_:][a-zA-Z0-9_:]*$`.
unfoldable pub starts_name : ℕ → Bool
starts_name c = between 97 122 c || between 65 90 c || (c == 95) || (c == 58)

unfoldable pub goes_on : ℕ → Bool
unfolding starts_name
goes_on c = starts_name c || between 48 57 c

unfoldable pub all_go_on : Str → Bool
unfolding goes_on
all_go_on [] = true
all_go_on (c ∷ s) = goes_on c && all_go_on s

unfoldable pub is_metric_name : Str → Bool
unfolding starts_name all_go_on
is_metric_name [] = false
is_metric_name (c ∷ s) = starts_name c && all_go_on s

-- strings.IndexByte at `i`, as the strings `s[:i]` and `s[i+1:]`.
unfoldable pub cut_at : ℕ → Str → Option (Str × Str)
cut_at b [] = none
cut_at b (c ∷ s) =
    let rest = cut_at b s in
    if c == b
    then some ([], s)
    else elim rest [ none ↦ none | some (before, after) ↦ some (c ∷ before, after) ]

-- The switch of splitLabelPairs: the new inQuote and escaped.
unfoldable pub next_state : Bool → Bool → ℕ → Bool × Bool
next_state in_quote true c = (in_quote, false)
next_state true false c =
    if c == backslash
    then (true, true)
    else if c == double_quote
    then (false, false)
    else (true, false)
next_state false false c = if c == double_quote then (true, false) else (false, false)

-- Its last case.
unfoldable pub splits : Bool → Bool → ℕ → Bool
splits in_quote escaped c = not escaped && (not in_quote && (c == comma))

-- Its loop: the part that goes on here, and the parts behind it.
unfoldable pub split_from : Bool → Bool → Str → Str × List Str
unfolding next_state splits
split_from in_quote escaped [] = ([], [])
split_from in_quote escaped (c ∷ s) =
    let state = next_state in_quote escaped c in
    let (part, parts) = split_from state.0 state.1 s in
    if splits in_quote escaped c then ([], part ∷ parts) else (c ∷ part, parts)

unfoldable pub split_label_pairs : Str → List Str
unfolding split_from
split_label_pairs s = let (part, parts) = split_from false false s in part ∷ parts

-- `rest[1:len(rest)-1]`, if the last byte is `}`; the argument is what stands behind the `{`.
unfoldable pub brace_inner : Str → Option Str
brace_inner [] = none
brace_inner (c ∷ []) = if c == close_brace then some [] else none
brace_inner (c ∷ d ∷ s) = elim (brace_inner (d ∷ s)) [ none ↦ none | some inner ↦ some (c ∷ inner) ]

-- What stands before the brace.
unfoldable pub name_matcher : Str → Result (List Matcher)
name_matcher [] = ok []
name_matcher (c ∷ name) =
    if is_metric_name (c ∷ name)
    then ok (record { name = metric_name_label; value = c ∷ name } ∷ [])
    else err bad_name

-- No matcher at all is an error.
unfoldable pub some_matcher : List Matcher → Result (List Matcher)
some_matcher [] = err bad_selector
some_matcher (m ∷ ms) = ok (m ∷ ms)

-- `trim_space` is strings.TrimSpace, `unquote` is strconv.Unquote.
module _ (trim_space : Str → Str) (unquote : Str → Option Str) where
  -- The matcher of the part's name and of the text behind its equals sign.
  unfoldable pub matcher_of : Str → Str → Result (List Matcher)
  matcher_of [] after = err bad_matcher
  matcher_of (c ∷ before) after =
      let name = trim_space (c ∷ before) in
      if not (is_metric_name name) then err bad_name else elim (unquote (trim_space after)) [
        | none ↦ err bad_value
        | some value ↦ ok (record { name = name; value = value } ∷ [])
      ]

  -- One round of ParseSelector's loop; a blank part gives no matcher.
  unfoldable pub parse_part : Str → Result (List Matcher)
  unfolding matcher_of
  parse_part [] = ok []
  parse_part (c ∷ part) = elim (cut_at equals (c ∷ part)) [
    | none ↦ err bad_matcher
    | some (before, after) ↦ matcher_of before after
  ]

  unfoldable pub parse_parts : List Str → Result (List Matcher)
  unfolding parse_part
  parse_parts [] = ok []
  parse_parts (part ∷ parts) = do
    first ← parse_part (trim_space part)
    rest ← parse_parts parts
    ok (first ++ rest)

  unfoldable pub parse_inside : Option Str → Result (List Matcher)
  unfolding parse_parts
  parse_inside none = err bad_selector
  parse_inside (some inner) = parse_parts (split_label_pairs inner)

  -- ParseSelector on a trimmed query.
  unfoldable pub parse_trimmed : Str → Result (List Matcher)
  unfolding name_matcher parse_inside some_matcher
  parse_trimmed [] = err bad_selector
  parse_trimmed (c ∷ q) = elim (cut_at open_brace (c ∷ q)) [
    | none ↦ name_matcher (c ∷ q)
    | some (before, after) ↦ do
      named ← name_matcher (trim_space before)
      pairs ← parse_inside (brace_inner after)
      some_matcher (named ++ pairs)
  ]

  unfoldable pub parse_selector : Str → Result (List Matcher)
  unfolding parse_trimmed
  parse_selector q = parse_trimmed (trim_space q)

-- formatLabels: the value of the last metric name label, or nothing.
unfoldable pub metric_of : List Label → Str → Str
metric_of [] name = name
metric_of (l ∷ ls) name = metric_of ls (if str_eq l.name metric_name_label then l.value else name)

-- The labels of `rest`.
unfoldable pub other_labels : List Label → List Label
other_labels [] = []
other_labels (l ∷ ls) =
    let rest = other_labels ls in if str_eq l.name metric_name_label then rest else l ∷ rest

-- `quote` is the text of `%q`.
module _ (quote : Str → Str) where
  unfoldable pub format_pair : Label → Str
  format_pair l = l.name ++ (equals ∷ quote l.value)

  -- `strings.Join(rest, ", ")`
  unfoldable pub join_pairs : List Label → Str
  unfolding format_pair
  join_pairs [] = []
  join_pairs (l ∷ []) = format_pair l
  join_pairs (l ∷ m ∷ ls) = format_pair l ++ (comma ∷ 32 ∷ join_pairs (m ∷ ls))

  abbrev pub braced : Str → List Label → Str
  braced name [] = name
  braced name (l ∷ ls) = name ++ (open_brace ∷ (join_pairs (l ∷ ls) ++ (close_brace ∷ [])))

  unfoldable pub format_labels : List Label → Str
  unfolding metric_of other_labels join_pairs
  format_labels labels = braced (metric_of labels []) (other_labels labels)
