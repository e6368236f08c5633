-- ===== src/Tests/Selecting.antt =====
-- The parser of selectors at concrete inputs.
use marchimetrics.Base.{
  ℕ, ◌≡◌, ◌≢◌, refl, arith, List, [], ◌∷◌, ◌++◌, true, inl, Option, none, some, ok, ◌==◌,
  if◌then◌else◌, All, map,
}
use marchimetrics.Base.Str.{Str, str_eq}
use marchimetrics.Label.{Label, metric_name_label}
use marchimetrics.Registry.{Matcher}
use marchimetrics.Selector.{
  starts_name, goes_on, all_go_on, is_metric_name, metric_of, other_labels, format_labels,
  parse_selector, parse_trimmed, cut_at, name_matcher, split_label_pairs, double_quote,
}
use marchimetrics.Selector.Format.{first_visible, last_visible, Trims, is_body, to_matcher}
use marchimetrics.Selector.RoundTrip.{named, parse_selector-format_labels}
use marchimetrics.Selector.Split.{joined}
use marchimetrics.Selector.Parts.{Piece, plain, quoted, text, split_label_pairs-joined}
use marchimetrics.Selector.Names.{HasName, parse_selector-HasName}

-- Spaces off both ends.
drop_front : Str → Str
drop_front [] = []
drop_front (c ∷ s) = if c == 32 then drop_front s else c ∷ s

abbrev cons_kept : ℕ → Str → Str
cons_kept c [] = if c == 32 then [] else c ∷ []
cons_kept c (d ∷ s) = c ∷ d ∷ s

drop_back : Str → Str
drop_back [] = []
drop_back (c ∷ s) = cons_kept c (drop_back s)

trim : Str → Str
unfolding drop_front drop_back
trim s = drop_back (drop_front s)

drop_back-kept : (s : Str) → last_visible s ≡ true → drop_back s ≡ s
unfolding drop_back last_visible
drop_back-kept [] h = refl
drop_back-kept (c ∷ []) h = ground (arith, h)
drop_back-kept (c ∷ d ∷ s) h = rw (drop_back-kept (d ∷ s) h) refl

drop_front-kept : (s : Str) → first_visible s ≡ true → drop_front s ≡ s
unfolding drop_front first_visible
drop_front-kept [] h = refl
drop_front-kept (c ∷ s) h = ground (arith, h)

trim-Trims : Trims trim
unfolding trim drop_front
trim-Trims = record {
  leading = λ s. refl;
  kept = λ s first last. rw (drop_front-kept s first) (drop_back-kept s last);
}

-- Quotes around the value and off it, for values without quotes and backslashes.
abbrev quote : Str → Str
quote v = double_quote ∷ (v ++ (double_quote ∷ []))

drop_last : Str → Str
drop_last [] = []
drop_last (c ∷ []) = []
drop_last (c ∷ d ∷ s) = c ∷ drop_last (d ∷ s)

unquote : Str → Option Str
unfolding drop_last
unquote [] = none
unquote (c ∷ s) = some (drop_last s)

-- up{job="a, b"}
abbrev up_job : List Label
up_job =
    record { name = metric_name_label; value = 117 ∷ 112 ∷ [] }
    ∷ record { name = 106 ∷ 111 ∷ 98 ∷ []; value = 97 ∷ 44 ∷ 32 ∷ 98 ∷ [] }
    ∷ []

parse_selector-format_labels_example :
    parse_selector trim unquote (format_labels quote up_job)
    ≡ ok (named (metric_of up_job []) ++ map to_matcher (other_labels up_job))
unfolding is_metric_name starts_name goes_on all_go_on metric_of other_labels str_eq is_body unquote
    drop_last
parse_selector-format_labels_example =
    parse_selector-format_labels trim quote unquote trim-Trims up_job (inl refl) (
      (refl, record { body = 97 ∷ 44 ∷ 32 ∷ 98 ∷ []; closed = refl; quoted = refl; back = refl }),
      tt,
    )

abbrev only_up : List Matcher
only_up = record { name = metric_name_label; value = 117 ∷ 112 ∷ [] } ∷ []

-- The query ` up `.
parse_selector-HasName_example : (only_up ≢ []) × All HasName only_up
unfolding parse_selector parse_trimmed cut_at name_matcher is_metric_name starts_name goes_on
    all_go_on trim drop_front drop_back
parse_selector-HasName_example =
    parse_selector-HasName trim unquote (32 ∷ 117 ∷ 112 ∷ 32 ∷ []) only_up refl

-- The parts `a="x,\""` and `b`, and an open quote.
abbrev first_part : List Piece
first_part = plain 97 ∷ plain 61 ∷ quoted (120 ∷ 44 ∷ 92 ∷ 34 ∷ []) ∷ []

abbrev open_quote : Str
open_quote = 97 ∷ 44 ∷ 34 ∷ 44 ∷ []

split_label_pairs-joined_example :
    (split_label_pairs (joined (map text (first_part ∷ (plain 98 ∷ []) ∷ [])))
      ≡ map text (first_part ∷ (plain 98 ∷ []) ∷ []))
    × (joined (split_label_pairs open_quote) ≡ open_quote)
unfolding is_body
split_label_pairs-joined_example =
    split_label_pairs-joined first_part ((plain 98 ∷ []) ∷ []) open_quote
      ((refl, (refl, (refl, tt))), ((refl, tt), tt))
