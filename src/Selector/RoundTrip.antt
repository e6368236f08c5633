-- ===== src/Selector/RoundTrip.antt =====
-- ParseSelector of storage/query.go on the text of formatLabels of cmd/mmctl/main.go.
use marchimetrics.Base.{
  ◌≡◌, ◌≢◌, refl, sym, ap, ◌∙◌, List, [], ◌∷◌, ◌++◌, true, false, ◌⊎◌, inl, inr, append_assoc,
  append-nil, Option, some, ok, ◌>>=◌, All, map,
}
use marchimetrics.Base.Str.{Str}
use marchimetrics.Label.{Label, metric_name_label}
use marchimetrics.Registry.{Matcher}
use marchimetrics.Selector.{
  comma, double_quote, equals, open_brace, close_brace, starts_name, goes_on, all_go_on,
  is_metric_name, cut_at, next_state, splits, split_from, split_label_pairs, brace_inner,
  matcher_of, parse_part, parse_parts, name_matcher, parse_inside, some_matcher, parse_trimmed,
  parse_selector, metric_of, other_labels, format_pair, join_pairs, braced, format_labels,
}
use marchimetrics.Selector.Format.{
  first_visible, last_visible, Trims, is_body, IsQuoted, to_matcher, glue, split_from-body,
  split_from-name, cut_at-name, cut_at-no_brace, brace_inner-closed, last_visible-append,
  last_visible-name, first_visible-name, all_go_on-is_metric_name,
}

-- A label that a selector can name, with a value that `%q` prints as a literal.
abbrev pub IsPrintable : (Str → Str) → (Str → Option Str) → Label → Type 0
IsPrintable quote unquote l = (is_metric_name l.name ≡ true) × IsQuoted quote unquote l.value

-- The matcher of a metric name, if there is one.
abbrev pub named : Str → List Matcher
named [] = []
named (c ∷ name) = record { name = metric_name_label; value = c ∷ name } ∷ []

module _ (trim_space quote : Str → Str) (unquote : Str → Option Str)
    (trims : Trims trim_space) where
  trim_pair :
      (l : Label)
      → IsPrintable quote unquote l
      → trim_space (format_pair quote l) ≡ format_pair quote l
  unfolding format_pair
  trim_pair l (n, q) =
      trims.kept (format_pair quote l) (first_visible-name l.name (equals ∷ quote l.value) n) (
        rw (q.quoted, ← append_assoc l.name (equals ∷ double_quote ∷ q.body) (double_quote ∷ []))
          (last_visible-append (l.name ++ (equals ∷ double_quote ∷ q.body)) double_quote))

  trim_quoted : (v : Str) → IsQuoted quote unquote v → trim_space (quote v) ≡ quote v
  unfolding first_visible
  trim_quoted v q =
      trims.kept (quote v) (rw q.quoted refl)
        (rw q.quoted (last_visible-append (double_quote ∷ q.body) double_quote))

  split_from-literal :
      (name b s : Str)
      → all_go_on name ≡ true
      → is_body false b ≡ true
      → let pair = name ++ (equals ∷ double_quote ∷ (b ++ (double_quote ∷ []))) in
        split_from false false (pair ++ s) ≡ glue pair (split_from false false s)
  unfolding split_from glue next_state splits
  split_from-literal name b s go_on closed =
      let literal = equals ∷ double_quote ∷ (b ++ (double_quote ∷ [])) in
      rw (append_assoc name literal s, append_assoc b (double_quote ∷ []) s)
        (split_from-name name (equals ∷ double_quote ∷ (b ++ (double_quote ∷ s))) go_on
          ∙ rw
              (
                split_from-body false b s closed,
                append_assoc name literal (split_from false false s).0,
              )
              refl)

  parse_named :
      (name v : Str)
      → is_metric_name name ≡ true
      → IsQuoted quote unquote v
      → parse_part trim_space unquote (name ++ (equals ∷ quote v))
        ≡ ok (record { name = name; value = v } ∷ [])
  unfolding parse_part matcher_of is_metric_name first_visible
  parse_named [] v n q = absurd (cc)
  parse_named (c ∷ name) v n q =
      let go_on = all_go_on-is_metric_name (c ∷ name) n in
      let cut = cut_at-name equals (c ∷ name) (quote v) refl go_on in
      let kept =
        trims.kept (c ∷ name) (first_visible-name (c ∷ name) [] n)
          (last_visible-name (c ∷ name) go_on) in
      rw (parse_part, cut) (rw (kept, n) (rw (trim_quoted v q, q.back) (rw kept refl)))

  parse_part-pair :
      (l : Label)
      → IsPrintable quote unquote l
      → parse_part trim_space unquote (format_pair quote l) ≡ ok (to_matcher l ∷ [])
  unfolding parse_part matcher_of format_pair
  parse_part-pair l (n, q) = parse_named l.name l.value n q

  split_from-pair :
      (l : Label) (s : Str)
      → IsPrintable quote unquote l
      → split_from false false (format_pair quote l ++ s)
        ≡ glue (format_pair quote l) (split_from false false s)
  unfolding format_pair
  split_from-pair l s (n, q) =
      rw q.quoted (split_from-literal l.name q.body s (all_go_on-is_metric_name l.name n) q.closed)

  -- What splitLabelPairs leaves in front of the parts behind the first.
  spaced : List Label → List Str
  spaced [] = []
  spaced (l ∷ ls) = (32 ∷ format_pair quote l) ∷ spaced ls

  split_from-join_pairs :
      (l : Label) (ls : List Label)
      → All (IsPrintable quote unquote) (l ∷ ls)
      → split_from false false (join_pairs quote (l ∷ ls)) ≡ (format_pair quote l, spaced ls)
  unfolding join_pairs split_from glue next_state splits spaced
  split_from-join_pairs l [] (p, ps) =
      rw (← append-nil (format_pair quote l)) (split_from-pair l [] p)
  split_from-join_pairs l (m ∷ ls) (p, ps) =
      split_from-pair l (comma ∷ 32 ∷ join_pairs quote (m ∷ ls)) p
      ∙ rw (split_from-join_pairs m ls ps, append-nil (format_pair quote l)) refl

  parse_parts-spaced :
      (ls : List Label)
      → All (IsPrintable quote unquote) ls
      → parse_parts trim_space unquote (spaced ls) ≡ ok (map to_matcher ls)
  unfolding parse_parts spaced
  parse_parts-spaced [] h = refl
  parse_parts-spaced (l ∷ ls) (p, h) =
      rw (trims.leading, trim_pair l p) (rw (parse_part-pair l p, parse_parts-spaced ls h) refl)

  parse_inside-join_pairs :
      (l : Label) (ls : List Label)
      → All (IsPrintable quote unquote) (l ∷ ls)
      → parse_inside trim_space unquote (some (join_pairs quote (l ∷ ls)))
        ≡ ok (map to_matcher (l ∷ ls))
  unfolding parse_inside parse_parts split_label_pairs
  parse_inside-join_pairs l ls (p, h) =
      rw (split_from-join_pairs l ls (p, h))
        (rw (trim_pair l p, parse_part-pair l p, parse_parts-spaced ls h) refl)

  name_matcher-named :
      (name : Str)
      → (name ≡ []) ⊎ (is_metric_name name ≡ true)
      → name_matcher name ≡ ok (named name)
  unfolding name_matcher
  name_matcher-named [] h = refl
  name_matcher-named (c ∷ name) (inl e) = absurd (cc)
  name_matcher-named (c ∷ name) (inr n) = rw n refl

  trim_name : (name : Str) → (name ≡ []) ⊎ (is_metric_name name ≡ true) → trim_space name ≡ name
  unfolding first_visible last_visible all_go_on
  trim_name [] h = trims.kept [] refl refl
  trim_name (c ∷ name) (inl e) = absurd (cc)
  trim_name (c ∷ name) (inr n) =
      trims.kept (c ∷ name) (first_visible-name (c ∷ name) [] n)
        (last_visible-name (c ∷ name) (all_go_on-is_metric_name (c ∷ name) n))

  some_matcher-append :
      (ms : List Matcher) (l : Label) (ls : List Label)
      → some_matcher (ms ++ map to_matcher (l ∷ ls)) ≡ ok (ms ++ map to_matcher (l ∷ ls))
  unfolding some_matcher
  some_matcher-append [] l ls = refl
  some_matcher-append (m ∷ ms) l ls = refl

  go_on-named : (name : Str) → (name ≡ []) ⊎ (is_metric_name name ≡ true) → all_go_on name ≡ true
  unfolding all_go_on
  go_on-named [] h = refl
  go_on-named (c ∷ name) (inl e) = absurd (cc)
  go_on-named (c ∷ name) (inr n) = all_go_on-is_metric_name (c ∷ name) n

  braced_visible :
      (name s : Str)
      → (name ≡ []) ⊎ (is_metric_name name ≡ true)
      → first_visible (name ++ (open_brace ∷ s)) ≡ true
  unfolding first_visible
  braced_visible [] s h = refl
  braced_visible (c ∷ name) s (inl e) = absurd (cc)
  braced_visible (c ∷ name) s (inr n) = first_visible-name (c ∷ name) (open_brace ∷ s) n

  -- The query is not empty, so its braces are looked for.
  parse_cut :
      (before inner after : Str)
      → cut_at open_brace (before ++ (open_brace ∷ after)) ≡ some (before, after)
      → parse_trimmed trim_space unquote (before ++ (open_brace ∷ after)) ≡ (do
        ms ← name_matcher (trim_space before)
        pairs ← parse_inside trim_space unquote (brace_inner after)
        some_matcher (ms ++ pairs))
  unfolding parse_trimmed
  parse_cut [] inner after cut = rw (parse_trimmed, cut) refl
  parse_cut (c ∷ before) inner after cut = rw (parse_trimmed, cut) refl

  parse_trimmed-braced :
      (name : Str) (l : Label) (ls : List Label)
      → (name ≡ []) ⊎ (is_metric_name name ≡ true)
      → All (IsPrintable quote unquote) (l ∷ ls)
      → parse_trimmed trim_space unquote (braced quote name (l ∷ ls))
        ≡ ok (named name ++ map to_matcher (l ∷ ls))
  unfolding parse_trimmed goes_on starts_name
  parse_trimmed-braced name l ls n h =
      let inner = join_pairs quote (l ∷ ls) in
      let cut =
        cut_at-name open_brace name (inner ++ (close_brace ∷ [])) refl (go_on-named name n) in
      parse_cut name inner (inner ++ (close_brace ∷ [])) cut
      ∙ rw
          (
            trim_name name n,
            name_matcher-named name n,
            brace_inner-closed inner,
            parse_inside-join_pairs l ls h,
          )
          (some_matcher-append (named name) l ls)

  trim_braced :
      (name : Str) (ls : List Label)
      → (name ≡ []) ⊎ (is_metric_name name ≡ true)
      → trim_space (braced quote name ls) ≡ braced quote name ls
  trim_braced name [] n = trim_name name n
  trim_braced name (l ∷ ls) n =
      let inner = join_pairs quote (l ∷ ls) in
      trims.kept (braced quote name (l ∷ ls)) (braced_visible name (inner ++ (close_brace ∷ [])) n)
        (rw (← append_assoc name (open_brace ∷ inner) (close_brace ∷ []))
          (last_visible-append (name ++ (open_brace ∷ inner)) close_brace))

  parse_trimmed-name :
      (name : Str)
      → is_metric_name name ≡ true
      → parse_trimmed trim_space unquote name ≡ ok (named name)
  unfolding parse_trimmed is_metric_name
  parse_trimmed-name [] n = absurd (cc)
  parse_trimmed-name (c ∷ name) n =
      rw (parse_trimmed, cut_at-no_brace (c ∷ name) (all_go_on-is_metric_name (c ∷ name) n))
        (name_matcher-named (c ∷ name) (inr n))

  parse_trimmed-either :
      (name : Str) (ls : List Label)
      → (is_metric_name name ≡ true) ⊎ ((name ≡ []) × (ls ≢ []))
      → All (IsPrintable quote unquote) ls
      → parse_trimmed trim_space unquote (braced quote name ls)
        ≡ ok (named name ++ map to_matcher ls)
  parse_trimmed-either name [] (inl n) h =
      parse_trimmed-name name n ∙ sym (ap (λ ms. ok ms) (append-nil (named name)))
  parse_trimmed-either name [] (inr (e, some_label)) h = absurd (some_label refl)
  parse_trimmed-either name (l ∷ ls) (inl n) h = parse_trimmed-braced name l ls (inr n) h
  parse_trimmed-either name (l ∷ ls) (inr (e, some_label)) h =
      parse_trimmed-braced name l ls (inl e) h

  -- ParseSelector reads what formatLabels prints of labels: their metric name, if they have one, and
  -- the other labels in their order. This holds where the metric name is one, or is missing and there
  -- is another label, the other labels have names that a selector can write, `%q` prints each of
  -- their values as a literal that strconv.Unquote reads back, and TrimSpace trims.
  pub parse_selector-format_labels :
      (labels : List Label)
      → (is_metric_name (metric_of labels []) ≡ true)
        ⊎ ((metric_of labels [] ≡ []) × (other_labels labels ≢ []))
      → All (IsPrintable quote unquote) (other_labels labels)
      → parse_selector trim_space unquote (format_labels quote labels)
        ≡ ok (named (metric_of labels []) ++ map to_matcher (other_labels labels))
  unfolding parse_selector format_labels
  parse_selector-format_labels labels n h =
      let name = metric_of labels [] in
      let trimmed =
        trim_braced name (other_labels labels) (elim n [ inl m ↦ inr m | inr (e, more) ↦ inl e ]) in
      rw trimmed (parse_trimmed-either name (other_labels labels) n h)
