-- ===== src/Selector/Names.antt =====
-- The matchers that ParseSelector of storage/query.go returns.
use marchimetrics.Base.{
  ◌≡◌, ◌≢◌, refl, List, [], ◌∷◌, ◌++◌, true, Bool-cases, inl, inr, Option, none, some, Option-cases,
  Result, ok, err, ◌>>=◌, All,
}
use marchimetrics.Base.Str.{Str}
use marchimetrics.Registry.{Matcher}
use marchimetrics.Selector.{
  starts_name, goes_on, all_go_on, is_metric_name, cut_at, equals, open_brace, brace_inner,
  split_label_pairs, matcher_of, parse_part, parse_parts, name_matcher, parse_inside, some_matcher,
  parse_trimmed, parse_selector,
}

abbrev pub HasName : Matcher → Type 0
HasName m = is_metric_name m.name ≡ true

-- A result that is an error or matchers with names.
abbrev AllNamed : Result (List Matcher) → Type 0
AllNamed (err e) = Unit {0}
AllNamed (ok ms) = All HasName ms

All-append : (ms ns : List Matcher) → All HasName ms → All HasName ns → All HasName (ms ++ ns)
All-append [] ns h k = k
All-append (m ∷ ms) ns (h, hs) k = (h, All-append ms ns hs k)

-- Two results in order.
AllNamed-append :
    (r q : Result (List Matcher))
    → AllNamed r
    → AllNamed q
    → AllNamed (do ms ← r; ns ← q; ok (ms ++ ns))
AllNamed-append (err e) q h k = tt
AllNamed-append (ok ms) (err e) h k = tt
AllNamed-append (ok ms) (ok ns) h k = All-append ms ns h k

name_matcher-AllNamed : (name : Str) → AllNamed (name_matcher name)
unfolding name_matcher is_metric_name all_go_on goes_on starts_name
name_matcher-AllNamed [] = tt
name_matcher-AllNamed (c ∷ name) = elim (Bool-cases (is_metric_name (c ∷ name))) [
  | inl e ↦ rw e (refl, tt)
  | inr e ↦ rw e tt
]

module _ (trim_space : Str → Str) (unquote : Str → Option Str) where
  matcher_of-AllNamed : (before after : Str) → AllNamed (matcher_of trim_space unquote before after)
  unfolding matcher_of
  matcher_of-AllNamed [] after = tt
  matcher_of-AllNamed (c ∷ before) after =
      elim (Bool-cases (is_metric_name (trim_space (c ∷ before)))) [
        | inl e ↦ elim (Option-cases (unquote (trim_space after))) [
          | inl none_there ↦ rw (e, none_there) tt
          | inr (v, there) ↦ rw (e, there) (e, tt)
        ]
        | inr e ↦ rw e tt
      ]

  parse_part-AllNamed : (part : Str) → AllNamed (parse_part trim_space unquote part)
  unfolding parse_part
  parse_part-AllNamed [] = tt
  parse_part-AllNamed (c ∷ part) = elim (Option-cases (cut_at equals (c ∷ part))) [
    | inl e ↦ rw (parse_part, e) tt
    | inr ((before, after), e) ↦ rw (parse_part, e) (matcher_of-AllNamed before after)
  ]

  parse_parts-AllNamed : (parts : List Str) → AllNamed (parse_parts trim_space unquote parts)
  unfolding parse_parts
  parse_parts-AllNamed [] = tt
  parse_parts-AllNamed (part ∷ parts) =
      AllNamed-append (parse_part trim_space unquote (trim_space part))
        (parse_parts trim_space unquote parts) (parse_part-AllNamed (trim_space part))
        (parse_parts-AllNamed parts)

  parse_inside-AllNamed : (inner : Option Str) → AllNamed (parse_inside trim_space unquote inner)
  unfolding parse_inside
  parse_inside-AllNamed none = tt
  parse_inside-AllNamed (some inner) = parse_parts-AllNamed (split_label_pairs inner)

  -- A result that is an error or at least one matcher, all with names.
  abbrev SomeNamed : Result (List Matcher) → Type 0
  SomeNamed (err e) = Unit {0}
  SomeNamed (ok ms) = (ms ≢ []) × All HasName ms

  some_matcher-SomeNamed :
      (r q : Result (List Matcher))
      → AllNamed r
      → AllNamed q
      → SomeNamed (do ms ← r; ns ← q; some_matcher (ms ++ ns))
  unfolding some_matcher
  some_matcher-SomeNamed (err e) q h k = tt
  some_matcher-SomeNamed (ok ms) (err e) h k = tt
  some_matcher-SomeNamed (ok []) (ok []) h k = tt
  some_matcher-SomeNamed (ok []) (ok (n ∷ ns)) h k = ((λ e. cc), k)
  some_matcher-SomeNamed (ok (m ∷ ms)) (ok ns) h k = ((λ e. cc), All-append (m ∷ ms) ns h k)

  parse_trimmed-SomeNamed : (q : Str) → SomeNamed (parse_trimmed trim_space unquote q)
  unfolding parse_trimmed name_matcher is_metric_name all_go_on goes_on starts_name
  parse_trimmed-SomeNamed [] = tt
  parse_trimmed-SomeNamed (c ∷ q) = elim (Option-cases (cut_at open_brace (c ∷ q))) [
    | inl e ↦ elim (Bool-cases (is_metric_name (c ∷ q))) [
      | inl n ↦ rw (parse_trimmed, e) (rw n ((λ e. cc), (refl, tt)))
      | inr n ↦ rw (parse_trimmed, e) (rw n tt)
    ]
    | inr ((before, after), e) ↦
        rw (parse_trimmed, e)
          (some_matcher-SomeNamed (name_matcher (trim_space before))
            (parse_inside trim_space unquote (brace_inner after))
            (name_matcher-AllNamed (trim_space before)) (parse_inside-AllNamed (brace_inner after)))
  ]

  -- Whatever the query, what ParseSelector returns without an error is at least one matcher, and every
  -- matcher has a name that metricNameRE allows.
  pub parse_selector-HasName :
      (q : Str) (ms : List Matcher)
      → parse_selector trim_space unquote q ≡ ok ms
      → (ms ≢ []) × All HasName ms
  unfolding parse_selector
  parse_selector-HasName q ms e = rw e at (parse_trimmed-SomeNamed (trim_space q))
