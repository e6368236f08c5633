-- ===== src/Selector/Format.antt =====
-- What ParseSelector of storage/query.go reads of the labels that formatLabels of cmd/mmctl/main.go
-- prints.
use marchimetrics.Base.{
  ℕ, ◌≡◌, refl, sym, ap, ◌∙◌, arith, List, [], ◌∷◌, ◌++◌, Bool, true, false, Bool-cases, inl, inr,
  not, ◌&&◌, ◌==◌, ==_iff, Option, none, some, if◌then◌else◌,
}
use marchimetrics.Base.Str.{Str}
use marchimetrics.Label.{Label}
use marchimetrics.Registry.{Matcher}
use marchimetrics.Selector.{
  comma, double_quote, backslash, open_brace, close_brace, between, starts_name, goes_on, all_go_on,
  is_metric_name, cut_at, next_state, splits, split_from, brace_inner,
}

-- The printed bytes of ASCII, without the space.
abbrev pub visible : ℕ → Bool
visible c = between 33 126 c

unfoldable pub first_visible : Str → Bool
first_visible [] = true
first_visible (c ∷ s) = visible c

unfoldable pub last_visible : Str → Bool
last_visible [] = true
last_visible (c ∷ []) = visible c
last_visible (c ∷ d ∷ s) = last_visible (d ∷ s)

-- What strings.TrimSpace does to spaces in front, and to strings without white space at the ends.
pub record Trims (trim_space : Str → Str) : Type 0 where
  pub leading : (s : Str) → trim_space (32 ∷ s) ≡ trim_space s
  pub kept : (s : Str) → first_visible s ≡ true → last_visible s ≡ true → trim_space s ≡ s

-- No quote but behind a backslash, which `escaped` says of the byte in front.
unfoldable pub is_body : Bool → Str → Bool
is_body escaped [] = not escaped
is_body true (c ∷ s) = is_body false s
is_body false (c ∷ s) =
    if c == backslash then is_body true s else not (c == double_quote) && is_body false s

-- The text of `%q` is a literal between double quotes, and strconv.Unquote gives the value back.
pub record IsQuoted (quote : Str → Str) (unquote : Str → Option Str) (v : Str) : Type 0 where
  pub body : Str
  pub closed : is_body false body ≡ true
  pub quoted : quote v ≡ double_quote ∷ (body ++ (double_quote ∷ []))
  pub back : unquote (quote v) ≡ some v

abbrev pub to_matcher : Label → Matcher
to_matcher l = record { name = l.name; value = l.value }

unfoldable pub glue : Str → Str × List Str → Str × List Str
glue part r = (part ++ r.0, r.1)

pub split_from-body :
    (escaped : Bool) (b s : Str)
    → is_body escaped b ≡ true
    → split_from true escaped (b ++ (double_quote ∷ s))
      ≡ glue (b ++ (double_quote ∷ [])) (split_from false false s)
unfolding split_from is_body next_state splits glue
split_from-body true [] s h = absurd (cc)
split_from-body false [] s h = refl
split_from-body true (c ∷ b) s h = rw (split_from-body false b s h) refl
split_from-body false (c ∷ b) s h = elim (Bool-cases (c == backslash)) [
  | inl e ↦
      let h' : is_body true b ≡ true = rw e at h in rw e (rw (split_from-body true b s h') refl)
  | inr e ↦
      let h' : (not (c == double_quote) && is_body false b) ≡ true = rw e at h in
      let apart : (c == double_quote) ≡ false = ground (arith, h') in
      let rest : is_body false b ≡ true = ground (arith, h') in
      rw (e, apart) (rw (split_from-body false b s rest) refl)
]

pub split_from-name :
    (n s : Str)
    → all_go_on n ≡ true
    → split_from false false (n ++ s) ≡ glue n (split_from false false s)
unfolding split_from all_go_on goes_on starts_name next_state splits glue
split_from-name [] s h = refl
split_from-name (c ∷ n) s h =
    let rest : all_go_on n ≡ true = ground (arith, h) in
    let no_quote : (c == double_quote) ≡ false = ground (arith, h) in
    let no_comma : (c == comma) ≡ false = ground (arith, h) in
    rw (no_quote, no_comma) (rw (split_from-name n s rest) refl)

pub cut_at-name :
    (b : ℕ) (n s : Str)
    → goes_on b ≡ false
    → all_go_on n ≡ true
    → cut_at b (n ++ (b ∷ s)) ≡ some (n, s)
unfolding cut_at all_go_on
cut_at-name b [] s hb h = ground arith
cut_at-name b (c ∷ n) s hb h =
    let rest : all_go_on n ≡ true = ground (arith, h) in
    let here : goes_on c ≡ true = ground (arith, h) in
    elim (Bool-cases (c == b)) [
      | inl e ↦
          let same : c ≡ b = (==_iff c b).0 e in
          let both : true ≡ false = sym here ∙ ap goes_on same ∙ hb in absurd (cc)
      | inr e ↦ rw e (rw (cut_at-name b n s hb rest) refl)
    ]

pub cut_at-no_brace : (n : Str) → all_go_on n ≡ true → cut_at open_brace n ≡ none
unfolding cut_at all_go_on goes_on starts_name
cut_at-no_brace [] h = refl
cut_at-no_brace (c ∷ n) h =
    let rest : all_go_on n ≡ true = ground (arith, h) in
    let apart : (c == open_brace) ≡ false = ground (arith, h) in
    rw apart (rw (cut_at-no_brace n rest) refl)

pub brace_inner-closed : (s : Str) → brace_inner (s ++ (close_brace ∷ [])) ≡ some s
unfolding brace_inner
brace_inner-closed [] = refl
brace_inner-closed (c ∷ []) = refl
brace_inner-closed (c ∷ d ∷ s) = rw (brace_inner-closed (d ∷ s)) refl

pub last_visible-append : (s : Str) (d : ℕ) → last_visible (s ++ (d ∷ [])) ≡ visible d
unfolding last_visible
last_visible-append [] d = refl
last_visible-append (c ∷ []) d = refl
last_visible-append (c ∷ e ∷ s) d = last_visible-append (e ∷ s) d

pub last_visible-name : (n : Str) → all_go_on n ≡ true → last_visible n ≡ true
unfolding last_visible all_go_on goes_on starts_name
last_visible-name [] h = refl
last_visible-name (c ∷ []) h = ground (arith, h)
last_visible-name (c ∷ d ∷ n) h = last_visible-name (d ∷ n) (ground (arith, h))

pub first_visible-name : (n s : Str) → is_metric_name n ≡ true → first_visible (n ++ s) ≡ true
unfolding first_visible is_metric_name starts_name
first_visible-name [] s h = absurd (cc)
first_visible-name (c ∷ n) s h = ground (arith, h)

pub all_go_on-is_metric_name : (n : Str) → is_metric_name n ≡ true → all_go_on n ≡ true
unfolding all_go_on goes_on is_metric_name
all_go_on-is_metric_name [] h = refl
all_go_on-is_metric_name (c ∷ n) h = ground (arith, h)
