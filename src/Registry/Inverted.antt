-- ===== src/Registry/Inverted.antt =====
-- The inverted index: what Match finds, and what indexing and dropping a day do to it.
use marchimetrics.Base.{ℕ, ◌≡◌, refl, ◌∙◌, arith, Bool, true, false, not, List, [], ◌∷◌, ◌&&◌, ◌||◌}
use marchimetrics.Base.Str.{Str, str_key, nat_key}
use marchimetrics.GoMap.{GoMap, lookup_or, contains}
use marchimetrics.GoMap.Laws.{contains-add, contains-sort_ids, IsSorted, sort_ids-IsSorted}
use marchimetrics.Label.{label_key}
use marchimetrics.Registry.{
  Registry, Inverted, Matcher, add_all, union_days, keep, match_rest, match_ids, candidates, if_any,
}

-- Some live day indexes `id` under `key`.
unfoldable pub any_day : Str → ℕ → GoMap Str Inverted → Bool
any_day key id [] = false
any_day key id ((day, inv) ∷ days) = contains id (lookup_or [] key inv) || any_day key id days

unfoldable pub findable : Registry → Str → ℕ → Bool
findable r key id = any_day key id r.inverted_by_day

-- Every matcher finds `id`.
pub satisfies : Registry → ℕ → List Matcher → Bool
unfolding findable any_day
satisfies r id [] = true
satisfies r id (m ∷ ms) = findable r (label_key m.name m.value) id && satisfies r id ms

contains-add_all :
    (id : ℕ) (s t : List ℕ) → contains id (add_all s t) ≡ (contains id s || contains id t)
unfolding add_all contains
contains-add_all id [] t = refl
contains-add_all id (a ∷ s) t =
    ground (arith, contains-add a id (add_all s t), contains-add_all id s t)

contains-union_days :
    (key : Str) (id : ℕ) (days : GoMap Str Inverted)
    → contains id (union_days key days) ≡ any_day key id days
unfolding union_days any_day contains
contains-union_days key id [] = refl
contains-union_days key id ((day, inv) ∷ days) = ground (
  arith,
  contains-add_all id (lookup_or [] key inv) (union_days key days),
  contains-union_days key id days,
)

contains-keep :
    (set : List ℕ) (id : ℕ) (ids : List ℕ)
    → contains id (keep set ids) ≡ (contains id set && contains id ids)
unfolding keep contains
contains-keep set id [] = ground arith
contains-keep set id (a ∷ ids) = ground (arith, contains-keep set id ids)

contains-candidates :
    (r : Registry) (m : Matcher) (id : ℕ)
    → contains id (candidates r m) ≡ findable r (label_key m.name m.value) id
unfolding candidates findable
contains-candidates r m id = contains-union_days (label_key m.name m.value) id r.inverted_by_day

-- An empty candidate set holds no id.
contains-if_any :
    (id : ℕ) (set : List ℕ) (next : List ℕ → List ℕ) (rest : Bool)
    → contains id (next set) ≡ (contains id set && rest)
    → contains id (if_any set next) ≡ (contains id set && rest)
unfolding contains
contains-if_any id [] next rest h = refl
contains-if_any id (a ∷ set) next rest h = h

contains-match_rest :
    (r : Registry) (id : ℕ) (ms : List Matcher) (ids : List ℕ)
    → contains id (match_rest r ids ms) ≡ (contains id ids && satisfies r id ms)
unfolding match_rest satisfies
contains-match_rest r id [] ids = ground (arith, contains-sort_ids id ids)
contains-match_rest r id (m ∷ ms) ids =
    contains-if_any id (candidates r m) (λ set. match_rest r (keep set ids) ms)
      (contains id ids && satisfies r id ms)
      (ground (
        arith,
        contains-match_rest r id ms (keep (candidates r m) ids),
        contains-keep (candidates r m) id ids,
      ))
    ∙ ground (arith, contains-candidates r m id)

abbrev pub is_empty : List Matcher → Bool
is_empty [] = true
is_empty (m ∷ ms) = false

-- Match returns an id exactly when there is a matcher and every matcher's label is indexed for the
-- id in some live day.
pub contains-match_ids :
    (r : Registry) (id : ℕ) (ms : List Matcher)
    → contains id (match_ids r ms) ≡ (not (is_empty ms) && satisfies r id ms)
unfolding match_ids satisfies
contains-match_ids r id [] = unfold contains in refl
contains-match_ids r id (m ∷ ms) =
    contains-if_any id (candidates r m) (λ set. match_rest r set ms) (satisfies r id ms)
      (contains-match_rest r id ms (candidates r m))
    ∙ ground (arith, contains-candidates r m id)

if_any-IsSorted :
    (set : List ℕ) (next : List ℕ → List ℕ)
    → ((s : List ℕ) → IsSorted (next s))
    → IsSorted (if_any set next)
if_any-IsSorted [] next h = tt
if_any-IsSorted (a ∷ set) next h = h (a ∷ set)

match_rest-IsSorted :
    (r : Registry) (ms : List Matcher) (ids : List ℕ) → IsSorted (match_rest r ids ms)
unfolding match_rest
match_rest-IsSorted r [] ids = sort_ids-IsSorted ids
match_rest-IsSorted r (m ∷ ms) ids =
    if_any-IsSorted (candidates r m) _ λ set. match_rest-IsSorted r ms (keep set ids)

-- The ids that Match returns are in ascending order, for every registry and matchers.
pub match_ids-IsSorted : (r : Registry) (ms : List Matcher) → IsSorted (match_ids r ms)
unfolding match_ids
match_ids-IsSorted r [] = tt
match_ids-IsSorted r (m ∷ ms) =
    if_any-IsSorted (candidates r m) _ λ set. match_rest-IsSorted r ms set
