-- ===== src/Registry.antt =====
-- Registry of storage/series.go. Each method is one step under the registry's lock, on the value of
-- its fields; Resolve takes the lock twice, so its two parts are functions of their own.
pub mod Resolve
pub mod Inverted
pub mod Days
pub mod Concurrent
pub mod Reload
pub mod Pending
use marchimetrics.Base.{
  ℕ, ◌+◌, ◌%◌, ◌^◌, Bool, true, false, List, [], ◌∷◌, ◌++◌, Option, none, some, not, ◌&&◌,
  if◌then◌else◌, ltb, leb, map,
}
use marchimetrics.Base.{◌==◌ as nat_eq}
use marchimetrics.Base.Str.{Str, str_key, nat_key}
use marchimetrics.GoMap.{GoMap, lookup, insert, delete, lookup_or, contains, add, sort_ids}
use marchimetrics.Label.{Label, sorted_labels, label_key, canonical_key}
use marchimetrics.Segment.{Entry}

-- labelKey -> SeriesID set
abbrev pub Inverted : Type 0
Inverted = GoMap Str (List ℕ)

pub record Registry : Type 0 where
  pub next_id : ℕ
  pub by_key : GoMap Str ℕ
  pub names : GoMap ℕ (List Label)
  pub pending : GoMap ℕ (List Label)
  pub inverted_by_day : GoMap Str Inverted
  pub persisted : GoMap Str (List ℕ)

abbrev pub new_registry : Registry
new_registry = record {
  next_id = 1;
  by_key = [];
  names = [];
  pending = [];
  inverted_by_day = [];
  persisted = [];
}

-- The end of Resolve: a new series. `nextID++` wraps.
pub register : Registry → Str → List Label → Registry × ℕ
register r key labels =
    let id = r.next_id in
    let sorted = sorted_labels labels in
    (
      record r {
        next_id = (r.next_id + 1) % 2 ^ 64;
        by_key = insert key id r.by_key;
        names = insert id sorted r.names;
        pending = insert id sorted r.pending;
      },
      id,
    )

-- `if id, ok := r.byKey[key]; ok { return id }`, and what follows.
abbrev pub found_or : Registry → Option ℕ → Registry × ℕ → Registry × ℕ
found_or r (some id) otherwise = (r, id)
found_or r none otherwise = otherwise

-- The part of Resolve under the write lock; another goroutine may have registered the key since
-- the read lock was released.
pub resolve_locked : Registry → List Label → Registry × ℕ
unfolding register
resolve_locked r labels =
    let key = canonical_key labels in found_or r (lookup key r.by_key) (register r key labels)

-- Resolve with nothing between its two locks.
pub resolve : Registry → List Label → Registry × ℕ
unfolding resolve_locked
resolve r labels = found_or r (lookup (canonical_key labels) r.by_key) (resolve_locked r labels)

unfoldable pub labels_of : Registry → ℕ → Option (List Label)
labels_of r id = lookup id r.names

-- DrainPending: the pending entries, and the registry without them.
unfoldable pub drain_pending : Registry → Registry × GoMap ℕ (List Label)
drain_pending r = (record r { pending = [] }, r.pending)

-- The loop of TrackPending.
unfoldable pub put_back : GoMap ℕ (List Label) → GoMap ℕ (List Label) → GoMap ℕ (List Label)
put_back pending [] = pending
put_back pending ((id, labels) ∷ entries) = put_back (insert id labels pending) entries

unfoldable pub track_pending : Registry → GoMap ℕ (List Label) → Registry
unfolding put_back
track_pending r entries = record r { pending = put_back r.pending entries }

-- `ok && existing == id`
abbrev is_id : ℕ → Option ℕ → Bool
is_id id none = false
is_id id (some existing) = nat_eq existing id

-- The loop of LoadEntries, with the largest id that was registered.
load_loop : Registry → ℕ → List Entry → Registry × ℕ
load_loop r max_id [] = (r, max_id)
load_loop r max_id (e ∷ es) =
    let sorted = sorted_labels e.labels in
    let key = canonical_key sorted in
    let known = is_id e.id (lookup key r.by_key) in
    let skipped = load_loop r max_id es in
    let loaded =
      load_loop (record r { names = insert e.id sorted r.names; by_key = insert key e.id r.by_key })
        (if ltb max_id e.id then e.id else max_id) es in
    if known then skipped else loaded

pub load_entries : Registry → List Entry → Registry
unfolding load_loop
load_entries r es =
    let (r', max_id) = load_loop r 0 es in
    if leb r'.next_id max_id then record r' { next_id = (max_id + 1) % 2 ^ 64 } else r'

-- The loop of addInvertedLocked over the labels.
index_labels : Inverted → ℕ → List Label → Inverted
index_labels inv id [] = inv
index_labels inv id (l ∷ ls) =
    let k = label_key l.name l.value in
    index_labels (insert k (add id (lookup_or [] k inv)) inv) id ls

unfoldable pub add_inverted : Registry → Str → ℕ → List Label → Registry
unfolding index_labels
add_inverted r day id labels = record r {
  inverted_by_day =
      insert day (index_labels (lookup_or [] day r.inverted_by_day) id labels) r.inverted_by_day;
}

unfoldable pub mark_persisted : Registry → Str → ℕ → Registry
mark_persisted r day id = record r {
  persisted = insert day (add id (lookup_or [] day r.persisted)) r.persisted;
}

unfoldable pub index_for_day : Registry → Str → ℕ → Registry
unfolding add_inverted
index_for_day r day id = add_inverted r day id (lookup_or [] id r.names)

-- The loop of UnindexedIDs.
unfoldable pub not_in : List ℕ → List ℕ → List ℕ
not_in done [] = []
not_in done (id ∷ ids) = let rest = not_in done ids in if contains id done then rest else id ∷ rest

unfoldable pub unindexed_ids : Registry → Str → List ℕ → List ℕ
unfolding not_in
unindexed_ids r day ids = not_in (lookup_or [] day r.persisted) ids

unfoldable pub mark_indexed : Registry → Str → List ℕ → Registry
unfolding mark_persisted
mark_indexed r day [] = r
mark_indexed r day (id ∷ ids) = mark_indexed (mark_persisted r day id) day ids

pub load_inverted_entry : Registry → Str → ℕ → List Label → Registry
unfolding add_inverted mark_persisted
load_inverted_entry r day id labels = mark_persisted (add_inverted r day id labels) day id

pub drop_day : Registry → Str → Registry
drop_day r day = record r {
  inverted_by_day = delete day r.inverted_by_day;
  persisted = delete day r.persisted;
}

-- Matcher of storage/query.go.
pub record Matcher : Type 0 where
  pub name : Str
  pub value : Str

-- Every id of a list into a set.
add_all : List ℕ → List ℕ → List ℕ
add_all [] s = s
add_all (id ∷ ids) s = add id (add_all ids s)

-- The union of the days' sets for one key.
union_days : Str → GoMap Str Inverted → List ℕ
unfolding add_all
union_days key [] = []
union_days key ((day, inv) ∷ days) = add_all (lookup_or [] key inv) (union_days key days)

-- The ids of the list that the set holds.
keep : List ℕ → List ℕ → List ℕ
keep set [] = []
keep set (id ∷ ids) = let rest = keep set ids in if contains id set then id ∷ rest else rest

-- `if len(set) == 0 { return nil }`, and what follows.
abbrev pub if_any : List ℕ → (List ℕ → List ℕ) → List ℕ
if_any [] next = []
if_any (id ∷ set) next = next (id ∷ set)

-- The candidate set of a matcher.
pub candidates : Registry → Matcher → List ℕ
unfolding union_days
candidates r m = union_days (label_key m.name m.value) r.inverted_by_day

-- The rounds of Match behind the first, with the ids so far.
match_rest : Registry → List ℕ → List Matcher → List ℕ
unfolding candidates keep
match_rest r ids [] = sort_ids ids
match_rest r ids (m ∷ ms) = if_any (candidates r m) (λ set. match_rest r (keep set ids) ms)

pub match_ids : Registry → List Matcher → List ℕ
unfolding match_rest
match_ids r [] = []
match_ids r (m ∷ ms) = if_any (candidates r m) (λ set. match_rest r set ms)
