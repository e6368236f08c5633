-- ===== src/Registry/Concurrent.antt =====
-- Goroutines that call Resolve of storage/series.go at once: each of its two locked parts is one
-- step, and the steps of the calls come in any order.
use marchimetrics.Base.{
  ℕ, zero, suc, ◌+◌, ◌^◌, ◌≤◌, ◌<◌, ◌≡◌, ◌↔◌, sym, ap, ◌∙◌, arith, List, [], ◌∷◌, All, Option, none,
  some, get_elem?,
}
use marchimetrics.Base.Str.{Str, str_key}
use marchimetrics.GoMap.{lookup}
use marchimetrics.Label.{Label, canonical_key}
use marchimetrics.Registry.{Registry, resolve_locked}
use marchimetrics.Registry.Resolve.{
  IsValid, one_key, resolve_locked-IsValid, by_key-resolve_self, next_id-resolve_locked,
  kept-resolve_locked,
}

-- A call of Resolve: before the read lock, between the two locks, and after its return.
pub data Thread : Type 0 where
  calling : List Label → Thread
  unlocked : List Label → Thread
  returned : List Label → ℕ → Thread

-- One locked part of a call.
pub data Move (r : Registry) : Thread → Registry → Thread → Type 0 where
  hit :
      (ls : List Label) (id : ℕ)
      → lookup (canonical_key ls) r.by_key ≡ some id
      → Move r (calling ls) r (returned ls id)
  missed :
      (ls : List Label)
      → lookup (canonical_key ls) r.by_key ≡ none
      → Move r (calling ls) r (unlocked ls)
  wrote :
      (ls : List Label)
      → Move r (unlocked ls) (resolve_locked r ls).0 (returned ls (resolve_locked r ls).1)

-- One call moves, the others wait.
pub data Step (r : Registry) : List Thread → Registry → List Thread → Type 0 where
  here :
      (t : Thread) (r' : Registry) (t' : Thread) (ts : List Thread)
      → Move r t r' t'
      → Step r (t ∷ ts) r' (t' ∷ ts)
  there :
      (t : Thread) (ts : List Thread) (r' : Registry) (ts' : List Thread)
      → Step r ts r' ts'
      → Step r (t ∷ ts) r' (t ∷ ts')

pub data Run : Registry → List Thread → Registry → List Thread → Type 0 where
  stop : (r : Registry) (ts : List Thread) → Run r ts r ts
  go :
      (r r1 r2 : Registry) (ts ts1 ts2 : List Thread)
      → Step r ts r1 ts1
      → Run r1 ts1 r2 ts2
      → Run r ts r2 ts2

-- The steps that a call may still take.
unfoldable pub left : List Thread → ℕ
left [] = 0
left (calling ls ∷ ts) = 2 + left ts
left (unlocked ls ∷ ts) = 1 + left ts
left (returned ls id ∷ ts) = left ts

-- What a call returned is the id of its key.
abbrev pub IsSettled : Registry → Thread → Type 0
IsSettled r (returned ls id) = lookup (canonical_key ls) r.by_key ≡ some id
IsSettled r _ = Unit {0}

abbrev pub AllSettled : Registry → List Thread → Type 0
AllSettled r ts = All (IsSettled r) ts

-- What a step keeps.
record Keeps (r : Registry) (ts : List Thread) (r' : Registry) (ts' : List Thread) : Type 0 where
  valid : IsValid r'
  bound : r'.next_id + left ts' ≤ r.next_id + left ts
  kept : (k : Str) (id : ℕ) → lookup k r.by_key ≡ some id → lookup k r'.by_key ≡ some id
  settled : AllSettled r' ts'

AllSettled-kept :
    (r r' : Registry) (ts : List Thread)
    → ((k : Str) (id : ℕ) → lookup k r.by_key ≡ some id → lookup k r'.by_key ≡ some id)
    → AllSettled r ts
    → AllSettled r' ts
AllSettled-kept r r' [] kept h = tt
AllSettled-kept r r' (calling ls ∷ ts) kept (h, hs) = (tt, AllSettled-kept r r' ts kept hs)
AllSettled-kept r r' (unlocked ls ∷ ts) kept (h, hs) = (tt, AllSettled-kept r r' ts kept hs)
AllSettled-kept r r' (returned ls id ∷ ts) kept (h, hs) =
    (kept (canonical_key ls) id h, AllSettled-kept r r' ts kept hs)

Move-Keeps :
    (r r' : Registry) (t t' : Thread) (ts : List Thread)
    → Move r t r' t'
    → IsValid r
    → r.next_id + left (t ∷ ts) < 2 ^ 64
    → AllSettled r ts
    → Keeps r (t ∷ ts) r' (t' ∷ ts)
unfolding left
Move-Keeps r _ _ _ ts (hit ls id e) v room h = record {
  valid = v;
  bound = omega arith;
  kept = λ k id' q. q;
  settled = (e, h);
}
Move-Keeps r _ _ _ ts (missed ls e) v room h = record {
  valid = v;
  bound = omega arith;
  kept = λ k id' q. q;
  settled = (tt, h);
}
Move-Keeps r _ _ _ ts (wrote ls) v room h =
    let fits : r.next_id + 1 < 2 ^ 64 = omega (arith, room) in
    let kept = λ (k : Str) (id : ℕ). kept-resolve_locked r ls k id v fits in
    record {
      valid = resolve_locked-IsValid r ls v fits;
      bound = omega (arith, next_id-resolve_locked r ls v fits);
      kept = kept;
      settled =
          (by_key-resolve_self r ls v fits, AllSettled-kept r (resolve_locked r ls).0 ts kept h);
    }

left-cons : (t : Thread) (ts : List Thread) → left (t ∷ ts) ≡ left (t ∷ []) + left ts
unfolding left
left-cons (calling ls) ts = omega arith
left-cons (unlocked ls) ts = omega arith
left-cons (returned ls id) ts = omega arith

IsSettled-kept :
    (r r' : Registry) (t : Thread)
    → ((k : Str) (id : ℕ) → lookup k r.by_key ≡ some id → lookup k r'.by_key ≡ some id)
    → IsSettled r t
    → IsSettled r' t
IsSettled-kept r r' t kept h = (AllSettled-kept r r' (t ∷ []) kept (h, tt)).0

Step-Keeps :
    (r r' : Registry) (ts ts' : List Thread)
    → Step r ts r' ts'
    → IsValid r
    → r.next_id + left ts < 2 ^ 64
    → AllSettled r ts
    → Keeps r ts r' ts'
Step-Keeps r _ _ _ (here t r' t' ts move) v room (h, hs) = Move-Keeps r r' t t' ts move v room hs
Step-Keeps r _ _ _ (there t ts r' ts' step) v room (h, hs) =
    let before = left-cons t ts in
    let after = left-cons t ts' in
    let rest = Step-Keeps r r' ts ts' step v (omega (arith, room, before)) hs in
    record {
      valid = rest.valid;
      bound = omega (arith, rest.bound, before, after);
      kept = rest.kept;
      settled = (IsSettled-kept r r' t rest.kept h, rest.settled);
    }

Run-Keeps :
    (r r' : Registry) (ts ts' : List Thread)
    → Run r ts r' ts'
    → IsValid r
    → r.next_id + left ts < 2 ^ 64
    → AllSettled r ts
    → Keeps r ts r' ts'
Run-Keeps _ _ _ _ (stop r ts) v room h = record {
  valid = v;
  bound = omega arith;
  kept = λ k id q. q;
  settled = h;
}
Run-Keeps _ _ _ _ (go r r1 r2 ts ts1 ts2 step run) v room h =
    let first = Step-Keeps r r1 ts ts1 step v room h in
    let rest =
      Run-Keeps r1 r2 ts1 ts2 run first.valid (omega (arith, room, first.bound)) first.settled in
    record {
      valid = rest.valid;
      bound = omega (arith, first.bound, rest.bound);
      kept = λ k id q. rest.kept k id (first.kept k id q);
      settled = rest.settled;
    }

settled_at :
    (r : Registry) (ts : List Thread) (i : ℕ) (ls : List Label) (id : ℕ)
    → AllSettled r ts
    → get_elem? ts i ≡ some (returned ls id)
    → lookup (canonical_key ls) r.by_key ≡ some id
settled_at r [] i ls id h e = absurd (cc)
settled_at r (t ∷ ts) zero ls id (h, hs) e = let same : t ≡ returned ls id = cc in rw same at h
settled_at r (t ∷ ts) (suc i) ls id (h, hs) e = settled_at r ts i ls id hs e

-- Calls that have not begun.
abbrev pub all_calling : List (List Label) → List Thread
all_calling [] = []
all_calling (ls ∷ rest) = calling ls ∷ all_calling rest

all_calling-AllSettled :
    (r : Registry) (calls : List (List Label)) → AllSettled r (all_calling calls)
all_calling-AllSettled r [] = tt
all_calling-AllSettled r (ls ∷ calls) = (tt, all_calling-AllSettled r calls)

-- However the locked parts of calls of Resolve interleave, from a well-formed registry with an id
-- left for every step, two calls that have returned returned the same id exactly when the canonical
-- keys of their label sets are equal: the second lookup keeps a series from being registered twice.
pub returned-Run :
    (r r' : Registry) (calls : List (List Label)) (ts : List Thread)
    → Run r (all_calling calls) r' ts
    → IsValid r
    → r.next_id + left (all_calling calls) < 2 ^ 64
    → (a b : ℕ) (ls ms : List Label) (i j : ℕ) → get_elem? ts a ≡ some (returned ls i)
    → get_elem? ts b ≡ some (returned ms j)
    → (i ≡ j) ↔ (canonical_key ls ≡ canonical_key ms)
returned-Run r r' calls ts run v room a b ls ms i j at_a at_b =
    let end = Run-Keeps r r' (all_calling calls) ts run v room (all_calling-AllSettled r calls) in
    let first = settled_at r' ts a ls i end.settled at_a in
    let second = settled_at r' ts b ms j end.settled at_b in
    (
      λ same.
          one_key r' end.valid (canonical_key ls) (canonical_key ms) i first
            (second ∙ ap (λ n. some n) (sym same)),
      λ same.
          let found : lookup (canonical_key ls) r'.by_key ≡ some j = rw same second in
          let both : ◌≡◌ {A = Option ℕ} (some i) (some j) = sym first ∙ found in cc,
    )
