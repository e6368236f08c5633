-- ===== src/Registry/Resolve.antt =====
-- The ids that Resolve of storage/series.go gives to label sets.
use marchimetrics.Base.{
  ℕ, ◌+◌, ◌^◌, ◌<◌, ◌≤◌, ◌≡◌, refl, sym, ap, ◌∙◌, arith, Bool-cases, inl, inr, ◌⊎◌, Option, none,
  some, Option-cases, List, [], ◌∷◌, if◌then◌else◌, ◌↔◌, length,
}
use marchimetrics.Base.{◌==◌ as nat_eq}
use marchimetrics.Base.Str.{Str, str_key, nat_key, ◌==◌, str_eq_iff}
use marchimetrics.GoMap.{lookup}
use marchimetrics.GoMap.Laws.{lookup-insert, eq_refl}
use marchimetrics.Label.{Label, sorted_labels, canonical_key}
use marchimetrics.Label.Sort.{canonical_key-sorted_labels}
use marchimetrics.Registry.{Registry, found_or, new_registry, register, resolve_locked, resolve}

-- Every key has an id below the next one, whose labels have that key.
pub record IsValid (r : Registry) : Type 0 where
  pub started : 1 ≤ r.next_id
  pub key_id : (k : Str) (id : ℕ) → lookup k r.by_key ≡ some id → (1 ≤ id) × (id < r.next_id)
  pub named :
      (k : Str) (id : ℕ)
      → lookup k r.by_key ≡ some id
      → (ls : List Label) × (lookup id r.names ≡ some ls) × (canonical_key ls ≡ k)

-- An id belongs to one key.
pub one_key :
    (r : Registry)
    → IsValid r
    → (k j : Str) (id : ℕ) → lookup k r.by_key ≡ some id
    → lookup j r.by_key ≡ some id
    → k ≡ j
one_key r v k j id hk hj =
    let (ls, el, kl) = v.named k id hk in
    let (ms, em, km) = v.named j id hj in
    let e : ◌≡◌ {A = Option (List Label)} (some ls) (some ms) = sym el ∙ em in
    let same : ls ≡ ms = cc in sym kl ∙ ap canonical_key same ∙ km

pub new_registry-IsValid : IsValid new_registry
unfolding lookup
new_registry-IsValid = record { started = omega arith; key_id = λ k id h. cc; named = λ k id h. cc }

module _ (r : Registry) (ls : List Label) (v : IsValid r) (room : r.next_id + 1 < 2 ^ 64) where
  abbrev registered : Registry
  registered = (register r (canonical_key ls) ls).0

  by_key-registered :
      (k : Str)
      → lookup k registered.by_key
        ≡ (if canonical_key ls == k then some r.next_id else lookup k r.by_key)
  unfolding register
  by_key-registered k = lookup-insert (canonical_key ls) k r.next_id r.by_key

  names-registered :
      (id : ℕ)
      → lookup id registered.names
        ≡ (if r.next_id == id then some (sorted_labels ls) else lookup id r.names)
  unfolding register
  names-registered id = lookup-insert r.next_id id (sorted_labels ls) r.names

  next_id-registered : registered.next_id ≡ r.next_id + 1
  unfolding register
  next_id-registered = omega arith

  -- The key of an id in the new registry is the new one or an old one.
  registered_key :
      (k : Str) (id : ℕ)
      → lookup k registered.by_key ≡ some id
      → ((canonical_key ls ≡ k) × (r.next_id ≡ id)) ⊎ (lookup k r.by_key ≡ some id)
  registered_key k id h = elim (Bool-cases (canonical_key ls == k)) [
    | inl e ↦
        let h' : some r.next_id ≡ some id = rw (by_key-registered k, e) at h in
        inl ((str_eq_iff (canonical_key ls) k).0 e, cc)
    | inr e ↦ inr (rw (by_key-registered k, e) at h)
  ]

  registered_named :
      (k : Str) (id : ℕ)
      → lookup k registered.by_key ≡ some id
      → (ms : List Label) × (lookup id registered.names ≡ some ms) × (canonical_key ms ≡ k)
  registered_named k id h = elim (registered_key k id h) [
    | inl (e, i) ↦ (
      sorted_labels ls,
      names-registered id ∙ ground (arith, i),
      canonical_key-sorted_labels ls ∙ e,
    )
    | inr old ↦
        let (ms, em, km) = v.named k id old in
        let lt = v.key_id k id old in (ms, names-registered id ∙ ground (arith, em, lt), km)
  ]

  pub registered-IsValid : IsValid registered
  registered-IsValid = record {
    started = omega (arith, next_id-registered);
    key_id = λ k id h. elim (registered_key k id h) [
      | inl (e, i) ↦ omega (arith, next_id-registered, v.started)
      | inr old ↦ omega (arith, next_id-registered, v.key_id k id old)
    ];
    named = registered_named;
  }

-- The two lookups find the same where nothing comes between them.
pub resolve-resolve_locked : (r : Registry) (ls : List Label) → resolve r ls ≡ resolve_locked r ls
unfolding resolve
resolve-resolve_locked r ls = elim (Option-cases (lookup (canonical_key ls) r.by_key)) [
  | inl e ↦ rw (e, found_or)
  | inr (id, e) ↦ unfold resolve_locked in rw (e, found_or)
]

-- While an id is left (the next id is below 2^64 - 1), the part of Resolve under the write lock keeps
-- a well-formed registry well formed.
pub resolve_locked-IsValid :
    (r : Registry) (ls : List Label)
    → IsValid r
    → r.next_id + 1 < 2 ^ 64
    → IsValid (resolve_locked r ls).0
unfolding resolve_locked
resolve_locked-IsValid r ls v room = elim (Option-cases (lookup (canonical_key ls) r.by_key)) [
  | inl e ↦ rw (e, found_or) (registered-IsValid r ls v room)
  | inr (id, e) ↦ rw (e, found_or) v
]

registered_id : (r : Registry) (ls : List Label) → (register r (canonical_key ls) ls).1 ≡ r.next_id
unfolding register
registered_id r ls = refl

-- What Resolve leaves in the key map: its own key at the id that it returns, the others as before.
pub by_key-resolve_locked :
    (r : Registry) (ls : List Label) (k : Str)
    → IsValid r
    → r.next_id + 1 < 2 ^ 64
    → lookup k (resolve_locked r ls).0.by_key
      ≡ (if canonical_key ls == k then some (resolve_locked r ls).1 else lookup k r.by_key)
unfolding resolve_locked
by_key-resolve_locked r ls k v room = elim (Option-cases (lookup (canonical_key ls) r.by_key)) [
  | inl e ↦ rw (e, found_or, registered_id r ls) (by_key-registered r ls v room k)
  | inr (id, e) ↦ rw (e, found_or) (ground (arith, e, str_eq_iff (canonical_key ls) k))
]

pub by_key-resolve_self :
    (r : Registry) (ls : List Label)
    → IsValid r
    → r.next_id + 1 < 2 ^ 64
    → lookup (canonical_key ls) (resolve_locked r ls).0.by_key ≡ some (resolve_locked r ls).1
by_key-resolve_self r ls v room =
    by_key-resolve_locked r ls (canonical_key ls) v room ∙ rw (eq_refl (canonical_key ls))

pub resolve_locked_found :
    (r : Registry) (ls : List Label) (id : ℕ)
    → lookup (canonical_key ls) r.by_key ≡ some id
    → resolve_locked r ls ≡ (r, id)
unfolding resolve_locked
resolve_locked_found r ls id e = rw (e, found_or)

pub next_id-resolve_locked :
    (r : Registry) (ls : List Label)
    → IsValid r
    → r.next_id + 1 < 2 ^ 64
    → (resolve_locked r ls).0.next_id ≤ r.next_id + 1
unfolding resolve_locked
next_id-resolve_locked r ls v room = elim (Option-cases (lookup (canonical_key ls) r.by_key)) [
  | inl e ↦ rw (e, found_or) (omega (arith, next_id-registered r ls v room))
  | inr (id, e) ↦ rw (e, found_or) (omega arith)
]

pub next_id-resolve_locked_grows :
    (r : Registry) (ls : List Label)
    → IsValid r
    → r.next_id + 1 < 2 ^ 64
    → r.next_id ≤ (resolve_locked r ls).0.next_id
unfolding resolve_locked
next_id-resolve_locked_grows r ls v room =
    elim (Option-cases (lookup (canonical_key ls) r.by_key)) [
      | inl e ↦ rw (e, found_or) (omega (arith, next_id-registered r ls v room))
      | inr (id, e) ↦ rw (e, found_or) (omega arith)
    ]

-- A key that has an id keeps it.
pub kept-resolve_locked :
    (r : Registry) (ls : List Label) (k : Str) (id : ℕ)
    → IsValid r
    → r.next_id + 1 < 2 ^ 64
    → lookup k r.by_key ≡ some id
    → lookup k (resolve_locked r ls).0.by_key ≡ some id
unfolding resolve_locked
kept-resolve_locked r ls k id v room h = elim (Option-cases (lookup (canonical_key ls) r.by_key)) [
  | inl e ↦
      rw (e, found_or)
        (by_key-registered r ls v room k ∙ ground (arith, e, h, str_eq_iff (canonical_key ls) k))
  | inr (i, e) ↦ rw (e, found_or) h
]

-- An id that has labels keeps some.
pub names-resolve_locked :
    (r : Registry) (ls : List Label) (id : ℕ)
    → IsValid r
    → r.next_id + 1 < 2 ^ 64
    → (ms : List Label) × (lookup id r.names ≡ some ms)
    → (ms : List Label) × (lookup id (resolve_locked r ls).0.names ≡ some ms)
unfolding resolve_locked
names-resolve_locked r ls id v room (ms, h) =
    elim (Option-cases (lookup (canonical_key ls) r.by_key)) [
      | inl e ↦ elim (Bool-cases (nat_eq r.next_id id)) [
        | inl same ↦
            (sorted_labels ls, rw (e, found_or) (names-registered r ls v room id ∙ rw same refl))
        | inr other ↦ (ms, rw (e, found_or) (names-registered r ls v room id ∙ rw other h))
      ]
      | inr (i, e) ↦ (ms, rw (e, found_or) h)
    ]

-- A key without an id gets the next one.
pub fresh-resolve_locked :
    (r : Registry) (ls : List Label)
    → lookup (canonical_key ls) r.by_key ≡ none
    → (resolve_locked r ls).1 ≡ r.next_id
unfolding resolve_locked
fresh-resolve_locked r ls e = rw (e, found_or) (registered_id r ls)

-- Calls of Resolve one after the other.
pub resolve_all : Registry → List (List Label) → Registry
resolve_all r [] = r
resolve_all r (ls ∷ rest) = resolve_all (resolve r ls).0 rest

record Later (r r' : Registry) (n : ℕ) : Type 0 where
  valid : IsValid r'
  next : r'.next_id ≤ r.next_id + n
  kept : (k : Str) (id : ℕ) → lookup k r.by_key ≡ some id → lookup k r'.by_key ≡ some id

resolve_all-Later :
    (rest : List (List Label)) (r : Registry)
    → IsValid r
    → r.next_id + length rest < 2 ^ 64
    → Later r (resolve_all r rest) (length rest)
unfolding resolve_all
resolve_all-Later [] r v room = record { valid = v; next = omega arith; kept = λ k id h. h }
resolve_all-Later (ls ∷ rest) r v room =
    let fits : r.next_id + 1 < 2 ^ 64 = omega arith in
    let step = next_id-resolve_locked r ls v fits in
    let later =
      resolve_all-Later rest (resolve_locked r ls).0 (resolve_locked-IsValid r ls v fits)
        (omega arith) in
    rw (resolve-resolve_locked r ls) (record {
      valid = later.valid;
      next = omega (arith, later.next);
      kept = λ k id h. later.kept k id (kept-resolve_locked r ls k id v fits h);
    })

-- On a well-formed registry with ids left, a call of Resolve and a later one, with any calls in
-- between, return the same id exactly when the canonical keys of their label sets are equal.
pub resolve-eq :
    (r : Registry) (ls ms : List Label) (between : List (List Label))
    → IsValid r
    → r.next_id + length between + 2 < 2 ^ 64
    → ((resolve r ls).1 ≡ (resolve (resolve_all (resolve r ls).0 between) ms).1)
      ↔ (canonical_key ls ≡ canonical_key ms)
resolve-eq r ls ms between v room =
    let fits : r.next_id + 1 < 2 ^ 64 = omega arith in
    let r1 = (resolve_locked r ls).0 in
    let v1 = resolve_locked-IsValid r ls v fits in
    let n1 = next_id-resolve_locked r ls v fits in
    let later = resolve_all-Later between r1 v1 (omega (arith, n1)) in
    let r2 = resolve_all r1 between in
    let h1 : lookup (canonical_key ls) r2.by_key ≡ some (resolve_locked r ls).1 =
      later.kept _ _ (by_key-resolve_self r ls v fits) in
    let fits2 : r2.next_id + 1 < 2 ^ 64 = omega (arith, n1, later.next) in
    rw (resolve-resolve_locked r ls, resolve-resolve_locked r2 ms)
      (
        λ e.
            one_key (resolve_locked r2 ms).0 (resolve_locked-IsValid r2 ms later.valid fits2)
              (canonical_key ls) (canonical_key ms) (resolve_locked r2 ms).1
              (kept-resolve_locked r2 ms (canonical_key ls) _ later.valid fits2
                (h1 ∙ ap (λ (i : ℕ). some i) e))
              (by_key-resolve_self r2 ms later.valid fits2),
        λ e. sym (
            ap (λ (p : Registry × ℕ). p.1)
              (resolve_locked_found r2 ms (resolve_locked r ls).1 (rw e at h1))),
      )
