-- ===== src/Registry/Reload.antt =====
-- LoadEntries of storage/series.go on the entries of a registry, one after the other, as
-- loadRegistry of storage/storage.go replays them.
use marchimetrics.Base.{
  ℕ, ◌+◌, ◌%◌, ◌^◌, ◌≤◌, ◌<◌, ◌≡◌, refl, sym, ap, ◌∙◌, arith, Bool-cases, ◌⊎◌, inl, inr, List, [],
  ◌∷◌, true, false, Option, none, some, if◌then◌else◌, ltb, leb, ==_iff,
}
use marchimetrics.Base.{◌==◌ as nat_eq}
use marchimetrics.Base.Str.{Str, str_key, nat_key, ◌==◌, str_eq_iff}
use marchimetrics.GoMap.{lookup, insert}
use marchimetrics.GoMap.Laws.{lookup-insert, eq_refl}
use marchimetrics.Label.{Label, sorted_labels, canonical_key}
use marchimetrics.Label.Sort.{canonical_key-sorted_labels}
use marchimetrics.Segment.{Entry}
use marchimetrics.Registry.{Registry, new_registry, is_id, load_loop, load_entries}
use marchimetrics.Registry.Resolve.{IsValid, one_key, new_registry-IsValid}

-- An entry that the registry has written: its key has its id.
abbrev pub IsEntry : Registry → Entry → Type 0
IsEntry r e = lookup (canonical_key e.labels) r.by_key ≡ some e.id

-- A registry that was loaded from entries of another.
pub record IsLoaded (r l : Registry) : Type 0 where
  pub valid : IsValid l
  pub agrees : (k : Str) (id : ℕ) → lookup k l.by_key ≡ some id → lookup k r.by_key ≡ some id
  pub next : l.next_id ≤ r.next_id

-- The registry after an entry that it did not know.
abbrev put_entry : Registry → Entry → Registry
put_entry l e = record l {
  names = insert e.id (sorted_labels e.labels) l.names;
  by_key = insert (canonical_key e.labels) e.id l.by_key;
  next_id = if leb l.next_id e.id then e.id + 1 else l.next_id;
}

module _ (r : Registry) (v : IsValid r) (bound : r.next_id < 2 ^ 64) (l : Registry)
    (h : IsLoaded r l) (e : Entry) (entry : IsEntry r e) where
  given : (1 ≤ e.id) × (e.id < r.next_id)
  given = v.key_id (canonical_key e.labels) e.id entry

  load_entries-one :
      load_entries l (e ∷ [])
      ≡ (if is_id e.id (lookup (canonical_key e.labels) l.by_key) then l else put_entry l e)
  unfolding load_entries load_loop
  load_entries-one =
      let low : leb l.next_id 0 ≡ false = ground (arith, h.valid.started) in
      let positive : ltb 0 e.id ≡ true = ground (arith, given) in
      let wrap : (e.id + 1) % 2 ^ 64 ≡ e.id + 1 = omega (arith, given, bound) in
      elim (Bool-cases (is_id e.id (lookup (canonical_key e.labels) l.by_key))) [
        | inl c ↦ rw (load_entries, canonical_key-sorted_labels e.labels, c) (rw low refl)
        | inr c ↦ elim (Bool-cases (leb l.next_id e.id)) [
          | inl b ↦
              rw (load_entries, canonical_key-sorted_labels e.labels, c)
                (rw (positive, b, wrap) refl)
          | inr b ↦
              rw (load_entries, canonical_key-sorted_labels e.labels, c) (rw (positive, b) refl)
        ]
      ]

  by_key-put_entry :
      (k : Str)
      → lookup k (put_entry l e).by_key
        ≡ (if canonical_key e.labels == k then some e.id else lookup k l.by_key)
  by_key-put_entry k = lookup-insert (canonical_key e.labels) k e.id l.by_key

  -- A key of the new registry is the entry's or an old one.
  put_key :
      (k : Str) (id : ℕ)
      → lookup k (put_entry l e).by_key ≡ some id
      → ((canonical_key e.labels ≡ k) × (e.id ≡ id)) ⊎ (lookup k l.by_key ≡ some id)
  put_key k id q = elim (Bool-cases (canonical_key e.labels == k)) [
    | inl c ↦
        let q' : some e.id ≡ some id = sym (by_key-put_entry k ∙ rw c refl) ∙ q in
        inl ((str_eq_iff (canonical_key e.labels) k).0 c, cc)
    | inr c ↦ inr (sym (by_key-put_entry k ∙ rw c refl) ∙ q)
  ]

  put_agrees :
      (k : Str) (id : ℕ) → lookup k (put_entry l e).by_key ≡ some id → lookup k r.by_key ≡ some id
  put_agrees k id q = elim (put_key k id q) [
    | inl (same_key, same_id) ↦ rw (← same_key, ← same_id) entry
    | inr old ↦ h.agrees k id old
  ]

  put_named :
      (k : Str) (id : ℕ)
      → lookup k (put_entry l e).by_key ≡ some id
      → (ls : List Label) × (lookup id (put_entry l e).names ≡ some ls) × (canonical_key ls ≡ k)
  put_named k id q =
      let names = lookup-insert e.id id (sorted_labels e.labels) l.names in
      elim (Bool-cases (nat_eq e.id id)) [
        | inl c ↦
            let same_id : e.id ≡ id = (==_iff e.id id).0 c in
            let same_key : canonical_key e.labels ≡ k =
              one_key r v (canonical_key e.labels) k e.id entry (rw same_id (put_agrees k id q)) in
            (
              sorted_labels e.labels,
              names ∙ rw c refl,
              canonical_key-sorted_labels e.labels ∙ same_key,
            )
        | inr c ↦ elim (put_key k id q) [
          | inl (same_key, same_id) ↦
              let both : nat_eq e.id id ≡ true = (==_iff e.id id).1 same_id in
              let never : true ≡ false = sym both ∙ c in absurd (cc)
          | inr old ↦
              let (ls, there, same_key) = h.valid.named k id old in
              (ls, names ∙ rw c there, same_key)
        ]
      ]

  put_entry-IsLoaded : IsLoaded r (put_entry l e)
  put_entry-IsLoaded = record {
    valid = record {
      started = ground (arith, h.valid.started, given);
      key_id = λ k id q. elim (put_key k id q) [
        | inl (same_key, same_id) ↦ ground (arith, given, same_id)
        | inr old ↦ ground (arith, h.valid.key_id k id old)
      ];
      named = put_named;
    };
    agrees = put_agrees;
    next = ground (arith, given, h.next);
  }

  -- What an entry's load keeps and adds.
  pub record LoadsOne (l' : Registry) : Type 0 where
    pub loaded : IsLoaded r l'
    pub self : lookup (canonical_key e.labels) l'.by_key ≡ some e.id
    pub kept : (k : Str) (id : ℕ) → lookup k l.by_key ≡ some id → lookup k l'.by_key ≡ some id

  put_entry-LoadsOne : LoadsOne (put_entry l e)
  put_entry-LoadsOne = record {
    loaded = put_entry-IsLoaded;
    self = by_key-put_entry (canonical_key e.labels) ∙ rw (eq_refl (canonical_key e.labels)) refl;
    kept = λ k id q. elim (Bool-cases (canonical_key e.labels == k)) [
      | inl c ↦
          let same : canonical_key e.labels ≡ k = (str_eq_iff (canonical_key e.labels) k).0 c in
          let q' : lookup (canonical_key e.labels) r.by_key ≡ some id = rw same (h.agrees k id q) in
          let ids : some e.id ≡ some id = sym entry ∙ q' in by_key-put_entry k ∙ rw c ids
      | inr c ↦ by_key-put_entry k ∙ rw c q
    ];
  }

  known_id : (o : Option ℕ) → is_id e.id o ≡ true → o ≡ some e.id
  known_id none q = absurd (cc)
  known_id (some i) q = ap (λ n. some n) ((==_iff i e.id).0 q)

  pub load_entries-LoadsOne : LoadsOne (load_entries l (e ∷ []))
  load_entries-LoadsOne =
      elim (Bool-cases (is_id e.id (lookup (canonical_key e.labels) l.by_key))) [
        | inl c ↦
            rw (load_entries-one, c)
              (record {
                loaded = h;
                self = known_id (lookup (canonical_key e.labels) l.by_key) c;
                kept = λ k id q. q;
              })
        | inr c ↦ rw (load_entries-one, c) put_entry-LoadsOne
      ]

pub new_registry-IsLoaded : (r : Registry) → IsValid r → IsLoaded r new_registry
unfolding lookup
new_registry-IsLoaded r v = record {
  valid = new_registry-IsValid;
  agrees = λ k id q. cc;
  next = omega (arith, v.started);
}
