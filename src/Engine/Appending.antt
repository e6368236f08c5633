-- ===== src/Engine/Appending.antt =====
-- What the storage holds before and after Append of storage/storage.go.
use marchimetrics.Base.{
  ℕ, ◌+◌, ◌^◌, ◌≤◌, ◌<◌, ◌≡◌, refl, sym, ap, ◌∙◌, arith, Bool-cases, ◌⊎◌, inl, inr, List, [], ◌∷◌,
  none, some, Option-cases, if◌then◌else◌,
}
use marchimetrics.Base.{◌==◌ as nat_eq}
use marchimetrics.Base.Str.{Str, str_key, nat_key, ◌==◌, str_eq_iff}
use marchimetrics.GoMap.{lookup}
use marchimetrics.GoMap.Sums.{value_of}
use marchimetrics.Label.{Label, canonical_key}
use marchimetrics.Registry.{Registry, labels_of, index_for_day, add_inverted, resolve_locked}
use marchimetrics.Registry.Resolve.{
  IsValid, one_key, resolve-resolve_locked, resolve_locked-IsValid, by_key-resolve_locked,
  by_key-resolve_self, next_id-resolve_locked, next_id-resolve_locked_grows, names-resolve_locked,
  fresh-resolve_locked, resolve_locked_found,
}
use marchimetrics.Sample.{Sample, weigh}
use marchimetrics.Part.{PartData}
use marchimetrics.Partition.Sizes.{one, misfit}
use marchimetrics.Engine.{Storage, append_at, index_days, days_of, append_samples}
use marchimetrics.Engine.Holding.{held, total_weight-append_at}
use marchimetrics.Engine.DayIndex.{Series, series_of, IsKnown, AllKnown}
use marchimetrics.Engine.Conserving.{AllKnown-series_of}
use marchimetrics.Engine.Flushing.{IsSound, AllKnown-append_at, IsValid-series_of}

-- What is held of the series with a canonical key.
unfoldable pub held_at : (Sample → ℕ) → Str → Storage → ℕ
held_at w k st = value_of (λ id. held w id st) (lookup k st.registry.by_key)

series_of-index_days :
    (day_string : ℕ → Str) (days : List Str) (r : Registry) (id : ℕ)
    → series_of (index_days day_string r days id) ≡ series_of r
unfolding index_days index_for_day add_inverted
series_of-index_days day_string [] r id = refl
series_of-index_days day_string (day ∷ days) r id =
    series_of-index_days day_string days (index_for_day r day id) id

-- Resolve keeps the labels of the ids of the buffer.
AllKnown-resolve_locked :
    (r : Registry) (ls : List Label) (m : PartData)
    → IsValid r
    → r.next_id + 1 < 2 ^ 64
    → AllKnown r m
    → AllKnown (resolve_locked r ls).0 m
unfolding labels_of
AllKnown-resolve_locked r ls [] v room h = tt
AllKnown-resolve_locked r ls ((id, s) ∷ m) v room (k, h) =
    (names-resolve_locked r ls id v room k, AllKnown-resolve_locked r ls m v room h)

-- What Append adds: the registry has the labels, and the buffer of their id the samples.
pub record IsAppended (st : Storage) (ls : List Label) (s : List Sample) (r : Storage × ℕ)
    : Type 0 where
  pub series : series_of r.0.registry ≡ series_of (resolve_locked st.registry ls).0
  pub id : r.1 ≡ (resolve_locked st.registry ls).1
  pub partitions_kept : r.0.partitions ≡ st.partitions
  pub left_kept : r.0.left_files ≡ st.left_files
  pub mem : r.0.mem ≡ append_at (resolve_locked st.registry ls).1 s st.mem

pub append_samples-IsAppended :
    (day_string : ℕ → Str) (st : Storage) (ls : List Label) (sm : Sample) (sms : List Sample)
    → IsAppended st ls (sm ∷ sms) (append_samples day_string st ls (sm ∷ sms))
unfolding append_samples
append_samples-IsAppended day_string st ls sm sms =
    rw (resolve-resolve_locked st.registry ls) (record {
      series =
          series_of-index_days day_string (days_of day_string (sm ∷ sms) [])
            (resolve_locked st.registry ls).0 (resolve_locked st.registry ls).1;
      id = refl;
      partitions_kept = refl;
      left_kept = refl;
      mem = refl;
    })

module _ (st : Storage) (ls : List Label) (s : List Sample) (r : Storage × ℕ)
    (appended : IsAppended st ls s r) where
  pub held-append_samples :
      (w : Sample → ℕ) (id : ℕ)
      → held w id r.0 ≡ held w id st + (if nat_eq r.1 id then weigh w s else 0)
  unfolding held
  held-append_samples w id =
      let added = total_weight-append_at w id (resolve_locked st.registry ls).1 s st.mem in
      rw (appended.partitions_kept, appended.mem, appended.id, added) (omega arith)

  module _ (sound_registry : IsValid st.registry) (room : st.registry.next_id + 1 < 2 ^ 64) where
    by_key-appended :
        (k : Str)
        → lookup k r.0.registry.by_key
          ≡ (if canonical_key ls == k then some r.1 else lookup k st.registry.by_key)
    by_key-appended k =
        ap (λ (x : Series). lookup k x.1) appended.series
        ∙ rw appended.id (by_key-resolve_locked st.registry ls k sound_registry room)

    -- The key of the labels had the id before, or the id is new.
    resolved_or_new :
        (lookup (canonical_key ls) st.registry.by_key ≡ some r.1)
        ⊎ ((lookup (canonical_key ls) st.registry.by_key ≡ none) × (r.1 ≡ st.registry.next_id))
    resolved_or_new = elim (Option-cases (lookup (canonical_key ls) st.registry.by_key)) [
      | inl e ↦ inr (e, appended.id ∙ fresh-resolve_locked st.registry ls e)
      | inr (id, e) ↦
          let found = resolve_locked_found st.registry ls id e in
          inl
            (e ∙ ap (λ (i : ℕ). some i) (sym (appended.id ∙ ap (λ (p : Registry × ℕ). p.1) found)))
    ]

    IsValid-appended : IsValid r.0.registry
    IsValid-appended =
        IsValid-series_of (resolve_locked st.registry ls).0 r.0.registry appended.series
          (resolve_locked-IsValid st.registry ls sound_registry room)

    pub next_id-appended : r.0.registry.next_id ≤ st.registry.next_id + 1
    next_id-appended = omega (
      arith,
      ap (λ (x : Series). x.0) appended.series,
      next_id-resolve_locked st.registry ls sound_registry room,
    )

    self_key : lookup (canonical_key ls) r.0.registry.by_key ≡ some r.1
    self_key =
        ap (λ (x : Series). lookup (canonical_key ls) x.1) appended.series
        ∙ rw appended.id (by_key-resolve_self st.registry ls sound_registry room)

    -- What is held under a key grows by the samples if the key is that of the labels.
    pub held_at-append_samples :
        (w : Sample → ℕ) (k : Str)
        → ((id : ℕ) → st.registry.next_id ≤ id → held w id st ≡ 0)
        → held_at w k r.0 ≡ held_at w k st + (if canonical_key ls == k then weigh w s else 0)
    unfolding held_at
    held_at-append_samples w k unused = elim (Bool-cases (canonical_key ls == k)) [
      | inl same ↦
          let e : canonical_key ls ≡ k = (str_eq_iff (canonical_key ls) k).0 same in
          elim resolved_or_new [
            | inl old ↦
                rw (by_key-appended k, same, ← e, old, held-append_samples w r.1) (ground arith)
            | inr (none_yet, new) ↦
                rw (by_key-appended k, same, ← e, none_yet, held-append_samples w r.1)
                  (ground (arith, unused r.1 (omega (arith, new))))
          ]
      | inr other ↦ elim (Option-cases (lookup k st.registry.by_key)) [
        | inl e ↦ rw (by_key-appended k, other, e) refl
        | inr (id, e) ↦
            let there : lookup k r.0.registry.by_key ≡ some id = by_key-appended k ∙ rw other e in
            let apart : r.1 ≡ id → canonical_key ls ≡ k = λ same.
              one_key r.0.registry IsValid-appended (canonical_key ls) k id
                (self_key ∙ ap (λ (i : ℕ). some i) same) there in
            rw (by_key-appended k, other, e, held-append_samples w id)
              (ground (arith, apart, str_eq_iff (canonical_key ls) k, other))
      ]
    ]

    IsKnown-self : IsKnown (resolve_locked st.registry ls).0 (resolve_locked st.registry ls).1
    unfolding labels_of
    IsKnown-self =
        let v = resolve_locked-IsValid st.registry ls sound_registry room in
        let (labels, e, same) =
          v.named (canonical_key ls) (resolve_locked st.registry ls).1
            (by_key-resolve_self st.registry ls sound_registry room) in
        (labels, e)

    AllKnown-appended : AllKnown st.registry st.mem → AllKnown r.0.registry r.0.mem
    AllKnown-appended known =
        AllKnown-series_of r.0.registry (resolve_locked st.registry ls).0 r.0.mem appended.series (
          rw appended.mem (
            AllKnown-append_at (resolve_locked st.registry ls).0 (resolve_locked st.registry ls).1 s
              st.mem IsKnown-self
              (AllKnown-resolve_locked st.registry ls st.mem sound_registry room known)))

    id_given : (r.1 < r.0.registry.next_id) × (st.registry.next_id ≤ r.0.registry.next_id)
    id_given = (
      (IsValid-appended.key_id (canonical_key ls) r.1 self_key).1,
      omega (
        arith,
        ap (λ (x : Series). x.0) appended.series,
        next_id-resolve_locked_grows st.registry ls sound_registry room,
      ),
    )

  -- While an id is left and the samples have room, Append keeps the storage sound.
  pub append_samples-IsSound :
      (part_name : ℕ → Str)
      → IsSound part_name st
      → st.registry.next_id + 1 < 2 ^ 64
      → held one r.1 st + weigh one s < 2 ^ 64
      → weigh misfit s ≡ 0
      → IsSound part_name r.0
  append_samples-IsSound part_name sound room few none_odd =
      let (below, grows) = id_given sound.valid room in
      record {
        valid = IsValid-appended sound.valid room;
        unused = λ w id above.
            held-append_samples w id
            ∙ ground (arith, below, sound.unused w id (omega (arith, grows, above)), above);
        known = AllKnown-appended sound.valid room sound.known;
        named = rw appended.partitions_kept sound.named;
        swept = rw appended.left_kept sound.swept;
        sized = λ j.
            let (few_before, none_before) = sound.sized j in
            (
              rw (held-append_samples one j) (ground (arith, few, few_before)),
              rw (held-append_samples misfit j) (ground (arith, none_odd, none_before)),
            );
      }

  -- What is held of the id that Append returns was held under the key of the labels.
  pub held_at-resolved :
      (w : Sample → ℕ)
      → IsValid st.registry
      → st.registry.next_id + 1 < 2 ^ 64
      → ((id : ℕ) → st.registry.next_id ≤ id → held w id st ≡ 0)
      → held w r.1 st ≡ held_at w (canonical_key ls) st
  unfolding held_at
  held_at-resolved w v room unused = elim (resolved_or_new v room) [
    | inl old ↦ rw old refl
    | inr (none_yet, new) ↦ rw none_yet (unused r.1 (omega (arith, new)))
  ]
