-- ===== src/Engine/Lifecycle/Reload.antt =====
-- The forward loop of loadRegistry of storage/storage.go on the segments that Flush wrote.
use marchimetrics.Base.{ℕ, ◌^◌, ◌≤◌, ◌<◌, ◌≡◌, refl, ◌∙◌, List, [], ◌∷◌, All, some, ok, map}
use marchimetrics.Base.Str.{Str, str_key}
use marchimetrics.GoMap.{lookup}
use marchimetrics.Label.{canonical_key}
use marchimetrics.Segment.{Entry, segment_bytes, read_index_segment}
use marchimetrics.Segment.Records.{Fits}
use marchimetrics.Segment.Replay.{replay, replay_whole}
use marchimetrics.Registry.{Registry, new_registry, resolve, load_entries}
use marchimetrics.Registry.Resolve.{IsValid, resolve-resolve_locked, resolve_locked_found}
use marchimetrics.Registry.Reload.{IsEntry, IsLoaded, load_entries-LoadsOne, new_registry-IsLoaded}
use marchimetrics.Engine.Lifecycle.{load_forward, replay_files}

-- The entries of a segment.
abbrev pub FitsAll : Registry → List Entry → Type 0
FitsAll r es = All Fits es × All (IsEntry r) es

module _ (r : Registry) (v : IsValid r) (bound : r.next_id < 2 ^ 64) where
  abbrev Has : Registry → Entry → Type 0
  Has l e = lookup (canonical_key e.labels) l.by_key ≡ some e.id

  abbrev Kept : Registry → Registry → Type 0
  Kept l l' = (k : Str) (id : ℕ) → lookup k l.by_key ≡ some id → lookup k l'.by_key ≡ some id

  replay-IsLoaded :
      (es : List Entry) (l : Registry)
      → All (IsEntry r) es
      → IsLoaded r l
      → (l' : Registry) × (replay load_forward es l ≡ ok l')
        × IsLoaded r l'
        × Kept l l'
        × All (Has l') es
  unfolding replay load_forward
  replay-IsLoaded [] l entries h = (l, refl, h, (λ k id q. q), tt)
  replay-IsLoaded (e ∷ es) l (entry, entries) h =
      let one = load_entries-LoadsOne r v bound l h e entry in
      let (l', run, loaded, kept, has) =
        replay-IsLoaded es (load_entries l (e ∷ [])) entries one.loaded in
      (
        l',
        run,
        loaded,
        (λ k id q. kept k id (one.kept k id q)),
        (kept (canonical_key e.labels) e.id one.self, has),
      )

  All-Kept : (l l' : Registry) (es : List Entry) → Kept l l' → All (Has l) es → All (Has l') es
  All-Kept l l' [] kept h = tt
  All-Kept l l' (e ∷ es) kept (q, h) =
      (kept (canonical_key e.labels) e.id q, All-Kept l l' es kept h)

  replay_files-IsLoaded :
      (files : List (List Entry)) (l : Registry)
      → All (FitsAll r) files
      → IsLoaded r l
      → (l' : Registry) × (replay_files load_forward l (map segment_bytes files) ≡ ok l')
        × IsLoaded r l'
        × Kept l l'
        × All (All (Has l')) files
  unfolding replay_files
  replay_files-IsLoaded [] l good h = (l, refl, h, (λ k id q. q), tt)
  replay_files-IsLoaded (es ∷ files) l ((fits, entries), good) h =
      let (l1, run1, h1, kept1, has1) = replay-IsLoaded es l entries h in
      let (l2, run2, h2, kept2, has2) = replay_files-IsLoaded files l1 good h1 in
      let first : read_index_segment load_forward (segment_bytes es) l ≡ ok l1 =
        replay_whole load_forward es l fits ∙ run1 in
      (
        l2,
        rw first run2,
        h2,
        (λ k id q. kept2 k id (kept1 k id q)),
        (All-Kept l1 l2 es kept2 has1, has2),
      )

  resolve-Has :
      (l : Registry) (es : List Entry)
      → All (Has l) es
      → All (λ e. resolve l e.labels ≡ (l, e.id)) es
  resolve-Has l [] h = tt
  resolve-Has l (e ∷ es) (q, h) = (
    resolve-resolve_locked l e.labels ∙ resolve_locked_found l e.labels e.id q,
    resolve-Has l es h,
  )

  resolve-All :
      (l : Registry) (files : List (List Entry))
      → All (All (Has l)) files
      → All (All (λ e. resolve l e.labels ≡ (l, e.id))) files
  resolve-All l [] h = tt
  resolve-All l (es ∷ files) (q, h) = (resolve-Has l es q, resolve-All l files h)

  -- From the segments that hold entries of a well-formed registry, each with the id of its key and of
  -- Go's sizes, the loop of loadRegistry rebuilds a well-formed registry that gives no id above the
  -- old next one, and whose Resolve gives to the labels of every entry the id they had.
  pub resolve-replay_files :
      (files : List (List Entry))
      → All (FitsAll r) files
      → (l : Registry) × (replay_files load_forward new_registry (map segment_bytes files) ≡ ok l)
        × IsValid l
        × (l.next_id ≤ r.next_id)
        × All (All (λ (e : Entry). resolve l e.labels ≡ (l, e.id))) files
  resolve-replay_files files good =
      let (l, run, loaded, kept, has) =
        replay_files-IsLoaded files new_registry good (new_registry-IsLoaded r v) in
      (l, run, loaded.valid, loaded.next, resolve-All l files has)
