-- ===== src/Server/Serving.antt =====
-- The handlers of cmd/marchimetrics/http.go and cmd/marchimetrics/remote_write.go, one call after the
-- other, against the log of what they accept.
use marchimetrics.Base.{
  ap, ℕ, ◌+◌, ◌≡◌, refl, sym, ◌∙◌, List, [], ◌∷◌, Bool-cases, inl, inr, Option, none, some,
  Option-cases, Result, ok, err, if◌then◌else◌,
}
use marchimetrics.Base.Str.{Str, str_key}
use marchimetrics.Label.{Label, canonical_key}
use marchimetrics.Sample.{Sample, SortsByTime}
use marchimetrics.Partition.Sizes.{IsInjective}
use marchimetrics.Engine.{Storage, flush, force_merge}
use marchimetrics.Engine.Lifecycle.{open_storage}
use marchimetrics.Engine.Opening.{OnlyMergesFail}
use marchimetrics.Engine.Appending.{held_at}
use marchimetrics.Engine.Refinement.{
  Log, logged, Reach, with_threshold, opened, flushed, merged, held_at-Reach,
}
use marchimetrics.Server.{
  Response, ImportRequest, TimeSeries, Request, failed, written, Decoders, decode_import,
  decode_write, import_decoded, write_decoded, handle_import, handle_remote_write,
  handle_force_flush, handle_force_merge, no_content_or, Call, healthz, import, remote_write, query,
  force_flush_call, force_merge_call, serve, serve_all,
}
use marchimetrics.Server.Accepting.{
  import_entries, write_entries, samples_in, log_all, HasSpaces, import_all-Reach,
  write_series_all-Reach, write_series_all-answer,
}

abbrev entries_or : {A : Type 0} → (A → Log) → Option A → Log
entries_or f none = []
entries_or f (some x) = f x

-- The body of a POST.
abbrev posted : Request → Option Str
posted r = if r.post then r.body else none

-- What a call appends.
unfoldable pub accepted : Decoders → Call → Log
accepted d (import r) =
    entries_or (λ body. entries_or import_entries (decode_import d (d.trim_space body))) (posted r)
accepted d (remote_write r) =
    entries_or (λ body. entries_or write_entries (decode_write d body)) (posted r)
accepted d _ = []

-- At most merges fail.
abbrev pub IsCalm : Call → Type 0
IsCalm (force_flush_call faults r) = OnlyMergesFail faults
IsCalm _ = Unit {0}

abbrev pub log_calls : Decoders → Log → List Call → Log
log_calls d log [] = log
log_calls d log (call ∷ calls) = log_calls d (log_all log (accepted d call)) calls

-- At every call at most merges fail, and there is space for what it appends.
abbrev pub IsServed : Decoders → Log → List Call → Type 0
IsServed d log [] = Unit {0}
IsServed d log (call ∷ calls) =
    IsCalm call × HasSpaces log (accepted d call) × IsServed d (log_all log (accepted d call)) calls

module _ (d : Decoders) (day_string : ℕ → Str) (sort_slice : List Sample → List Sample)
    (part_name : ℕ → Str) (atoi : Str → Option ℕ) where
  abbrev Reaches : Storage → Log → Type 0
  Reaches st log = Reach day_string sort_slice part_name atoi st log

  import_decoded-Reach :
      (reqs : Option (List ImportRequest)) (st : Storage) (log : Log)
      → HasSpaces log (entries_or import_entries reqs)
      → Reaches st log
      → Reaches
          (import_decoded d day_string st reqs).0
          (log_all log (entries_or import_entries reqs))
  unfolding import_decoded
  import_decoded-Reach none st log space reach = reach
  import_decoded-Reach (some reqs) st log space reach =
      import_all-Reach d day_string sort_slice part_name atoi reqs st 0 log space reach

  write_decoded-Reach :
      (series : Option (List TimeSeries)) (st : Storage) (log : Log)
      → HasSpaces log (entries_or write_entries series)
      → Reaches st log
      → Reaches
          (write_decoded d day_string st series).0
          (log_all log (entries_or write_entries series))
  unfolding write_decoded
  write_decoded-Reach none st log space reach = reach
  write_decoded-Reach (some series) st log space reach =
      write_series_all-Reach d day_string sort_slice part_name atoi series st 0 log space reach

  -- An answer leaves the storage of the step.
  storage-no_content_or :
      (r : Storage × Result (Unit {0}))
      → (no_content_or d day_string sort_slice part_name atoi r).0 ≡ r.0
  storage-no_content_or (st, ok u) = refl
  storage-no_content_or (st, err e) = refl

  serve-Reach :
      (call : Call) (st : Storage) (log : Log)
      → IsCalm call
      → HasSpaces log (accepted d call)
      → Reaches st log
      → Reaches
          (serve d day_string sort_slice part_name atoi call st).0
          (log_all log (accepted d call))
  unfolding serve accepted handle_import handle_remote_write handle_force_flush handle_force_merge
  serve-Reach healthz st log calm space reach = reach
  serve-Reach (query r) st log calm space reach = reach
  serve-Reach (import r) st log calm space reach = elim (Bool-cases r.post) [
    | inr e ↦ rw (handle_import, e) reach
    | inl e ↦ elim (Option-cases r.body) [
      | inl b ↦ rw (handle_import, e, b) reach
      | inr (body, b) ↦
          rw (handle_import, e, b)
            (import_decoded-Reach (decode_import d (d.trim_space body)) st log (rw (e, b) at space)
              reach)
    ]
  ]
  serve-Reach (remote_write r) st log calm space reach = elim (Bool-cases r.post) [
    | inr e ↦ rw (handle_remote_write, e) reach
    | inl e ↦ elim (Option-cases r.body) [
      | inl b ↦ rw (handle_remote_write, e, b) reach
      | inr (body, b) ↦
          rw (handle_remote_write, e, b)
            (write_decoded-Reach (decode_write d body) st log (rw (e, b) at space) reach)
    ]
  ]
  serve-Reach (force_flush_call faults r) st log calm space reach = elim (Bool-cases r.post) [
    | inr e ↦ rw (handle_force_flush, e) reach
    | inl e ↦
        rw (handle_force_flush, e)
          (rw (storage-no_content_or (flush day_string sort_slice part_name atoi faults st))
            (flushed st log faults calm reach))
  ]
  serve-Reach (force_merge_call faults r) st log calm space reach = elim (Bool-cases r.post) [
    | inr e ↦ rw (handle_force_merge, e) reach
    | inl e ↦
        let r = force_merge day_string sort_slice part_name atoi faults st.partitions in
        rw (handle_force_merge, e)
          (rw (storage-no_content_or (record st { partitions = r.0 }, r.1))
            (merged st log faults reach))
  ]

  serve_all-Reach :
      (calls : List Call) (st : Storage) (log : Log)
      → IsServed d log calls
      → Reaches st log
      → Reaches (serve_all d day_string sort_slice part_name atoi calls st) (log_calls d log calls)
  unfolding serve_all
  serve_all-Reach [] st log served reach = reach
  serve_all-Reach (call ∷ calls) st log (calm, space, served) reach =
      serve_all-Reach calls (serve d day_string sort_slice part_name atoi call st).0
        (log_all log (accepted d call)) served (serve-Reach call st log calm space reach)

  -- From an empty directory, with any threshold for the merges, after any calls of the HTTP handlers
  -- in any order, whatever the requests are, the storage holds of every label set exactly the samples that the import and remote write
  -- calls accepted for label sets with its canonical key, each as often as it was accepted. This
  -- holds where the sort sorts, part names differ, only merges fail, and there is space for the
  -- accepted samples, which bounds the ids and the sizes below 2^64.
  pub held_at-serve_all :
      (st : Storage) (min : ℕ) (calls : List Call)
      → SortsByTime sort_slice
      → IsInjective part_name
      → open_storage atoi [] [] [] ≡ ok st
      → IsServed d [] calls
      → (w : Sample → ℕ) (ls : List Label)
      → held_at w
          (canonical_key ls)
          (serve_all d day_string sort_slice part_name atoi calls (with_threshold min st))
        ≡ logged w (canonical_key ls) (log_calls d [] calls)
  held_at-serve_all st min calls sorts distinct is_open served w ls =
      held_at-Reach day_string sort_slice part_name atoi sorts distinct
        (serve_all d day_string sort_slice part_name atoi calls (with_threshold min st))
        (log_calls d [] calls)
        (serve_all-Reach calls (with_threshold min st) [] served (opened st min is_open)) w ls

write_decoded-failed :
    (d : Decoders) (day_string : ℕ → Str) (series : Option (List TimeSeries)) (st : Storage) (c : ℕ)
    → (write_decoded d day_string st series).1 ≡ failed c
    → (write_decoded d day_string st series).0 ≡ st
unfolding write_decoded
write_decoded-failed d day_string none st c e = refl
write_decoded-failed d day_string (some series) st c e =
    let answer = write_series_all-answer d day_string series st 0 in
    let both : written (0 + samples_in (write_entries series)) ≡ failed c =
      sym (ap (λ (p : Storage × Response). p.1) answer) ∙ e in
    absurd (cc)

-- A remote write that is answered by an error status has left the storage as it was.
pub handle_remote_write-failed :
    (d : Decoders) (day_string : ℕ → Str) (r : Request) (st : Storage) (c : ℕ)
    → (handle_remote_write d day_string r st).1 ≡ failed c
    → (handle_remote_write d day_string r st).0 ≡ st
unfolding handle_remote_write
handle_remote_write-failed d day_string r st c e = elim (Bool-cases r.post) [
  | inr p ↦ rw (handle_remote_write, p) refl
  | inl p ↦ elim (Option-cases r.body) [
    | inl b ↦ rw (handle_remote_write, p, b) refl
    | inr (body, b) ↦
        let e' : (write_decoded d day_string st (decode_write d body)).1 ≡ failed c =
          rw (handle_remote_write, p, b) at e in
        rw (handle_remote_write, p, b)
          (write_decoded-failed d day_string (decode_write d body) st c e')
  ]
]
