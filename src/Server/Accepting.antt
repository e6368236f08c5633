-- ===== src/Server/Accepting.antt =====
-- What handleImport of cmd/marchimetrics/http.go and handleRemoteWrite of
-- cmd/marchimetrics/remote_write.go append to the storage.
use marchimetrics.GoMap.{contains}
use marchimetrics.Label.{Label, metric_name_label}
use marchimetrics.Base.{
  true, false, ap, map, ltb, ℕ, ◌+◌, ◌≡◌, refl, ◌∙◌, arith, List, [], ◌∷◌, Bool, not, ◌&&◌, ◌||◌,
  Bool-cases, inl, inr, Option, if◌then◌else◌, length,
}
use marchimetrics.Base.Str.{Str, str_key}
use marchimetrics.Sample.{Sample}
use marchimetrics.Engine.{Storage, append_samples}
use marchimetrics.Engine.Refinement.{Log, HasSpace, Reach, appended}
use marchimetrics.Server.{
  ImportRequest, TimeSeries, failed, imported, written, Decoders, import_labels, is_blank, has_name,
  no_samples, import_all, write_series_all,
}

-- The entries in front of the first without a metric.
unfoldable pub import_entries : List ImportRequest → Log
import_entries [] = []
import_entries (req ∷ reqs) =
    let rest = import_entries reqs in
    if is_blank req.metric then [] else (import_labels req, req.samples) ∷ rest

unfoldable pub all_have_metric : List ImportRequest → Bool
all_have_metric [] = true
all_have_metric (req ∷ reqs) = not (is_blank req.metric) && all_have_metric reqs

-- Some label is the metric name.
abbrev pub carries_name : List Label → Bool
carries_name ls = contains metric_name_label (map (λ (l : Label). l.name) ls)

-- The series with a metric name and samples.
unfoldable pub write_entries : List TimeSeries → Log
write_entries [] = []
write_entries (ts ∷ series) =
    let rest = write_entries series in
    if carries_name ts.labels && ltb 0 (length ts.samples)
    then (ts.labels, ts.samples) ∷ rest
    else rest

has_name-contains : (ls : List Label) → has_name ls ≡ carries_name ls
unfolding has_name contains
has_name-contains [] = refl
has_name-contains (l ∷ ls) = rw (has_name-contains ls) refl

no_samples-length : (s : List Sample) → no_samples s ≡ not (ltb 0 (length s))
no_samples-length [] = refl
no_samples-length (sm ∷ s) = ground arith

not_both : (a b : Bool) → (not a || not b) ≡ not (a && b)
not_both true b = refl
not_both false b = refl

-- The loop's test is the negation of the filter's.
skipped_iff :
    (ts : TimeSeries)
    → (not (has_name ts.labels) || no_samples ts.samples)
      ≡ not (carries_name ts.labels && ltb 0 (length ts.samples))
skipped_iff ts =
    rw (has_name-contains ts.labels, no_samples-length ts.samples)
      (not_both (carries_name ts.labels) (ltb 0 (length ts.samples)))

unfoldable pub samples_in : Log → ℕ
samples_in [] = 0
samples_in ((ls, s) ∷ log) = length s + samples_in log

-- The log after the entries, one after the other.
abbrev pub log_all : Log → Log → Log
log_all log [] = log
log_all log (e ∷ es) = log_all (e ∷ log) es

-- Every entry has space when its turn comes.
abbrev pub HasSpaces : Log → Log → Type 0
HasSpaces log [] = Unit {0}
HasSpaces log ((ls, s) ∷ es) = HasSpace log ls s × HasSpaces ((ls, s) ∷ log) es

zero_more : (n : ℕ) → n ≡ n + 0
zero_more n = omega arith

more_again : (n a b : ℕ) → n + a + b ≡ n + (a + b)
more_again n a b = omega arith

-- The storage after an Append of every entry, one after the other.
unfoldable pub append_all : (ℕ → Str) → Storage → Log → Storage
append_all day_string st [] = st
append_all day_string st ((ls, s) ∷ log) =
    append_all day_string (append_samples day_string st ls s).0 log

module _ (d : Decoders) (day_string : ℕ → Str) where
  -- The loop of an import answers with the number of samples of all entries when each of them has a
  -- metric, and with 400 when one has none, whatever the storage.
  pub import_all-answer :
      (reqs : List ImportRequest) (st : Storage) (n : ℕ)
      → (import_all d day_string st n reqs).1 ≡ (
          if all_have_metric reqs
          then imported (n + samples_in (import_entries reqs))
          else failed 400)
  unfolding import_all all_have_metric samples_in import_entries
  import_all-answer [] st n = ground arith
  import_all-answer (req ∷ reqs) st n = elim (Bool-cases (is_blank req.metric)) [
    | inl e ↦ rw e refl
    | inr e ↦
        let st' = (append_samples day_string st (import_labels req) req.samples).0 in
        rw e (import_all-answer reqs st' (n + length req.samples) ∙ ground arith)
  ]

  -- The loop of a remote write appends to the storage exactly the series that have a label with the
  -- metric's name and at least one sample, in their order, and answers with the number of samples of
  -- those series.
  pub write_series_all-answer :
      (series : List TimeSeries) (st : Storage) (n : ℕ)
      → write_series_all d day_string st n series ≡ (
        append_all day_string st (write_entries series),
        written (n + samples_in (write_entries series)),
      )
  unfolding write_series_all samples_in write_entries append_all
  write_series_all-answer [] st n = ap (λ m. (st, written m)) (zero_more n)
  write_series_all-answer (ts ∷ series) st n =
      elim (Bool-cases (carries_name ts.labels && ltb 0 (length ts.samples))) [
        | inr e ↦ rw (skipped_iff ts, e) (write_series_all-answer series st n)
        | inl e ↦
            let st' = (append_samples day_string st ts.labels ts.samples).0 in
            let later = write_entries series in
            rw (skipped_iff ts, e)
              (write_series_all-answer series st' (n + length ts.samples)
                ∙ ap (λ m. (append_all day_string st' later, written m))
                    (more_again n (length ts.samples) (samples_in later)))
      ]

  module _ (sort_slice : List Sample → List Sample) (part_name : ℕ → Str)
      (atoi : Str → Option ℕ) where
    pub import_all-Reach :
        (reqs : List ImportRequest) (st : Storage) (n : ℕ) (log : Log)
        → HasSpaces log (import_entries reqs)
        → Reach day_string sort_slice part_name atoi st log
        → Reach day_string sort_slice part_name atoi
            (import_all d day_string st n reqs).0
            (log_all log (import_entries reqs))
    unfolding import_all import_entries
    import_all-Reach [] st n log space reach = reach
    import_all-Reach (req ∷ reqs) st n log space reach = elim (Bool-cases (is_blank req.metric)) [
      | inl e ↦ rw e reach
      | inr e ↦
          let ls = import_labels req in
          let here : HasSpaces log ((ls, req.samples) ∷ import_entries reqs) = rw e at space in
          rw e (
            import_all-Reach reqs (append_samples day_string st ls req.samples).0
              (n + length req.samples) ((ls, req.samples) ∷ log) here.1
              (appended st log ls req.samples here.0 reach))
    ]

    pub write_series_all-Reach :
        (series : List TimeSeries) (st : Storage) (n : ℕ) (log : Log)
        → HasSpaces log (write_entries series)
        → Reach day_string sort_slice part_name atoi st log
        → Reach day_string sort_slice part_name atoi
            (write_series_all d day_string st n series).0
            (log_all log (write_entries series))
    unfolding write_series_all write_entries
    write_series_all-Reach [] st n log space reach = reach
    write_series_all-Reach (ts ∷ series) st n log space reach =
        elim (Bool-cases (carries_name ts.labels && ltb 0 (length ts.samples))) [
          | inr e ↦
              rw (skipped_iff ts, e) (write_series_all-Reach series st n log (rw e at space) reach)
          | inl e ↦
              let here : HasSpaces log ((ts.labels, ts.samples) ∷ write_entries series) =
                rw e at space in
              rw (skipped_iff ts, e)
                (write_series_all-Reach series (append_samples day_string st ts.labels ts.samples).0
                  (n + length ts.samples) ((ts.labels, ts.samples) ∷ log) here.1
                  (appended st log ts.labels ts.samples here.0 reach))
        ]
