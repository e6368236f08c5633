-- ===== src/Server.antt =====
-- The HTTP server of cmd/marchimetrics/http.go and cmd/marchimetrics/remote_write.go, and
-- parseRetentionDays of cmd/marchimetrics/main.go. A handler is a step on the storage that gives an
-- answer. What the decoders of other libraries make of a body is a parameter.
pub mod Accepting
pub mod Serving
pub mod Days
use marchimetrics.Base.{
  ℕ, ◌+◌, List, [], ◌∷◌, ◌++◌, Bool, true, false, not, ◌&&◌, ◌||◌, Option, none, some, Result, ok,
  err, ◌>>=◌, bad_parameter, if◌then◌else◌, length, map,
}
use marchimetrics.Base.{◌==◌ as nat_eq}
use marchimetrics.Base.Int.{ℤ, pos, negsuc}
use marchimetrics.Base.Str.{Str, str_eq, str_key}
use marchimetrics.GoMap.{GoMap, insert}
use marchimetrics.Label.{Label, metric_name_label}
use marchimetrics.Sample.{Sample, lt64}
use marchimetrics.Part.{QueryStats}
use marchimetrics.Partition.{Fault}
use marchimetrics.Registry.{Matcher}
use marchimetrics.Selector.{parse_selector}
use marchimetrics.Engine.{Storage, FlushFaults, append_samples, flush, force_merge}
use marchimetrics.Engine.Query.{SeriesResult, query_range}

-- importRequest; the labels of the map stand in the order in which `range` gives them.
pub record ImportRequest : Type 0 where
  pub metric : Str
  pub labels : List Label
  pub samples : List Sample

-- prompb.TimeSeries
pub record TimeSeries : Type 0 where
  pub labels : List Label
  pub samples : List Sample

-- matrixEntry: the seconds of a value as a float64, its text.
pub record MatrixEntry : Type 0 where
  pub metric : GoMap Str Str
  pub values : List (ℕ × Str)

pub data Response : Type 0 where
  failed : ℕ → Response
  healthy : Response
  imported : ℕ → Response
  written : ℕ → Response
  no_content : Response
  matrix : QueryStats → List MatrixEntry → Response

-- The functions of other libraries that the handlers call.
pub record Decoders : Type 0 where
  pub trim_space : Str → Str
  pub unquote : Str → Option Str
  pub unmarshal_many : Str → Option (List ImportRequest)
  pub unmarshal_one : Str → Option ImportRequest
  pub snappy_decode : Str → Option Str
  pub unmarshal_write : Str → Option (List TimeSeries)
  -- time.Parse with RFC3339, in milliseconds
  pub parse_rfc3339 : Str → Option ℕ
  -- strconv.ParseFloat, and `int64(f * 1000)`
  pub parse_float : Str → Option ℕ
  pub to_millis : ℕ → ℕ
  -- `float64(ms) / 1000`, and strconv.FormatFloat
  pub to_seconds : ℕ → ℕ
  pub format_float : ℕ → Str

-- A request: whether its method is POST, its body if it can be read, and its query parameters.
pub record Request : Type 0 where
  pub post : Bool
  pub body : Option Str
  pub query : Str
  pub start : Str
  pub end : Str

-- The labels that handleImport gives to Append.
abbrev pub import_labels : ImportRequest → List Label
import_labels req = record { name = metric_name_label; value = req.metric } ∷ req.labels

abbrev pub is_blank : Str → Bool
is_blank [] = true
is_blank (c ∷ s) = false

-- `hasName`
unfoldable pub has_name : List Label → Bool
has_name [] = false
has_name (l ∷ ls) = str_eq l.name metric_name_label || has_name ls

abbrev pub no_samples : List Sample → Bool
no_samples [] = true
no_samples (sm ∷ sms) = false

-- parseTimeParam
unfoldable pub parse_time_param : Decoders → Str → Result ℕ
parse_time_param d [] = err bad_parameter
parse_time_param d (c ∷ s) = elim (d.parse_rfc3339 (c ∷ s)) [
  | some ms ↦ ok ms
  | none ↦ elim (d.parse_float (c ∷ s)) [ none ↦ err bad_parameter | some f ↦ ok (d.to_millis f) ]
]

-- The metric of an entry: of two labels with one name the later stays.
unfoldable pub metric_map : List Label → GoMap Str Str → GoMap Str Str
metric_map [] m = m
metric_map (l ∷ ls) m = metric_map ls (insert l.name l.value m)

unfoldable pub matrix_values : Decoders → List Sample → List (ℕ × Str)
matrix_values d [] = []
matrix_values d (sm ∷ sms) =
    (d.to_seconds sm.timestamp, d.format_float sm.value) ∷ matrix_values d sms

unfoldable pub matrix_entries : Decoders → List SeriesResult → List MatrixEntry
unfolding metric_map matrix_values
matrix_entries d [] = []
matrix_entries d (sr ∷ rest) =
    record { metric = metric_map sr.labels []; values = matrix_values d sr.samples }
    ∷ matrix_entries d rest

-- The entries of the body: an array, or one object.
unfoldable pub decode_import : Decoders → Str → Option (List ImportRequest)
decode_import d [] = none
decode_import d (c ∷ s) =
    if nat_eq c 91
    then d.unmarshal_many (c ∷ s)
    else elim (d.unmarshal_one (c ∷ s)) [ none ↦ none | some req ↦ some (req ∷ []) ]

unfoldable pub decode_write : Decoders → Str → Option (List TimeSeries)
decode_write d body = elim (d.snappy_decode body) [ none ↦ none | some raw ↦ d.unmarshal_write raw ]

-- The text in front of a last byte `d`.
unfoldable pub cut_days : Str → Option Str
cut_days [] = none
cut_days (c ∷ []) = if nat_eq c 100 then some [] else none
cut_days (c ∷ e ∷ s) = elim (cut_days (e ∷ s)) [ none ↦ none | some days ↦ some (c ∷ days) ]

abbrev pub day_count : Option ℤ → Result ℕ
day_count (some (pos n)) = ok n
day_count _ = err bad_parameter

-- parseRetentionDays; `atoi` is strconv.Atoi.
unfoldable pub parse_retention_days : (Str → Str) → (Str → Option ℤ) → Str → Result ℕ
unfolding cut_days
parse_retention_days trim_space atoi s =
    let trimmed = trim_space s in
    if is_blank trimmed || str_eq trimmed (48 ∷ [])
    then ok 0
    else elim (cut_days trimmed) [ none ↦ err bad_parameter | some days ↦ day_count (atoi days) ]

module _ (d : Decoders) (day_string : ℕ → Str) where
  -- handleImport's loop: the entries in front of one without a metric stay appended.
  unfoldable pub import_all : Storage → ℕ → List ImportRequest → Storage × Response
  import_all st ingested [] = (st, imported ingested)
  import_all st ingested (req ∷ reqs) =
      let st' = (append_samples day_string st (import_labels req) req.samples).0 in
      let rest = import_all st' (ingested + length req.samples) reqs in
      if is_blank req.metric then (st, failed 400) else rest

  unfoldable pub import_decoded : Storage → Option (List ImportRequest) → Storage × Response
  unfolding import_all
  import_decoded st none = (st, failed 400)
  import_decoded st (some reqs) = import_all st 0 reqs

  unfoldable pub handle_import : Request → Storage → Storage × Response
  unfolding import_decoded decode_import
  handle_import r st = if not r.post then (st, failed 405) else elim r.body [
    | none ↦ (st, failed 400)
    | some body ↦ import_decoded st (decode_import d (d.trim_space body))
  ]

  -- handleRemoteWrite's loop: a series without a name or without samples is skipped.
  unfoldable pub write_series_all : Storage → ℕ → List TimeSeries → Storage × Response
  unfolding has_name
  write_series_all st ingested [] = (st, written ingested)
  write_series_all st ingested (ts ∷ rest) =
      let skipped = write_series_all st ingested rest in
      let st' = (append_samples day_string st ts.labels ts.samples).0 in
      let appended = write_series_all st' (ingested + length ts.samples) rest in
      if not (has_name ts.labels) || no_samples ts.samples then skipped else appended

  unfoldable pub write_decoded : Storage → Option (List TimeSeries) → Storage × Response
  unfolding write_series_all
  write_decoded st none = (st, failed 400)
  write_decoded st (some series) = write_series_all st 0 series

  unfoldable pub handle_remote_write : Request → Storage → Storage × Response
  unfolding write_decoded decode_write
  handle_remote_write r st = if not r.post then (st, failed 405) else elim r.body [
    | none ↦ (st, failed 400)
    | some body ↦ write_decoded st (decode_write d body)
  ]

  module _ (sort_slice : List Sample → List Sample) (part_name : ℕ → Str)
      (atoi : Str → Option ℕ) where
    -- The answer to an error of the storage, and to none.
    abbrev pub no_content_or : Storage × Result (Unit {0}) → Storage × Response
    no_content_or (st, ok u) = (st, no_content)
    no_content_or (st, err e) = (st, failed 500)

    unfoldable pub handle_force_flush : FlushFaults → Request → Storage → Storage × Response
    handle_force_flush faults r st =
        if not r.post
        then (st, failed 405)
        else no_content_or (flush day_string sort_slice part_name atoi faults st)

    unfoldable pub handle_force_merge : (Str → Fault) → Request → Storage → Storage × Response
    handle_force_merge faults r st =
        if not r.post
        then (st, failed 405)
        else (let (ps, e) = force_merge day_string sort_slice part_name atoi faults st.partitions in
            no_content_or (record st { partitions = ps }, e))

  -- What handleQueryRange answers to the result of QueryRange.
  abbrev pub matrix_or : Result (List SeriesResult × QueryStats) → Response
  matrix_or (err e) = failed 500
  matrix_or (ok (results, stats)) = matrix stats (matrix_entries d results)

  abbrev pub query_parsed :
      (List Sample → List Sample) → Storage → Result (List Matcher × ℕ × ℕ) → Response
  query_parsed sort_slice st (err e) = failed 400
  query_parsed sort_slice st (ok (matchers, start, end)) =
      if lt64 end start
      then failed 400
      else matrix_or (query_range day_string sort_slice st matchers start end)

  unfoldable pub handle_query_range : (List Sample → List Sample) → Request → Storage → Response
  unfolding parse_time_param matrix_entries
  handle_query_range sort_slice r st = query_parsed sort_slice st (do
    matchers ← parse_selector d.trim_space d.unquote r.query
    start ← parse_time_param d r.start
    end ← parse_time_param d r.end
    ok (matchers, start, end))

-- A call of one of the routes, with what fails during it.
pub data Call : Type 0 where
  healthz : Call
  import : Request → Call
  remote_write : Request → Call
  query : Request → Call
  force_flush_call : FlushFaults → Request → Call
  force_merge_call : (Str → Fault) → Request → Call

module _ (d : Decoders) (day_string : ℕ → Str) (sort_slice : List Sample → List Sample)
    (part_name : ℕ → Str) (atoi : Str → Option ℕ) where
  -- The handlers of the routes.
  unfoldable pub serve : Call → Storage → Storage × Response
  unfolding handle_import handle_remote_write handle_query_range handle_force_flush
      handle_force_merge
  serve healthz st = (st, healthy)
  serve (import r) st = handle_import d day_string r st
  serve (remote_write r) st = handle_remote_write d day_string r st
  serve (query r) st = (st, handle_query_range d day_string sort_slice r st)
  serve (force_flush_call faults r) st =
      handle_force_flush d day_string sort_slice part_name atoi faults r st
  serve (force_merge_call faults r) st =
      handle_force_merge d day_string sort_slice part_name atoi faults r st

  unfoldable pub serve_all : List Call → Storage → Storage
  unfolding serve
  serve_all [] st = st
  serve_all (call ∷ calls) st = serve_all calls (serve call st).0
