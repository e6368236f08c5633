-- ===== src/Tests/Serving.antt =====
-- Calls of the HTTP handlers at concrete inputs.
use marchimetrics.Base.{
  ◌+◌, ◌≤◌, ◌↔◌, ◌++◌, ◌≡◌, refl, arith, List, [], ◌∷◌, true, Option, none, some, ok, if◌then◌else◌,
}
use marchimetrics.Base.Str.{Str, str_eq}
use marchimetrics.GoMap.{contains}
use marchimetrics.Label.{Label, metric_name_label, canonical_key}
use marchimetrics.Sample.{weigh}
use marchimetrics.Partition.{manifest_fails}
use marchimetrics.Partition.Sizes.{one}
use marchimetrics.Engine.Lifecycle.{
  open_storage, load_registry, replay_files, load_inverted, load_partitions,
}
use marchimetrics.Engine.Appending.{held_at}
use marchimetrics.Engine.Refinement.{logged, HasSpace, fresh, with_threshold}
use marchimetrics.Server.{
  parse_retention_days, ImportRequest, TimeSeries, import_labels, Decoders, Request, failed,
  imported, written, Call, import, force_flush_call, force_merge_call, remote_write, serve_all,
  handle_remote_write, import_all, write_series_all, decode_import, decode_write, write_decoded,
  is_blank, has_name,
}
use marchimetrics.Server.Days.{parse_retention_days_iff}
use marchimetrics.Base.Int.{ℤ, pos}
use marchimetrics.Server.Accepting.{
  import_entries, append_all, write_entries, all_have_metric, samples_in, import_all-answer,
  write_series_all-answer,
}
use marchimetrics.Server.Serving.{
  accepted, log_calls, IsServed, held_at-serve_all, handle_remote_write-failed,
}
use marchimetrics.Tests.Disk.{sorted_samples}
use marchimetrics.Tests.Engine.{day_letter, no_number}
use marchimetrics.Tests.Merging.{letter, sorted_samples-SortsByTime}
use marchimetrics.Tests.Reaching.{
  host_a, two_samples, no_merge, no_merge-OnlyMergesFail, letter-IsInjective,
}

-- A body is the metric of one import, or a series `up` of a remote write.
abbrev plain : Decoders
plain = record {
  trim_space = λ s. s;
  unquote = λ s. none;
  unmarshal_many = λ s. none;
  unmarshal_one = λ s. some (record { metric = s; labels = host_a; samples = two_samples });
  snappy_decode = λ s. if is_blank s then none else some s;
  unmarshal_write = λ s. some (
      record { labels = record { name = metric_name_label; value = s } ∷ []; samples = two_samples }
      ∷ record { labels = host_a; samples = two_samples }
      ∷ []);
  parse_rfc3339 = λ s. none;
  parse_float = λ s. none;
  to_millis = λ f. f;
  to_seconds = λ ms. ms;
  format_float = λ v. [];
}

-- The body `up`, and none.
abbrev up_request : Request
up_request = record { post = true; body = some (117 ∷ 112 ∷ []); query = []; start = []; end = [] }

abbrev empty_request : Request
empty_request = record up_request { body = some [] }

abbrev four_calls : List Call
four_calls =
    import up_request
    ∷ force_flush_call no_merge up_request
    ∷ remote_write up_request
    ∷ force_merge_call (λ day. manifest_fails) up_request
    ∷ []

abbrev up_import : ImportRequest
up_import = record { metric = 117 ∷ 112 ∷ []; labels = host_a; samples = two_samples }

abbrev up_labels : List Label
up_labels = record { name = metric_name_label; value = 117 ∷ 112 ∷ [] } ∷ []

-- The second has no name and is skipped.
abbrev two_series : List TimeSeries
two_series =
    record { labels = up_labels; samples = two_samples }
    ∷ record { labels = host_a; samples = two_samples }
    ∷ []

-- The samples of the import are not those of `up` alone, or they are two.
few_logged : logged one (canonical_key up_labels) ((import_labels up_import, two_samples) ∷ []) ≤ 2
unfolding logged weigh one
few_logged = ground arith

first_space : HasSpace [] (import_labels up_import) two_samples
unfolding logged
first_space = record { ids = omega arith; sizes = omega arith; fits = ground arith }

second_space : HasSpace ((import_labels up_import, two_samples) ∷ []) up_labels two_samples
unfolding logged
second_space = record { ids = omega arith; sizes = ground (arith, few_logged); fits = ground arith }

four_calls-IsServed : IsServed plain [] four_calls
unfolding accepted decode_import decode_write import_entries write_entries has_name str_eq logged
    contains
four_calls-IsServed =
    (tt, (first_space, tt), (no_merge-OnlyMergesFail, tt, (tt, (second_space, tt), (tt, tt, tt))))

held_at-serve_all_example :
    held_at one (canonical_key up_labels) (
      serve_all plain day_letter sorted_samples letter no_number four_calls
        (with_threshold 3 fresh))
    ≡ logged one (canonical_key up_labels) (log_calls plain [] four_calls)
unfolding open_storage load_registry replay_files load_inverted load_partitions
held_at-serve_all_example =
    held_at-serve_all plain day_letter sorted_samples letter no_number fresh 3 four_calls
      sorted_samples-SortsByTime letter-IsInjective refl four_calls-IsServed one up_labels

-- The body does not decode.
handle_remote_write-failed_example :
    (handle_remote_write plain day_letter empty_request fresh).0 ≡ fresh
unfolding handle_remote_write write_decoded decode_write
handle_remote_write-failed_example =
    handle_remote_write-failed plain day_letter empty_request fresh 400 refl

abbrev no_metric : ImportRequest
no_metric = record { metric = []; labels = []; samples = two_samples }

import_all-answer_example : (import_all plain day_letter fresh 0 (up_import ∷ no_metric ∷ [])).1 ≡ (
    if all_have_metric (up_import ∷ no_metric ∷ [])
    then imported (0 + samples_in (import_entries (up_import ∷ no_metric ∷ [])))
    else failed 400)
import_all-answer_example = import_all-answer plain day_letter (up_import ∷ no_metric ∷ []) fresh 0

write_series_all-answer_example : write_series_all plain day_letter fresh 0 two_series ≡ (
  append_all day_letter fresh (write_entries two_series),
  written (0 + samples_in (write_entries two_series)),
)
write_series_all-answer_example = write_series_all-answer plain day_letter two_series fresh 0

abbrev as_is : Str → Str
as_is s = s

abbrev seven : Str → Option ℤ
seven s = some (pos 7)

parse_retention_days_iff_example :
    (parse_retention_days as_is seven (55 ∷ 100 ∷ []) ≡ ok 7)
    ↔ ((days : Str) × (as_is (55 ∷ 100 ∷ []) ≡ days ++ (100 ∷ [])) × (seven days ≡ some (pos 7)))
parse_retention_days_iff_example =
    parse_retention_days_iff as_is seven (55 ∷ 100 ∷ []) 7 (omega arith)
