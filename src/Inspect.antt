-- ===== src/Inspect.antt =====
-- runInspect of cmd/mmctl/main.go, and InspectPart and LoadRegistry of storage/storage.go. A printed
-- line is a value; the texts of times and numbers are left to the reader of the line.
pub mod Lines
use marchimetrics.Base.{
  ℕ, ◌-◌, List, [], ◌∷◌, ◌++◌, Bool, true, false, not, ◌&&◌, Option, none, some, Result, ok, err,
  ◌>>=◌, if◌then◌else◌, ltb, length, take,
}
use marchimetrics.Base.{◌==◌ as nat_eq}
use marchimetrics.Base.Int.{ℤ, pos, negsuc}
use marchimetrics.Base.Str.{Str, nat_key}
use marchimetrics.GoMap.{GoMap, lookup_or, sort_ids}
use marchimetrics.Label.{Label}
use marchimetrics.Sample.{Sample}
use marchimetrics.Registry.{Registry, labels_of}
use marchimetrics.Part.{Part, PartMeta, PartData, keys, read_part_all}
use marchimetrics.Selector.{format_labels}
use marchimetrics.Engine.Lifecycle.{IndexDir, load_registry}

-- The flags of the command.
pub record Flags : Type 0 where
  pub series : ℕ
  pub show_samples : Bool
  pub limit : ℤ

pub data SeriesName : Type 0 where
  by_id : ℕ → SeriesName
  by_labels : Str → SeriesName

pub data Line : Type 0 where
  part_line : PartMeta → Line
  series_line : SeriesName → ℕ → Line
  first_line : Sample → Line
  last_line : Sample → Line
  sample_line : Sample → Line
  more_line : ℕ → Line

-- InspectPart
unfoldable pub inspect_part : Part → Result (PartMeta × PartData)
inspect_part p = do series ← read_part_all p; ok (p.meta, series)

abbrev pub name_or : (Str → Str) → ℕ → Option (List Label) → SeriesName
name_or quote id none = by_id id
name_or quote id (some labels) = by_labels (format_labels quote labels)

-- The last sample behind the first.
unfoldable pub last_of : Sample → List Sample → Sample
last_of sm [] = sm
last_of sm (next ∷ sms) = last_of next sms

-- Without -samples: the first and the last.
unfoldable pub summary_lines : List Sample → List Line
unfolding last_of
summary_lines [] = []
summary_lines (sm ∷ sms) = first_line sm ∷ last_line (last_of sm sms) ∷ []

-- `if *limit > 0 && n > *limit { n = *limit }`
unfoldable pub shown : ℤ → ℕ → ℕ
shown (pos l) n = if ltb 0 l && ltb l n then l else n
shown (negsuc l) n = n

unfoldable pub sample_lines : List Sample → List Line
sample_lines [] = []
sample_lines (sm ∷ sms) = sample_line sm ∷ sample_lines sms

-- With -samples.
unfoldable pub all_lines : ℤ → List Sample → List Line
unfolding shown sample_lines
all_lines limit samples =
    let n = shown limit (length samples) in
    sample_lines (take n samples)
    ++ (if ltb n (length samples) then more_line (length samples - n) ∷ [] else [])

-- `quote` is the text of `%q`.
module _ (quote : Str → Str) (flags : Flags) (r : Registry) where
  -- One round of the loop over the ids.
  unfoldable pub series_lines : ℕ → List Sample → List Line
  unfolding summary_lines all_lines
  series_lines id samples =
      if not (nat_eq flags.series 0) && not (nat_eq id flags.series)
      then []
      else series_line (name_or quote id (labels_of r id)) (length samples)
        ∷ (if flags.show_samples then all_lines flags.limit samples else summary_lines samples)

  unfoldable pub lines_of_ids : PartData → List ℕ → List Line
  unfolding series_lines
  lines_of_ids series [] = []
  lines_of_ids series (id ∷ ids) =
      series_lines id (lookup_or [] id series) ++ lines_of_ids series ids

  unfoldable pub lines_of_part : PartMeta × PartData → List Line
  unfolding lines_of_ids
  lines_of_part (meta, series) = part_line meta ∷ lines_of_ids series (sort_ids (keys series))

-- runInspect on the segment files of a data path and on a part.
unfoldable pub run_inspect :
    (Str → Str) → Flags → List (List ℕ) → List IndexDir → Part → Result (List Line)
unfolding inspect_part lines_of_part
run_inspect quote flags forward inverted p = do
  r ← load_registry forward inverted
  found ← inspect_part p
  ok (lines_of_part quote flags r found)
