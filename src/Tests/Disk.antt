-- ===== src/Tests/Disk.antt =====
-- Parts at concrete inputs.
use marchimetrics.Base.{◌≡◌, refl, arith, ℕ, List, [], ◌∷◌, ok, ltb, if◌then◌else◌, ◌-◌, ◌^◌, some}
use marchimetrics.Base.Str.{nat_key}
use marchimetrics.GoMap.{lookup, lookup_or}
use marchimetrics.Sample.{Sample, FitsSamples, rank}
use marchimetrics.Part.{
  small, raw, PartData, PartWriter, SeriesIndexEntry, write_part, read_part_all, write_block,
  empty_part, raw_cells, sample_timestamps, sample_values, read_series_block,
}
use marchimetrics.Fixed64.{put_u64, le_bytes}
use marchimetrics.Part.RawBlocks.{read_series_block-raw}
use marchimetrics.Part.RoundTrip.{sort_found, read_part_all-write_part}

-- A stable sort by timestamp, for sort.Slice.
unfoldable pub insert_sample : Sample → List Sample → List Sample
insert_sample a [] = a ∷ []
insert_sample a (b ∷ s) =
    if ltb (rank b.timestamp) (rank a.timestamp) then b ∷ insert_sample a s else a ∷ b ∷ s

unfoldable pub sorted_samples : List Sample → List Sample
unfolding insert_sample
sorted_samples [] = []
sorted_samples (a ∷ s) = insert_sample a (sorted_samples s)

-- Two series, the first with a timestamp out of order.
abbrev two_series_data : PartData
two_series_data =
    (7, record { timestamp = 2000; value = 5 } ∷ record { timestamp = 1000; value = 0 } ∷ [])
    ∷ (3, record { timestamp = 2 ^ 64 - 1; value = 9 } ∷ [])
    ∷ []

two_series_fit : (id : ℕ) → FitsSamples (sorted_samples (lookup_or [] id two_series_data))
unfolding sorted_samples insert_sample lookup_or lookup rank
two_series_fit id = ground arith

read_part_all-write_part_example :
    (found : PartData) × (read_part_all (write_part sorted_samples two_series_data small)
      ≡ ok found)
    × ((j : ℕ) → lookup j found ≡ sort_found sorted_samples (lookup j two_series_data))
read_part_all-write_part_example =
    read_part_all-write_part sorted_samples two_series_data small two_series_fit

abbrev raw_one : List Sample
raw_one = record { timestamp = 2 ^ 64 - 1; value = 9 } ∷ []

abbrev raw_two : List Sample
raw_two = record { timestamp = 1000; value = 0 } ∷ record { timestamp = 2000; value = 5 } ∷ []

-- A raw part with the cells of one sample.
abbrev raw_writer : PartWriter
raw_writer = record {
  part = write_block raw (record { part = empty_part small raw 2; offset = 0 }) 3 raw_one;
  offset = 1;
}

read_series_block-raw_example :
    let p = write_block raw raw_writer 7 raw_two in
    (e : SeriesIndexEntry) × (lookup 7 p.index ≡ some e)
    × (read_series_block p.timestamps_bin p.values_bin e raw ≡ ok raw_two)
unfolding write_block empty_part raw_cells sample_timestamps sample_values put_u64 le_bytes
read_series_block-raw_example =
    read_series_block-raw raw_writer 7 raw_two refl refl (omega arith) (ground arith)
