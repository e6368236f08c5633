-- ===== src/Part.antt =====
-- storage/part.go. A part is the values that its four files hold: encoding/json brings meta.json and
-- series.index back as written, and a series id is its own decimal key.
pub mod Blocks
pub mod RoundTrip
pub mod Bounds
pub mod Range
pub mod RawBlocks
use marchimetrics.Base.{
  ℕ, zero, suc, ◌+◌, ◌-◌, ◌*◌, ◌%◌, ◌^◌, List, [], ◌∷◌, ◌++◌, map, Bool, ◌||◌, not, Result, Error,
  ok, err, panicked, ◌>>=◌, io_failure, count_mismatch, if◌then◌else◌, ltb, length, take, drop,
  Option, none, some,
}
use marchimetrics.Base.{◌==◌ as nat_eq}
use marchimetrics.Base.Str.{nat_key}
use marchimetrics.GoMap.{GoMap, lookup_or, insert, contains, sort_ids}
use marchimetrics.Fixed64.{put_u64, le_value}
use marchimetrics.Timestamps.{encode_timestamps, decode_timestamps}
use marchimetrics.Values.{encode_values, decode_values}
use marchimetrics.Sample.{Sample, lt64, within}

pub data Tier : Type 0 where
  small : Tier
  big : Tier

pub data Encoding : Type 0 where
  raw : Encoding
  gorilla : Encoding

pub record PartMeta : Type 0 where
  pub min_time : ℕ
  pub max_time : ℕ
  pub series_count : ℕ
  pub samples_count : ℕ
  pub tier : Tier
  pub encoding : Encoding

pub record SeriesIndexEntry : Type 0 where
  pub offset : ℕ
  pub count : ℕ
  pub ts_offset : ℕ
  pub ts_length : ℕ
  pub val_offset : ℕ
  pub val_length : ℕ

pub record Part : Type 0 where
  pub meta : PartMeta
  pub index : GoMap ℕ SeriesIndexEntry
  pub timestamps_bin : List ℕ
  pub values_bin : List ℕ

-- The samples of a flush or a merge, by series id.
abbrev pub PartData : Type 0
PartData = GoMap ℕ (List Sample)

unfoldable pub sample_timestamps : List Sample → List ℕ
sample_timestamps [] = []
sample_timestamps (sm ∷ sms) = sm.timestamp ∷ sample_timestamps sms

unfoldable pub sample_values : List Sample → List ℕ
sample_values [] = []
sample_values (sm ∷ sms) = sm.value ∷ sample_values sms

-- The fixed 8-byte cells of a raw block.
unfoldable pub raw_cells : List ℕ → List ℕ
raw_cells [] = []
raw_cells (x ∷ xs) = put_u64 x ++ raw_cells xs

-- The loop that widens MinTime and MaxTime.
unfoldable pub widen : PartMeta → List Sample → PartMeta
widen meta [] = meta
widen meta (sm ∷ sms) =
    widen
      (record meta {
        min_time = if lt64 sm.timestamp meta.min_time then sm.timestamp else meta.min_time;
        max_time = if lt64 meta.max_time sm.timestamp then sm.timestamp else meta.max_time;
      })
      sms

-- The variables of writePartEncoded's loop; `offset` counts the samples of a raw part.
pub record PartWriter : Type 0 where
  pub part : Part
  pub offset : ℕ

-- The switch on the encoding: the entry and what goes behind the two buffers.
unfoldable pub write_block : Encoding → PartWriter → ℕ → List Sample → Part
unfolding raw_cells sample_timestamps sample_values
write_block gorilla w id samples =
    let ts_block = encode_timestamps (sample_timestamps samples) in
    let val_block = encode_values (sample_values samples) in
    record w.part {
      index =
          insert id
            (record {
              offset = 0;
              count = length samples;
              ts_offset = length w.part.timestamps_bin;
              ts_length = length ts_block;
              val_offset = length w.part.values_bin;
              val_length = length val_block;
            })
            w.part.index;
      timestamps_bin = w.part.timestamps_bin ++ ts_block;
      values_bin = w.part.values_bin ++ val_block;
    }
write_block raw w id samples = record w.part {
  index =
      insert id
        (record {
          offset = w.offset;
          count = length samples;
          ts_offset = 0;
          ts_length = 0;
          val_offset = 0;
          val_length = 0;
        })
        w.part.index;
  timestamps_bin = w.part.timestamps_bin ++ raw_cells (sample_timestamps samples);
  values_bin = w.part.values_bin ++ raw_cells (sample_values samples);
}

-- One round of the loop over the ids, with the samples sorted.
unfoldable pub write_series : Encoding → PartWriter → ℕ → List Sample → PartWriter
unfolding write_block widen
write_series encoding w id samples =
    let part = write_block encoding w id samples in
    let meta = widen part.meta samples in
    record {
      part = record part {
        meta = record meta { samples_count = meta.samples_count + length samples };
      };
      offset = w.offset + length samples;
    }

unfoldable pub empty_part : Tier → Encoding → ℕ → Part
empty_part tier encoding n = record {
  meta = record {
    min_time = 2 ^ 63 - 1;
    max_time = 2 ^ 63;
    series_count = n;
    samples_count = 0;
    tier = tier;
    encoding = encoding;
  };
  index = [];
  timestamps_bin = [];
  values_bin = [];
}

unfoldable pub keys : {V : Type 0} → GoMap ℕ V → List ℕ
keys [] = []
keys ((id, v) ∷ m) = id ∷ keys m

module _ (sort_slice : List Sample → List Sample) where
  -- The loop over the ids.
  unfoldable pub write_all : Encoding → PartData → PartWriter → List ℕ → PartWriter
  unfolding write_series
  write_all encoding series w [] = w
  write_all encoding series w (id ∷ ids) =
      write_all encoding series (write_series encoding w id (sort_slice (lookup_or [] id series)))
        ids

  -- The part that writePartEncoded leaves on disk.
  unfoldable pub write_part_encoded : PartData → Tier → Encoding → Part
  unfolding write_all empty_part keys
  write_part_encoded series tier encoding =
      let ids = sort_ids (keys series) in
      (write_all encoding series
        (record { part = empty_part tier encoding (length ids); offset = 0 }) ids).part

  unfoldable pub write_part : PartData → Tier → Part
  unfolding write_part_encoded
  write_part series tier = write_part_encoded series tier gorilla

-- File.ReadAt of `n` bytes: a file that ends before them is an error.
unfoldable pub read_at : List ℕ → ℕ → ℕ → Result (List ℕ)
read_at file offset n =
    if nat_eq n 0
    then ok []
    else if ltb (length file) (offset + n)
    then err io_failure
    else ok (take n (drop offset file))

-- The loop that pairs `ts[i]` with `vs[i]`; both have the entry's length.
unfoldable pub pair_samples : List ℕ → List ℕ → List Sample
pair_samples [] vs = []
pair_samples (t ∷ ts) [] = []
pair_samples (t ∷ ts) (v ∷ vs) = record { timestamp = t; value = v } ∷ pair_samples ts vs

-- The raw loop, with `n` cells to go.
unfoldable pub raw_samples : ℕ → List ℕ → List ℕ → List Sample
raw_samples zero ts_buf val_buf = []
raw_samples (suc n) ts_buf val_buf =
    record { timestamp = le_value (take 8 ts_buf); value = le_value (take 8 val_buf) }
    ∷ raw_samples n (drop 8 ts_buf) (drop 8 val_buf)

unfoldable pub read_series_block :
    List ℕ → List ℕ → SeriesIndexEntry → Encoding → Result (List Sample)
unfolding read_at pair_samples raw_samples
read_series_block ts_file val_file e gorilla = do
  ts_buf ← read_at ts_file e.ts_offset e.ts_length
  val_buf ← read_at val_file e.val_offset e.val_length
  ts ← decode_timestamps ts_buf
  vs ← decode_values val_buf
  if not (nat_eq (length ts) e.count) || not (nat_eq (length vs) e.count)
      then err count_mismatch
      else ok (pair_samples ts vs)
read_series_block ts_file val_file e raw = do
  ts_buf ← read_at ts_file (e.offset * 8 % 2 ^ 64) (e.count * 8 % 2 ^ 64)
  val_buf ← read_at val_file (e.offset * 8 % 2 ^ 64) (e.count * 8 % 2 ^ 64)
  if ltb (e.count * 8) (2 ^ 64) then ok (raw_samples e.count ts_buf val_buf) else err panicked

-- The loop of readPartAll over the index.
unfoldable pub read_blocks : Part → GoMap ℕ SeriesIndexEntry → PartData → Result PartData
unfolding read_series_block
read_blocks p [] out = ok out
read_blocks p ((id, e) ∷ index) out = do
  samples ← read_series_block p.timestamps_bin p.values_bin e p.meta.encoding
  read_blocks p index (insert id samples out)

unfoldable pub read_part_all : Part → Result PartData
unfolding read_blocks
read_part_all p = read_blocks p p.index []

pub record QueryStats : Type 0 where
  pub parts_scanned : ℕ
  pub blocks_scanned : ℕ
  pub points_scanned : ℕ
  pub points_returned : ℕ

-- A series gets a key of the map only with its first sample in the range.
unfoldable pub put_samples : ℕ → List Sample → PartData → PartData
put_samples id [] out = out
put_samples id (sm ∷ sms) out = insert id (lookup_or [] id out ++ (sm ∷ sms)) out

-- The loop of readPart over the index.
unfoldable pub scan_blocks :
    Part
    → List ℕ
    → ℕ
    → ℕ
    → GoMap ℕ SeriesIndexEntry
    → PartData
    → QueryStats
    → Result (PartData × QueryStats)
unfolding read_series_block put_samples
scan_blocks p want start_ms end_ms [] out st = ok (out, st)
scan_blocks p want start_ms end_ms ((id, e) ∷ index) out st =
    let skipped = scan_blocks p want start_ms end_ms index out st in
    let st' = record st {
      blocks_scanned = st.blocks_scanned + 1;
      points_scanned = st.points_scanned + e.count;
    } in
    let scanned = (do
      samples ← read_series_block p.timestamps_bin p.values_bin e p.meta.encoding
      scan_blocks p want start_ms end_ms index (put_samples id (within start_ms end_ms samples) out)
          st') in
    if contains id want then scanned else skipped

unfoldable pub read_part : Part → List ℕ → ℕ → ℕ → QueryStats → Result (PartData × QueryStats)
unfolding scan_blocks
read_part p want start_ms end_ms st =
    if lt64 p.meta.max_time start_ms || lt64 end_ms p.meta.min_time
    then ok ([], st)
    else scan_blocks p want start_ms end_ms p.index []
        (record st { parts_scanned = st.parts_scanned + 1 })
