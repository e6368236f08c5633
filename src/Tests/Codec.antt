-- ===== src/Tests/Codec.antt =====
-- Varints, timestamps, values and segments at concrete inputs.
use marchimetrics.Base.{ℕ, ◌≡◌, refl, arith, List, [], ◌∷◌, ◌++◌, ◌+◌, ◌-◌, ◌^◌, ok, err, panicked}
use marchimetrics.Base.Int.{pos}
use marchimetrics.Label.{Label}
use marchimetrics.Varint.{append_varint, varint}
use marchimetrics.Varint.RoundTrip.{varint-append_varint}
use marchimetrics.Timestamps.{encode_timestamps, decode_timestamps}
use marchimetrics.Timestamps.RoundTrip.{decode-encode_timestamps}
use marchimetrics.BitStream.{empty, write_bits, bytes, BitReader, read_bits}
use marchimetrics.BitStream.Stream.{low_bits, all_bits}
use marchimetrics.BitStream.RoundTrip.{read_bits-write_bits}
use marchimetrics.BitStream.Writing.{empty-IsOpen}
use marchimetrics.Values.{encode_values, decode_values, decode_step}
use marchimetrics.Values.RoundTrip.{decode-encode_values}
use marchimetrics.Values.Corrupt.{decode_step_panics}
use marchimetrics.Varint.{uvarint_groups, append_uvarint}
use marchimetrics.Fixed64.{sub64}
use marchimetrics.Segment.{
  Entry, Callback, put_string, put_labels, put_records, segment_bytes, read_index_segment,
}
use marchimetrics.Segment.Replay.{replay, replay_whole, replay_cut}

-- -1 as an int64.
varint-append_varint_example :
    varint (append_varint [] (2 ^ 64 - 1) ++ (7 ∷ [])) ≡ ok (2 ^ 64 - 1, 7 ∷ [])
varint-append_varint_example = varint-append_varint (2 ^ 64 - 1) (7 ∷ []) (omega arith)

-- A step back in time and an int64 that wraps.
abbrev stamps : List ℕ
stamps = 1000 ∷ 1015 ∷ 1030 ∷ 7 ∷ (2 ^ 64 - 1) ∷ []

decode-encode_timestamps_example : decode_timestamps (encode_timestamps stamps) ≡ ok stamps
decode-encode_timestamps_example = decode-encode_timestamps stamps (omega arith) (omega arith)

-- 1.5, 1.5, 2.5, -0.0 and a NaN.
abbrev floats : List ℕ
floats =
    0x3ff8000000000000 ∷ 0x3ff8000000000000 ∷ 0x4004000000000000 ∷ 0x8000000000000000
    ∷ 0x7ff8000000000001 ∷ []

decode-encode_values_example : decode_values (encode_values floats) ≡ ok floats
decode-encode_values_example = decode-encode_values floats (omega arith) (omega arith)

abbrev written : List ℕ
written = bytes (write_bits (write_bits empty 0xabc 12) 5 3)

read_bits-write_bits_example :
    read_bits 12 (record { b = written; pos = 0 })
    ≡ ok (0xabc, record { b = written; pos = 0 + 12 })
unfolding all_bits low_bits
read_bits-write_bits_example =
    read_bits-write_bits empty 12 0xabc 3 5 empty-IsOpen (omega arith) (omega arith)

-- 31 leading zeros and 63 significant bits.
abbrev corrupt_bits : BitReader
corrupt_bits = record {
  b = 0xff ∷ 0xff ∷ 0xff ∷ 0xff ∷ 0xff ∷ 0xff ∷ 0xff ∷ 0xff ∷ 0xff ∷ 0xff ∷ [];
  pos = 0;
}

decode_step_panics_example :
    decode_step (record { reader = corrupt_bits; prev = 0; lz = 0; tz = pos 0 }) ≡ err panicked
unfolding low_bits all_bits
decode_step_panics_example =
    decode_step_panics (record { reader = corrupt_bits; prev = 0; lz = 0; tz = pos 0 }) 31 63
      (2 ^ 63 - 1) (1 ∷ 1 ∷ 1 ∷ 1 ∷ []) (omega arith) (omega arith) (omega arith) (omega arith) refl

-- A callback that collects the entries.
abbrev collect : Callback (List Entry)
collect es e = ok (es ++ (e ∷ []))

abbrev job : Label
job = record { name = 106 ∷ 111 ∷ 98 ∷ []; value = 97 ∷ [] }

abbrev first_entry : Entry
first_entry = record { id = 1; labels = job ∷ [] }

abbrev second_entry : Entry
second_entry = record { id = 300; labels = job ∷ job ∷ [] }

replay_whole_example :
    read_index_segment collect (segment_bytes (first_entry ∷ second_entry ∷ [])) []
    ≡ replay collect (first_entry ∷ second_entry ∷ []) []
replay_whole_example = replay_whole collect (first_entry ∷ second_entry ∷ []) [] (omega arith)

-- The second record without its last nine bytes.
abbrev half_record : List ℕ
half_record = 171 ∷ 2 ∷ 2 ∷ 3 ∷ 106 ∷ []

replay_cut_example :
    read_index_segment collect (segment_bytes (first_entry ∷ []) ++ half_record) []
    ≡ replay collect (first_entry ∷ []) []
unfolding segment_bytes put_records put_labels put_string append_uvarint uvarint_groups sub64
replay_cut_example =
    replay_cut collect (first_entry ∷ []) second_entry half_record
      (98 ∷ 1 ∷ 97 ∷ 3 ∷ 106 ∷ 111 ∷ 98 ∷ 1 ∷ 97 ∷ []) 111 [] (omega arith) (omega arith) refl

-- A whole record, and one that counts 2^49 labels.
abbrev corrupt_segment : List ℕ
corrupt_segment =
    segment_bytes (first_entry ∷ [])
    ++ (1 ∷ 128 ∷ 128 ∷ 128 ∷ 128 ∷ 128 ∷ 128 ∷ 128 ∷ 1 ∷ 3 ∷ 106 ∷ [])
