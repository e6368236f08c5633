-- ===== src/BitStream/RoundTrip.antt =====
-- What readBits makes of the bytes of a bitWriter.
use marchimetrics.Base.{
  ℕ, ◌+◌, ◌≤◌, ◌<◌, ◌^◌, ◌≡◌, refl, ap, ◌∙◌, ◌++◌, ok, length, drop, append_assoc, drop-append_left,
}
use marchimetrics.BitStream.{BitWriter, write_bits, bytes, read_bits}
use marchimetrics.BitStream.Stream.{low_bits, all_bits}
use marchimetrics.BitStream.Writing.{IsOpen, stream, write_bits-stream, padding, all_bits-bytes}
use marchimetrics.BitStream.Reading.{read_bits-view}

-- Of a writer in a state that its methods reach, whatever was written before and is written behind,
-- a value of up to 64 bits that fits its width is read back from where it was written.
pub read_bits-write_bits :
    (w : BitWriter) (n v : ℕ) (m x : ℕ)
    → IsOpen w
    → n ≤ 64
    → v < 2 ^ n
    → let b = bytes (write_bits (write_bits w v n) x m) in
      let at = length (stream w) in
      read_bits n (record { b = b; pos = at }) ≡ ok (v, record { b = b; pos = at + n })
read_bits-write_bits w n v m x o hn hv =
    let w1 = write_bits w v n in
    let w2 = write_bits w1 x m in
    let (o1, e1) = write_bits-stream n w v o in
    let (o2, e2) = write_bits-stream m w1 x o1 in
    let rest = low_bits m x ++ padding w2 in
    let all : all_bits (bytes w2) ≡ stream w ++ (low_bits n v ++ rest) =
      all_bits-bytes w2 o2
      ∙ ap (λ r. r ++ padding w2) (e2 ∙ ap (λ r. r ++ low_bits m x) e1)
      ∙ append_assoc (stream w ++ low_bits n v) (low_bits m x) (padding w2)
      ∙ append_assoc (stream w) (low_bits n v) rest in
    let at : drop (length (stream w)) (all_bits (bytes w2)) ≡ low_bits n v ++ rest =
      ap (drop (length (stream w))) all
      ∙ drop-append_left (length (stream w)) (stream w) (low_bits n v ++ rest) refl in
    (read_bits-view n v (record { b = bytes w2; pos = length (stream w) }) rest hn hv at).0
