-- ===== src/Segment/Ends.antt =====
-- The rounds of readIndexSegment of storage/indexdb.go on any bytes.
use marchimetrics.Base.{ℕ, List, ok, Result}
use marchimetrics.Label.{Label}
use marchimetrics.Varint.{uvarint}
use marchimetrics.Varint.Stable.{then_read}
use marchimetrics.Varint.Shrinks.{Shrinks}
use marchimetrics.Fixed64.{add64}
use marchimetrics.Segment.{Entry, read_label_list}

-- readIndexRecord behind its first varint.
record_tail : ℕ → ℕ → List ℕ → Result (Entry × List ℕ)
record_tail prev delta = then_read uvarint λ n.
    then_read (read_label_list n)
      λ labels b. ok (record { id = add64 prev delta; labels = labels }, b)
