-- ===== src/Lib.antt =====
-- marchimetrics, a time series storage engine: samples grouped into day partitions of immutable
-- parts, found by label through a registry that is persisted in append-only segments.
--
-- The parts of the program and how they meet. Append resolves a label set to an id in the registry,
-- indexes the id into the days of its samples and buffers the samples. Flush writes the new series as
-- a segment, groups the buffer by day, persists the day's index, writes a part and may merge the small
-- parts of the day. QueryRange matches ids in the registry and reads parts and buffer. ApplyRetention
-- drops days. Open replays the segments and reads the directories. The HTTP handlers turn requests into
-- appends, queries, flushes and merges; mmctl prints a part with the labels of its series.
--
--   Varint, Fixed64          the encoding/binary calls of storage/encode.go and storage/indexdb.go, and
--                            byteReader; int64 and uint64 values are patterns below 2 ^ 64
--   Timestamps               encodeTimestamps, decodeTimestamps (storage/encode.go)
--   Words, BitStream         math/bits, bitWriter and bitReader (storage/encode.go)
--   Values                   encodeValues, decodeValues (storage/encode.go)
--   Segment                  appendIndexSegment's bytes, readIndexSegment (storage/indexdb.go)
--   Label, Registry          labels, keys and the registry (storage/series.go)
--   Registry/Reload          LoadEntries on the entries of a registry (storage/series.go)
--   Registry/Concurrent      calls of Resolve whose two locked parts interleave
--   Registry/Pending         DrainPending and TrackPending one after the other
--   Sample, Part             samples and part files (storage/part.go)
--   Partition                partitions, manifests and merges (storage/partition.go,
--                            storage/manifest.go, storage/compaction.go)
--   Engine                   Append, Flush, ForceMerge (storage/storage.go, storage/compaction.go)
--   Engine/Query             QueryRange, partitionsInRange (storage/query.go, storage/storage.go)
--   Engine/Lifecycle         ApplyRetention, Open (storage/retention.go, storage/storage.go)
--   Engine/Holding           what the storage holds of a series; DayIndex, Opening, Conserving,
--                            Flushing, Appending and Compacting follow it through the operations,
--                            and Refinement compares it with a log of the appended samples
--   Selector                 ParseSelector (storage/query.go), formatLabels (cmd/mmctl/main.go)
--   Segment/Files            names and numbers of segment files (storage/indexdb.go)
--   Server                   the HTTP handlers (cmd/marchimetrics/http.go,
--                            cmd/marchimetrics/remote_write.go) and parseRetentionDays
--                            (cmd/marchimetrics/main.go)
--   Inspect                  runInspect (cmd/mmctl/main.go)
--   Base, GoMap              shared helpers; Go's maps as association lists, in any order
--   Tests                    the theorems at concrete inputs
--
-- Conventions. An error is a value of Result, and `panicked` is a run-time panic. A method under a
-- lock is one step on the value of the fields that the lock guards. What a step may find refused by
-- the file system is its argument. The layout of a day, the name of a part, strconv.Atoi and
-- sort.Slice on samples are parameters of the definitions that use them.
--
-- Bounds. A uint64 has ten groups of seven bits, so nine rounds of uvarint_groups reach the last.
-- Bit lengths and trailing zeros are counted for 64 bits. A record of a segment takes a byte at least,
-- so the replay of a segment is given as many rounds as it has bytes. A make of more than 2 ^ 43 labels
-- passes the address space of a 64-bit heap and panics. The next part number of a partition and the
-- numbers of segments, ints in the source, are natural numbers without a bound.
--
-- Not modelled: goroutines between the steps other than calls of Resolve, the waiting for a lock, the
-- tickers, logging, memory that runs out, the allocation that a corrupt count of a block asks for, a
-- failed ReadDir in Open, the temporary file and the sync behind a segment, the staging directory of a
-- part, the JSON text of meta.json, series.index and manifest.json (read back as written), the texts
-- of error messages, flags and the start of the process. JSON, snappy, protobuf, the parsing and
-- printing of times and floats, strings.TrimSpace, strconv.Quote and strconv.Unquote are parameters.
pub mod Base
pub mod Varint
pub mod Fixed64
pub mod Timestamps
pub mod Words
pub mod BitStream
pub mod Values
pub mod Label
pub mod Segment
pub mod GoMap
pub mod Registry
pub mod Sample
pub mod Part
pub mod Partition
pub mod Selector
pub mod Engine
pub mod Server
pub mod Inspect
mod Tests
