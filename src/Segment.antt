-- ===== src/Segment.antt =====
-- The segment files of storage/indexdb.go: appendIndexSegment's bytes, and their replay. The file
-- itself (temporary name, sync, rename) is left to the storage modules.
pub mod Records
pub mod Replay
pub mod Ends
pub mod Files
use marchimetrics.Base.{
  ℕ, Bool, true, false, zero, suc, ◌+◌, ◌-◌, ◌^◌, List, [], ◌∷◌, ◌++◌, Result, Error, ok, err,
  unexpected_eof, panicked, bad_magic, out_of_rounds, ◌>>=◌, ltb, ◌||◌, not, if◌then◌else◌, ◌==◌,
  length, take, drop,
}
use marchimetrics.Base.Str.{Str, str_eq}
use marchimetrics.Label.{Label}
use marchimetrics.Varint.{Reader, append_uvarint, uvarint, str}
use marchimetrics.Fixed64.{add64, sub64}

-- "MMIDX001"
abbrev pub magic : Str
magic = 77 ∷ 77 ∷ 73 ∷ 68 ∷ 88 ∷ 48 ∷ 48 ∷ 49 ∷ []

pub record Entry : Type 0 where
  pub id : ℕ
  pub labels : List Label

unfoldable pub put_string : List ℕ → Str → List ℕ
put_string w s = append_uvarint w (length s) ++ s

-- The inner loop over the labels of a series.
unfoldable pub put_labels : List ℕ → List Label → List ℕ
unfolding put_string
put_labels w [] = w
put_labels w (l ∷ ls) = put_labels (put_string (put_string w l.name) l.value) ls

-- The loop over the sorted ids, each with its labels: `i` counts the rounds made.
unfoldable pub put_records : List ℕ → ℕ → ℕ → List Entry → List ℕ
unfolding put_labels
put_records w i prev [] = w
put_records w i prev (e ∷ es) =
    let delta = if i == 0 then e.id else sub64 e.id prev in
    put_records (put_labels (append_uvarint (append_uvarint w delta) (length e.labels)) e.labels)
      (i + 1) e.id es

-- The bytes of a new segment file.
unfoldable pub segment_bytes : List Entry → List ℕ
unfolding put_records
segment_bytes es = put_records magic 0 0 es

-- The label loop of readIndexRecord, with `n` labels to go.
read_labels : ℕ → List Label → Reader (List Label)
read_labels zero labels b = ok (labels, b)
read_labels (suc n) labels b = do
  (name, b') ← str b
  (value, b'') ← str b'
  read_labels n (labels ++ (record { name = name; value = value } ∷ [])) b''

-- A make of more 32-byte Labels than the 2^48 bytes of the heap's address space of a 64-bit system
-- panics. Below that the system may run out of memory.
abbrev pub max_labels : ℕ
max_labels = 2 ^ 43

-- readIndexRecord behind the count: `make([]Label, 0, n)` and the loop.
labels_unless : Bool → ℕ → Reader (List Label)
unfolding read_labels
labels_unless true n b = err panicked
labels_unless false n b = read_labels n [] b

read_label_list : ℕ → Reader (List Label)
unfolding labels_unless
read_label_list n b = labels_unless (ltb max_labels n) n b

pub read_index_record : ℕ → Reader Entry
unfolding read_label_list
read_index_record prev b = do
  (delta, b') ← uvarint b
  (n, b'') ← uvarint b'
  (labels, b''') ← read_label_list n b''
  ok (record { id = add64 prev delta; labels = labels }, b''')

-- The callback, on the state that its closure captures.
abbrev pub Callback : Type 0 → Type 0
Callback S = S → Entry → Result S

module _ {S : Type 0} where
  -- What the loop does with a record or an error: a torn tail ends it with no error.
  abbrev pub after_record : Result (Entry × List ℕ) → S → (Entry → List ℕ → Result S) → Result S
  after_record (ok (e, b)) s next = next e b
  after_record (err unexpected_eof) s next = ok s
  after_record (err other) s next = err other

module _ {S : Type 0} (fn : Callback S) where
  -- The loop while bytes are left.
  -- `out_of_rounds` is no Go value: the rounds given did not reach the end.
  replay_records : ℕ → ℕ → List ℕ → S → Result S
  replay_records rounds prev [] s = ok s
  replay_records zero prev (x ∷ b) s = err out_of_rounds
  replay_records (suc rounds) prev (x ∷ b) s =
      after_record (read_index_record prev (x ∷ b)) s
        (λ e b'. do s' ← fn s e; replay_records rounds e.id b' s')

  -- A round takes a byte at least, so as many rounds as bytes reach the end.
  pub read_index_segment : List ℕ → S → Result S
  unfolding replay_records
  read_index_segment bytes s =
      if ltb (length bytes) 8 || not (str_eq (take 8 bytes) magic)
      then err bad_magic
      else replay_records (length bytes) 0 (drop 8 bytes) s
