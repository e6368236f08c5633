-- ===== src/Segment/Records.antt =====
-- The bytes of one record, and what readIndexRecord makes of them.
use marchimetrics.Base.{
  Bool, true, false, ℕ, zero, suc, ◌+◌, ◌≤◌, ◌≡◌, refl, sym, ap, ◌∙◌, arith, List, [], ◌∷◌, ◌++◌,
  ok, append_assoc, append-nil, length, All, if◌then◌else◌, ◌==◌, length-append, ltb, le→ltb,
}
use marchimetrics.Base.Str.{Str}
use marchimetrics.Label.{Label}
use marchimetrics.Varint.{IsU64, append_uvarint, uvarint, str}
use marchimetrics.Varint.RoundTrip.{
  append_uvarint_lem, uvarint-append_uvarint, str-append, uvarint_shape,
}
use marchimetrics.Varint.Stable.{
  Stable, then_read, Stable-then_read, Stable-ok, uvarint-Stable, str-Stable,
}
use marchimetrics.Fixed64.{add64, sub64, add64-sub64, sub64-IsU64}
use marchimetrics.Segment.{
  Entry, magic, put_string, put_labels, put_records, segment_bytes, read_labels, labels_unless,
  read_label_list, read_index_record, max_labels,
}

-- Lengths and ids that a Go value has.
abbrev pub FitsLabel : Label → Type 0
FitsLabel l = IsU64 (length l.name) × IsU64 (length l.value)

pub record Fits (e : Entry) : Type 0 where
  pub id : IsU64 e.id
  pub count : length e.labels ≤ max_labels
  pub labels : All FitsLabel e.labels

string_bytes : Str → List ℕ
string_bytes s = append_uvarint [] (length s) ++ s

labels_bytes : List Label → List ℕ
labels_bytes [] = []
labels_bytes (l ∷ ls) = string_bytes l.name ++ (string_bytes l.value ++ labels_bytes ls)

pub record_bytes : ℕ → Entry → List ℕ
record_bytes prev e =
    append_uvarint [] (sub64 e.id prev)
    ++ (append_uvarint [] (length e.labels) ++ labels_bytes e.labels)

unfoldable pub records_bytes : ℕ → List Entry → List ℕ
records_bytes prev [] = []
records_bytes prev (e ∷ es) = record_bytes prev e ++ records_bytes e.id es

put_string_lem : (w : List ℕ) (s : Str) → put_string w s ≡ w ++ string_bytes s
unfolding put_string string_bytes
put_string_lem w s =
    rw (append_uvarint_lem w (length s)) (append_assoc w (append_uvarint [] (length s)) s)

put_labels_lem : (w : List ℕ) (ls : List Label) → put_labels w ls ≡ w ++ labels_bytes ls
unfolding put_labels labels_bytes
put_labels_lem w [] = sym (append-nil w)
put_labels_lem w (l ∷ ls) =
    put_labels_lem (put_string (put_string w l.name) l.value) ls
    ∙ rw (put_string_lem (put_string w l.name) l.value, put_string_lem w l.name)
        (append_assoc (w ++ string_bytes l.name) (string_bytes l.value) (labels_bytes ls)
          ∙ append_assoc w (string_bytes l.name) (string_bytes l.value ++ labels_bytes ls))

-- The first id is stored as it is, which is its distance from 0.
first_delta :
    (i id prev : ℕ)
    → IsU64 id
    → (i ≡ 0 → prev ≡ 0)
    → (if i == 0 then id else sub64 id prev) ≡ sub64 id prev
unfolding sub64
first_delta i id prev h start = ground (arith, start)

put_records_lem :
    (w : List ℕ) (i prev : ℕ) (es : List Entry)
    → (i ≡ 0 → prev ≡ 0)
    → All Fits es
    → put_records w i prev es ≡ w ++ records_bytes prev es
unfolding put_records records_bytes record_bytes
put_records_lem w i prev [] start h = sym (append-nil w)
put_records_lem w i prev (e ∷ es) start (he, h) =
    let d = sub64 e.id prev in
    let w2 = append_uvarint (append_uvarint w d) (length e.labels) in
    rw (first_delta i e.id prev he.id start) (
      put_records_lem (put_labels w2 e.labels) (i + 1) e.id es (λ z. absurd (omega arith)) h
      ∙ rw
          (
            put_labels_lem w2 e.labels,
            append_uvarint_lem (append_uvarint w d) (length e.labels),
            append_uvarint_lem w d,
          )
          (simp append_assoc))

-- The bytes of a whole file.
pub segment_bytes_lem :
    (es : List Entry) → All Fits es → segment_bytes es ≡ magic ++ records_bytes 0 es
unfolding segment_bytes
segment_bytes_lem es h = put_records_lem magic 0 0 es (λ z. refl) h

read_labels-bytes :
    (ls labels : List Label) (rest : List ℕ)
    → All FitsLabel ls
    → read_labels (length ls) labels (labels_bytes ls ++ rest) ≡ ok (labels ++ ls, rest)
unfolding read_labels labels_bytes string_bytes
read_labels-bytes [] labels rest h = rw append-nil
read_labels-bytes (l ∷ ls) labels rest ((hn, hv), h) =
    rw
      (
        append_assoc,
        append_assoc,
        str-append l.name _ hn,
        append_assoc,
        append_assoc,
        str-append l.value _ hv,
      )
      (read_labels-bytes ls (labels ++ (l ∷ [])) rest h
        ∙ ap (λ r. ok (r, rest)) (append_assoc labels (l ∷ []) ls))

-- readIndexRecord reads back a record that was written behind the id `prev`, for any `prev`.
pub read_index_record-bytes :
    (prev : ℕ) (e : Entry) (rest : List ℕ)
    → IsU64 prev
    → Fits e
    → read_index_record prev (record_bytes prev e ++ rest) ≡ ok (e, rest)
unfolding read_index_record read_label_list labels_unless record_bytes
read_index_record-bytes prev e rest hp h =
    let count : IsU64 (length e.labels) = omega (arith, h.count) in
    let few : ltb max_labels (length e.labels) ≡ false =
      le→ltb max_labels (length e.labels) h.count in
    rw (
      append_assoc,
      uvarint-append_uvarint (sub64 e.id prev) _ (sub64-IsU64 e.id prev),
      append_assoc,
      uvarint-append_uvarint (length e.labels) _ count,
      few,
      read_labels-bytes e.labels [] rest h.labels,
      add64-sub64 e.id prev h.id hp,
    )

read_labels-Stable : (n : ℕ) (labels : List Label) → Stable (read_labels n labels)
unfolding read_labels
read_labels-Stable zero labels = Stable-ok labels
read_labels-Stable (suc n) labels =
    Stable-then_read str
      (λ name.
        then_read str
          (λ value. read_labels n (labels ++ (record { name = name; value = value } ∷ []))))
      str-Stable
      λ name.
        Stable-then_read str
          (λ value. read_labels n (labels ++ (record { name = name; value = value } ∷ [])))
          str-Stable
          λ value. read_labels-Stable n (labels ++ (record { name = name; value = value } ∷ []))

labels_unless-Stable : (over : Bool) (n : ℕ) → Stable (labels_unless over n)
unfolding labels_unless
labels_unless-Stable true n = record {
  keeps_ok = λ front more a rest h. cc;
  keeps_err = λ front more f ne h. cc;
}
labels_unless-Stable false n = read_labels-Stable n []

read_label_list-Stable : (n : ℕ) → Stable (read_label_list n)
unfolding read_label_list
read_label_list-Stable n = labels_unless-Stable (ltb max_labels n) n

pub read_index_record-Stable : (prev : ℕ) → Stable (read_index_record prev)
unfolding read_index_record
read_index_record-Stable prev =
    Stable-then_read uvarint
      (λ delta. then_read uvarint (λ n.
        then_read (read_label_list n)
          (λ labels b. ok (record { id = add64 prev delta; labels = labels }, b))))
      uvarint-Stable
      λ delta.
        Stable-then_read uvarint
          (λ n.
            then_read (read_label_list n)
              (λ labels b. ok (record { id = add64 prev delta; labels = labels }, b)))
          uvarint-Stable
          λ n.
            Stable-then_read (read_label_list n)
              (λ labels b. ok (record { id = add64 prev delta; labels = labels }, b))
              (read_label_list-Stable n)
              λ labels. Stable-ok (record { id = add64 prev delta; labels = labels })

-- A record is not empty.
pub record_bytes-pos : (prev : ℕ) (e : Entry) → 1 ≤ length (record_bytes prev e)
unfolding record_bytes
record_bytes-pos prev e =
    let (_, lo, _) = uvarint_shape (sub64 e.id prev) (sub64-IsU64 e.id prev) in
    omega (
      arith,
      lo,
      length-append (append_uvarint [] (sub64 e.id prev))
          (append_uvarint [] (length e.labels) ++ labels_bytes e.labels),
    )
