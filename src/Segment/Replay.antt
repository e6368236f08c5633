-- ===== src/Segment/Replay.antt =====
-- readIndexSegment of storage/indexdb.go on what appendIndexSegment wrote, whole or torn.
use marchimetrics.Base.{
  ℕ, zero, suc, ◌+◌, ◌-◌, ◌≤◌, ◌≡◌, refl, sym, ap, ◌∙◌, arith, List, [], ◌∷◌, ◌++◌, ok,
  append_assoc, append-nil, length, All, length-append, ltb, Result, err, unexpected_eof, ◌>>=◌,
  ◌⊎◌, inl, inr, le→ltb, false,
}
use marchimetrics.Base.Str.{str_eq_iff}
use marchimetrics.Varint.{IsU64}
use marchimetrics.Varint.Stable.{Stable-torn}
use marchimetrics.Segment.{
  Entry, Callback, magic, segment_bytes, read_index_record, after_record, replay_records,
  read_index_segment,
}
use marchimetrics.Segment.Records.{
  Fits, record_bytes, records_bytes, segment_bytes_lem, read_index_record-bytes,
  read_index_record-Stable, record_bytes-pos,
}

last_id : ℕ → List Entry → ℕ
last_id prev [] = prev
last_id prev (e ∷ es) = last_id e.id es

records_bytes-append :
    (prev : ℕ) (es fs : List Entry)
    → records_bytes prev (es ++ fs) ≡ records_bytes prev es ++ records_bytes (last_id prev es) fs
unfolding records_bytes last_id
records_bytes-append prev [] fs = refl
records_bytes-append prev (e ∷ es) fs =
    ap (λ r. record_bytes prev e ++ r) (records_bytes-append e.id es fs)
    ∙ sym (
        append_assoc (record_bytes prev e) (records_bytes e.id es)
          (records_bytes (last_id e.id es) fs))

last_id-IsU64 : (prev : ℕ) (es : List Entry) → IsU64 prev → All Fits es → IsU64 (last_id prev es)
unfolding last_id
last_id-IsU64 prev [] hp h = hp
last_id-IsU64 prev (e ∷ es) hp (he, h) = last_id-IsU64 e.id es he.id h

append_cancel : (xs : List ℕ) {ys zs : List ℕ} → xs ++ ys ≡ xs ++ zs → ys ≡ zs
append_cancel [] h = h
append_cancel (x ∷ xs) h = append_cancel xs (cc)

-- What is left of a file holds no complete record.
abbrev Torn : ℕ → List ℕ → Type 0
Torn prev b = (b ≡ []) ⊎ (read_index_record prev b ≡ err unexpected_eof)

All-snoc : (es : List Entry) (e : Entry) → All Fits es → Fits e → All Fits (es ++ (e ∷ []))
All-snoc [] e h he = (he, tt)
All-snoc (d ∷ es) e (hd, h) he = (hd, All-snoc es e h he)

module _ {S : Type 0} (fn : Callback S) where
  -- The callback on every entry in turn, up to its first error.
  unfoldable pub replay : List Entry → S → Result S
  replay [] s = ok s
  replay (e ∷ es) s = do s' ← fn s e; replay es s'

  replay_records-Torn :
      (rounds prev : ℕ) (b : List ℕ) (s : S)
      → Torn prev b
      → length b ≤ rounds
      → replay_records fn rounds prev b s ≡ ok s
  unfolding replay_records
  replay_records-Torn rounds prev [] s t h = refl
  replay_records-Torn zero prev (x ∷ b) s t h = absurd (omega arith)
  replay_records-Torn (suc rounds) prev (x ∷ b) s (inl e) h = cc
  replay_records-Torn (suc rounds) prev (x ∷ b) s (inr e) h = rw (e, after_record)

  replay_records-suc :
      (rounds prev : ℕ) (b : List ℕ) (s : S) (e : Entry) (rest : List ℕ)
      → 1 ≤ length b
      → read_index_record prev b ≡ ok (e, rest)
      → replay_records fn (suc rounds) prev b s
        ≡ (do s' ← fn s e; replay_records fn rounds e.id rest s')
  unfolding replay_records
  replay_records-suc rounds prev [] s e rest h r = absurd (omega arith)
  replay_records-suc rounds prev (x ∷ b) s e rest h r = rw (r, after_record)

  bind_cong : (r : Result S) (f g : S → Result S) → ((s : S) → f s ≡ g s) → (r >>= f) ≡ (r >>= g)
  bind_cong (ok s) f g h = h s
  bind_cong (err e) f g h = refl

  -- The complete records are replayed, and the torn tail behind them is dropped.
  replay_records-bytes :
      (es : List Entry) (rounds prev : ℕ) (tail : List ℕ) (s : S)
      → IsU64 prev
      → All Fits es
      → Torn (last_id prev es) tail
      → length (records_bytes prev es ++ tail) ≤ rounds
      → replay_records fn rounds prev (records_bytes prev es ++ tail) s ≡ replay es s
  unfolding records_bytes replay last_id
  replay_records-bytes [] rounds prev tail s hp h t fuel =
      replay_records-Torn rounds prev tail s t fuel
  replay_records-bytes (e ∷ es) rounds prev tail s hp (he, h) t fuel =
      let b = record_bytes prev e ++ (records_bytes e.id es ++ tail) in
      let cut : (record_bytes prev e ++ records_bytes e.id es) ++ tail ≡ b =
        append_assoc (record_bytes prev e) (records_bytes e.id es) tail in
      let size : length b ≡ length (record_bytes prev e) + length (records_bytes e.id es ++ tail) =
        length-append (record_bytes prev e) (records_bytes e.id es ++ tail) in
      let fuel' : length b ≤ rounds = rw cut at fuel in
      let more : rounds ≡ suc (rounds - 1) = omega (arith, size, record_bytes-pos prev e) in
      rw (cut, more)
        (replay_records-suc (rounds - 1) prev b s e (records_bytes e.id es ++ tail)
            (omega (arith, size, record_bytes-pos prev e))
            (read_index_record-bytes prev e (records_bytes e.id es ++ tail) hp he)
          ∙ bind_cong (fn s e) _ _ λ s'.
            replay_records-bytes es (rounds - 1) e.id tail s' he.id h t
              (omega (arith, size, record_bytes-pos prev e)))

  -- Behind the magic the loop starts.
  read_index_segment-magic :
      (b : List ℕ) (s : S)
      → read_index_segment fn (magic ++ b) s ≡ replay_records fn (length (magic ++ b)) 0 b s
  unfolding read_index_segment
  read_index_segment-magic b s =
      let long : ltb (length (magic ++ b)) 8 ≡ false =
        le→ltb (length (magic ++ b)) 8 (omega arith) in
      rw (long, (str_eq_iff magic magic).1 refl)

  read_index_segment-bytes :
      (es : List Entry) (tail : List ℕ) (s : S)
      → All Fits es
      → Torn (last_id 0 es) tail
      → read_index_segment fn (segment_bytes es ++ tail) s ≡ replay es s
  read_index_segment-bytes es tail s h t =
      rw (segment_bytes_lem es h, append_assoc, read_index_segment-magic)
        (replay_records-bytes es _ 0 tail s (omega arith) h t (omega arith))

  -- The replay of a segment that was written whole hands every entry to the callback, in the
  -- order written, for any entries of Go's sizes.
  pub replay_whole :
      (es : List Entry) (s : S)
      → All Fits es
      → read_index_segment fn (segment_bytes es) s ≡ replay es s
  replay_whole es s h =
      rw (← append-nil (segment_bytes es)) (read_index_segment-bytes es [] s h (inl refl))

  -- A segment cut anywhere inside its last record, or just before it, replays as the records
  -- before that one, with no error.
  pub replay_cut :
      (es : List Entry) (e : Entry) (partial back : List ℕ) (x : ℕ) (s : S)
      → All Fits es
      → Fits e
      → segment_bytes (es ++ (e ∷ [])) ≡ (segment_bytes es ++ partial) ++ (x ∷ back)
      → read_index_segment fn (segment_bytes es ++ partial) s ≡ replay es s
  unfolding records_bytes
  replay_cut es e partial back x s h he cut =
      let last = last_id 0 es in
      let front = magic ++ records_bytes 0 es in
      let whole : segment_bytes (es ++ (e ∷ [])) ≡ front ++ (record_bytes last e ++ []) =
        segment_bytes_lem (es ++ (e ∷ [])) (All-snoc es e h he)
        ∙ ap (λ r. magic ++ r) (records_bytes-append 0 es (e ∷ [])) in
      let torn : record_bytes last e ++ [] ≡ partial ++ (x ∷ back) =
        append_cancel front
          (sym whole ∙ cut ∙ rw (segment_bytes_lem es h) (append_assoc front partial (x ∷ back))) in
      read_index_segment-bytes es partial s h (
        inr (
          Stable-torn (read_index_record last) (read_index_record-Stable last)
            (record_bytes last e ++ []) partial back x e
            (read_index_record-bytes last e [] (last_id-IsU64 0 es (omega arith) h) he) torn))
