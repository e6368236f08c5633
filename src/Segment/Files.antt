-- ===== src/Segment/Files.antt =====
-- The names of segment files: indexSegmentName, nextIndexSegmentSeq and listIndexSegments of
-- storage/indexdb.go.
pub mod Order
use marchimetrics.Base.{
  ℕ, ◌+◌, ◌-◌, List, [], ◌∷◌, ◌++◌, Bool, true, false, Option, none, some, Result, ok, err, ◌>>=◌,
  io_failure, bad_name, if◌then◌else◌, length, take, ◌&&◌, not,
}
use marchimetrics.Base.{◌==◌ as nat_eq}
use marchimetrics.Base.Str.{Str, str_eq}
use marchimetrics.Partition.{sort_strings}

-- An entry of a directory: its name, and whether it is a directory.
pub record DirEntry : Type 0 where
  pub name : Str
  pub is_dir : Bool

-- What os.ReadDir finds.
pub data DirRead : Type 0 where
  missing : DirRead
  unreadable : DirRead
  entries : List DirEntry → DirRead

abbrev pub seg_suffix : Str
seg_suffix = 46 ∷ 115 ∷ 101 ∷ 103 ∷ []

abbrev pub or_dot : Str → ℕ → Str → Str
or_dot [] c s = if nat_eq c 46 then c ∷ s else []
or_dot (e ∷ rest) c s = e ∷ rest

-- filepath.Ext of a name without a separator.
unfoldable pub ext : Str → Str
ext [] = []
ext (c ∷ s) = or_dot (ext s) c s

-- The loop of listIndexSegments.
unfoldable pub segment_names : List DirEntry → List Str
unfolding ext
segment_names [] = []
segment_names (e ∷ es) =
    let rest = segment_names es in
    if not e.is_dir && str_eq (ext e.name) seg_suffix then e.name ∷ rest else rest

unfoldable pub list_index_segments : DirRead → Result (List Str)
unfolding segment_names
list_index_segments missing = ok []
list_index_segments unreadable = err io_failure
list_index_segments (entries es) = ok (sort_strings (segment_names es))

-- `names[len(names)-1]`
unfoldable pub last_name : Str → List Str → Str
last_name name [] = name
last_name name (next ∷ names) = last_name next names

-- `six_digits` is fmt.Sprintf("%06d", seq), `atoi` strconv.Atoi.
unfoldable pub index_segment_name : (ℕ → Str) → ℕ → Str
index_segment_name six_digits seq = six_digits seq ++ seg_suffix

module _ (atoi : Str → Option ℕ) where
  unfoldable pub next_seq : List Str → Result ℕ
  unfolding last_name
  next_seq [] = ok 1
  next_seq (name ∷ names) =
      let last = last_name name names in
      elim (atoi (take (length last - length seg_suffix) last)) [
        | none ↦ err bad_name
        | some n ↦ ok (n + 1)
      ]

  unfoldable pub next_index_segment_seq : DirRead → Result ℕ
  unfolding list_index_segments next_seq
  next_index_segment_seq dir = do names ← list_index_segments dir; next_seq names
