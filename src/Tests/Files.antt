-- ===== src/Tests/Files.antt =====
-- Segment names and printed lines at concrete inputs.
use marchimetrics.Base.{
  ℕ, ◌+◌, ◌<◌, ◌≡◌, refl, arith, List, [], ◌∷◌, ◌++◌, false, Option, none, some, ok, All, length,
}
use marchimetrics.Base.Int.{pos}
use marchimetrics.Base.Str.{Str, str_lt, str_eq}
use marchimetrics.Sample.{Sample}
use marchimetrics.Inspect.{all_lines}
use marchimetrics.Inspect.Lines.{printed, left_out, asked_for, printed-all_lines}
use marchimetrics.Segment.Files.{
  DirEntry, entries, ext, seg_suffix, segment_names, index_segment_name, next_index_segment_seq,
}
use marchimetrics.Segment.Files.Order.{SixDigits, next_index_segment_seq-above}
use marchimetrics.Tests.Engine.{morning, next_day}

-- The digits as one letter.
abbrev one_letter : ℕ → Str
one_letter n = n ∷ []

abbrev letter_number : Str → Option ℕ
letter_number [] = none
letter_number (n ∷ s) = some n

one_letter-SixDigits : SixDigits one_letter letter_number
unfolding str_lt
one_letter-SixDigits = record { ordered = λ a b ha hb. ground arith; back = λ a h. refl }

-- Segments 7 and 3, and what a crash left.
abbrev listing : List DirEntry
listing =
    record { name = one_letter 7 ++ seg_suffix; is_dir = false }
    ∷ record { name = 8 ∷ 46 ∷ 116 ∷ 109 ∷ 112 ∷ []; is_dir = false }
    ∷ record { name = one_letter 3 ++ seg_suffix; is_dir = false }
    ∷ []

next_index_segment_seq-above_example :
    (m : ℕ) × (next_index_segment_seq letter_number (entries listing) ≡ ok m)
    × All (λ n. n < m) (7 ∷ 3 ∷ [])
unfolding segment_names ext index_segment_name str_eq
next_index_segment_seq-above_example =
    next_index_segment_seq-above one_letter letter_number one_letter-SixDigits listing (7 ∷ 3 ∷ [])
      refl (omega arith, (omega arith, tt))

abbrev three_samples : List Sample
three_samples = morning ∷ next_day ∷ morning ∷ []

printed-all_lines_example :
    let lines = all_lines (pos 2) three_samples in
    (printed lines ≡ asked_for (pos 2) three_samples)
    × (length (printed lines) + left_out lines ≡ length three_samples)
printed-all_lines_example = printed-all_lines (pos 2) three_samples
