-- ===== src/Inspect/Lines.antt =====
-- The lines that runInspect of cmd/mmctl/main.go prints of a series.
use marchimetrics.Base.{
  true, ℕ, zero, suc, append-nil, ◌+◌, ◌-◌, ◌≤◌, ◌≡◌, refl, sym, ap, ◌∙◌, arith, Bool-cases, inl,
  inr, List, [], ◌∷◌, ◌++◌, if◌then◌else◌, ltb, length, take,
}
use marchimetrics.Base.Int.{ℤ, pos, negsuc}
use marchimetrics.Base.Str.{str_key, nat_key}
use marchimetrics.Sample.{Sample}
use marchimetrics.Inspect.{Line, sample_line, more_line, shown, sample_lines, all_lines}

-- The samples that lines print.
unfoldable pub printed : List Line → List Sample
printed [] = []
printed (sample_line sm ∷ lines) = sm ∷ printed lines
printed (_ ∷ lines) = printed lines

-- The number that the lines leave out.
unfoldable pub left_out : List Line → ℕ
left_out [] = 0
left_out (more_line n ∷ lines) = n + left_out lines
left_out (_ ∷ lines) = left_out lines

-- The samples of a series that -limit asks for: a limit of no samples or fewer asks for all.
abbrev pub asked_for : ℤ → List Sample → List Sample
asked_for (pos zero) s = s
asked_for (pos (suc l)) s = take (suc l) s
asked_for (negsuc l) s = s

printed-sample_lines :
    (s : List Sample) (lines : List Line) → printed (sample_lines s ++ lines) ≡ s ++ printed lines
unfolding printed sample_lines
printed-sample_lines [] lines = refl
printed-sample_lines (sm ∷ s) lines = ap (λ r. sm ∷ r) (printed-sample_lines s lines)

left_out-sample_lines :
    (s : List Sample) (lines : List Line) → left_out (sample_lines s ++ lines) ≡ left_out lines
unfolding left_out sample_lines
left_out-sample_lines [] lines = refl
left_out-sample_lines (sm ∷ s) lines = left_out-sample_lines s lines

length-take_le : (n : ℕ) (s : List Sample) → n ≤ length s → length (take n s) ≡ n
length-take_le zero s h = refl
length-take_le (suc n) [] h = absurd (omega arith)
length-take_le (suc n) (sm ∷ s) h = omega (arith, length-take_le n s (omega arith))

shown-le : (limit : ℤ) (n : ℕ) → shown limit n ≤ n
unfolding shown
shown-le (pos l) n = ground arith
shown-le (negsuc l) n = ground arith

take-length : (s : List Sample) → take (length s) s ≡ s
take-length [] = refl
take-length (sm ∷ s) = ap (λ r. sm ∷ r) (take-length s)

take-too_many : (n : ℕ) (s : List Sample) → length s ≤ n → take n s ≡ s
take-too_many zero [] h = refl
take-too_many zero (sm ∷ s) h = absurd (omega arith)
take-too_many (suc n) [] h = refl
take-too_many (suc n) (sm ∷ s) h = ap (λ r. sm ∷ r) (take-too_many n s (omega arith))

take-shown : (limit : ℤ) (s : List Sample) → take (shown limit (length s)) s ≡ asked_for limit s
unfolding shown
take-shown (pos zero) s = take-length s
take-shown (pos (suc l)) s =
    let positive : ltb 0 (suc l) ≡ true = ground arith in
    elim (Bool-cases (ltb (suc l) (length s))) [
      | inl e ↦ rw (positive, e) refl
      | inr e ↦ rw (positive, e) (take-length s ∙ sym (take-too_many (suc l) s (ground (arith, e))))
    ]
take-shown (negsuc l) s = take-length s

nothing_printed : (n m : ℕ) → printed (if ltb n m then more_line (m - n) ∷ [] else []) ≡ []
unfolding printed
nothing_printed n m = ground arith

rest_left_out : (n m : ℕ) → left_out (if ltb n m then more_line (m - n) ∷ [] else []) ≡ m - n
unfolding left_out
rest_left_out n m = ground arith

-- With -samples, the sample lines print exactly the samples that -limit asks for, in the order of the
-- series: the first so many, or all of them if there are no more or the limit is not positive. The
-- last line counts exactly the samples that are not printed.
pub printed-all_lines :
    (limit : ℤ) (s : List Sample)
    → let lines = all_lines limit s in
      (printed lines ≡ asked_for limit s) × (length (printed lines) + left_out lines ≡ length s)
unfolding all_lines
printed-all_lines limit s =
    let n = shown limit (length s) in
    let rest = if ltb n (length s) then more_line (length s - n) ∷ [] else [] in
    let le = shown-le limit (length s) in
    let first : printed (all_lines limit s) ≡ take n s =
      printed-sample_lines (take n s) rest
      ∙ rw (nothing_printed n (length s)) (append-nil (take n s)) in
    let count : length (printed (all_lines limit s)) ≡ n =
      ap length first ∙ length-take_le n s le in
    (
      first ∙ take-shown limit s,
      omega (arith, count, left_out-sample_lines (take n s) rest, rest_left_out n (length s), le),
    )
