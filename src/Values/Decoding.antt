-- ===== src/Values/Decoding.antt =====
-- One round of decodeValues on what one round of encodeValues wrote.
use marchimetrics.Base.{
  ℕ, ◌+◌, ◌^◌, ◌≤◌, ◌<◌, ◌≡◌, ap, ◌∙◌, arith, Bool-cases, if◌then◌else◌, inl, inr, List, ◌∷◌, ◌++◌,
  append_assoc, ◌==◌, ok,
}
use marchimetrics.Base.Int.{pos, ◌-ℤ◌, pos_part}
use marchimetrics.Words.{shr, xor64}
use marchimetrics.Words.Bits.{bit_xor-zero}
use marchimetrics.BitStream.{BitReader}
use marchimetrics.BitStream.Stream.{low_bits}
use marchimetrics.BitStream.Reading.{view, read_bit-view, read_bits-view}
use marchimetrics.Values.{
  Window, window_of, fits_window, width, length_code, Decoder, shift_by, read_window,
  read_significant, decode_changed, decode_step,
}
use marchimetrics.Values.Cover.{
  Covers, window_of-Covers, window_of-lz, fits_window-Covers, width_bounds, significant-lt,
  significant_back,
}
use marchimetrics.Values.Steps.{step_bits, next_window, old_window_bits, new_window_bits}

-- The decoder at the encoder's window.
abbrev pub at_window : BitReader → ℕ → Window → Decoder
at_window r prev win = record { reader = r; prev = prev; lz = win.lz; tz = pos win.tz }

abbrev skip : BitReader → ℕ → BitReader
skip r n = record r { pos = r.pos + n }

length_code_fits :
    (n : ℕ)
    → 1 ≤ n
    → n ≤ 64
    → (length_code n < 64) × ((if length_code n == 0 then 64 else length_code n) ≡ n)
length_code_fits n lo hi = ground arith

tz_back :
    (win : Window) (x : ℕ) → Covers win x → pos 64 -ℤ pos win.lz -ℤ pos (width win) ≡ pos win.tz
unfolding ◌-ℤ◌
tz_back win x c = let i = c.inside in ground arith

rounds_back :
    (win : Window) (x : ℕ)
    → Covers win x
    → pos_part (pos 64 -ℤ pos win.lz -ℤ pos win.tz) ≡ width win
unfolding ◌-ℤ◌
rounds_back win x c = let i = c.inside in ground arith

read_window_lem :
    (win : Window) (x : ℕ) (d : Decoder) (rest : List ℕ)
    → Covers win x
    → win.lz ≤ 31
    → view d.reader ≡ low_bits 5 win.lz ++ (low_bits 6 (length_code (width win)) ++ rest)
    → (r : BitReader) × (read_window d ≡ ok (at_window r d.prev win)) × (view r ≡ rest)
unfolding read_window
read_window_lem win x d rest c h5 h =
    let (lo, hi) = width_bounds win x c in
    let (hcode, back) = length_code_fits (width win) lo hi in
    let (e1, v1) = read_bits-view 5 win.lz d.reader _ (omega arith) (omega arith) h in
    let (e2, v2) =
      read_bits-view 6 (length_code (width win)) (skip d.reader 5) rest (omega arith) hcode v1 in
    (skip (skip d.reader 5) 6, rw (e1, e2, back, tz_back win x c), v2)

read_significant_lem :
    (win : Window) (x prev : ℕ) (r : BitReader) (rest : List ℕ)
    → Covers win x
    → view r ≡ low_bits (width win) (shr x win.tz) ++ rest
    → (r' : BitReader) × (read_significant (at_window r prev win)
        ≡ ok (at_window r' (xor64 prev x) win))
      × (view r' ≡ rest)
unfolding read_significant shift_by
read_significant_lem win x prev r rest c h =
    let (lo, hi) = width_bounds win x c in
    let (e, v) = read_bits-view (width win) (shr x win.tz) r rest hi (significant-lt win x c) h in
    (skip r (width win), rw (rounds_back win x c, e, significant_back win x c), v)

decode_old :
    (win : Window) (x prev : ℕ) (r : BitReader) (rest : List ℕ)
    → Covers win x
    → view r ≡ old_window_bits win x ++ rest
    → (r' : BitReader) × (decode_step (at_window r prev win) ≡ ok (at_window r' (xor64 prev x) win))
      × (view r' ≡ rest)
unfolding decode_step decode_changed
decode_old win x prev r rest c h =
    let (e1, v1) = read_bit-view r 1 (0 ∷ (low_bits (width win) (shr x win.tz) ++ rest)) h in
    let (e2, v2) = read_bit-view (skip r 1) 0 (low_bits (width win) (shr x win.tz) ++ rest) v1 in
    let (r', e3, v3) = read_significant_lem win x prev (skip (skip r 1) 1) rest c v2 in
    (r', rw (e1, e2, e3), v3)

decode_new :
    (old win : Window) (x prev : ℕ) (r : BitReader) (rest : List ℕ)
    → Covers win x
    → win.lz ≤ 31
    → view r ≡ new_window_bits win x ++ rest
    → (r' : BitReader) × (decode_step (at_window r prev old) ≡ ok (at_window r' (xor64 prev x) win))
      × (view r' ≡ rest)
unfolding decode_step decode_changed
decode_new old win x prev r rest c h5 h =
    let tail : List ℕ =
      low_bits 5 win.lz
      ++ (low_bits 6 (length_code (width win)) ++ (low_bits (width win) (shr x win.tz) ++ rest)) in
    let h' : view r ≡ 1 ∷ (1 ∷ tail) = h ∙ simp append_assoc in
    let (e1, v1) = read_bit-view r 1 (1 ∷ tail) h' in
    let (e2, v2) = read_bit-view (skip r 1) 1 tail v1 in
    let (r3, e3, v3) =
      read_window_lem win x (at_window (skip (skip r 1) 1) prev old)
        (low_bits (width win) (shr x win.tz) ++ rest) c h5 v2 in
    let (r', e4, v4) = read_significant_lem win x prev r3 rest c v3 in (r', rw (e1, e2, e3, e4), v4)

decode_same :
    (win : Window) (x prev : ℕ) (r : BitReader) (rest : List ℕ)
    → x ≡ 0
    → view r ≡ 0 ∷ rest
    → (r' : BitReader) × (decode_step (at_window r prev win) ≡ ok (at_window r' (xor64 prev x) win))
      × (view r' ≡ rest)
unfolding decode_step
decode_same win x prev r rest z h =
    let (e, v) = read_bit-view r 0 rest h in
    let keep : xor64 prev x ≡ prev = ap (λ (t : ℕ). xor64 prev t) z ∙ bit_xor-zero prev in
    (skip r 1, rw (e, keep), v)

-- Whatever the window, the decoder finds the difference that the encoder wrote, and moves to the
-- encoder's next window.
pub decode_step_lem :
    (win : Window) (x prev : ℕ) (r : BitReader) (rest : List ℕ)
    → x < 2 ^ 64
    → view r ≡ step_bits win x ++ rest
    → (r' : BitReader) × (decode_step (at_window r prev win)
        ≡ ok (at_window r' (xor64 prev x) (next_window win x)))
      × (view r' ≡ rest)
unfolding step_bits next_window
decode_step_lem win x prev r rest hx h = elim (Bool-cases (x == 0)) [
  | inl same ↦ rw same (decode_same win x prev r rest (ground arith) (rw same at h))
  | inr changed ↦
      let p : 0 < x = ground arith in
      let c = window_of-Covers x p hx in
      elim (Bool-cases (fits_window win (window_of x))) [
        | inl old ↦
            rw (changed, old)
              (decode_old win x prev r rest (fits_window-Covers win (window_of x) x old c)
                (rw (changed, old) at h))
        | inr new ↦
            rw (changed, new)
              (decode_new win (window_of x) x prev r rest c (window_of-lz x)
                (rw (changed, new) at h))
      ]
]
