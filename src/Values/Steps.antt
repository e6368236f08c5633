-- ===== src/Values/Steps.antt =====
-- One round of the encoder as bits, and what one round of the decoder makes of them.
use marchimetrics.Base.{
  ℕ, ◌≡◌, refl, Bool-cases, if◌then◌else◌, inl, inr, List, [], ◌∷◌, ◌++◌, append_assoc, ◌==◌,
}
use marchimetrics.Words.{shr}
use marchimetrics.BitStream.{BitWriter, write_bit, write_bits}
use marchimetrics.BitStream.Stream.{low_bits}
use marchimetrics.BitStream.Writing.{IsOpen, stream, write_bit-stream, write_bits-stream}
use marchimetrics.Values.{Window, window_of, fits_window, width, length_code, encode_step}

-- The bits of the format's description, at the head of the source file.
abbrev pub new_window_bits : Window → ℕ → List ℕ
new_window_bits win x =
    1
    ∷ 1
    ∷ (low_bits 5 win.lz
        ++ (low_bits 6 (length_code (width win)) ++ low_bits (width win) (shr x win.tz)))

abbrev pub old_window_bits : Window → ℕ → List ℕ
old_window_bits win x = 1 ∷ 0 ∷ low_bits (width win) (shr x win.tz)

unfoldable pub step_bits : Window → ℕ → List ℕ
step_bits prev x =
    if x == 0
    then 0 ∷ []
    else if fits_window prev (window_of x)
    then old_window_bits prev x
    else new_window_bits (window_of x) x

unfoldable pub next_window : Window → ℕ → Window
next_window prev x =
    if x == 0 then prev else if fits_window prev (window_of x) then prev else window_of x

old_window_written :
    (w : BitWriter) (win : Window) (x : ℕ)
    → IsOpen w
    → let w' = write_bits (write_bit (write_bit w 1) 0) (shr x win.tz) (width win) in
      IsOpen w' × (stream w' ≡ stream w ++ old_window_bits win x)
old_window_written w win x o =
    let (o1, e1) = write_bit-stream w 1 o in
    let (o2, e2) = write_bit-stream (write_bit w 1) 0 o1 in
    let (o3, e3) = write_bits-stream (width win) (write_bit (write_bit w 1) 0) (shr x win.tz) o2 in
    (o3, rw (e3, e2, e1, append_assoc, append_assoc))

new_window_written :
    (w : BitWriter) (win : Window) (x : ℕ)
    → IsOpen w
    → let w' =
        write_bits
          (write_bits
            (write_bits (write_bit (write_bit w 1) 1) win.lz 5)
            (length_code (width win))
            6)
          (shr x win.tz)
          (width win) in
      IsOpen w' × (stream w' ≡ stream w ++ new_window_bits win x)
new_window_written w win x o =
    let (o1, e1) = write_bit-stream w 1 o in
    let w2 = write_bit (write_bit w 1) 1 in
    let (o2, e2) = write_bit-stream (write_bit w 1) 1 o1 in
    let (o3, e3) = write_bits-stream 5 w2 win.lz o2 in
    let (o4, e4) = write_bits-stream 6 (write_bits w2 win.lz 5) (length_code (width win)) o3 in
    let (o5, e5) =
      write_bits-stream (width win)
        (write_bits (write_bits w2 win.lz 5) (length_code (width win)) 6) (shr x win.tz) o4 in
    (o5, simp (e5, e4, e3, e2, e1, append_assoc))

pub encode_step-stream :
    (w : BitWriter) (prev : Window) (x : ℕ)
    → IsOpen w
    → IsOpen (encode_step w prev x).0
      × (stream (encode_step w prev x).0 ≡ stream w ++ step_bits prev x)
      × ((encode_step w prev x).1 ≡ next_window prev x)
unfolding encode_step step_bits next_window
encode_step-stream w prev x o = elim (Bool-cases (x == 0)) [
  | inl same ↦ let (o1, e1) = write_bit-stream w 0 o in rw same (o1, e1, refl)
  | inr changed ↦ elim (Bool-cases (fits_window prev (window_of x))) [
    | inl old ↦ let (o1, e1) = old_window_written w prev x o in rw (changed, old) (o1, e1, refl)
    | inr new ↦
        let (o1, e1) = new_window_written w (window_of x) x o in rw (changed, new) (o1, e1, refl)
  ]
]
