-- ===== src/BitStream/Writing.antt =====
-- The writer appends to a stream of bits.
use Prim.Native.Nat.{bit_or}
use marchimetrics.Base.{
  ℕ, zero, suc, ◌+◌, ◌-◌, ◌*◌, ◌/◌, ◌%◌, ◌^◌, ◌≤◌, ◌<◌, ◌≡◌, refl, sym, ap, ◌∙◌, arith, List, [],
  ◌∷◌, ◌++◌, append_assoc, append-nil, Bool-cases, if◌then◌else◌, inl, inr, ◌==◌,
}
use marchimetrics.Words.{shr}
use marchimetrics.Words.Bits.{set_bit}
use marchimetrics.Words.Shift.{IsShifted, IsShifted-mul, pow-add, two_pow_pos}
use native.Mathlib.Nat.{mul-div_cancel, pow-le-pow_right, pow-succ'}
use marchimetrics.BitStream.{BitWriter, empty, write_bit, write_bits, bytes}
use marchimetrics.BitStream.Stream.{
  low_bits, all_bits, all_bits_snoc, low_bits_snoc, low_bits_split,
}

-- The current byte has room, and its unused bits are clear.
pub record IsOpen (w : BitWriter) : Type 0 where
  pub room : w.n < 8
  pub fits : shr w.cur (8 - w.n) < 2 ^ w.n
  pub clear : IsShifted w.cur (8 - w.n)

abbrev pub stream : BitWriter → List ℕ
stream w = all_bits w.buf ++ low_bits w.n (shr w.cur (8 - w.n))

pub empty-IsOpen : IsOpen empty
empty-IsOpen = record { room = omega arith; fits = omega arith; clear = refl }

pub empty-stream : stream empty ≡ []
unfolding all_bits low_bits
empty-stream = refl

-- The bit `d` set below the digits `q` of a byte.
set_below :
    (cur q j d : ℕ)
    → cur ≡ q * 2 ^ (j + 1)
    → j < 8
    → q < 256
    → d < 2
    → bit_or cur (d * 2 ^ j) ≡ (2 * q + d) * 2 ^ j
set_below cur q j d e hj hq hd =
    rw e (omega (arith, set_bit j d q hj hd hq, ap (λ (t : ℕ). q * t) (pow-add j 1)))

-- Appending a bit to the current byte, of which `j` bits stay free.
module _ (w : BitWriter) (b j : ℕ) (o : IsOpen w) (hj : w.n + j ≡ 7) where
  abbrev grown : ℕ
  grown = 2 * shr w.cur (8 - w.n) + b % 2

  write_bit-cur : bit_or w.cur (b % 2 * 2 ^ (7 - w.n)) ≡ grown * 2 ^ j
  write_bit-cur =
      let e : 8 - w.n ≡ j + 1 = omega arith in
      let f : 7 - w.n ≡ j = omega arith in
      let small : 2 ^ w.n ≤ 2 ^ 7 = pow-le-pow_right (omega arith) {j = 7} (omega arith) in
      rw f (
        set_below w.cur (shr w.cur (8 - w.n)) j (b % 2)
          (sym o.clear ∙ ap (λ (t : ℕ). shr w.cur (8 - w.n) * 2 ^ t) e) (omega arith)
          (omega (arith, o.fits)) (omega arith))

  grown_fits : grown < 2 ^ suc w.n
  grown_fits = omega (arith, o.fits, pow-succ' 2 w.n)

  grown-low_bits : low_bits (suc w.n) grown ≡ low_bits w.n (shr w.cur (8 - w.n)) ++ (b % 2 ∷ [])
  grown-low_bits = low_bits_snoc w.n (shr w.cur (8 - w.n)) (b % 2) (omega arith)

  -- The byte is not full.
  abbrev partial : BitWriter
  partial = record { buf = w.buf; cur = grown * 2 ^ j; n = w.n + 1 }

  partial-digits : w.n < 7 → shr partial.cur (8 - partial.n) ≡ grown
  partial-digits lt =
      let e : 8 - (w.n + 1) ≡ j = omega arith in rw e (mul-div_cancel grown (two_pow_pos j))

  partial_lem : w.n < 7 → IsOpen partial × (stream partial ≡ stream w ++ (b % 2 ∷ []))
  partial_lem lt =
      let e : 8 - (w.n + 1) ≡ j = omega arith in
      let s : w.n + 1 ≡ suc w.n = omega arith in
      (
        record {
          room = omega arith;
          fits = rw (partial-digits lt, s) grown_fits;
          clear = rw e (IsShifted-mul grown j);
        },
        rw (partial-digits lt, s, grown-low_bits)
            (sym (append_assoc (all_bits w.buf) (low_bits w.n (shr w.cur (8 - w.n))) (b % 2 ∷ []))),
      )

  -- The byte is full.
  abbrev complete : BitWriter
  complete = record { buf = w.buf ++ (grown * 2 ^ j ∷ []); cur = 0; n = 0 }

  complete_lem : w.n ≡ 7 → IsOpen complete × (stream complete ≡ stream w ++ (b % 2 ∷ []))
  complete_lem e =
      let j0 : j ≡ 0 = omega arith in
      let g : grown * 2 ^ j ≡ grown = rw j0 (omega arith) in
      let s : 8 ≡ suc w.n = omega arith in
      let last : low_bits 8 grown ≡ low_bits w.n (shr w.cur (8 - w.n)) ++ (b % 2 ∷ []) =
        ap (λ (k : ℕ). low_bits k grown) s ∙ grown-low_bits in
      let none_left : low_bits 0 (shr 0 8) ≡ [] = unfold low_bits in refl in
      (
        record { room = omega arith; fits = omega arith; clear = refl },
        rw (none_left, append-nil, all_bits_snoc, g, last)
            (sym (append_assoc (all_bits w.buf) (low_bits w.n (shr w.cur (8 - w.n))) (b % 2 ∷ []))),
      )

pub write_bit-stream :
    (w : BitWriter) (b : ℕ)
    → IsOpen w
    → IsOpen (write_bit w b) × (stream (write_bit w b) ≡ stream w ++ (b % 2 ∷ []))
unfolding write_bit
write_bit-stream w b o = elim (Bool-cases (w.n + 1 == 8)) [
  | inl full ↦
      let hj : w.n + (7 - w.n) ≡ 7 = omega (arith, o.room) in
      rw (write_bit-cur w b (7 - w.n) o hj, full) (complete_lem w b (7 - w.n) o hj (ground arith))
  | inr more ↦
      let hj : w.n + (7 - w.n) ≡ 7 = omega (arith, o.room) in
      rw (write_bit-cur w b (7 - w.n) o hj, more)
        (partial_lem w b (7 - w.n) o hj (ground (arith, o.room)))
]

low_bits_shown : (v i : ℕ) → low_bits (suc i) v ≡ shr v i % 256 % 2 ∷ low_bits i v
unfolding low_bits
low_bits_shown v i = let e : v / 2 ^ i % 256 % 2 ≡ v / 2 ^ i % 2 = omega arith in rw e

-- writeBits appends the `n` lowest bits of `v`.
pub write_bits-stream :
    (n : ℕ) (w : BitWriter) (v : ℕ)
    → IsOpen w
    → IsOpen (write_bits w v n) × (stream (write_bits w v n) ≡ stream w ++ low_bits n v)
unfolding write_bits
write_bits-stream zero w v o = (o, unfold low_bits in sym (append-nil (stream w)))
write_bits-stream (suc i) w v o =
    let (o', e) = write_bit-stream w (shr v i % 256) o in
    let (o'', e') = write_bits-stream i (write_bit w (shr v i % 256)) v o' in
    (
      o'',
      e'
          ∙ ap (λ r. r ++ low_bits i v) e
          ∙ append_assoc (stream w) (shr v i % 256 % 2 ∷ []) (low_bits i v)
          ∙ ap (λ r. stream w ++ r) (sym (low_bits_shown v i)),
    )

no_bits : (n x : ℕ) → n ≡ 0 → low_bits n x ≡ []
unfolding low_bits
no_bits zero x e = refl
no_bits (suc n) x e = absurd (omega arith)

-- What `bytes` adds behind the stream: the unused bits of the current byte.
abbrev pub padding : BitWriter → List ℕ
padding w = if w.n == 0 then [] else low_bits (8 - w.n) w.cur

pub all_bits-bytes : (w : BitWriter) → IsOpen w → all_bits (bytes w) ≡ stream w ++ padding w
unfolding bytes
all_bits-bytes w o = elim (Bool-cases (w.n == 0)) [
  | inl e ↦
      rw (e, append-nil, no_bits w.n (shr w.cur (8 - w.n)) (ground arith))
        (sym (append-nil (all_bits w.buf)))
  | inr e ↦
      let split : low_bits 8 w.cur
          ≡ low_bits w.n (shr w.cur (8 - w.n)) ++ low_bits (8 - w.n) w.cur =
        ap (λ (k : ℕ). low_bits k w.cur) (omega (arith, o.room))
        ∙ low_bits_split w.n (8 - w.n) w.cur in
      rw (e, all_bits_snoc, split)
        (sym (
          append_assoc (all_bits w.buf) (low_bits w.n (shr w.cur (8 - w.n)))
            (low_bits (8 - w.n) w.cur)))
]
