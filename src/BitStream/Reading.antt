-- ===== src/BitStream/Reading.antt =====
-- The reader takes from a stream of bits.
use marchimetrics.Base.{
  ℕ, zero, suc, ◌+◌, ◌-◌, ◌*◌, ◌/◌, ◌%◌, ◌^◌, ◌≤◌, ◌<◌, ◌≡◌, refl, sym, ap, ◌∙◌, arith, List, ◌∷◌,
  ◌++◌, drop, get_elem?, none, some, ok, err, unexpected_eof,
}
use marchimetrics.Words.Shift.{two_pow_pos}
use native.Mathlib.Nat.{
  pow-succ', pow-suc, div-div-eq-div-mul, div-add-mod, mul-le-mul_right, mul-le-mul_left,
  mod-eq_of_lt, pow-le-pow_right,
}
use marchimetrics.BitStream.{BitReader, read_bit, read_bits_loop, read_bits}
use marchimetrics.BitStream.Stream.{
  low_bits, all_bits, bit_of, get_elem?-all_bits, get_elem?-drop, drop-suc,
}

abbrev pub view : BitReader → List ℕ
view r = drop r.pos (all_bits r.b)

read_bit-elim :
    (r : BitReader)
    → read_bit r ≡ elim (bit_of (7 - r.pos % 8) (get_elem? r.b (r.pos / 8))) [
      | none ↦ err unexpected_eof
      | some d ↦ ok (d, record r { pos = r.pos + 1 })
    ]
unfolding read_bit
read_bit-elim r = ground arith

-- readBit takes the first bit of what is left.
pub read_bit-view :
    (r : BitReader) (d : ℕ) (rest : List ℕ)
    → view r ≡ d ∷ rest
    → (read_bit r ≡ ok (d, record r { pos = r.pos + 1 })) × (drop (r.pos + 1) (all_bits r.b) ≡ rest)
read_bit-view r d rest h =
    let e : bit_of (7 - r.pos % 8) (get_elem? r.b (r.pos / 8)) ≡ some d =
      sym (get_elem?-all_bits r.b r.pos) ∙ get_elem?-drop (all_bits r.b) r.pos d rest h in
    let s : r.pos + 1 ≡ suc r.pos = omega arith in
    (read_bit-elim r ∙ rw e, rw s (drop-suc (all_bits r.b) r.pos d rest h))

-- The next digit of `x` moves from the stream to the value.
next_digit :
    (x n v : ℕ) → (2 * v + x / 2 ^ n % 2) * 2 ^ n + x % 2 ^ n ≡ v * 2 ^ suc n + x % 2 ^ suc n
next_digit x n v =
    let q = x / 2 ^ n in
    let halved : x / 2 ^ suc n ≡ q / 2 =
      ap (λ (t : ℕ). x / t) (pow-suc 2 n) ∙ sym (div-div-eq-div-mul x (2 ^ n) 2) in
    omega (
      arith,
      div-add-mod x (2 ^ n),
      div-add-mod x (2 ^ suc n),
      ap (λ (t : ℕ). 2 ^ suc n * t) halved,
      ap (λ (t : ℕ). t * (q / 2)) (pow-succ' 2 n),
      ap (λ (t : ℕ). 2 ^ n * t) (div-add-mod q 2),
      ap (λ (t : ℕ). v * t) (pow-succ' 2 n),
    )

room_for_digit :
    (n v d : ℕ) → d < 2 → (v + 1) * 2 ^ suc n ≤ 2 ^ 64 → (2 * v + d + 1) * 2 ^ n ≤ 2 ^ 64
room_for_digit n v d hd fits =
    let le : 2 * v + d + 1 ≤ 2 * v + 2 = omega arith in
    omega (arith, mul-le-mul_right (2 ^ n) le, ap (λ (t : ℕ). (v + 1) * t) (pow-succ' 2 n))

no_wrap : (n v d : ℕ) → (v + 1) * 2 ^ suc n ≤ 2 ^ 64 → v * 2 % 2 ^ 64 + d ≡ 2 * v + d
no_wrap n v d fits = omega (
  arith,
  mul-le-mul_left (2 * v + 2) (two_pow_pos n),
  ap (λ (t : ℕ). (v + 1) * t) (pow-succ' 2 n),
)

read_bits_loop-view :
    (n v x : ℕ) (r : BitReader) (rest : List ℕ)
    → (v + 1) * 2 ^ n ≤ 2 ^ 64
    → view r ≡ low_bits n x ++ rest
    → (read_bits_loop n v r ≡ ok (v * 2 ^ n + x % 2 ^ n, record r { pos = r.pos + n }))
      × (drop (r.pos + n) (all_bits r.b) ≡ rest)
unfolding read_bits_loop low_bits
read_bits_loop-view zero v x r rest fits h =
    let e : v * 1 + x % 1 ≡ v = omega arith in
    let f : r.pos + 0 ≡ r.pos = omega arith in rw (e, f) (refl, h)
read_bits_loop-view (suc n) v x r rest fits h =
    let d = x / 2 ^ n % 2 in
    let (e, left) = read_bit-view r d (low_bits n x ++ rest) h in
    let room = room_for_digit n v d (omega arith) fits in
    let wrap = no_wrap n v d fits in
    let (ih, left') =
      read_bits_loop-view n (2 * v + d) x (record r { pos = r.pos + 1 }) rest room left in
    let p : r.pos + 1 + n ≡ r.pos + suc n = omega arith in
    (rw (e, wrap) (ih ∙ rw (next_digit x n v, p)), rw (← p) left')

-- readBits takes the `n` lowest bits of `x`, for n at most 64.
pub read_bits-view :
    (n x : ℕ) (r : BitReader) (rest : List ℕ)
    → n ≤ 64
    → x < 2 ^ n
    → view r ≡ low_bits n x ++ rest
    → (read_bits n r ≡ ok (x, record r { pos = r.pos + n }))
      × (drop (r.pos + n) (all_bits r.b) ≡ rest)
unfolding read_bits
read_bits-view n x r rest hn hx h =
    let fits : (0 + 1) * 2 ^ n ≤ 2 ^ 64 =
      omega (arith, pow-le-pow_right {n = 2} (omega arith) {i = n} {j = 64} hn) in
    let (e, left) = read_bits_loop-view n 0 x r rest fits h in
    let v : 0 * 2 ^ n + x % 2 ^ n ≡ x = omega (arith, mod-eq_of_lt hx) in (e ∙ rw v, left)
