-- ===== src/Words/Zeros.antt =====
-- What LeadingZeros64 and TrailingZeros64 promise: where the significant digits of a word lie.
use marchimetrics.Base.{
  ℕ, zero, suc, ◌+◌, ◌-◌, ◌*◌, ◌/◌, ◌%◌, ◌^◌, ◌≤◌, ◌<◌, ◌≡◌, arith, ◌==◌, Bool-cases, inl, inr, ap,
}
use native.Mathlib.Nat.{pow-succ', mul_comm, mul_assoc}
use marchimetrics.Words.Shift.{IsShifted, div-pow-suc}
use marchimetrics.Words.{bit_length, leading_zeros64, twos, trailing_zeros64}

bit_length-le : (k x : ℕ) → bit_length k x ≤ k
unfolding bit_length
bit_length-le zero x = omega arith
bit_length-le (suc k) x = ground (arith, bit_length-le k (x / 2))

lt-bit_length : (k x : ℕ) → x < 2 ^ k → x < 2 ^ bit_length k x
unfolding bit_length
lt-bit_length zero x h = h
lt-bit_length (suc k) x h = elim (Bool-cases (x == 0)) [
  | inl e ↦ rw e (ground arith)
  | inr e ↦
      rw e
        (omega (arith, lt-bit_length k (x / 2) (omega arith), pow-succ' 2 (bit_length k (x / 2))))
]

twos-lt-bit_length : (k x : ℕ) → 0 < x → x < 2 ^ k → twos k x < bit_length k x
unfolding bit_length twos
twos-lt-bit_length zero x p h = absurd (omega arith)
twos-lt-bit_length (suc k) x p h = ground (arith, twos-lt-bit_length k (x / 2))

IsShifted-double : (x t : ℕ) → x % 2 ≡ 0 → IsShifted (x / 2) t → IsShifted x (suc t)
IsShifted-double x t e h =
    let q = x / 2 / 2 ^ t in
    rw (div-pow-suc x t, pow-succ' 2 t)
      (omega (arith, h, ap (λ (r : ℕ). q * r) (mul_comm 2 (2 ^ t)), mul_assoc q (2 ^ t) 2))

twos_divides : (k x : ℕ) → IsShifted x (twos k x)
unfolding twos
twos_divides zero x = omega arith
twos_divides (suc k) x = elim (Bool-cases (x % 2 == 0)) [
  | inl e ↦ rw e (IsShifted-double x (twos k (x / 2)) (ground arith) (twos_divides k (x / 2)))
  | inr e ↦ rw e (omega arith)
]

-- A word lies below 2 ^ (64 - leading zeros), and its trailing zeros can be shifted out. A word
-- that is not 0 has a digit between them.
pub word_zeros :
    (x : ℕ)
    → 0 < x
    → x < 2 ^ 64
    → (leading_zeros64 x + trailing_zeros64 x < 64)
      × (x < 2 ^ (64 - leading_zeros64 x))
      × IsShifted x (trailing_zeros64 x)
unfolding leading_zeros64 trailing_zeros64
word_zeros x p h =
    let le : bit_length 64 x ≤ 64 = bit_length-le 64 x in
    let e : 64 - (64 - bit_length 64 x) ≡ bit_length 64 x = omega arith in
    (omega (arith, twos-lt-bit_length 64 x p h), rw e (lt-bit_length 64 x h), twos_divides 64 x)
