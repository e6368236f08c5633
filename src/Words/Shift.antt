-- ===== src/Words/Shift.antt =====
-- Shifts as division and multiplication by powers of two.
use marchimetrics.Base.{ℕ, zero, suc, ◌+◌, ◌-◌, ◌*◌, ◌/◌, ◌^◌, ◌≤◌, ◌<◌, ◌≡◌, sym, ap, ◌∙◌, arith}
use marchimetrics.Words.{shr, shl}
use native.Mathlib.Nat.{
  div-div-eq-div-mul, pow-succ', mul-div_cancel, div-lt_iff_lt-mul, one-le-pow, mul_assoc,
  mod-eq_of_lt,
}

pub two_pow_pos : (k : ℕ) → 0 < 2 ^ k
two_pow_pos k = one-le-pow k 2 (omega arith)

pub pow-add : (a b : ℕ) → 2 ^ (a + b) ≡ 2 ^ a * 2 ^ b
pow-add zero b = let e : 0 + b ≡ b = omega arith in ap (λ (t : ℕ). 2 ^ t) e ∙ omega arith
pow-add (suc a) b =
    let e : suc a + b ≡ suc (a + b) = omega arith in
    rw (e, pow-succ' 2 (a + b), pow-succ' 2 a, pow-add a b) (sym (mul_assoc 2 (2 ^ a) (2 ^ b)))

pub div-pow-suc : (x k : ℕ) → x / 2 ^ suc k ≡ x / 2 / 2 ^ k
div-pow-suc x k = ap (λ (t : ℕ). x / t) (pow-succ' 2 k) ∙ sym (div-div-eq-div-mul x 2 (2 ^ k))

-- A shift to the right drops no digit.
abbrev pub IsShifted : ℕ → ℕ → Type 0
IsShifted x k = x / 2 ^ k * 2 ^ k ≡ x

pub IsShifted-mul : (q k : ℕ) → IsShifted (q * 2 ^ k) k
IsShifted-mul q k = ap (λ (t : ℕ). t * 2 ^ k) (mul-div_cancel q (two_pow_pos k))

-- A smaller shift drops none either.
pub IsShifted-le : (x j k : ℕ) → j ≤ k → IsShifted x k → IsShifted x j
IsShifted-le x j k le h =
    let e : x ≡ x / 2 ^ k * 2 ^ (k - j) * 2 ^ j =
      sym h
      ∙ ap (λ (t : ℕ). x / 2 ^ k * t) (ap (λ (t : ℕ). 2 ^ t) (omega arith) ∙ pow-add (k - j) j)
      ∙ sym (mul_assoc (x / 2 ^ k) (2 ^ (k - j)) (2 ^ j)) in
    rw e (IsShifted-mul (x / 2 ^ k * 2 ^ (k - j)) j)

-- What is left of a number of `a + k` digits has `a`.
pub shr-lt : (x a k : ℕ) → x < 2 ^ (a + k) → shr x k < 2 ^ a
shr-lt x a k h = (div-lt_iff_lt-mul (two_pow_pos k)).1 (rw (pow-add a k) at h)

pub shl-shr : (x k : ℕ) → x < 2 ^ 64 → IsShifted x k → shl (shr x k) k ≡ x
shl-shr x k lt h = rw h (mod-eq_of_lt lt)
