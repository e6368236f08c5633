-- ===== src/Words/Bits.antt =====
-- Laws of `bit_xor` and `bit_or` at variables, from their digit recursion.
use Prim.Native.Nat.{bit_xor, bit_or, digits, differ, bit_xor-bitwise}
use marchimetrics.Base.{
  ℕ, zero, suc, ◌+◌, ◌*◌, ◌/◌, ◌%◌, ◌^◌, ◌≤◌, ◌<◌, ◌≡◌, refl, arith, Bool, true, ◌&&◌, ◌==◌, ==_iff,
}

abbrev xor_digits : ℕ → ℕ → ℕ → ℕ
xor_digits n a b = digits (λ b. b) differ n a b

xor_digits_fuel : (n m a b : ℕ) → a ≤ n → a ≤ m → xor_digits n a b ≡ xor_digits m a b
xor_digits_fuel zero zero a b p q = refl
xor_digits_fuel zero (suc m) zero b p q = refl
xor_digits_fuel zero (suc m) (suc a) b p q = absurd (omega arith)
xor_digits_fuel (suc n) zero zero b p q = refl
xor_digits_fuel (suc n) zero (suc a) b p q = absurd (omega arith)
xor_digits_fuel (suc n) (suc m) zero b p q = refl
xor_digits_fuel (suc n) (suc m) (suc a) b p q =
    omega (arith, xor_digits_fuel n m (suc a / 2) (b / 2) (omega arith) (omega arith))

pub zero-bit_xor : (b : ℕ) → bit_xor 0 b ≡ b
zero-bit_xor b = bit_xor-bitwise 0 b

-- One digit of the result comes from one digit of each.
pub bit_xor_step : (a b : ℕ) → bit_xor a b ≡ bit_xor (a / 2) (b / 2) * 2 + differ (a % 2) (b % 2)
bit_xor_step zero b = omega (arith, zero-bit_xor b, zero-bit_xor (b / 2))
bit_xor_step (suc a) b = omega (
  arith,
  bit_xor-bitwise (suc a) b,
  bit_xor-bitwise (suc a / 2) (b / 2),
  xor_digits_fuel a (suc a / 2) (suc a / 2) (b / 2) (omega arith) (omega arith),
)

differ-lt : (a b : ℕ) → a < 2 → b < 2 → differ a b < 2
differ-lt zero b h k = k
differ-lt (suc zero) zero h k = omega arith
differ-lt (suc zero) (suc zero) h k = omega arith
differ-lt (suc zero) (suc (suc b)) h k = absurd (omega arith)
differ-lt (suc (suc a)) b h k = absurd (omega arith)

differ_cancel : (a b : ℕ) → a < 2 → b < 2 → differ a (differ b a) ≡ b
differ_cancel zero zero h k = refl
differ_cancel zero (suc zero) h k = refl
differ_cancel (suc zero) zero h k = refl
differ_cancel (suc zero) (suc zero) h k = refl
differ_cancel (suc zero) (suc (suc b)) h k = absurd (omega arith)
differ_cancel zero (suc (suc b)) h k = absurd (omega arith)
differ_cancel (suc (suc a)) b h k = absurd (omega arith)

half_of_step : (a b : ℕ) → bit_xor a b / 2 ≡ bit_xor (a / 2) (b / 2)
half_of_step a b =
    omega (arith, bit_xor_step a b, differ-lt (a % 2) (b % 2) (omega arith) (omega arith))

digit_of_step : (a b : ℕ) → bit_xor a b % 2 ≡ differ (a % 2) (b % 2)
digit_of_step a b =
    omega (arith, bit_xor_step a b, differ-lt (a % 2) (b % 2) (omega arith) (omega arith))

bit_xor_cancel_fuel : (n a b : ℕ) → a ≤ n → b ≤ n → bit_xor a (bit_xor b a) ≡ b
bit_xor_cancel_fuel zero zero zero p q = refl
bit_xor_cancel_fuel zero (suc a) b p q = absurd (omega arith)
bit_xor_cancel_fuel zero zero (suc b) p q = absurd (omega arith)
bit_xor_cancel_fuel (suc n) a b p q =
    rw (bit_xor_step a (bit_xor b a), half_of_step b a, digit_of_step b a)
      (omega (
        arith,
        bit_xor_cancel_fuel n (a / 2) (b / 2) (omega arith) (omega arith),
        differ_cancel (a % 2) (b % 2) (omega arith) (omega arith),
      ))

-- `prev ^ (cur ^ prev)` is `cur`.
pub bit_xor_cancel : (a b : ℕ) → bit_xor a (bit_xor b a) ≡ b
bit_xor_cancel a b = bit_xor_cancel_fuel (a + b) a b (omega arith) (omega arith)

bit_xor-zero_fuel : (n a : ℕ) → a ≤ n → bit_xor a 0 ≡ a
bit_xor-zero_fuel zero zero p = refl
bit_xor-zero_fuel zero (suc a) p = absurd (omega arith)
bit_xor-zero_fuel (suc n) a p = omega (
  arith,
  bit_xor_step a 0,
  bit_xor-zero_fuel n (a / 2) (omega arith),
  differ_zero (a % 2) (omega arith),
)
  where
    differ_zero : (d : ℕ) → d < 2 → differ d 0 ≡ d
    differ_zero zero h = refl
    differ_zero (suc d) h = refl

pub bit_xor-zero : (a : ℕ) → bit_xor a 0 ≡ a
bit_xor-zero a = bit_xor-zero_fuel a a (omega arith)

pub bit_xor-lt : (k a b : ℕ) → a < 2 ^ k → b < 2 ^ k → bit_xor a b < 2 ^ k
bit_xor-lt zero zero zero p q = omega arith
bit_xor-lt zero (suc a) b p q = absurd (omega arith)
bit_xor-lt zero zero (suc b) p q = absurd (omega arith)
bit_xor-lt (suc k) a b p q = omega (
  arith,
  bit_xor_step a b,
  differ-lt (a % 2) (b % 2) (omega arith) (omega arith),
  bit_xor-lt k (a / 2) (b / 2) (omega arith) (omega arith),
)

holds_below : ℕ → (ℕ → Bool) → Bool
holds_below zero test = true
holds_below (suc bound) test = holds_below bound test && test bound

holds_below_at :
    (bound : ℕ) (test : ℕ → Bool) (i : ℕ)
    → i < bound
    → holds_below bound test ≡ true
    → test i ≡ true
unfolding holds_below
holds_below_at zero test i below h = absurd (omega arith)
holds_below_at (suc bound) test i below h = ground (arith, holds_below_at bound test i)

-- Setting bit `j` of a byte whose bits below `j + 1` are clear adds to it.
abbrev sets_bit : ℕ → ℕ → ℕ → Bool
sets_bit j d c = bit_or (c * 2 ^ (j + 1)) (d * 2 ^ j) == c * 2 ^ (j + 1) + d * 2 ^ j

set_bit_table :
    holds_below 8 (λ j. holds_below 2 (λ d. holds_below 256 (λ c. sets_bit j d c))) ≡ true
unfolding holds_below
set_bit_table = refl

pub set_bit :
    (j d c : ℕ)
    → j < 8
    → d < 2
    → c < 256
    → bit_or (c * 2 ^ (j + 1)) (d * 2 ^ j) ≡ c * 2 ^ (j + 1) + d * 2 ^ j
set_bit j d c hj hd hc = (==_iff _ _).0 (
    holds_below_at 256 (λ c. sets_bit j d c) c hc
      (holds_below_at 2 (λ d. holds_below 256 (λ c. sets_bit j d c)) d hd
        (holds_below_at 8 (λ j. holds_below 2 (λ d. holds_below 256 (λ c. sets_bit j d c))) j hj
          set_bit_table)))
