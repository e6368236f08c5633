-- ===== src/Values/Cover.antt =====
-- When a window holds all the digits of a difference.
use marchimetrics.Base.{ℕ, ◌+◌, ◌-◌, ◌^◌, ◌≤◌, ◌<◌, ◌≡◌, arith, true, ltb, if◌then◌else◌}
use marchimetrics.Words.{leading_zeros64, trailing_zeros64, shr, shl}
use marchimetrics.Words.Zeros.{word_zeros}
use marchimetrics.Words.Shift.{IsShifted, IsShifted-le, shr-lt, shl-shr}
use marchimetrics.Values.{Window, window_of, fits_window, width}
use native.Mathlib.Nat.{pow-le-pow_right, le_trans}

pub record Covers (win : Window) (x : ℕ) : Type 0 where
  pub inside : win.lz + win.tz < 64
  pub below : x < 2 ^ (64 - win.lz)
  pub shifted : IsShifted x win.tz

-- A smaller window covers what a larger one covers.
Covers-le :
    (lz lz' tz tz' x : ℕ)
    → lz' ≤ lz
    → tz' ≤ tz
    → Covers (record { lz = lz; tz = tz }) x
    → Covers (record { lz = lz'; tz = tz' }) x
Covers-le lz lz' tz tz' x hl ht c = record {
  inside = omega (arith, c.inside);
  below =
      le_trans c.below
        (pow-le-pow_right {n = 2} (omega arith) {i = 64 - lz} {j = 64 - lz'} (omega arith));
  shifted = IsShifted-le x tz' tz ht c.shifted;
}

clamp-le : (lz : ℕ) → (if ltb 31 lz then 31 else lz) ≤ lz
clamp-le lz = ground arith

-- The window of a difference covers it, and its leading zeros fit five bits.
pub window_of-Covers : (x : ℕ) → 0 < x → x < 2 ^ 64 → Covers (window_of x) x
unfolding window_of
window_of-Covers x p h =
    let (a, b, c) = word_zeros x p h in
    Covers-le (leading_zeros64 x) _ (trailing_zeros64 x) (trailing_zeros64 x) x
      (clamp-le (leading_zeros64 x)) (omega arith) (record { inside = a; below = b; shifted = c })

pub window_of-lz : (x : ℕ) → (window_of x).lz ≤ 31
unfolding window_of
window_of-lz x = ground arith

-- The test for the previous window.
pub fits_window-le :
    (prev win : Window)
    → fits_window prev win ≡ true
    → (1 ≤ prev.lz) × (prev.lz ≤ win.lz) × (prev.tz ≤ win.tz)
unfolding fits_window
fits_window-le prev win h = ground arith

pub fits_window-Covers :
    (prev win : Window) (x : ℕ) → fits_window prev win ≡ true → Covers win x → Covers prev x
fits_window-Covers prev win x h c =
    let (_, hl, ht) = fits_window-le prev win h in Covers-le win.lz prev.lz win.tz prev.tz x hl ht c

module _ (win : Window) (x : ℕ) (c : Covers win x) where
  pub width-sum : width win + win.tz ≡ 64 - win.lz
  width-sum = omega (arith, c.inside)

  pub width_bounds : (1 ≤ width win) × (width win ≤ 64)
  width_bounds = omega (arith, c.inside)

  pub significant-lt : shr x win.tz < 2 ^ width win
  significant-lt = shr-lt x (width win) win.tz (rw width-sum c.below)

  pub significant_back : shl (shr x win.tz) win.tz ≡ x
  significant_back =
      shl-shr x win.tz
        (le_trans c.below
          (pow-le-pow_right {n = 2} (omega arith) {i = 64 - win.lz} {j = 64} (omega arith)))
        c.shifted
