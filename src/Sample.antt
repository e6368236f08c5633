-- ===== src/Sample.antt =====
-- Sample of storage/storage.go and the comparisons that storage/part.go and storage/query.go make
-- on its fields. A timestamp is the pattern of an int64, a value the bits of a float64.
use marchimetrics.Base.{
  ℕ, ◌+◌, ◌%◌, ◌^◌, ◌≤◌, ◌≡◌, Bool, List, [], ◌∷◌, ltb, not, ◌&&◌, ◌||◌, if◌then◌else◌, All, length,
}
use marchimetrics.Base.{◌==◌ as nat_eq}
use marchimetrics.Varint.{IsU64}

pub record Sample : Type 0 where
  pub timestamp : ℕ
  pub value : ℕ

-- The rank of a pattern among the int64s: `a < b` on int64s is `<` on the ranks.
unfoldable pub rank : ℕ → ℕ
rank x = (x + 2 ^ 63) % 2 ^ 64

unfoldable pub lt64 : ℕ → ℕ → Bool
unfolding rank
lt64 a b = ltb (rank a) (rank b)

-- `!(sm.Timestamp < startMs || sm.Timestamp > endMs)`
unfoldable pub in_range : ℕ → ℕ → Sample → Bool
unfolding lt64
in_range start_ms end_ms sm = not (lt64 sm.timestamp start_ms || lt64 end_ms sm.timestamp)

-- The loops that append the samples of a range.
unfoldable pub within : ℕ → ℕ → List Sample → List Sample
unfolding in_range
within start_ms end_ms [] = []
within start_ms end_ms (sm ∷ sms) =
    let rest = within start_ms end_ms sms in if in_range start_ms end_ms sm then sm ∷ rest else rest

unfoldable pub sample_eq : Sample → Sample → Bool
sample_eq a b = nat_eq a.timestamp b.timestamp && nat_eq a.value b.value

-- The sum of a weight over the samples: with the weight 1 their number, with `occurs x` how often `x`
-- stands among them.
unfoldable pub weigh : (Sample → ℕ) → List Sample → ℕ
weigh w [] = 0
weigh w (y ∷ ys) = w y + weigh w ys

unfoldable pub occurs : Sample → Sample → ℕ
unfolding sample_eq
occurs x y = if sample_eq x y then 1 else 0

abbrev pub count : Sample → List Sample → ℕ
count x s = weigh (occurs x) s

abbrev pub IsTimeSorted : List Sample → Type 0
IsTimeSorted [] = Unit {0}
IsTimeSorted (a ∷ []) = Unit {0}
IsTimeSorted (a ∷ b ∷ s) = (rank a.timestamp ≤ rank b.timestamp) × IsTimeSorted (b ∷ s)

-- What sort.Slice by timestamp promises: the same samples, so the same sum of any weight,
-- in ascending order of time. It is not stable, so samples of one timestamp may come in any order.
pub record SortsByTime (sort_slice : List Sample → List Sample) : Type 0 where
  pub same_samples : (w : Sample → ℕ) (s : List Sample) → weigh w (sort_slice s) ≡ weigh w s
  pub ascending : (s : List Sample) → IsTimeSorted (sort_slice s)

abbrev pub FitsSample : Sample → Type 0
FitsSample s = IsU64 s.timestamp × IsU64 s.value

abbrev pub FitsSamples : List Sample → Type 0
FitsSamples s = IsU64 (length s) × All FitsSample s
