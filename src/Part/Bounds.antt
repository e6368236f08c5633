-- ===== src/Part/Bounds.antt =====
-- MinTime and MaxTime of storage/part.go: the bounds of the samples of a part.
use marchimetrics.Base.{ℕ, ◌≤◌, ◌≡◌, refl, arith, List, [], ◌∷◌, true, ◌||◌, All, if◌then◌else◌}
use marchimetrics.Base.Str.{nat_key}
use marchimetrics.Sample.{Sample, rank, lt64, in_range, within}
use marchimetrics.Part.{PartMeta, widen}

-- The samples of a time range lie between the two times of the meta data.
abbrev pub InBounds : PartMeta → Sample → Type 0
InBounds m sm = (rank m.min_time ≤ rank sm.timestamp) × (rank sm.timestamp ≤ rank m.max_time)

-- The second range holds the first.
abbrev pub Wider : PartMeta → PartMeta → Type 0
Wider m m' = (rank m'.min_time ≤ rank m.min_time) × (rank m.max_time ≤ rank m'.max_time)

pub All-Wider :
    (m m' : PartMeta) (s : List Sample) → Wider m m' → All (InBounds m) s → All (InBounds m') s
All-Wider m m' [] h hs = tt
All-Wider m m' (sm ∷ s) (lo, hi) ((a, b), hs) =
    ((omega (arith, lo, a), omega (arith, hi, b)), All-Wider m m' s (lo, hi) hs)

abbrev widened : PartMeta → Sample → PartMeta
widened meta sm = record meta {
  min_time = if lt64 sm.timestamp meta.min_time then sm.timestamp else meta.min_time;
  max_time = if lt64 meta.max_time sm.timestamp then sm.timestamp else meta.max_time;
}

widened-InBounds :
    (m : PartMeta) (sm : Sample) → Wider m (widened m sm) × InBounds (widened m sm) sm
unfolding lt64
widened-InBounds m sm = ground arith

pub Wider-widen : (s : List Sample) (m : PartMeta) → Wider m (widen m s)
unfolding widen
Wider-widen [] m = (omega arith, omega arith)
Wider-widen (sm ∷ s) m =
    let ((lo, hi), inside) = widened-InBounds m sm in
    let (lo', hi') = Wider-widen s (widened m sm) in
    (omega (arith, lo, lo'), omega (arith, hi, hi'))

pub InBounds-widen : (s : List Sample) (m : PartMeta) → All (InBounds (widen m s)) s
unfolding widen
InBounds-widen [] m = tt
InBounds-widen (sm ∷ s) m =
    let (wider, (a, b)) = widened-InBounds m sm in
    let (lo, hi) = Wider-widen s (widened m sm) in
    ((omega (arith, a, lo), omega (arith, b, hi)), InBounds-widen s (widened m sm))

-- Samples within the bounds of a part that is skipped are all outside the queried range.
pub within-skipped :
    (m : PartMeta) (lo hi : ℕ) (s : List Sample)
    → (lt64 m.max_time lo || lt64 hi m.min_time) ≡ true
    → All (InBounds m) s
    → within lo hi s ≡ []
unfolding within in_range lt64
within-skipped m lo hi [] skip h = refl
within-skipped m lo hi (sm ∷ s) skip (b, h) =
    ground (arith, within-skipped m lo hi s skip h, skip, b)
