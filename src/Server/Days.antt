-- ===== src/Server/Days.antt =====
-- parseRetentionDays of cmd/marchimetrics/main.go.
use marchimetrics.Base.{
  ℕ, ◌≤◌, ◌≡◌, ◌↔◌, refl, ap, arith, Bool-cases, inl, inr, [], ◌∷◌, ◌++◌, false, ◌||◌, Option, none,
  some, Option-cases, ok, err, bad_parameter, ==_iff,
}
use marchimetrics.Base.{◌==◌ as nat_eq}
use marchimetrics.Base.Int.{ℤ, pos, negsuc}
use marchimetrics.Base.Str.{Str, str_eq}
use marchimetrics.Server.{is_blank, cut_days, day_count, parse_retention_days}

cut_days-suffix : (days : Str) → cut_days (days ++ (100 ∷ [])) ≡ some days
unfolding cut_days
cut_days-suffix [] = refl
cut_days-suffix (c ∷ []) = refl
cut_days-suffix (c ∷ e ∷ s) = rw (cut_days-suffix (e ∷ s)) refl

suffix-cut_days : (s days : Str) → cut_days s ≡ some days → s ≡ days ++ (100 ∷ [])
unfolding cut_days
suffix-cut_days [] days h = absurd (cc)
suffix-cut_days (c ∷ []) days h = elim (Bool-cases (nat_eq c 100)) [
  | inl e ↦
      let same : c ≡ 100 = (==_iff c 100).0 e in
      let h' : some [] ≡ some days = rw e at h in
      let none_left : [] ≡ days = cc in rw (← none_left, same) refl
  | inr e ↦ let h' : none ≡ some days = rw e at h in absurd (cc)
]
suffix-cut_days (c ∷ e ∷ s) days h = elim (Option-cases (cut_days (e ∷ s))) [
  | inl q ↦ let h' : none ≡ some days = rw q at h in absurd (cc)
  | inr (rest, q) ↦
      let h' : some (c ∷ rest) ≡ some days = rw q at h in
      let same : c ∷ rest ≡ days = cc in
      rw (← same) (ap (λ r. c ∷ r) (suffix-cut_days (e ∷ s) rest q))
]

day_count-ok : (o : Option ℤ) (n : ℕ) → day_count o ≡ ok n → o ≡ some (pos n)
day_count-ok none n h = absurd (cc)
day_count-ok (some (pos m)) n h = let same : m ≡ n = cc in rw same refl
day_count-ok (some (negsuc m)) n h = absurd (cc)

-- The two texts that stand for no days do not end in `d`.
not_zero : (s days : Str) → s ≡ days ++ (100 ∷ []) → (is_blank s || str_eq s (48 ∷ [])) ≡ false
unfolding str_eq
not_zero s [] e = rw e refl
not_zero s (c ∷ []) e = rw e (ground arith)
not_zero s (c ∷ f ∷ days) e = rw e (ground arith)

module _ (trim_space : Str → Str) (atoi : Str → Option ℤ) where
  -- parseRetentionDays gives a positive number of days exactly for the texts that are, trimmed, one
  -- that Atoi reads as that number, and a `d`.
  pub parse_retention_days_iff :
      (s : Str) (n : ℕ)
      → 1 ≤ n
      → (parse_retention_days trim_space atoi s ≡ ok n)
        ↔ ((days : Str) × (trim_space s ≡ days ++ (100 ∷ [])) × (atoi days ≡ some (pos n)))
  unfolding parse_retention_days
  parse_retention_days_iff s n positive = (
    λ h. elim (Bool-cases (is_blank (trim_space s) || str_eq (trim_space s) (48 ∷ []))) [
      | inl e ↦
          let h' : ok 0 ≡ ok n = rw (parse_retention_days, e) at h in
          let same : 0 ≡ n = cc in absurd (omega (arith, same))
      | inr e ↦ elim (Option-cases (cut_days (trim_space s))) [
        | inl q ↦
            let h' : err bad_parameter ≡ ok n = rw (parse_retention_days, e, q) at h in absurd (cc)
        | inr (days, q) ↦
            let h' : day_count (atoi days) ≡ ok n = rw (parse_retention_days, e, q) at h in
            (days, suffix-cut_days (trim_space s) days q, day_count-ok (atoi days) n h')
      ]
    ],
    λ (days, e, read).
        rw (parse_retention_days, not_zero (trim_space s) days e)
          (rw e (rw (cut_days-suffix days, read) refl)),
  )
