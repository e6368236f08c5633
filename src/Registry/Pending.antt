-- ===== src/Registry/Pending.antt =====
-- DrainPending and TrackPending of storage/series.go, one after the other.
use marchimetrics.Base.{
  ℕ, ◌≡◌, refl, ◌∙◌, arith, Bool-cases, inl, inr, false, List, [], ◌∷◌, none, if◌then◌else◌, ==_iff,
}
use marchimetrics.Base.{◌==◌ as nat_eq}
use marchimetrics.Base.Str.{nat_key}
use marchimetrics.GoMap.{GoMap, lookup, insert}
use marchimetrics.GoMap.Laws.{lookup-insert}
use marchimetrics.Label.{Label}
use marchimetrics.Part.RoundTrip.{has_entry}
use marchimetrics.Part.Range.{IsUnique}
use marchimetrics.Registry.{put_back}

lookup-put_back :
    (i : ℕ) (entries pending : GoMap ℕ (List Label))
    → IsUnique entries
    → lookup i (put_back pending entries)
      ≡ (if has_entry i entries then lookup i entries else lookup i pending)
unfolding put_back has_entry lookup
lookup-put_back i [] pending h = refl
lookup-put_back i ((id, labels) ∷ entries) pending (fresh, h) =
    let put = lookup-insert id i labels pending in
    let rest = lookup-put_back i entries (insert id labels pending) h in
    elim (Bool-cases (nat_eq id i)) [
      | inl e ↦
          let same : id ≡ i = (==_iff id i).0 e in
          let none_behind : has_entry i entries ≡ false = rw same at fresh in
          rest ∙ rw (none_behind, put, e) refl
      | inr e ↦ rest ∙ rw (put, e) refl
    ]

lookup-no_entry :
    (i : ℕ) (entries : GoMap ℕ (List Label)) → has_entry i entries ≡ false → lookup i entries ≡ none
unfolding has_entry lookup
lookup-no_entry i [] h = refl
lookup-no_entry i ((id, labels) ∷ entries) h = ground (arith, h, lookup-no_entry i entries)

-- Put back into an empty map, the entries are those of the drained one.
pub lookup-put_back_empty :
    (i : ℕ) (entries : GoMap ℕ (List Label))
    → IsUnique entries
    → lookup i (put_back [] entries) ≡ lookup i entries
unfolding lookup
lookup-put_back_empty i entries h = elim (Bool-cases (has_entry i entries)) [
  | inl e ↦ lookup-put_back i entries [] h ∙ rw e refl
  | inr e ↦ lookup-put_back i entries [] h ∙ rw (e, lookup-no_entry i entries e) refl
]
