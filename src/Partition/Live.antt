-- ===== src/Partition/Live.antt =====
-- The weigh of the live parts when names or parts are added, removed or sorted.
use marchimetrics.Base.{
  ℕ, ◌+◌, ◌≡◌, refl, ap, ◌∙◌, arith, true, false, Bool-cases, inl, inr, List, [], ◌∷◌, ◌++◌, ◌||◌,
  not, ◌&&◌,
}
use marchimetrics.Base.Str.{Str, str_lt, nat_key, str_key, ◌==◌, str_eq_iff}
use marchimetrics.GoMap.{GoMap, lookup, insert, delete, contains}
use marchimetrics.GoMap.Laws.{lookup-insert, lookup-delete}
use marchimetrics.Sample.{Sample}
use marchimetrics.Part.{Part}
use marchimetrics.Partition.{read_named, not_removed, insert_string, sort_strings, delete_all}
use marchimetrics.Partition.Counting.{read_weight, live_weight}

pub read_named-same :
    (dirs' dirs : GoMap Str Part) (n : Str)
    → lookup n dirs' ≡ lookup n dirs
    → read_named dirs' n ≡ read_named dirs n
unfolding read_named
read_named-same dirs' dirs n same = rw (read_named, same) refl

pub contains-append :
    (n : Str) (a b : List Str) → contains n (a ++ b) ≡ (contains n a || contains n b)
unfolding contains
contains-append n [] b = refl
contains-append n (m ∷ a) b = ground (arith, contains-append n a b)

module _ (w : Sample → ℕ) (id : ℕ) where
  pub live_weight-append :
      (dirs : GoMap Str Part) (a b : List Str)
      → live_weight w id dirs (a ++ b) ≡ live_weight w id dirs a + live_weight w id dirs b
  unfolding live_weight
  live_weight-append dirs [] b = omega arith
  live_weight-append dirs (n ∷ a) b = omega (arith, live_weight-append dirs a b)

  pub live_weight-insert_string :
      (dirs : GoMap Str Part) (n : Str) (names : List Str)
      → live_weight w id dirs (insert_string n names) ≡ live_weight w id dirs (n ∷ names)
  unfolding live_weight insert_string
  live_weight-insert_string dirs n [] = refl
  live_weight-insert_string dirs n (m ∷ names) = elim (Bool-cases (str_lt m n)) [
    | inl e ↦ rw e (omega (arith, live_weight-insert_string dirs n names))
    | inr e ↦ rw e refl
  ]

  pub live_weight-sort_strings :
      (dirs : GoMap Str Part) (names : List Str)
      → live_weight w id dirs (sort_strings names) ≡ live_weight w id dirs names
  unfolding live_weight sort_strings
  live_weight-sort_strings dirs [] = refl
  live_weight-sort_strings dirs (n ∷ names) =
      live_weight-insert_string dirs n (sort_strings names)
      ∙ ap (λ k. read_weight w id (read_named dirs n) + k) (live_weight-sort_strings dirs names)

  -- A part that is not listed does not weigh.
  pub live_weight-insert :
      (dirs : GoMap Str Part) (n : Str) (part : Part) (names : List Str)
      → contains n names ≡ false
      → live_weight w id (insert n part dirs) names ≡ live_weight w id dirs names
  unfolding live_weight contains
  live_weight-insert dirs n part [] h = refl
  live_weight-insert dirs n part (m ∷ names) h =
      let other : (n == m) ≡ false = ground (arith, h, str_eq_iff n m, str_eq_iff m n) in
      let rest = live_weight-insert dirs n part names (ground (arith, h)) in
      let same : lookup m (insert n part dirs) ≡ lookup m dirs =
        lookup-insert n m part dirs ∙ rw other refl in
      omega (arith, rest, ap (read_weight w id) (read_named-same (insert n part dirs) dirs m same))

  pub live_weight-delete :
      (dirs : GoMap Str Part) (n : Str) (names : List Str)
      → contains n names ≡ false
      → live_weight w id (delete n dirs) names ≡ live_weight w id dirs names
  unfolding live_weight contains
  live_weight-delete dirs n [] h = refl
  live_weight-delete dirs n (m ∷ names) h =
      let other : (n == m) ≡ false = ground (arith, h, str_eq_iff n m, str_eq_iff m n) in
      let rest = live_weight-delete dirs n names (ground (arith, h)) in
      let same : lookup m (delete n dirs) ≡ lookup m dirs =
        lookup-delete n m dirs ∙ rw other refl in
      omega (arith, rest, ap (read_weight w id) (read_named-same (delete n dirs) dirs m same))

  pub live_weight-delete_all :
      (removed : List Str) (dirs : GoMap Str Part) (names : List Str)
      → ((n : Str) → contains n removed ≡ true → contains n names ≡ false)
      → live_weight w id (delete_all removed dirs) names ≡ live_weight w id dirs names
  unfolding delete_all contains
  live_weight-delete_all [] dirs names h = refl
  live_weight-delete_all (r ∷ removed) dirs names h =
      live_weight-delete_all removed (delete r dirs) names (λ n c. h n (ground (arith, c)))
      ∙ live_weight-delete dirs r names (h r (ground (arith, str_eq_iff r r)))

  pub contains-not_removed :
      (removed : List Str) (n : Str) (names : List Str)
      → contains n (not_removed removed names) ≡ (not (contains n removed) && contains n names)
  unfolding contains not_removed
  contains-not_removed removed n [] = ground arith
  contains-not_removed removed n (m ∷ names) = elim (Bool-cases (m == n)) [
    | inl e ↦
        let same : contains m removed ≡ contains n removed =
          ap (λ k. contains k removed) ((str_eq_iff m n).0 e) in
        ground (arith, e, same, contains-not_removed removed n names)
    | inr e ↦ ground (arith, e, contains-not_removed removed n names)
  ]
