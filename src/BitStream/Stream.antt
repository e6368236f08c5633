-- ===== src/BitStream/Stream.antt =====
-- The bits that a number, a byte slice and a bitWriter stand for, the highest first.
use marchimetrics.Base.{
  ℕ, zero, suc, ◌+◌, ◌-◌, ◌*◌, ◌/◌, ◌%◌, ◌^◌, ◌<◌, ◌≡◌, refl, ap, ◌∙◌, arith, List, [], ◌∷◌, ◌++◌,
  append_assoc, append-nil, drop, get_elem?, Option, none, some,
}
use marchimetrics.Words.Shift.{div-pow-suc, pow-add}
use native.Mathlib.Nat.{div-div-eq-div-mul}

-- The `k` lowest bits of `v`.
unfoldable pub low_bits : ℕ → ℕ → List ℕ
low_bits zero v = []
low_bits (suc k) v = v / 2 ^ k % 2 ∷ low_bits k v

unfoldable pub all_bits : List ℕ → List ℕ
all_bits [] = []
all_bits (b ∷ bs) = low_bits 8 b ++ all_bits bs

pub all_bits-append : (xs ys : List ℕ) → all_bits (xs ++ ys) ≡ all_bits xs ++ all_bits ys
unfolding all_bits
all_bits-append [] ys = refl
all_bits-append (b ∷ bs) ys =
    rw (all_bits-append bs ys, append_assoc (low_bits 8 b) (all_bits bs) (all_bits ys))

pub all_bits_snoc : (xs : List ℕ) (b : ℕ) → all_bits (xs ++ (b ∷ [])) ≡ all_bits xs ++ low_bits 8 b
all_bits_snoc xs b =
    all_bits-append xs (b ∷ [])
    ∙ ap (λ r. all_bits xs ++ r) (unfold all_bits in append-nil (low_bits 8 b))

-- A bit behind the lowest one.
pub low_bits_snoc : (k q d : ℕ) → d < 2 → low_bits (suc k) (2 * q + d) ≡ low_bits k q ++ (d ∷ [])
unfolding low_bits
low_bits_snoc zero q d h = let e : (2 * q + d) / 1 % 2 ≡ d = omega arith in rw e
low_bits_snoc (suc k) q d h =
    let e : (2 * q + d) / 2 ≡ q = omega arith in
    rw (div-pow-suc (2 * q + d) k, e) (ap (λ r. q / 2 ^ k % 2 ∷ r) (low_bits_snoc k q d h))

-- Only the digits below `k` count.
pub low_bits_split : (n j x : ℕ) → low_bits (n + j) x ≡ low_bits n (x / 2 ^ j) ++ low_bits j x
unfolding low_bits
low_bits_split zero j x = let e : 0 + j ≡ j = omega arith in rw e
low_bits_split (suc n) j x =
    let e : suc n + j ≡ suc (n + j) = omega arith in
    let f : n + j ≡ j + n = omega arith in
    rw (e, div-div-eq-div-mul x (2 ^ j) (2 ^ n), ← pow-add j n, ← f)
      (ap (λ r. x / 2 ^ (n + j) % 2 ∷ r) (low_bits_split n j x))

-- The bit that readBit takes from a byte.
abbrev pub bit_of : ℕ → Option ℕ → Option ℕ
bit_of k none = none
bit_of k (some byte) = some (byte / 2 ^ k % 2)

nine_on :
    (p : ℕ)
    → (suc (suc (suc (suc (suc (suc (suc (suc p))))))) / 8 ≡ suc (p / 8))
      × (suc (suc (suc (suc (suc (suc (suc (suc p))))))) % 8 ≡ p % 8)
nine_on p = omega arith

-- readBit's index arithmetic finds bit `pos` of the whole slice.
pub get_elem?-all_bits :
    (bs : List ℕ) (pos : ℕ)
    → get_elem? (all_bits bs) pos ≡ bit_of (7 - pos % 8) (get_elem? bs (pos / 8))
unfolding all_bits low_bits
get_elem?-all_bits [] pos = refl
get_elem?-all_bits (b ∷ bs) zero = refl
get_elem?-all_bits (b ∷ bs) (suc zero) = refl
get_elem?-all_bits (b ∷ bs) (suc (suc zero)) = refl
get_elem?-all_bits (b ∷ bs) (suc (suc (suc zero))) = refl
get_elem?-all_bits (b ∷ bs) (suc (suc (suc (suc zero)))) = refl
get_elem?-all_bits (b ∷ bs) (suc (suc (suc (suc (suc zero))))) = refl
get_elem?-all_bits (b ∷ bs) (suc (suc (suc (suc (suc (suc zero)))))) = refl
get_elem?-all_bits (b ∷ bs) (suc (suc (suc (suc (suc (suc (suc zero))))))) = refl
get_elem?-all_bits (b ∷ bs) (suc (suc (suc (suc (suc (suc (suc (suc p)))))))) =
    let (d, m) = nine_on p in get_elem?-all_bits bs p ∙ rw (d, m)

pub get_elem?-drop {ℓ} :
    {A : Type ℓ} (l : List A) (pos : ℕ) (x : A) (xs : List A)
    → drop pos l ≡ x ∷ xs
    → get_elem? l pos ≡ some x
get_elem?-drop [] zero x xs h = cc
get_elem?-drop [] (suc pos) x xs h = cc
get_elem?-drop (y ∷ l) zero x xs h = cc
get_elem?-drop (y ∷ l) (suc pos) x xs h = get_elem?-drop l pos x xs h

pub drop-suc {ℓ} :
    {A : Type ℓ} (l : List A) (pos : ℕ) (x : A) (xs : List A)
    → drop pos l ≡ x ∷ xs
    → drop (suc pos) l ≡ xs
drop-suc [] zero x xs h = cc
drop-suc [] (suc pos) x xs h = cc
drop-suc (y ∷ l) zero x xs h = cc
drop-suc (y ∷ l) (suc pos) x xs h = drop-suc l pos x xs h
