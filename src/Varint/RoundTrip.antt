-- ===== src/Varint/RoundTrip.antt =====
-- What the varint readers give back on what the writers wrote.
use marchimetrics.Base.{
  ℕ, zero, suc, ◌+◌, ◌*◌, ◌/◌, ◌%◌, ◌^◌, ◌≤◌, ◌<◌, ◌≡◌, refl, ap, arith, List, [], ◌∷◌, ◌++◌, ok,
  length, All, take-append_left, drop-append_left, le→ltb, length-append,
}
use marchimetrics.Varint.{
  IsByte, IsU64, uvarint_groups, append_uvarint, zigzag, unzigzag, append_varint, uvarint_loop,
  uvarint, varint, str,
}
use native.Mathlib.Nat.{div-add-mod}
use native.Mathlib.Numerals.{towards_suc}

seven_more : (bits : ℕ) → 2 ^ (bits + 7) ≡ 2 ^ bits * 128
seven_more bits = simp towards_suc (omega arith)

-- The lowest group of `w` and the rest, both shifted by `s`.
lowest_group : (left s : ℕ) → left % 128 * 2 ^ s + left / 128 * 2 ^ (s + 7) ≡ left * 2 ^ s
lowest_group left s = omega (
  arith,
  ap (λ (power : ℕ). left / 128 * power) (seven_more s),
  ap (λ (sum : ℕ). sum * 2 ^ s) (div-add-mod left 128),
)

-- One round on the last byte `w` of a number, and on a byte that carries the group `g`.
last_round :
    (w i x s : ℕ) (rest : List ℕ)
    → w < 128
    → i ≤ 9
    → (i ≡ 9 → w ≤ 1)
    → x + w * 2 ^ s < 2 ^ 64
    → uvarint_loop (w ∷ rest) i x s ≡ ok (x + w * 2 ^ s, rest)
unfolding uvarint_loop
last_round w i x s rest hw hi top fits = ground (arith, top)

inner_round :
    (g i x s : ℕ) (rest : List ℕ)
    → g < 128
    → i ≤ 9
    → x + g * 2 ^ s < 2 ^ 64
    → uvarint_loop ((g + 128) ∷ rest) i x s ≡ uvarint_loop rest (i + 1) (x + g * 2 ^ s) (s + 7)
unfolding uvarint_loop
inner_round g i x s rest hg hi fits = ground arith

-- In the tenth byte only the lowest bit is left.
tenth_group : (w x s : ℕ) → s ≡ 63 → x + w * 2 ^ s < 2 ^ 64 → w ≤ 1
tenth_group w x s hs fits = let fits' : x + w * 2 ^ 63 < 2 ^ 64 = rw hs at fits in omega arith

-- `w` is what is still to be read, and it counts from bit `s` on. `k` more groups may follow.
uvarint_loop-groups :
    (k w i x s : ℕ) (rest : List ℕ)
    → i + k ≡ 9
    → w < 128 ^ suc k
    → s ≡ 7 * i
    → x + w * 2 ^ s < 2 ^ 64
    → uvarint_loop (uvarint_groups k w ++ rest) i x s ≡ ok (x + w * 2 ^ s, rest)
unfolding uvarint_groups
uvarint_loop-groups zero w i x s rest hi lt hs fits =
    let e : w % 256 ≡ w = omega arith in
    rw e (
      last_round w i x s rest (omega arith) (omega arith)
        (λ _. tenth_group w x s (omega arith) fits) fits)
uvarint_loop-groups (suc k) w i x s rest hi lt hs fits = ground (
  arith,
  last_round w i x s rest,
  lowest_group w s,
  inner_round (w % 128) i x s (uvarint_groups k (w / 128) ++ rest),
  uvarint_loop-groups k (w / 128) (i + 1) (x + w % 128 * 2 ^ s) (s + 7) rest (omega arith),
)

-- `uvarint` reads back the uint64 that AppendUvarint wrote, and leaves what follows.
pub uvarint-groups :
    (v : ℕ) (rest : List ℕ) → IsU64 v → uvarint (uvarint_groups 9 v ++ rest) ≡ ok (v, rest)
unfolding uvarint
uvarint-groups v rest h = ground (arith, uvarint_loop-groups 9 v 0 0 0 rest)

pub uvarint-append_uvarint :
    (v : ℕ) (rest : List ℕ) → IsU64 v → uvarint (append_uvarint [] v ++ rest) ≡ ok (v, rest)
unfolding append_uvarint
uvarint-append_uvarint v rest h = uvarint-groups v rest h

zigzag-IsU64 : (x : ℕ) → IsU64 x → IsU64 (zigzag x)
unfolding zigzag
zigzag-IsU64 x h = ground arith

pub unzigzag-zigzag : (x : ℕ) → IsU64 x → unzigzag (zigzag x) ≡ x
unfolding zigzag unzigzag
unzigzag-zigzag x h = ground arith

-- An int64 written as a varint is read back, and the bytes behind it are left to read.
pub varint-append_varint :
    (x : ℕ) (rest : List ℕ) → IsU64 x → varint (append_varint [] x ++ rest) ≡ ok (x, rest)
unfolding varint append_varint
varint-append_varint x rest h =
    rw (uvarint-append_uvarint (zigzag x) rest (zigzag-IsU64 x h), unzigzag-zigzag x h)

pub append_varint_lem : (buf : List ℕ) (x : ℕ) → append_varint buf x ≡ buf ++ append_varint [] x
unfolding append_varint
append_varint_lem buf x = refl

-- `str` reads back the bytes that were written behind their length.
pub str-append :
    (s rest : List ℕ)
    → IsU64 (length s)
    → str (append_uvarint [] (length s) ++ (s ++ rest)) ≡ ok (s, rest)
unfolding str
str-append s rest h = rw (
  uvarint-append_uvarint (length s) (s ++ rest) h,
  le→ltb (length (s ++ rest)) (length s) (omega (arith, length-append s rest)),
  take-append_left (length s) s rest refl,
  drop-append_left (length s) s rest refl,
)

uvarint_groups-IsByte : (k v : ℕ) → v < 128 ^ suc k → All IsByte (uvarint_groups k v)
unfolding uvarint_groups
uvarint_groups-IsByte zero v h = omega arith
uvarint_groups-IsByte (suc k) v h = ground (arith, uvarint_groups-IsByte k (v / 128) (omega arith))

-- The writer yields 1 to 10 elements.
pub length-uvarint_groups :
    (k v : ℕ) → (1 ≤ length (uvarint_groups k v)) × (length (uvarint_groups k v) ≤ k + 1)
unfolding uvarint_groups
length-uvarint_groups zero v = omega arith
length-uvarint_groups (suc k) v = ground (arith, length-uvarint_groups k (v / 128))

pub uvarint_shape :
    (v : ℕ)
    → IsU64 v
    → All IsByte (append_uvarint [] v)
      × (1 ≤ length (append_uvarint [] v))
      × (length (append_uvarint [] v) ≤ 10)
unfolding append_uvarint
uvarint_shape v h =
    let (lo, hi) = length-uvarint_groups 9 v in (uvarint_groups-IsByte 9 v (omega arith), lo, hi)

pub append_uvarint_lem : (buf : List ℕ) (x : ℕ) → append_uvarint buf x ≡ buf ++ append_uvarint [] x
unfolding append_uvarint
append_uvarint_lem buf x = refl
