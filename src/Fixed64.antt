-- ===== src/Fixed64.antt =====
-- binary.LittleEndian.PutUint64 and Uint64, as storage/encode.go and storage/part.go call them, and
-- the wrapping int64 arithmetic of storage/encode.go on two's complement patterns.
use marchimetrics.Base.{
  ℕ, zero, suc, ◌+◌, ◌-◌, ◌*◌, ◌/◌, ◌%◌, ◌^◌, ◌<◌, ◌≡◌, refl, arith, List, [], ◌∷◌, length,
}
use marchimetrics.Varint.{IsU64}

-- The `k` lowest bytes of `v`, the lowest first.
unfoldable pub le_bytes : ℕ → ℕ → List ℕ
le_bytes zero v = []
le_bytes (suc k) v = v % 256 ∷ le_bytes k (v / 256)

unfoldable pub le_value : List ℕ → ℕ
le_value [] = 0
le_value (b ∷ bs) = b + 256 * le_value bs

unfoldable pub put_u64 : ℕ → List ℕ
unfolding le_bytes
put_u64 v = le_bytes 8 v

unfoldable pub add64 : ℕ → ℕ → ℕ
add64 a b = (a + b) % 2 ^ 64

unfoldable pub sub64 : ℕ → ℕ → ℕ
sub64 a b = (a + 2 ^ 64 - b) % 2 ^ 64

pub length-le_bytes : (k v : ℕ) → length (le_bytes k v) ≡ k
unfolding le_bytes
length-le_bytes zero v = refl
length-le_bytes (suc k) v = omega (arith, length-le_bytes k (v / 256))

le_value-le_bytes : (k v : ℕ) → v < 256 ^ k → le_value (le_bytes k v) ≡ v
unfolding le_bytes le_value
le_value-le_bytes zero v h = omega arith
le_value-le_bytes (suc k) v h = omega (arith, le_value-le_bytes k (v / 256) (omega arith))

pub length-put_u64 : (v : ℕ) → length (put_u64 v) ≡ 8
unfolding put_u64
length-put_u64 v = length-le_bytes 8 v

pub le_value-put_u64 : (v : ℕ) → IsU64 v → le_value (put_u64 v) ≡ v
unfolding put_u64
le_value-put_u64 v h = le_value-le_bytes 8 v h

pub add64-sub64 : (a b : ℕ) → IsU64 a → IsU64 b → add64 b (sub64 a b) ≡ a
unfolding add64 sub64
add64-sub64 a b ha hb = omega arith

pub sub64-IsU64 : (a b : ℕ) → IsU64 (sub64 a b)
unfolding sub64
sub64-IsU64 a b = omega arith

pub add64-IsU64 : (a b : ℕ) → IsU64 (add64 a b)
unfolding add64
add64-IsU64 a b = omega arith
