-- ===== src/Base/Endian.antt =====
-- The bytes of a number in memory, least significant first, as on the hosts of the framework.
use Prim.Native.Nat.{ℕ, zero, suc, ◌+◌, ◌*◌, ◌/◌, ◌%◌, ◌^◌, ◌<◌}
use mathlib.Core.Path.{◌≡◌, refl, ap}
use mathlib.Core.List.{[], ◌∷◌, ◌++◌}
use native.Mathlib.Nat.{pow-suc}
use native.Mathlib.Omega.{arith}
use de_co_f.Base.Lists.{Bytes, length, take, drop}

-- `k` bytes of the pattern `n`.
unfoldable pub le_bytes : ℕ → ℕ → Bytes
le_bytes zero n = []
le_bytes (suc k) n = n % 256 ∷ le_bytes k (n / 256)

unfoldable pub le_value : Bytes → ℕ
le_value [] = 0
le_value (b ∷ bs) = b + 256 * le_value bs

pub length-le_bytes : (k n : ℕ) → length (le_bytes k n) ≡ k
unfolding le_bytes
length-le_bytes zero n = refl
length-le_bytes (suc k) n = ap suc (length-le_bytes k (n / 256))

pub le_value-le_bytes : (k n : ℕ) → n < 256 ^ k → le_value (le_bytes k n) ≡ n
unfolding le_bytes le_value
le_value-le_bytes zero n h = omega arith
le_value-le_bytes (suc k) n h =
    let e : 256 ^ suc k ≡ 256 ^ k * 256 = pow-suc 256 k in
    omega (arith, le_value-le_bytes k (n / 256) (omega arith))

pub take-le_bytes : (k n : ℕ) (rest : Bytes) → take k (le_bytes k n ++ rest) ≡ le_bytes k n
unfolding le_bytes
take-le_bytes zero n rest = refl
take-le_bytes (suc k) n rest = ap (◌∷◌ (n % 256)) (take-le_bytes k (n / 256) rest)

pub drop-le_bytes : (k n : ℕ) (rest : Bytes) → drop k (le_bytes k n ++ rest) ≡ rest
unfolding le_bytes
drop-le_bytes zero n rest = refl
drop-le_bytes (suc k) n rest = drop-le_bytes k (n / 256) rest
