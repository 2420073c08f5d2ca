-- ===== src/Signing/Bytes.antt =====
-- Big-endian bytes: `binary.BigEndian.PutUint64`, `big.Int.SetBytes`, and `copy` into a window.
use hyperliquid_go.Base.{
  ℕ, zero, suc, ◌+◌, ◌*◌, ◌/◌, ◌%◌, ◌^◌, ◌<◌, ◌≡◌, refl, ◌∙◌, [], ◌∷◌, ◌++◌, arith, length,
  length-append,
}
use hyperliquid_go.Base.Text.{Str}
use native.Mathlib.Nat.{pow-succ'}

-- The lowest `k` bytes of a number, the highest first.
unfoldable pub be_bytes : ℕ → ℕ → Str
be_bytes zero n = []
be_bytes (suc k) n = be_bytes k (n / 256) ++ (n % 256 ∷ [])

abbrev pub be_value_from : ℕ → Str → ℕ
be_value_from acc [] = acc
be_value_from acc (b ∷ s) = be_value_from (acc * 256 + b) s

unfoldable pub be_value : Str → ℕ
be_value s = be_value_from 0 s

-- `copy(raw[i:i+n], s)` into bytes that are zero.
unfoldable pub fit : ℕ → Str → Str
fit zero s = []
fit (suc n) [] = 0 ∷ fit n []
fit (suc n) (b ∷ s) = b ∷ fit n s

be_value_from-snoc :
    (acc : ℕ) (s : Str) (b : ℕ) → be_value_from acc (s ++ (b ∷ [])) ≡ be_value_from acc s * 256 + b
be_value_from-snoc acc [] b = refl
be_value_from-snoc acc (c ∷ s) b = be_value_from-snoc (acc * 256 + c) s b

-- Reading the bytes of a number that fits gives the number.
pub be_value-be_bytes : (k n : ℕ) → n < 256 ^ k → be_value (be_bytes k n) ≡ n
unfolding be_value be_bytes
be_value-be_bytes zero n h = omega arith
be_value-be_bytes (suc k) n h =
    let rest = be_value-be_bytes k (n / 256) (omega (arith, h, pow-succ' 256 k)) in
    be_value_from-snoc 0 (be_bytes k (n / 256)) (n % 256) ∙ omega (arith, rest)

pub length-be_bytes : (k n : ℕ) → length (be_bytes k n) ≡ k
unfolding be_bytes
length-be_bytes zero n = refl
length-be_bytes (suc k) n =
    length-append (be_bytes k (n / 256)) (n % 256 ∷ []) ∙ omega (arith, length-be_bytes k (n / 256))
