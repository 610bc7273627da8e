-- ===== src/Zutils/Fnv64.antt =====
-- pkg/zutils/hash/fnv64/fnv64a.go: FNV-1a over the bytes of a text, in uint64.
use Prim.Native.Nat.{bit_xor}
use zincsearch.Prelude.{ℕ, ◌*◌, ◌%◌, ◌^◌, ◌<◌, List, [], ◌∷◌, arith}

abbrev pub offset64 : ℕ
offset64 = 14695981039346656037

abbrev pub prime64 : ℕ
prime64 = 1099511628211

-- the loop over the bytes
unfoldable pub sum_from : ℕ → List ℕ → ℕ
sum_from hash [] = hash
sum_from hash (b ∷ bytes) = sum_from (bit_xor hash b * prime64 % 2 ^ 64) bytes

-- `Sum64`
unfoldable pub sum64 : List ℕ → ℕ
unfolding sum_from
sum64 bytes = sum_from offset64 bytes

sum_from-lt : (hash : ℕ) (bytes : List ℕ) → hash < 2 ^ 64 → sum_from hash bytes < 2 ^ 64
unfolding sum_from
sum_from-lt hash [] h = h
sum_from-lt hash (b ∷ bytes) h = sum_from-lt (bit_xor hash b * prime64 % 2 ^ 64) bytes (omega arith)

pub sum64-lt : (bytes : List ℕ) → sum64 bytes < 2 ^ 64
unfolding sum64
sum64-lt bytes = sum_from-lt offset64 bytes (omega arith)
