-- ===== src/Bytes.antt =====
-- Byte strings of crypto/crypto-ops.c: `load_3`, `load_4`, the stores of signed words into bytes,
-- and the number that a string of bytes stands for, lowest byte first.
pub mod Load
pub mod Zero
use monero_core_custom.Common.{
  ℕ, zero, suc, ◌+◌, ◌-◌, ◌*◌, ◌%◌, ◌^◌, ◌<◌, List, [], ◌∷◌, get_or, ◌≡◌,
}
use monero_core_custom.Common.{bit_or, length, All}
use monero_core_custom.Common.Int.{ℤ, pos, negsuc}

abbrev pub byte_at : List ℕ → ℕ → ℕ
byte_at s i = get_or s i 0

-- s[0] + 256 s[1] + 256^2 s[2] + …
unfoldable pub number : List ℕ → ℕ
number [] = 0
number (b ∷ bs) = b + 256 * number bs

abbrev pub IsByte : ℕ → Type 0
IsByte b = b < 256

-- `unsigned char[n]`
pub record IsBytes (n : ℕ) (s : List ℕ) : Type 0 where
  pub size : length s ≡ n
  pub bytes : All IsByte s

-- `(uint64_t) x << k`
abbrev pub shl64 : ℕ → ℕ → ℕ
shl64 x k = x * 2 ^ k % 2 ^ 64

-- `load_3(s + i)` and `load_4(s + i)`
unfoldable pub load_3 : List ℕ → ℕ → ℕ
load_3 s i =
    let result = byte_at s i in
    let result = bit_or result (shl64 (byte_at s (i + 1)) 8) in
    bit_or result (shl64 (byte_at s (i + 2)) 16)

unfoldable pub load_4 : List ℕ → ℕ → ℕ
load_4 s i =
    let result = byte_at s i in
    let result = bit_or result (shl64 (byte_at s (i + 1)) 8) in
    let result = bit_or result (shl64 (byte_at s (i + 2)) 16) in
    bit_or result (shl64 (byte_at s (i + 3)) 24)

-- The bit pattern of an `int64_t`.
unfoldable pub pattern64 : ℤ → ℕ
pattern64 (pos n) = n % 2 ^ 64
pattern64 (negsuc n) = 2 ^ 64 - 1 - n % 2 ^ 64

-- `(unsigned char) x` and `(unsigned char) (x | y)` for `int64_t` x and y.
unfoldable pub byte : ℤ → ℕ
unfolding pattern64
byte x = pattern64 x % 256

unfoldable pub byte_or : ℤ → ℤ → ℕ
unfolding pattern64
byte_or x y = bit_or (pattern64 x) (pattern64 y) % 256

-- `s[0] | s[1] | …`
unfoldable pub or_bytes : List ℕ → ℕ → ℕ
or_bytes [] acc = acc
or_bytes (b ∷ s) acc = or_bytes s (bit_or acc b)
