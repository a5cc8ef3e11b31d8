-- ===== src/Kvstore/Words.antt =====
-- What the codec uses of Go's encoding/binary, hash/crc32 and integer conversions.
use Prim.Native.Nat.{bit_xor}
use native.Mathlib.Nat.{pow-suc}
use kvraft.Base.{
  ℕ, zero, suc, ◌+◌, ◌-◌, ◌*◌, ◌/◌, ◌%◌, ◌^◌, ◌<◌, ◌≡◌, refl, [], ◌∷◌, Bytes, codes, arith, length,
  ltb, ◌==◌, if◌then◌else◌,
}
use kvraft.Base.Int.{ℤ, pos, negsuc}

-- `n` in `k` bytes, the lowest first.
unfoldable pub le_bytes : ℕ → ℕ → Bytes
le_bytes zero n = []
le_bytes (suc k) n = (n % 256) ∷ le_bytes k (n / 256)

pub le_value : Bytes → ℕ
le_value [] = 0
le_value (b ∷ bs) = b + 256 * le_value bs

pub length-le_bytes : (k n : ℕ) → length (le_bytes k n) ≡ k
unfolding le_bytes
length-le_bytes zero n = refl
length-le_bytes (suc k) n = omega (arith, length-le_bytes k (n / 256))

-- A value of at most `k` bytes is read back.
pub le_value-le_bytes : (k n : ℕ) → n < 256 ^ k → le_value (le_bytes k n) ≡ n
unfolding le_bytes le_value
le_value-le_bytes zero n h = omega arith
le_value-le_bytes (suc k) n h =
    let small : n / 256 < 256 ^ k = omega (arith, pow-suc 256 k) in
    omega (arith, le_value-le_bytes k (n / 256) small)

-- `int64(x)` of a uint64 and `uint64(x)` of an int64.
abbrev pub int64 : ℕ → ℤ
int64 w = if ltb w (2 ^ 63) then pos w else negsuc (2 ^ 64 - 1 - w)

abbrev pub uint64 : ℤ → ℕ
uint64 (pos n) = n % 2 ^ 64
uint64 (negsuc n) = 2 ^ 64 - 1 - n % 2 ^ 64

abbrev pub IsInt64 : ℤ → Type 0
IsInt64 (pos n) = n < 2 ^ 63
IsInt64 (negsuc n) = n < 2 ^ 63

pub int64-uint64 : (a : ℤ) → IsInt64 a → int64 (uint64 a) ≡ a
int64-uint64 (pos n) h = ground arith
int64-uint64 (negsuc n) h = ground arith

pub uint64-lt : (a : ℤ) → uint64 a < 2 ^ 64
uint64-lt (pos n) = omega arith
uint64-lt (negsuc n) = omega arith

-- One bit of the reflected CRC-32 with the IEEE polynomial.
crc_bits : ℕ → ℕ → ℕ
crc_bits zero c = c
crc_bits (suc k) c = crc_bits k (if c % 2 == 1 then bit_xor (c / 2) 0xedb88320 else c / 2)

crc_update : ℕ → Bytes → ℕ
crc_update c [] = c
crc_update c (b ∷ bs) = crc_update (crc_bits 8 (bit_xor c b)) bs

-- `crc32.ChecksumIEEE`, a uint32
pub checksum_ieee : Bytes → ℕ
unfolding crc_bits crc_update
checksum_ieee bs = bit_xor (crc_update 0xffffffff bs) 0xffffffff % 2 ^ 32

pub checksum_ieee-lt : (bs : Bytes) → checksum_ieee bs < 2 ^ 32
unfolding checksum_ieee
checksum_ieee-lt bs = omega arith

-- the check value of CRC-32
checksum_ieee_check : checksum_ieee (codes "123456789") ≡ 0xcbf43926
unfolding checksum_ieee
checksum_ieee_check = refl
