-- ===== src/Prelude/Words.antt =====
-- Machine words: two's complement, and little-endian storage.
use Prim.Native.Nat.{ℕ, zero, suc, ◌+◌, ◌-◌, ◌*◌, ◌/◌, ◌%◌, ◌≤◌, ◌<◌}
use mathlib.Core.Path.{◌≡◌, refl, ap}
use mathlib.Core.List.{[], ◌∷◌}
use native.Mathlib.Omega.{arith}
use libvirt_go.Prelude.Tests.{ltb, if◌then◌else◌}
use libvirt_go.Prelude.Lists.{length, take}
use libvirt_go.Prelude.Text.{Bytes}
use libvirt_go.Prelude.Int.{ℤ, pos, negsuc}

-- The integers that `int32` and `int64` hold.
abbrev pub InInt32 : ℤ → Type 0
InInt32 (pos n) = n < 0x80000000
InInt32 (negsuc n) = n < 0x80000000

abbrev pub InInt64 : ℤ → Type 0
InInt64 (pos n) = n < 0x8000000000000000
InInt64 (negsuc n) = n < 0x8000000000000000

-- The bit pattern of an integer: `uint32(int32(z))`, `uint64(int64(z))`.
abbrev pub bits32 : ℤ → ℕ
bits32 (pos n) = n % 0x100000000
bits32 (negsuc n) = 0xffffffff - n % 0x100000000

abbrev pub bits64 : ℤ → ℕ
bits64 (pos n) = n % 0x10000000000000000
bits64 (negsuc n) = 0xffffffffffffffff - n % 0x10000000000000000

-- The integer of a bit pattern: the conversions `int32(x)` and `int64(x)`.
abbrev pub int32_of : ℕ → ℤ
int32_of x = let r = x % 0x100000000 in if ltb r 0x80000000 then pos r else negsuc (0xffffffff - r)

abbrev pub int64_of : ℕ → ℤ
int64_of x =
    let r = x % 0x10000000000000000 in
    if ltb r 0x8000000000000000 then pos r else negsuc (0xffffffffffffffff - r)

pub int32_of-bits32 : (z : ℤ) → InInt32 z → int32_of (bits32 z) ≡ z
int32_of-bits32 (pos n) h = ground arith
int32_of-bits32 (negsuc n) h = ground arith

pub int64_of-bits64 : (z : ℤ) → InInt64 z → int64_of (bits64 z) ≡ z
int64_of-bits64 (pos n) h = ground arith
int64_of-bits64 (negsuc n) h = ground arith

pub bits32-lt : (z : ℤ) → bits32 z < 0x100000000
bits32-lt (pos n) = omega arith
bits32-lt (negsuc n) = omega arith

pub bits64-lt : (z : ℤ) → bits64 z < 0x10000000000000000
bits64-lt (pos n) = omega arith
bits64-lt (negsuc n) = omega arith

-- `n` bytes, the least significant first, and the number that bytes spell.
unfoldable pub le_bytes : ℕ → ℕ → Bytes
le_bytes zero x = []
le_bytes (suc n) x = (x % 256) ∷ le_bytes n (x / 256)

unfoldable pub of_le : Bytes → ℕ
of_le [] = 0
of_le (b ∷ bs) = b + 256 * of_le bs

-- A load of `n` bytes from the start of a word in memory.
unfoldable pub load_le : ℕ → Bytes → ℕ
unfolding of_le
load_le n bs = of_le (take n bs)

-- A store of `n` bytes at the start of a word in memory.
unfoldable pub store_le : ℕ → ℕ → Bytes → Bytes
store_le zero x old = old
store_le (suc n) x [] = []
store_le (suc n) x (o ∷ old) = (x % 256) ∷ store_le n (x / 256) old

pub load_le-store_le :
    (n x : ℕ) (old : Bytes) → n ≤ length old → load_le n (store_le n x old) ≡ of_le (le_bytes n x)
unfolding load_le store_le le_bytes of_le
load_le-store_le zero x old h = refl
load_le-store_le (suc n) x [] h = elim h [ ]
load_le-store_le (suc n) x (o ∷ old) h =
    ap (λ t. x % 256 + 256 * t) (load_le-store_le n (x / 256) old (omega arith))

pub of_le-le_bytes-1 : (x : ℕ) → x < 256 → of_le (le_bytes 1 x) ≡ x
unfolding le_bytes of_le
of_le-le_bytes-1 x h = omega arith

pub of_le-le_bytes-4 : (x : ℕ) → x < 0x100000000 → of_le (le_bytes 4 x) ≡ x
unfolding le_bytes of_le
of_le-le_bytes-4 x h = omega arith

pub of_le-le_bytes-8 : (x : ℕ) → x < 0x10000000000000000 → of_le (le_bytes 8 x) ≡ x
unfolding le_bytes of_le
of_le-le_bytes-8 x h = omega arith
