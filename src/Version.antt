-- ===== src/Version.antt =====
-- version.go: libvirt's version numbers. `raw` is a uint64, the fields of `Version` are uint32.
use libvirt_go.Prelude.{ℕ, ◌+◌, ◌*◌, ◌/◌, ◌%◌, ◌<◌, ◌≡◌, arith}

pub record Version : Type 0 where
  pub major : ℕ
  pub minor : ℕ
  pub release : ℕ

-- `DecodeVersion`; each conversion `uint32(…)` keeps the low 32 bits.
unfoldable pub decode_version : ℕ → Version
decode_version raw = record {
  major = raw / 1_000_000 % 0x100000000;
  minor = raw % 1_000_000 / 1_000 % 0x100000000;
  release = raw % 1_000 % 0x100000000;
}

-- `Version.Number`, in uint64 arithmetic.
unfoldable pub number : Version → ℕ
number v = (v.major * 1_000_000 + v.minor * 1_000 + v.release) % 0x10000000000000000

-- The number of the decoded version is the number that was decoded, for every raw number whose
-- major version fits a uint32.
pub number-decode_version :
    (raw : ℕ) → raw < 4_294_967_296_000_000 → number (decode_version raw) ≡ raw
unfolding number decode_version
number-decode_version raw h = omega arith

-- A version with minor and release below 1000 and a major of 32 bits is decoded from its number.
pub decode_version-number :
    (v : Version)
    → v.major < 0x100000000
    → v.minor < 1_000
    → v.release < 1_000
    → decode_version (number v) ≡ v
unfolding number decode_version
decode_version-number v a b c = ground arith
