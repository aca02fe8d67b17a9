-- ===== src/Memory.antt =====
-- C memory as the binding sees it through `unsafe.Pointer`: blocks at addresses, one map for each
-- type of content. Address 0 is nil. Where the C allocator places a block, and what an
-- uninitialised block holds, are parameters (`Allocator`).
pub mod Laws
use libvirt_go.Prelude.{
  ℕ, ◌*◌, ◌<◌, ◌≡◌, ◌≢◌, ◌⊎◌, Option, none, some, List, [], ◌∷◌, Bytes, length, replicate, take,
  index_byte, ◌==◌, if◌then◌else◌,
}
use libvirt_go.Prelude.Int.{ℤ, pos}

abbrev pub Ptr : Type 0
Ptr = ℕ

abbrev pub nil : Ptr
nil = 0

-- `type cTypedParameter struct { field [80]byte; type_ int32; value struct { bits uint64 } }` of the
-- generated layouts; `value` is the eight bytes of the union.
pub record CTypedParameter : Type 0 where
  pub field : Bytes
  pub type_ : ℤ
  pub value : Bytes

-- The fields of `cError` that the binding reads.
pub record CError : Type 0 where
  pub code : ℤ
  pub domain : ℤ
  pub level : ℤ
  pub message : Ptr

-- The fields of `cDomainStatsRecord` that the binding reads.
pub record CStatsRecord : Type 0 where
  pub params : Ptr
  pub count : ℤ

pub record Memory : Type 0 where
  pub bytes : Ptr → Option Bytes
  pub params : Ptr → Option (List CTypedParameter)
  pub pointers : Ptr → Option (List Ptr)
  pub errors : Ptr → Option CError
  pub stats_records : Ptr → Option CStatsRecord

-- A map that is changed at one address.
abbrev pub update {ℓ} : {A : Type ℓ} → (Ptr → Option A) → Ptr → Option A → Ptr → Option A
update f p v q = if q == p then v else f q

-- No block of any type starts at the address.
pub record IsUnused (m : Memory) (p : Ptr) : Type 0 where
  pub bytes : m.bytes p ≡ none
  pub params : m.params p ≡ none
  pub pointers : m.pointers p ≡ none

pub record Allocator : Type 0 where
  pub place : Memory → ℕ → Ptr
  pub contents : Memory → ℕ → Bytes

-- malloc and calloc return nil or an address where nothing is; a block has the size asked for.
pub record IsLawful (a : Allocator) : Type 0 where
  pub fresh : (m : Memory) (n : ℕ) → a.place m n ≢ nil → IsUnused m (a.place m n)
  pub in_range : (m : Memory) (n : ℕ) → a.place m n < 0x10000000000000000
  pub sized : (m : Memory) (n : ℕ) → length (a.contents m n) ≡ n

-- A zeroed `cTypedParameter`.
abbrev pub zero_param : CTypedParameter
zero_param = record { field = replicate 80 0; type_ = pos 0; value = replicate 8 0 }

abbrev pub sizeof_param : ℕ
sizeof_param = 96

-- `api.malloc(n)`
unfoldable pub malloc : Allocator → ℕ → Memory → Ptr × Memory
malloc a n m =
    let p = a.place m n in
    if p == nil
    then (nil, m)
    else (p, record m { bytes = update m.bytes p (some (a.contents m n)) })

-- `api.calloc(n, unsafe.Sizeof(cTypedParameter{}))`
unfoldable pub calloc_params : Allocator → ℕ → Memory → Ptr × Memory
calloc_params a n m =
    let p = a.place m (n * sizeof_param) in
    if p == nil
    then (nil, m)
    else (p, record m { params = update m.params p (some (replicate n zero_param)) })

-- Whether a block starts at the address.
abbrev is_block :
    Option Bytes → Option (List CTypedParameter) → Option (List Ptr) → Option (Unit {0})
is_block (some b) _ _ = some tt
is_block none (some ps) _ = some tt
is_block none none (some qs) = some tt
is_block none none none = none

-- The memory without the block at `p`.
abbrev pub erase : Ptr → Memory → Memory
erase p m = record m {
  bytes = update m.bytes p none;
  params = update m.params p none;
  pointers = update m.pointers p none;
}

-- `api.free(p)`: nothing at nil; `none` is the fault of a free of what is not allocated.
unfoldable pub free : Ptr → Memory → Option Memory
free p m = if p == nil then some m else elim (is_block (m.bytes p) (m.params p) (m.pointers p)) [
  | some _ ↦ some (erase p m)
  | none ↦ none
]

-- The bytes in front of the first NUL; `none` where the block has none, as the loop of
-- `copyCString` runs past it.
abbrev pub c_string : Bytes → Option Bytes
c_string b = elim (index_byte b 0) [ some n ↦ some (take n b) | none ↦ none ]

-- `copyCString` of native.go; `none` is a fault.
unfoldable pub copy_c_string : Ptr → Memory → Option Bytes
copy_c_string p m =
    if p == nil then some [] else elim (m.bytes p) [ some b ↦ c_string b | none ↦ none ]
