-- ===== src/Memory/Laws.antt =====
-- What a write, an allocation and a release change, and what they leave alone.
use libvirt_go.Prelude.{
  List, ◌≡◌, fun_ext, Option, none, some, arith, ==_refl, ◌∷◌, ◌++◌, Bytes, IsNulFree,
  index_byte-append, take-length-append, ◌≢◌, ap, ℕ, sym, ==_ne, ◌*◌, replicate,
}
use libvirt_go.Memory.{
  Ptr, update, c_string, CTypedParameter, Memory, malloc, Allocator, nil, IsUnused, erase, free,
  calloc_params, sizeof_param, zero_param,
}

pub update_self {ℓ} :
    {A : Type ℓ} (f : Ptr → Option A) (p : Ptr) (v : Option A) → update f p v p ≡ v
update_self f p v = rw ==_refl

-- Erasing what was written at an unused address restores the map.
pub update-update_unused {ℓ} :
    {A : Type ℓ} (f : Ptr → Option A) (p : Ptr) (v : Option A)
    → f p ≡ none
    → update (update f p v) p none ≡ f
update-update_unused f p v h = fun_ext λ q. ground arith

-- A C string in front of its NUL is read back whole.
pub c_string-append : (s rest : Bytes) → IsNulFree s → c_string (s ++ 0 ∷ rest) ≡ some s
c_string-append s rest h =
    ground (arith, index_byte-append s rest h, take-length-append s (0 ∷ rest))

-- Two writes of an array at one address.
pub update-update {ℓ} :
    {A : Type ℓ} (f : Ptr → Option A) (p : Ptr) (v w : Option A)
    → update (update f p v) p w ≡ update f p w
update-update f p v w = fun_ext λ q. ground arith

pub update_ne {ℓ} :
    {A : Type ℓ} (f : Ptr → Option A) (p q : Ptr) (v : Option A) → p ≢ q → update f p v q ≡ f q
update_ne f p q v h = ground arith

-- The memory with an array of parameters at `base`, and with a block of bytes at `p`.
abbrev pub set_array : Ptr → List CTypedParameter → Memory → Memory
set_array base cs m = record m { params = update m.params base (some cs) }

abbrev pub add_bytes : Ptr → Bytes → Memory → Memory
add_bytes p b m = record m { bytes = update m.bytes p (some b) }

pub set_array-set_array :
    (base : Ptr) (cs ds : List CTypedParameter) (m : Memory)
    → set_array base ds (set_array base cs m) ≡ set_array base ds m
set_array-set_array base cs ds m =
    ap (λ f. record m { params = f }) (update-update m.params base (some cs) (some ds))

pub add_bytes-add_bytes :
    (p : Ptr) (b c : Bytes) (m : Memory) → add_bytes p c (add_bytes p b m) ≡ add_bytes p c m
add_bytes-add_bytes p b c m =
    ap (λ f. record m { bytes = f }) (update-update m.bytes p (some b) (some c))

-- The two ways in which `malloc` ends.
pub malloc-nil : (a : Allocator) (n : ℕ) (m : Memory) → a.place m n ≡ nil → malloc a n m ≡ (nil, m)
unfolding malloc
malloc-nil a n m h = ground arith

pub malloc-ne-nil :
    (a : Allocator) (n : ℕ) (m : Memory)
    → a.place m n ≢ nil
    → malloc a n m ≡ (a.place m n, add_bytes (a.place m n) (a.contents m n) m)
unfolding malloc
malloc-ne-nil a n m h = ground arith

update-none {ℓ} : {A : Type ℓ} (f : Ptr → Option A) (p : Ptr) → f p ≡ none → update f p none ≡ f
update-none f p h = fun_ext λ q. ground arith

pub update_comm {ℓ} :
    {A : Type ℓ} (f : Ptr → Option A) (p q : Ptr) (v w : Option A)
    → p ≢ q
    → update (update f p v) q w ≡ update (update f q w) p v
update_comm f p q v w h = fun_ext λ r. ground arith

pub add_bytes_comm :
    (p q : Ptr) (b c : Bytes) (m : Memory)
    → p ≢ q
    → add_bytes q c (add_bytes p b m) ≡ add_bytes p b (add_bytes q c m)
add_bytes_comm p q b c m h =
    ap (λ f. record m { bytes = f }) (update_comm m.bytes p q (some b) (some c) h)

-- A block that is erased leaves what was there before it.
pub erase-add_bytes :
    (p : Ptr) (b : Bytes) (m : Memory) → IsUnused m p → erase p (add_bytes p b m) ≡ m
erase-add_bytes p b m u = λ i. record {
  bytes = update-update_unused m.bytes p (some b) u.bytes i;
  params = update-none m.params p u.params i;
  pointers = update-none m.pointers p u.pointers i;
  errors = m.errors;
  stats_records = m.stats_records;
}

pub erase-set_array_self :
    (p : Ptr) (cs : List CTypedParameter) (m : Memory)
    → IsUnused m p
    → erase p (set_array p cs m) ≡ m
erase-set_array_self p cs m u = λ i. record {
  bytes = update-none m.bytes p u.bytes i;
  params = update-update_unused m.params p (some cs) u.params i;
  pointers = update-none m.pointers p u.pointers i;
  errors = m.errors;
  stats_records = m.stats_records;
}

pub erase-set_array :
    (q base : Ptr) (cs : List CTypedParameter) (m : Memory)
    → q ≢ base
    → erase q (set_array base cs m) ≡ set_array base cs (erase q m)
erase-set_array q base cs m h =
    ap (λ f. record (erase q m) { params = f })
      (update_comm m.params base q (some cs) none (λ e. h (sym e)))

-- A release of a block of bytes, and of an array.
pub free-bytes :
    (q : Ptr) (b : Bytes) (m : Memory) → q ≢ nil → m.bytes q ≡ some b → free q m ≡ some (erase q m)
unfolding free
free-bytes q b m h e = rw (==_ne q nil h, e, free)

pub free-array :
    (base : Ptr) (cs : List CTypedParameter) (m : Memory)
    → base ≢ nil
    → m.bytes base ≡ none
    → free base (set_array base cs m) ≡ some (erase base (set_array base cs m))
unfolding free
free-array base cs m h e = rw (==_ne base nil h, e, ==_refl base, free)

-- The two ways in which `calloc` ends.
pub calloc-nil :
    (a : Allocator) (n : ℕ) (m : Memory)
    → a.place m (n * sizeof_param) ≡ nil
    → calloc_params a n m ≡ (nil, m)
unfolding calloc_params
calloc-nil a n m h = ground arith

pub calloc-ne-nil :
    (a : Allocator) (n : ℕ) (m : Memory)
    → a.place m (n * sizeof_param) ≢ nil
    → calloc_params a n m ≡ (
      a.place m (n * sizeof_param),
      set_array (a.place m (n * sizeof_param)) (replicate n zero_param) m,
    )
unfolding calloc_params
calloc-ne-nil a n m h = ground arith
