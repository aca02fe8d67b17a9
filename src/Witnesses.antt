-- ===== src/Witnesses.antt =====
-- A small libvirt that the examples of the properties share.
mod Parameters
mod Handling
mod Methods
mod Goroutines
mod Statistics
mod Loading
mod Callbacks
use libvirt_go.Native.CString.{buffer, refused, make_c_string, make_c_string-c_string}
use libvirt_go.Prelude.{
  none, some, [], if◌then◌else◌, Bool-cases, codes, Bool, ◌≡◌, inl, str_eq, ◌∷◌, false, replicate,
  true, inr, arith, length-replicate, refl, ◌==◌, index_byte, ◌≢◌, ◌⊎◌, Bytes, String,
}
use libvirt_go.Errors.{closed, ok, libvirt_error, bare_error, embedded_nul, argument_too_large}
use libvirt_go.Memory.{Memory, Allocator, IsLawful, Ptr, nil, IsUnused, erase, c_string}
use libvirt_go.World.{World, M, called, pure, w_unlock, with_memory, r_unlock, w_lock, r_lock}
use libvirt_go.Native.{
  CFun, NativeApi, native_call, reset_last_error, call_int, ptr, outcome, require_symbol, lookup,
  invoke, last_error,
}
use libvirt_go.TypedParams.{
  TypedParameter, normalize_all, int_v, int32_v, string_v, normalize, bad_field, type_or_inferred,
  infer_type, normalize_as, normalize_value, kind_of,
}
use libvirt_go.TypedParams.RoundTrip.{Encodes, encode_typed_parameters-Encodes}
use libvirt_go.Native.Laws.{Quiet, Calls, Quiet-bind, native_call-Calls, Quiet-call_int, Quiet-pure}
use libvirt_go.Prelude.Int.{ℤ, pos, negsuc}
use libvirt_go.TypedParams.Marshal.{encode_typed_parameters}
use libvirt_go.Resource.{
  status, NativeObject, object_free, native_object_list, owned, after_write, object_call,
}
use libvirt_go.Resource.Laws.{
  object_free-failed, object_free-once, native_object_list-releases, owned-releases,
}
use libvirt_go.TypedParams.Normal.{Normalizes, normalize-Normalizes, normalize-IsNormal}
use libvirt_go.Version.{number, decode_version, number-decode_version, decode_version-number}
use libvirt_go.Handles.Stream.{read, received, transferred}
use libvirt_go.Handles.Stream.Reading.{read-positive}
use libvirt_go.Resource.Locks.{Locked, object_call-Locked}
use libvirt_go.Handles.Domain.SendKey.{send_key, send_key-refuses}

abbrev no_memory : Memory
no_memory = record {
  bytes = λ _. none;
  params = λ _. none;
  pointers = λ _. none;
  errors = λ _. none;
  stats_records = λ _. none;
}

abbrev world_0 : World (Unit {0})
world_0 = record { state = record { memory = no_memory; lib = tt }; pinned = 0; trace = [] }

is_free : Memory → Ptr → Bool
is_free m p = elim (m.bytes p) [
  | some _ ↦ false
  | none ↦ elim (m.params p) [
    | some _ ↦ false
    | none ↦ elim (m.pointers p) [ some _ ↦ false | none ↦ true ]
  ]
]

-- Two blocks at fixed addresses.
abbrev two_blocks : Allocator
two_blocks = record {
  place = λ m n. if is_free m 16 then 16 else if is_free m 32 then 32 else nil;
  contents = λ m n. replicate n 7;
}

is_free-IsUnused : (m : Memory) (p : Ptr) → is_free m p ≡ true → IsUnused m p
unfolding is_free
is_free-IsUnused m p h = record {
  bytes = ground arith;
  params = ground arith;
  pointers = ground arith;
}

two_blocks-IsLawful : IsLawful two_blocks
two_blocks-IsLawful = record {
  fresh = λ m n ne. elim (Bool-cases (is_free m 16)) [
    | inl free ↦ rw free (is_free-IsUnused m 16 free)
    | inr used ↦ elim (Bool-cases (is_free m 32)) [
      | inl free ↦ rw (used, free) (is_free-IsUnused m 32 free)
      | inr full ↦ absurd (ne (rw (used, full) refl))
    ]
  ];
  in_range = λ m n. ground arith;
  sized = λ m n. length-replicate n 7;
}

abbrev success : CFun (Unit {0})
success args s = (record { word = 0; outs = [] }, s)

-- A libvirt that knows one symbol.
abbrev small_api : NativeApi (Unit {0})
small_api = record {
  missing = [];
  known = [];
  fn = λ name. if str_eq name "virDomainCreate" then some success else none;
  allocator = two_blocks;
}

-- A handle, a release of it that succeeds, and one that fails.
abbrev network_1 : NativeObject
network_1 = record { ptr = 64; kind = "network" }

abbrev release_network : Ptr → M (Unit {0}) ℤ
release_network p = call_int small_api "virDomainCreate" (ptr p ∷ [])

abbrev lost : Ptr → M (Unit {0}) ℤ
lost p = pure (negsuc 0)
