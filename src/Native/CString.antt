-- ===== src/Native/CString.antt =====
-- `makeCString` of native.go.
use libvirt_go.Prelude.{
  String, Option, none, some, [], ◌∷◌, ◌++◌, Bytes, Bool, true, index_byte, bytes_eq, ◌&&◌,
  if◌then◌else◌, ◌≡◌, ◌≢◌, ◌⊎◌, inl, inr, arith, index_byte-none, Option-cases, Bool-cases,
  bytes_eq_iff,
}
use libvirt_go.Errors.{GoError, embedded_nul}
use libvirt_go.Memory.{c_string}
use libvirt_go.Memory.Laws.{c_string-append}

-- The buffer that is passed, `none` for a nil pointer, or an error.
pub data CBuffer : Type 0 where
  buffer : Option Bytes → CBuffer
  refused : GoError → CBuffer

unfoldable pub make_c_string : String → Bytes → Bool → CBuffer
make_c_string field value optional = elim (index_byte value 0) [
  | some _ ↦ refused (embedded_nul field)
  | none ↦ if optional && bytes_eq value [] then buffer none else buffer (some (value ++ 0 ∷ []))
]

-- A text that is passed to C is read there as itself, whole; a text with a NUL is refused, and only
-- an empty optional one becomes a nil pointer.
pub make_c_string-c_string :
    (field : String) (value : Bytes) (optional : Bool)
    → (index_byte value 0 ≢ none)
        × (make_c_string field value optional ≡ refused (embedded_nul field))
      ⊎ ((optional ≡ true) × (value ≡ []) × (make_c_string field value optional ≡ buffer none)
          ⊎ ((b : Bytes) × (make_c_string field value optional ≡ buffer (some b))
              × (c_string b ≡ some value)))
unfolding make_c_string
make_c_string-c_string field value optional = elim (Option-cases (index_byte value 0)) [
  | inr (n, found) ↦ inl (λ e. cc (e, found), ground (arith, found))
  | inl free ↦ elim (Bool-cases (optional && bytes_eq value [])) [
    | inl empty ↦ inr (
        inl (
          ground (arith, empty),
          ground (arith, empty, bytes_eq_iff value []),
          ground (arith, free, empty),
        ))
    | inr full ↦ inr (
        inr (
          value ++ 0 ∷ [],
          ground (arith, free, full),
          c_string-append value [] (index_byte-none value free),
        ))
  ]
]
