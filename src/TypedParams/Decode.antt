-- ===== src/TypedParams/Decode.antt =====
-- `decodeTypedParameter` and `decodeTypedParameters`: from C memory to Go values that own their text.
use libvirt_go.Prelude.{
  ℕ, zero, suc, List, [], ◌∷◌, Bytes, index_byte, take, length, Option, none, some, ◌==◌, not, leb,
  if◌then◌else◌,
}
use libvirt_go.Prelude.Int.{ℤ, pos, negsuc}
use libvirt_go.Prelude.Words.{load_le, int32_of, int64_of}
use libvirt_go.Errors.{Result, ok, err, negative_count, unknown_type}
use libvirt_go.Memory.{Ptr, Memory, CTypedParameter, copy_c_string}
use libvirt_go.TypedParams.{
  Value, int32_v, uint32_v, int64_v, uint64_v, float64_v, bool_v, string_v, TypedParameter, Kind,
  int, uint, long_long, u_long_long, double, boolean, string, kind_of,
}

-- The bytes in front of the first NUL, or all of them.
abbrev pub field_text : Bytes → Bytes
field_text field = elim (index_byte field 0) [ some end ↦ take end field | none ↦ field ]

-- The value of a union under its type; `none` is a fault.
unfoldable pub decode_value : Kind → Bytes → Memory → Option Value
decode_value int v m = some (int32_v (int32_of (load_le 4 v)))
decode_value uint v m = some (uint32_v (load_le 4 v))
decode_value long_long v m = some (int64_v (int64_of (load_le 8 v)))
decode_value u_long_long v m = some (uint64_v (load_le 8 v))
decode_value double v m = some (float64_v (load_le 8 v))
decode_value boolean v m = some (bool_v (not (load_le 1 v == 0)))
decode_value string v m = elim (copy_c_string (load_le 8 v) m) [
  | none ↦ none
  | some s ↦ some (string_v s)
]

unfoldable pub decode_typed_parameter : CTypedParameter → Memory → Option (Result TypedParameter)
unfolding decode_value kind_of
decode_typed_parameter c m = elim (kind_of c.type_) [
  | none ↦ some (err (unknown_type c.type_ (field_text c.field)))
  | some k ↦ elim (decode_value k c.value m) [
    | none ↦ none
    | some v ↦ some (ok (record { field = field_text c.field; type_ = c.type_; value = v }))
  ]
]

-- `unsafe.Slice((*cTypedParameter)(memory), n)`; a nil array has no elements, and reading past a
-- block is a fault.
unfoldable pub slice_params : Ptr → ℕ → Memory → Option (List CTypedParameter)
slice_params p zero m = some []
slice_params p (suc n) m = elim (m.params p) [
  | none ↦ none
  | some cs ↦ if leb (suc n) (length cs) then some (take (suc n) cs) else none
]

-- One round of the loop, in front of the result of the later ones.
abbrev pub collect :
    Option (Result TypedParameter)
    → Option (Result (List TypedParameter))
    → Option (Result (List TypedParameter))
collect none rest = none
collect (some (err e)) rest = some (err e)
collect (some (ok p)) none = none
collect (some (ok p)) (some (err e)) = some (err e)
collect (some (ok p)) (some (ok ps)) = some (ok (p ∷ ps))

unfoldable pub decode_all : List CTypedParameter → Memory → Option (Result (List TypedParameter))
decode_all [] m = some (ok [])
decode_all (c ∷ cs) m = collect (decode_typed_parameter c m) (decode_all cs m)

-- `decodeTypedParameters`
unfoldable pub decode_typed_parameters : Ptr → ℤ → Memory → Option (Result (List TypedParameter))
decode_typed_parameters p (negsuc n) m = some (err (negative_count (negsuc n)))
decode_typed_parameters p (pos n) m = elim (slice_params p n m) [
  | none ↦ none
  | some cs ↦ decode_all cs m
]
