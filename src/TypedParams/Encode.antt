-- ===== src/TypedParams/Encode.antt =====
-- `encodeTypedParameters`, `freeTypedParameters` and `freeTypedParameterStrings`: from Go values to C
-- memory, and its release. The legacy marshaller writes the array itself; with all eight helpers of
-- libvirt 1.0.2 each parameter is added by libvirt.
pub mod Written
pub mod Loop
use libvirt_go.Prelude.{
  ℕ, suc, ◌+◌, List, [], ◌∷◌, ◌++◌, Bytes, true, false, length, get_elem?, set, copy_into, Option,
  none, some, ◌==◌, if◌then◌else◌,
}
use libvirt_go.Prelude.Int.{eqb_ℤ}
use libvirt_go.Prelude.Words.{load_le, store_le, bits32, bits64}
use libvirt_go.Errors.{GoError, allocation_failed}
use libvirt_go.Memory.{Ptr, nil, Memory, CTypedParameter, Allocator, update, malloc, free}
use libvirt_go.TypedParams.{
  Value, int32_v, int64_v, uint32_v, uint64_v, float64_v, bool_v, string_v, TypedParameter,
  kind_code, string,
}
use libvirt_go.TypedParams.Decode.{slice_params}

-- A write to element `i` of the array at `base`; a fault where there is none.
unfoldable pub modify_param : Ptr → ℕ → (CTypedParameter → CTypedParameter) → Memory → Option Memory
modify_param base i f m = elim (m.params base) [
  | none ↦ none
  | some cs ↦ elim (get_elem? cs i) [
    | none ↦ none
    | some c ↦ some (record m { params = update m.params base (some (set cs i (f c))) })
  ]
]

-- A write to the block of bytes at `p`.
unfoldable pub write_bytes : Ptr → Bytes → Memory → Option Memory
write_bytes p s m = elim (m.bytes p) [
  | none ↦ none
  | some old ↦ some (record m { bytes = update m.bytes p (some (copy_into old s)) })
]

-- `copy(encoded.field[:], param.Field)` and `encoded.type_ = int32(param.Type)`
abbrev pub set_header : TypedParameter → CTypedParameter → CTypedParameter
set_header p c = record c { field = copy_into c.field p.field; type_ = p.type_ }

abbrev pub set_value : ℕ → ℕ → CTypedParameter → CTypedParameter
set_value n x c = record c { value = store_le n x c.value }

abbrev done : Option Memory → Option (Option GoError × Memory)
done none = none
done (some m) = some (none, m)

-- The string case behind `malloc`: the copy with its NUL, and the pointer in the union.
unfoldable pub store_text : Ptr → ℕ → Bytes → Ptr × Memory → Option (Option GoError × Memory)
store_text base i s (q, m) =
    if q == nil
    then some (some (allocation_failed "typed parameter"), m)
    else elim (write_bytes q (s ++ 0 ∷ []) m) [
      | none ↦ none
      | some m' ↦ done (modify_param base i (set_value 8 q) m')
    ]

unfoldable pub store_string :
    Allocator → Ptr → ℕ → Bytes → Memory → Option (Option GoError × Memory)
unfolding store_text
store_string a base i s m = store_text base i s (malloc a (length s + 1) m)

-- The switch on the value's type.
unfoldable pub store_value : Allocator → Ptr → ℕ → Value → Memory → Option (Option GoError × Memory)
unfolding store_string
store_value a base i (int32_v v) m = done (modify_param base i (set_value 4 (bits32 v)) m)
store_value a base i (uint32_v v) m = done (modify_param base i (set_value 4 v) m)
store_value a base i (int64_v v) m = done (modify_param base i (set_value 8 (bits64 v)) m)
store_value a base i (uint64_v v) m = done (modify_param base i (set_value 8 v) m)
store_value a base i (float64_v v) m = done (modify_param base i (set_value 8 v) m)
store_value a base i (bool_v true) m = done (modify_param base i (set_value 1 1) m)
store_value a base i (bool_v false) m = done (some m)
store_value a base i (string_v s) m = store_string a base i s m
store_value a base i _ m = done (some m)

-- One round of the legacy loop.
unfoldable pub encode_param :
    Allocator → Ptr → ℕ → TypedParameter → Memory → Option (Option GoError × Memory)
encode_param a base i p m = elim (modify_param base i (set_header p) m) [
  | none ↦ none
  | some m' ↦ store_value a base i p.value m'
]

-- The legacy loop from element `i` on. The result is the error that ends it early.
unfoldable pub encode_loop :
    Allocator → Ptr → ℕ → List TypedParameter → Memory → Option (Option GoError × Memory)
encode_loop a base i [] m = some (none, m)
encode_loop a base i (p ∷ ps) m = elim (encode_param a base i p m) [
  | none ↦ none
  | some (e, m') ↦ elim e [ some e' ↦ some (some e', m') | none ↦ encode_loop a base (suc i) ps m' ]
]

-- One round of the compatible loop of `freeTypedParameterStrings`.
unfoldable pub free_text : CTypedParameter → Memory → Option Memory
free_text c m =
    if eqb_ℤ c.type_ (kind_code string)
    then (if load_le 8 c.value == nil then some m else free (load_le 8 c.value) m)
    else some m

-- That loop: the text of each string parameter that has one.
unfoldable pub free_strings : List CTypedParameter → Memory → Option Memory
unfolding free_text
free_strings [] m = some m
free_strings (c ∷ cs) m = elim (free_text c m) [ none ↦ none | some m' ↦ free_strings cs m' ]
