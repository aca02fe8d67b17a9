-- ===== src/TypedParams.antt =====
-- typed_params.go: the Go values of libvirt's typed parameters, and their normal form.
pub mod DomainParams
pub mod Decode
pub mod Encode
pub mod Marshal
pub mod Normal
pub mod RoundTrip
pub mod Ownership
use libvirt_go.Prelude.{
  ℕ, ◌<◌, ◌≤◌, String, List, [], ◌∷◌, Bytes, Bool, true, false, bytes_eq, index_byte, leb, length,
  ◌||◌, if◌then◌else◌, Option, none, some, ltb,
}
use libvirt_go.Prelude.Int.{ℤ, pos, negsuc, eqb_ℤ}
use libvirt_go.Errors.{
  GoError, Result, ok, err, ◌>>=◌, invalid_field, value_expected, overflows, unsupported_type,
}

-- The field `Value any`, by its dynamic type; `float64_v` holds the bits of the float, which are only
-- copied, and `other` is nil or a value of another type.
pub data Value : Type 0 where
  int_v int32_v int64_v : ℤ → Value
  uint_v uint32_v uint64_v : ℕ → Value
  float64_v : ℕ → Value
  bool_v : Bool → Value
  string_v : Bytes → Value
  other : Value

-- `TypedParameter`; `type_` is the int32 `Type`.
pub record TypedParameter : Type 0 where
  pub field : Bytes
  pub type_ : ℤ
  pub value : Value

-- The constants of `TypedParameterType`.
pub data Kind : Type 0 where
  int uint long_long u_long_long double boolean string : Kind

abbrev pub kind_code : Kind → ℤ
kind_code int = pos 1
kind_code uint = pos 2
kind_code long_long = pos 3
kind_code u_long_long = pos 4
kind_code double = pos 5
kind_code boolean = pos 6
kind_code string = pos 7

-- The case of `switch Type` that is taken; `none` is `default`.
unfoldable pub kind_of : ℤ → Option Kind
kind_of t =
    if eqb_ℤ t (pos 1)
    then some int
    else if eqb_ℤ t (pos 2)
    then some uint
    else if eqb_ℤ t (pos 3)
    then some long_long
    else if eqb_ℤ t (pos 4)
    then some u_long_long
    else if eqb_ℤ t (pos 5)
    then some double
    else if eqb_ℤ t (pos 6)
    then some boolean
    else if eqb_ℤ t (pos 7)
    then some string
    else none

-- TYPED_PARAM_FIELD_LENGTH
abbrev pub field_length : ℕ
field_length = 80

abbrev pub has_nul : Bytes → Bool
has_nul s = elim (index_byte s 0) [ some _ ↦ true | none ↦ false ]

-- The first switch: the type of a parameter that gives none.
unfoldable pub infer_type : Value → ℤ
infer_type (int_v v) = kind_code int
infer_type (int32_v v) = kind_code int
infer_type (uint_v v) = kind_code uint
infer_type (uint32_v v) = kind_code uint
infer_type (int64_v v) = kind_code long_long
infer_type (uint64_v v) = kind_code u_long_long
infer_type (float64_v v) = kind_code double
infer_type (bool_v v) = kind_code boolean
infer_type (string_v v) = kind_code string
infer_type other = pos 0

-- The check `value < math.MinInt32 || value > math.MaxInt32`, and the conversion to int32.
abbrev pub to_int32 : Bytes → ℤ → Result Value
to_int32 field (pos n) =
    if ltb 0x7fffffff n then err (overflows field "int32") else ok (int32_v (pos n))
to_int32 field (negsuc n) =
    if ltb 0x7fffffff n then err (overflows field "int32") else ok (int32_v (negsuc n))

abbrev pub to_uint32 : Bytes → ℕ → Result Value
to_uint32 field n = if ltb 0xffffffff n then err (overflows field "uint32") else ok (uint32_v n)

-- The second switch: the value in the type that its parameter's type asks for.
unfoldable pub normalize_value : Bytes → Kind → Value → Result Value
normalize_value field int (int_v v) = to_int32 field v
normalize_value field int (int32_v v) = to_int32 field v
normalize_value field int v = err (value_expected field "int or int32")
normalize_value field uint (uint_v v) = to_uint32 field v
normalize_value field uint (uint32_v v) = to_uint32 field v
normalize_value field uint v = err (value_expected field "uint or uint32")
normalize_value field long_long (int64_v v) = ok (int64_v v)
normalize_value field long_long v = err (value_expected field "int64")
normalize_value field u_long_long (uint64_v v) = ok (uint64_v v)
normalize_value field u_long_long v = err (value_expected field "uint64")
normalize_value field double (float64_v v) = ok (float64_v v)
normalize_value field double v = err (value_expected field "float64")
normalize_value field boolean (bool_v v) = ok (bool_v v)
normalize_value field boolean v = err (value_expected field "bool")
normalize_value field string (string_v s) =
    if has_nul s then err (value_expected field "NUL-free string") else ok (string_v s)
normalize_value field string v = err (value_expected field "NUL-free string")

-- `param.Type` behind the first switch.
unfoldable pub type_or_inferred : ℤ → Value → ℤ
unfolding infer_type
type_or_inferred t v = if eqb_ℤ t (pos 0) then infer_type v else t

-- The second switch, at the case of its type.
unfoldable pub normalize_as : TypedParameter → ℤ → Option Kind → Result TypedParameter
unfolding normalize_value
normalize_as p t none = err (unsupported_type t)
normalize_as p t (some k) = do
  v ← normalize_value p.field k p.value
  ok (record { field = p.field; type_ = t; value = v })

-- The guard on the name.
unfoldable pub bad_field : Bytes → Bool
bad_field s = bytes_eq s [] || (leb field_length (length s) || has_nul s)

-- `normalizeTypedParameter`
unfoldable pub normalize : TypedParameter → Result TypedParameter
unfolding type_or_inferred normalize_as bad_field kind_of
normalize p =
    if bad_field p.field
    then err (invalid_field p.field)
    else normalize_as p (type_or_inferred p.type_ p.value)
        (kind_of (type_or_inferred p.type_ p.value))

-- The loop at the head of `encodeTypedParameters`: all parameters, or the first error.
unfoldable pub normalize_all : List TypedParameter → Result (List TypedParameter)
normalize_all [] = ok []
normalize_all (p ∷ ps) = do n ← normalize p; ns ← normalize_all ps; ok (n ∷ ns)
