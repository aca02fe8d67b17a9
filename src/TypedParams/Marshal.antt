-- ===== src/TypedParams/Marshal.antt =====
-- `encodeTypedParameters` whole: the checks, the choice between libvirt's helpers and the legacy
-- marshaller, and the cleanup that it hands to its caller.
use libvirt_go.Prelude.{
  ℕ, String, List, [], ◌∷◌, ◌++◌, Bool, true, false, length, Option, none, some, ◌==◌, ltb, ◌&&◌,
  if◌then◌else◌,
}
use libvirt_go.Prelude.Int.{ℤ, pos, negsuc, is_negative}
use libvirt_go.Prelude.Words.{int32_of}
use libvirt_go.Errors.{GoError, ok, err, allocation_failed, too_many}
use libvirt_go.Memory.{Ptr, nil, calloc_params}
use libvirt_go.World.{M, pure, ◌>>=◌, ◌>>◌, read_memory, change_memory, update_memory}
use libvirt_go.Native.{NativeApi, Arg, ptr, num, text, native_call, invoke, api_free, written}
use libvirt_go.TypedParams.{
  Value, int32_v, int64_v, uint32_v, uint64_v, float64_v, bool_v, string_v, TypedParameter,
  normalize_all,
}
use libvirt_go.TypedParams.Decode.{slice_params}
use libvirt_go.TypedParams.Encode.{encode_loop, free_strings}

-- What `encodeTypedParameters` returns: the array, its count and the cleanup, or an error.
pub data Encoding (L : Type 0) : Type 0 where
  encoded : Ptr → ℤ → M L (Unit {0}) → Encoding L
  failed : GoError → Encoding L

-- The helper that adds a value, with the arguments behind the name.
add_call : Value → Option (String × Arg)
add_call (int32_v v) = some ("virTypedParamsAddInt", num v)
add_call (uint32_v v) = some ("virTypedParamsAddUInt", num (pos v))
add_call (int64_v v) = some ("virTypedParamsAddLLong", num v)
add_call (uint64_v v) = some ("virTypedParamsAddULLong", num (pos v))
add_call (float64_v v) = some ("virTypedParamsAddDouble", num (pos v))
add_call (bool_v true) = some ("virTypedParamsAddBoolean", num (pos 1))
add_call (bool_v false) = some ("virTypedParamsAddBoolean", num (pos 0))
add_call (string_v s) = some ("virTypedParamsAddString", text (some (s ++ 0 ∷ [])))
add_call _ = none

-- The variables `memory`, `count` and `capacity`, the integers as their words.
record Growing : Type 0 where
  memory : Ptr
  count : ℕ
  capacity : ℕ

module _ {L : Type 0} (api : NativeApi L) where
  abbrev is_set : String → Bool
  is_set name = elim (api.fn name) [ some _ ↦ true | none ↦ false ]

  -- `native`: all the helpers of 1.0.2 are there.
  unfoldable pub has_helpers : Bool
  has_helpers =
      is_set "virTypedParamsFree"
      && (is_set "virTypedParamsAddInt"
          && (is_set "virTypedParamsAddUInt"
              && (is_set "virTypedParamsAddLLong"
                  && (is_set "virTypedParamsAddULLong"
                      && (is_set "virTypedParamsAddDouble"
                          && (is_set "virTypedParamsAddBoolean"
                              && is_set "virTypedParamsAddString"))))))

  -- `freeTypedParameterStrings`
  unfoldable pub free_typed_parameter_strings : Ptr → ℤ → M L (Unit {0})
  unfolding read_memory update_memory
  free_typed_parameter_strings memory (negsuc n) = pure tt
  free_typed_parameter_strings memory (pos n) =
      if memory == nil
      then pure tt
      else if n == 0
      then pure tt
      else elim (api.fn "virTypedParamsClear") [
        | some _ ↦ (do
          r ← invoke api "virTypedParamsClear" (ptr memory ∷ num (pos n) ∷ [])
          pure tt)
        | none ↦ do cs ← read_memory (slice_params memory n); update_memory (free_strings cs)
      ]

  -- `freeTypedParameters`
  unfoldable pub free_typed_parameters : Ptr → ℤ → M L (Unit {0})
  unfolding free_typed_parameter_strings
  free_typed_parameters memory count =
      if memory == nil then pure tt else elim (api.fn "virTypedParamsFree") [
        | some _ ↦ (do r ← invoke api "virTypedParamsFree" (ptr memory ∷ num count ∷ []); pure tt)
        | none ↦ do free_typed_parameter_strings memory count; api_free api memory
      ]

  -- One round with libvirt's helpers; a value that has none calls a nil function.
  add_param : TypedParameter → Growing → M L (Growing × Option GoError)
  unfolding add_call
  add_param p g = elim (add_call p.value) [
    | none ↦ λ w. none
    | some (operation, argument) ↦ native_call api g operation (do
      r ← invoke api operation (
          ptr g.memory
          ∷ num (int32_of g.count)
          ∷ num (int32_of g.capacity)
          ∷ text (some (p.field ++ 0 ∷ []))
          ∷ argument
          ∷ [])
      pure (
        record {
          memory = written r 0 g.memory;
          count = written r 1 g.count;
          capacity = written r 2 g.capacity;
        },
        is_negative (int32_of r.word),
      ))
  ]

  add_params : List TypedParameter → Growing → M L (Growing × Option GoError)
  unfolding add_param
  add_params [] g = pure (g, none)
  add_params (p ∷ ps) g = do
    (g', e) ← add_param p g
    elim e [ some e' ↦ pure (g', some e') | none ↦ add_params ps g' ]

  -- The loop's end: on an error what was built so far is released.
  abbrev pub finish : Ptr → ℤ → Option GoError → M L (Encoding L)
  finish memory count (some e) = do free_typed_parameters memory count; pure (failed e)
  finish memory count none = pure (encoded memory count (free_typed_parameters memory count))

  -- The loop over the parameters in normal form.
  unfoldable pub marshal : List TypedParameter → M L (Encoding L)
  unfolding add_params has_helpers change_memory
  marshal ps =
      if has_helpers
      then (do
        (g, e) ← add_params ps (record { memory = nil; count = 0; capacity = 0 })
        finish g.memory (int32_of g.count) e)
      else do
        base ← change_memory (λ m. some (calloc_params api.allocator (length ps) m))
        if base == nil then pure (failed (allocation_failed "typed parameters")) else do
          e ← change_memory (encode_loop api.allocator base 0 ps)
          finish base (pos (length ps)) e

  -- `encodeTypedParameters`
  unfoldable pub encode_typed_parameters : List TypedParameter → M L (Encoding L)
  unfolding marshal
  encode_typed_parameters ps =
      if ltb 0x7fffffff (length ps)
      then pure (failed (too_many (length ps)))
      else elim (normalize_all ps) [
        | err e ↦ pure (failed e)
        | ok [] ↦ pure (encoded nil (pos 0) (pure tt))
        | ok (n ∷ ns) ↦ marshal (n ∷ ns)
      ]
