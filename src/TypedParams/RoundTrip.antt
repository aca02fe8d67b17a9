-- ===== src/TypedParams/RoundTrip.antt =====
-- `encodeTypedParameters` on a libvirt older than 1.0.2, from the call to its cleanup: what it
-- writes is read back by `decodeTypedParameters`, and nothing that it allocates is lost.
use libvirt_go.Prelude.{
  ◌≡◌, List, ℕ, leb, take, true, length, none, ◌∷◌, arith, ap, some, ◌≢◌, ==_refl, refl, suc, ◌∙◌,
  Option-cases, ==_ne, Bytes, inl, inr, Option, All, false, Bool-cases, ◌*◌, ltb, ℕ_discrete,
  replicate,
}
use libvirt_go.World.{
  ◌>>=◌, M, World, with_memory, >>=-step, read_memory-step, change_memory-step, read_memory,
  update_memory-step, update_memory, change_memory, pure,
}
use libvirt_go.TypedParams.Decode.{
  slice_params, decode_typed_parameters, decode_value, decode_typed_parameter, decode_all,
}
use libvirt_go.Native.{NativeApi, api_free}
use libvirt_go.Memory.{
  CTypedParameter, Ptr, Memory, IsLawful, nil, IsUnused, copy_c_string, free, sizeof_param,
  zero_param,
}
use libvirt_go.TypedParams.{TypedParameter, Kind, kind_of, string, normalize_all, normalize}
use libvirt_go.Memory.Laws.{set_array, free-array, erase-set_array_self, calloc-nil, calloc-ne-nil}
use libvirt_go.TypedParams.Encode.Loop.{
  Reads, Reads-decode_all, Grown, LoopEnds, finished, stopped, encode_loop-LoopEnds,
}
use libvirt_go.TypedParams.Marshal.{
  free_typed_parameters, free_typed_parameter_strings, has_helpers, Encoding, failed, encoded,
  finish, marshal, encode_typed_parameters,
}
use libvirt_go.Prelude.Int.{pos}
use mathlib.Core.List.{[]}
use libvirt_go.Errors.{ok, Result, GoError, Result-cases, err, allocation_failed}
use libvirt_go.TypedParams.Ownership.{free_strings-Grown}
use libvirt_go.TypedParams.Encode.{free_strings, encode_loop}
use libvirt_go.TypedParams.Normal.{IsGoValue, Ensures, IsNormal, Ensures-bind, normalize-Normalizes}

take-length : (cs : List CTypedParameter) → take (length cs) cs ≡ cs
take-length [] = refl
take-length (c ∷ cs) = ap (◌∷◌ c) (take-length cs)

leb_refl : (n : ℕ) → leb n n ≡ true
leb_refl n = ground arith

slice_params-array :
    (base : Ptr) (cs : List CTypedParameter) (m : Memory)
    → slice_params base (length cs) (set_array base cs m) ≡ some cs
unfolding slice_params
slice_params-array base [] m = refl
slice_params-array base (c ∷ cs) m =
    rw (==_refl base, slice_params)
      (rw (leb_refl (suc (length cs))) (ap (λ t. some (c ∷ t)) (take-length cs)))

-- Decoding reads blocks of bytes alone.
decode_value-set_array :
    (k : Kind) (u : Bytes) (base : Ptr) (xs : List CTypedParameter) (m : Memory)
    → decode_value k u (set_array base xs m) ≡ decode_value k u m
unfolding decode_value copy_c_string
decode_value-set_array string u base xs m = refl
decode_value-set_array _ u base xs m = refl

decode_typed_parameter-set_array :
    (c : CTypedParameter) (base : Ptr) (xs : List CTypedParameter) (m : Memory)
    → decode_typed_parameter c (set_array base xs m) ≡ decode_typed_parameter c m
unfolding decode_typed_parameter
decode_typed_parameter-set_array c base xs m = elim (Option-cases (kind_of c.type_)) [
  | inl unknown ↦ ground arith
  | inr (k, known) ↦ ground (arith, decode_value-set_array k c.value base xs m)
]

Reads-set_array :
    (cs : List CTypedParameter) (ps : List TypedParameter) (base : Ptr) (xs : List CTypedParameter)
    (m : Memory)
    → Reads cs ps m
    → Reads cs ps (set_array base xs m)
Reads-set_array [] [] base xs m h = tt
Reads-set_array (c ∷ cs) (p ∷ ps) base xs m h =
    (decode_typed_parameter-set_array c base xs m ∙ h.0, Reads-set_array cs ps base xs m h.1)
Reads-set_array [] (p ∷ ps) base xs m h = h
Reads-set_array (c ∷ cs) [] base xs m h = h

decode-array :
    (base : Ptr) (cs : List CTypedParameter) (ps : List TypedParameter) (m : Memory)
    → length cs ≡ length ps
    → Reads cs ps m
    → decode_typed_parameters base (pos (length ps)) (set_array base cs m) ≡ some (ok ps)
unfolding decode_typed_parameters
decode-array base cs ps m l h =
    rw (← l, slice_params-array base cs m, decode_typed_parameters)
      (Reads-decode_all cs ps (set_array base cs m) (Reads-set_array cs ps base cs m h))

module _ {L : Type 0} (api : NativeApi L) (lawful : IsLawful api.allocator)
    (no_free : api.fn "virTypedParamsFree" ≡ none)
    (no_clear : api.fn "virTypedParamsClear" ≡ none) where
  strings-Grown :
      (base : Ptr) (c : CTypedParameter) (cs : List CTypedParameter) (m m' : Memory) (w : World L)
      → base ≢ nil
      → Grown base (c ∷ cs) m m'
      → free_typed_parameter_strings api base
          (pos (length (c ∷ cs)))
          (with_memory w (set_array base (c ∷ cs) m'))
        ≡ some (tt, with_memory w (set_array base (c ∷ cs) m))
  unfolding free_typed_parameter_strings
  strings-Grown base c cs m m' w ne g =
      rw (==_ne base nil ne, ==_ne (suc (length cs)) 0 (λ e. absurd (omega arith)), no_clear)
        (>>=-step (read_memory (slice_params base (length (c ∷ cs))))
          (λ xs. update_memory (free_strings xs)) _
          (read_memory-step (slice_params base (length (c ∷ cs))) _
            (slice_params-array base (c ∷ cs) m'))
          (update_memory-step (free_strings (c ∷ cs)) (with_memory w (set_array base (c ∷ cs) m'))
            (free_strings-Grown (c ∷ cs) (c ∷ cs) g)))

  -- The cleanup gives back the elements' blocks and the array.
  free-Grown :
      (base : Ptr) (c : CTypedParameter) (cs : List CTypedParameter) (m m' : Memory) (w : World L)
      → base ≢ nil
      → IsUnused m base
      → Grown base (c ∷ cs) m m'
      → free_typed_parameters api base
          (pos (length (c ∷ cs)))
          (with_memory w (set_array base (c ∷ cs) m'))
        ≡ some (tt, with_memory w m)
  unfolding free_typed_parameters api_free
  free-Grown base c cs m m' w ne u g =
      rw (==_ne base nil ne, no_free)
        (>>=-step (free_typed_parameter_strings api base (pos (length (c ∷ cs))))
          (λ _. api_free api base) (with_memory w (set_array base (c ∷ cs) m'))
          (strings-Grown base c cs m m' w ne g)
          (update_memory-step (free base) (with_memory w (set_array base (c ∷ cs) m)) (
            free-array base (c ∷ cs) m ne u.bytes
            ∙ ap some (erase-set_array_self base (c ∷ cs) m u))))

-- How the call ends: refused, with nothing changed, or encoded, to be read back as the normal
-- forms and to be released by the cleanup without a rest.
pub data Encodes {L : Type 0} (w : World L) (ns : Result (List TypedParameter))
    (r : Option (Encoding L × World L)) : Type 0 where
  refused : (e : GoError) → r ≡ some (failed e, w) → Encodes w ns r
  written :
      (base : Ptr) (ps : List TypedParameter) (cleanup : M L (Unit {0})) (w' : World L)
      → ns ≡ ok ps
      → r ≡ some (encoded base (pos (length ps)) cleanup, w')
      → decode_typed_parameters base (pos (length ps)) w'.state.memory ≡ some (ok ps)
      → cleanup w' ≡ some (tt, w)
      → Encodes w ns r

decode-none : (m : Memory) → decode_typed_parameters nil (pos 0) m ≡ some (ok [])
unfolding decode_typed_parameters slice_params decode_all
decode-none m = refl

normalize_all-IsNormal :
    (ps : List TypedParameter)
    → All (λ p. IsGoValue p.value) ps
    → Ensures (All IsNormal) (normalize_all ps)
unfolding normalize_all
normalize_all-IsNormal [] h = tt
normalize_all-IsNormal (p ∷ ps) (good, h) = elim (Result-cases (normalize p)) [
  | inr (e, bad) ↦ rw bad tt
  | inl (n, fine) ↦ rw fine (
      Ensures-bind (All IsNormal) (All IsNormal) (normalize_all ps) (λ ns. ok (n ∷ ns))
        (normalize_all-IsNormal ps h) λ ns k. ((normalize-Normalizes p good fine).normal, k))
]

module _ {L : Type 0} (api : NativeApi L) (lawful : IsLawful api.allocator)
    (no_free : api.fn "virTypedParamsFree" ≡ none)
    (no_clear : api.fn "virTypedParamsClear" ≡ none) where
  no_helpers : has_helpers api ≡ false
  unfolding has_helpers
  no_helpers = ground (arith, no_free)

  after_loop :
      (base : Ptr) (n : TypedParameter) (ns : List TypedParameter) (w : World L) (m : Memory)
      (loop : Memory → Option (Option GoError × Memory)) {o : Option GoError} {m' : Memory}
      → loop m ≡ some (o, m')
      → (change_memory loop >>= finish api base (pos (length (n ∷ ns)))) (with_memory w m)
        ≡ finish api base (pos (length (n ∷ ns))) o (with_memory w m')
  after_loop base n ns w m loop e =
      >>=-step (change_memory loop) (finish api base (pos (length (n ∷ ns)))) (with_memory w m)
        (change_memory-step loop (with_memory w m) e) refl

  finish-Encodes :
      (base : Ptr) (n : TypedParameter) (ns : List TypedParameter) (w : World L) (m : Memory)
      (loop : Memory → Option (Option GoError × Memory))
      → base ≢ nil
      → IsUnused w.state.memory base
      → LoopEnds base [] (n ∷ ns) w.state.memory (loop m)
      → Encodes w
          (ok (n ∷ ns))
          ((change_memory loop >>= finish api base (pos (length (n ∷ ns)))) (with_memory w m))
  unfolding change_memory
  finish-Encodes base n ns w m loop ne u (finished (c ∷ cs) m' g l read e) =
      rw (after_loop base n ns w m loop e) (
        written base (n ∷ ns) _ (with_memory w (set_array base (c ∷ cs) m')) refl refl
          (decode-array base (c ∷ cs) (n ∷ ns) m' l read)
          (rw (← l) (free-Grown api lawful no_free no_clear base c cs w.state.memory m' w ne u g)))
  finish-Encodes base n ns w m loop ne u (stopped (c ∷ cs) m' x g l e) =
      rw (after_loop base n ns w m loop e) (
        refused x (
          >>=-step (free_typed_parameters api base (pos (length (n ∷ ns)))) (λ _. pure (failed x))
            (with_memory w (set_array base (c ∷ cs) m'))
            (rw (← l) (free-Grown api lawful no_free no_clear base c cs w.state.memory m' w ne u g))
            refl))
  finish-Encodes base n ns w m loop ne u (finished [] m' g l read e) = absurd (omega (arith, l))
  finish-Encodes base n ns w m loop ne u (stopped [] m' x g l e) = absurd (omega (arith, l))

  marshal-Encodes :
      (n : TypedParameter) (ns : List TypedParameter) (w : World L)
      → All IsNormal (n ∷ ns)
      → Encodes w (ok (n ∷ ns)) (marshal api (n ∷ ns) w)
  unfolding marshal change_memory
  marshal-Encodes n ns w normal =
      let m = w.state.memory in
      let base = api.allocator.place m (length (n ∷ ns) * sizeof_param) in
      elim (ℕ_discrete base nil) [
        | yes none_left ↦
            rw (no_helpers, calloc-nil api.allocator (length (n ∷ ns)) m none_left)
              (refused (allocation_failed "typed parameters") refl)
        | no ne ↦
            rw (no_helpers, calloc-ne-nil api.allocator (length (n ∷ ns)) m ne, ==_ne base nil ne)
              (finish-Encodes base n ns w
                (set_array base (replicate (length (n ∷ ns)) zero_param) m)
                (encode_loop api.allocator base 0 (n ∷ ns)) ne (lawful.fresh m _ ne)
                (encode_loop-LoopEnds api.allocator lawful base (n ∷ ns) [] m normal))
      ]

  normal-Encodes :
      (r : Result (List TypedParameter)) (w : World L)
      → Ensures (All IsNormal) r
      → Encodes w r (
          (elim r as (λ x. M L (Encoding L)) [
            | err e ↦ pure (failed e)
            | ok [] ↦ pure (encoded nil (pos 0) (pure tt))
            | ok (n ∷ ns) ↦ marshal api (n ∷ ns)
          ])
            w)
  normal-Encodes (err e) w h = refused e refl
  normal-Encodes (ok []) w h =
      written nil [] (pure tt) w refl refl (decode-none w.state.memory) refl
  normal-Encodes (ok (n ∷ ns)) w h = marshal-Encodes n ns w h

  -- With a lawful allocator and a libvirt older than 1.0.2, which has neither virTypedParamsFree nor
  -- virTypedParamsClear, `encodeTypedParameters` of values in the range of their Go types never
  -- faults. Either it returns an error and the world is what it was, or every parameter was accepted,
  -- `decodeTypedParameters` reads the normal forms back from the array, and the returned cleanup
  -- restores the world from before the call.
  pub encode_typed_parameters-Encodes :
      (ps : List TypedParameter) (w : World L)
      → All (λ p. IsGoValue p.value) ps
      → Encodes w (normalize_all ps) (encode_typed_parameters api ps w)
  unfolding encode_typed_parameters
  encode_typed_parameters-Encodes ps w good = elim (Bool-cases (ltb 0x7fffffff (length ps))) [
    | inl many ↦ rw many (refused _ refl)
    | inr fits ↦ rw fits (normal-Encodes (normalize_all ps) w (normalize_all-IsNormal ps good))
  ]
