-- ===== src/TypedParams/Encode/Written.antt =====
-- What one round of the legacy loop of `encodeTypedParameters` leaves: the element, and for a string
-- its block of bytes.
use libvirt_go.Prelude.{
  ℕ, ◌+◌, ◌<◌, ◌≡◌, ◌≢◌, refl, ap, ◌∙◌, List, [], ◌∷◌, ◌++◌, Bytes, true, false, length, replicate,
  Option, none, some, arith, IsNulFree, get_elem?-append, set-append, copy_into, copy_into-zeros,
  copy_into-full, index_byte-append, take-length-append, ==_ne, Bool-cases, inl, inr, length-append,
  ◌==◌, ℕ_discrete,
}
use libvirt_go.Prelude.Int.{eqb_ℤ}
use libvirt_go.Prelude.Words.{
  load_le, store_le, bits32, bits64, int32_of-bits32, int64_of-bits64, bits32-lt, bits64-lt,
  load_le-store_le, of_le-le_bytes-4, of_le-le_bytes-8,
}
use libvirt_go.Errors.{GoError, ok, allocation_failed}
use libvirt_go.Memory.{
  Ptr, nil, Memory, CTypedParameter, Allocator, IsLawful, IsUnused, zero_param, copy_c_string,
}
use libvirt_go.Memory.Laws.{
  update_self, set_array, add_bytes, set_array-set_array, add_bytes-add_bytes, c_string-append,
  malloc-nil, malloc-ne-nil,
}
use libvirt_go.TypedParams.{
  Value, int32_v, int64_v, uint32_v, uint64_v, float64_v, bool_v, string_v, TypedParameter, Kind,
  int, uint, long_long, u_long_long, double, boolean, string, kind_code, field_length,
}
use libvirt_go.TypedParams.Normal.{IsNormal, HasKind, kind_of-kind_code}
use libvirt_go.TypedParams.Decode.{field_text, decode_value, decode_typed_parameter}
use libvirt_go.TypedParams.Encode.{
  modify_param, write_bytes, set_header, set_value, done, store_string, store_value, encode_param,
  store_text,
}

modify_param-append :
    (base : Ptr) (pre post : List CTypedParameter) (c : CTypedParameter)
    (f : CTypedParameter → CTypedParameter) (m : Memory)
    → m.params base ≡ some (pre ++ c ∷ post)
    → modify_param base (length pre) f m ≡ some (set_array base (pre ++ f c ∷ post) m)
unfolding modify_param
modify_param-append base pre post c f m h =
    ground (arith, get_elem?-append pre post c, set-append pre post c (f c))

-- A name in zeroed storage is read back.
field_text-copy_into :
    (s : Bytes)
    → length s < field_length
    → IsNulFree s
    → field_text (copy_into (replicate 80 0) s) ≡ s
field_text-copy_into s short nul_free =
    let (k, e) = copy_into-zeros s 80 short in
    rw e (
      ground (
        arith,
        index_byte-append s (replicate k 0) nul_free,
        take-length-append s (0 ∷ replicate k 0),
      ))

-- The element for a parameter, with the bytes of its union.
abbrev pub element : TypedParameter → Bytes → CTypedParameter
element p u = record { field = copy_into (replicate 80 0) p.field; type_ = p.type_; value = u }

decode-element :
    (p : TypedParameter) (u : Bytes) (m : Memory) (v : IsNormal p)
    → decode_value v.kind u m ≡ some p.value
    → decode_typed_parameter (element p u) m ≡ some (ok p)
unfolding decode_typed_parameter
decode-element p u m v e =
    ground
      (arith, kind_of-kind_code v.kind, v.coded, field_text-copy_into p.field v.short v.nul_free)

abbrev zeros : Bytes
zeros = replicate 8 0

-- The ways in which a round ends, with the memory in full.
pub data Written (p : TypedParameter) (base : Ptr) (pre post : List CTypedParameter) (m : Memory)
    (r : Option (Option GoError × Memory)) : Type 0 where
  plain :
      (u : Bytes)
      → eqb_ℤ p.type_ (kind_code string) ≡ false
      → ((m' : Memory) → decode_typed_parameter (element p u) m' ≡ some (ok p))
      → r ≡ some (none, set_array base (pre ++ element p u ∷ post) m)
      → Written p base pre post m r
  text :
      (u : Bytes) (q : Ptr) (b : Bytes)
      → q ≢ nil
      → IsUnused m q
      → p.type_ ≡ kind_code string
      → load_le 8 u ≡ q
      → ((m' : Memory)
          → m'.bytes q ≡ some b
          → decode_typed_parameter (element p u) m' ≡ some (ok p))
      → r ≡ some (none, set_array base (pre ++ element p u ∷ post) (add_bytes q b m))
      → Written p base pre post m r
  out_of_memory :
      (u : Bytes)
      → p.type_ ≡ kind_code string
      → load_le 8 u ≡ nil
      → r
        ≡ some (
          some (allocation_failed "typed parameter"),
          set_array base (pre ++ element p u ∷ post) m,
        )
      → Written p base pre post m r

-- the memory behind the header of an element
abbrev with_header :
    TypedParameter → Ptr → List CTypedParameter → List CTypedParameter → Memory → Memory
with_header p base pre post m = set_array base (pre ++ element p zeros ∷ post) m

module _ (p : TypedParameter) (v : IsNormal p) (base : Ptr) (pre post : List CTypedParameter)
    (m : Memory) (there : m.params base ≡ some (pre ++ zero_param ∷ post)) where
  abbrev headed : Memory
  headed = with_header p base pre post m

  set_header-headed : modify_param base (length pre) (set_header p) m ≡ some headed
  set_header-headed = modify_param-append base pre post zero_param (set_header p) m there

  headed-params : headed.params base ≡ some (pre ++ element p zeros ∷ post)
  headed-params = update_self m.params base _

  -- a store of `n` bytes into the union
  set_value-headed :
      (n x : ℕ)
      → modify_param base (length pre) (set_value n x) headed
        ≡ some (set_array base (pre ++ element p (store_le n x zeros) ∷ post) m)
  set_value-headed n x =
      modify_param-append base pre post (element p zeros) (set_value n x) headed headed-params
      ∙ ap some (set_array-set_array base _ _ m)

  plain-Written :
      (n x : ℕ)
      → eqb_ℤ p.type_ (kind_code string) ≡ false
      → ((m' : Memory) → decode_value v.kind (store_le n x zeros) m' ≡ some p.value)
      → Written p base pre post m (done (modify_param base (length pre) (set_value n x) headed))
  plain-Written n x scalar reads =
      plain (store_le n x zeros) scalar (λ m'. decode-element p _ m' v (reads m'))
        (rw (set_value-headed n x))

-- A word in the union is read back.
load-store_word : (x : ℕ) → x < 0x100000000 → load_le 4 (store_le 4 x zeros) ≡ x
load-store_word x h = load_le-store_le 4 x zeros (omega arith) ∙ of_le-le_bytes-4 x h

load-store_pointer : (q : ℕ) → q < 0x10000000000000000 → load_le 8 (store_le 8 q zeros) ≡ q
load-store_pointer q h = load_le-store_le 8 q zeros (omega arith) ∙ of_le-le_bytes-8 q h

copy_c_string-bytes :
    (q : Ptr) (s : Bytes) (m : Memory)
    → q ≢ nil
    → IsNulFree s
    → m.bytes q ≡ some (s ++ 0 ∷ [])
    → copy_c_string q m ≡ some s
unfolding copy_c_string
copy_c_string-bytes q s m h nul_free e = ground (arith, c_string-append s [] nul_free)

write_bytes-malloc :
    (q : Ptr) (s c : Bytes) (m : Memory)
    → length c ≡ length s + 1
    → write_bytes q (s ++ 0 ∷ []) (add_bytes q c m) ≡ some (add_bytes q (s ++ 0 ∷ []) m)
unfolding write_bytes
write_bytes-malloc q s c m h =
    rw (update_self m.bytes q (some c), write_bytes)
      (rw (copy_into-full c (s ++ 0 ∷ []) (omega (arith, length-append s (0 ∷ []))))
        (ap some (add_bytes-add_bytes q c _ m)))

module _ (a : Allocator) (lawful : IsLawful a) (p : TypedParameter) (v : IsNormal p) (base : Ptr)
    (pre post : List CTypedParameter) (m : Memory)
    (there : m.params base ≡ some (pre ++ zero_param ∷ post)) where
  abbrev room : Memory
  room = with_header p base pre post m

  -- a block that is new behind the header is not the array, and was unused before
  IsUnused-before : (q : Ptr) → IsUnused room q → IsUnused m q
  IsUnused-before q h = record {
    bytes = h.bytes;
    params = elim (Bool-cases (base == q)) [
      | inl e ↦ ground (arith, h.params)
      | inr e ↦ ground (arith, h.params)
    ];
    pointers = h.pointers;
  }

  store_text-stored :
      (s c : Bytes) (q : Ptr)
      → q ≢ nil
      → length c ≡ length s + 1
      → store_text base (length pre) s (q, add_bytes q c room)
        ≡ some (
          none,
          set_array base
              (pre ++ element p (store_le 8 q zeros) ∷ post)
              (add_bytes q (s ++ 0 ∷ []) m),
        )
  unfolding store_text
  store_text-stored s c q ne sized = rw (==_ne q nil ne) (
      rw (write_bytes-malloc q s c room sized, store_text)
        (rw (set_value-headed p v base pre post (add_bytes q (s ++ 0 ∷ []) m) there 8 q)))

  store_text-nil :
      (s : Bytes)
      → store_text base (length pre) s (nil, room)
        ≡ some (some (allocation_failed "typed parameter"), room)
  unfolding store_text
  store_text-nil s = refl

  string-Written :
      (s : Bytes)
      → p.type_ ≡ kind_code string
      → IsNulFree s
      → ((u : Bytes) (m' : Memory)
          → copy_c_string (load_le 8 u) m' ≡ some s
          → decode_value v.kind u m' ≡ some p.value)
      → Written p base pre post m (store_string a base (length pre) s room)
  unfolding store_string load_le
  string-Written s coded nul_free reads =
      let q = a.place room (length s + 1) in
      let back = load-store_pointer q (lawful.in_range room (length s + 1)) in
      elim (ℕ_discrete q nil) [
        | yes e ↦ out_of_memory zeros coded refl (
            ap (store_text base (length pre) s) (malloc-nil a (length s + 1) room e)
            ∙ store_text-nil s)
        | no ne ↦
            text (store_le 8 q zeros) q (s ++ 0 ∷ []) ne
              (IsUnused-before q (lawful.fresh room (length s + 1) ne)) coded back
              (λ m' e.
                decode-element p _ m' v
                  (reads _ m' (rw back (copy_c_string-bytes q s m' ne nul_free e))))
              (ap (store_text base (length pre) s) (malloc-ne-nil a (length s + 1) room ne)
                ∙ store_text-stored s _ q ne (lawful.sized room (length s + 1)))
      ]

  -- Whatever the value, a round ends in one of the three ways.
  store_value-Written :
      (k : Kind) (x : Value)
      → p.type_ ≡ kind_code k
      → HasKind k x
      → v.kind ≡ k
      → p.value ≡ x
      → Written p base pre post m (store_value a base (length pre) x room)
  unfolding store_value decode_value load_le store_le
  store_value-Written int (int32_v z) c h e f =
      plain-Written p v base pre post m there 4 (bits32 z) (rw c) λ m'.
        rw (e, f, load-store_word (bits32 z) (bits32-lt z))
          (ap (λ t. some (int32_v t)) (int32_of-bits32 z h))
  store_value-Written uint (uint32_v z) c h e f =
      plain-Written p v base pre post m there 4 z (rw c) λ m'. rw (e, f, load-store_word z h)
  store_value-Written long_long (int64_v z) c h e f =
      plain-Written p v base pre post m there 8 (bits64 z) (rw c) λ m'.
        rw (e, f, load-store_pointer (bits64 z) (bits64-lt z))
          (ap (λ t. some (int64_v t)) (int64_of-bits64 z h))
  store_value-Written u_long_long (uint64_v z) c h e f =
      plain-Written p v base pre post m there 8 z (rw c) λ m'. rw (e, f, load-store_pointer z h)
  store_value-Written double (float64_v z) c h e f =
      plain-Written p v base pre post m there 8 z (rw c) λ m'. rw (e, f, load-store_pointer z h)
  store_value-Written boolean (bool_v true) c h e f =
      plain-Written p v base pre post m there 1 1 (rw c) λ m'. rw (e, f)
  store_value-Written boolean (bool_v false) c h e f =
      plain zeros (rw c) (λ m'. decode-element p zeros m' v (rw (e, f))) refl
  store_value-Written string (string_v z) c h e f =
      string-Written z c h λ u m' read. rw (e, f) (rw (read, decode_value))
  store_value-Written _ _ c h e f = absurd h

  -- One round, header and value.
  pub encode_param-Written : Written p base pre post m (encode_param a base (length pre) p m)
  unfolding encode_param
  encode_param-Written =
      rw (set_header-headed p v base pre post m there, encode_param)
        (store_value-Written v.kind p.value v.coded v.typed refl refl)
