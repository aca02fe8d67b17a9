-- ===== src/Resource.antt =====
-- resource.go: the handle that wraps a native pointer, and the ways to call libvirt through it.
-- A `nil` receiver is `none`; a handle's own state comes back from the calls that change it.
pub mod Interleaving
pub mod Laws
pub mod Locks
use libvirt_go.Prelude.{
  ℕ, suc, zero, String, List, [], ◌∷◌, ◌++◌, Bytes, Bool, true, false, length, take, replicate,
  Option, none, some, ◌==◌, leb, if◌then◌else◌,
}
use libvirt_go.Prelude.Int.{ℤ, pos, negsuc, is_negative, eqb_ℤ}
use libvirt_go.Memory.{Ptr, nil, Memory, copy_c_string}
use libvirt_go.Errors.{GoError, closed, Result, err, ok}
use libvirt_go.World.{
  M, pure, ◌>>=◌, ◌>>◌, log_event, r_lock, r_unlock, w_lock, w_unlock, read_memory, World,
}
use libvirt_go.Native.{NativeApi, native_call, api_free, Arg, invoke, written}
use libvirt_go.Native.CString.{CBuffer, buffer, refused, make_c_string}
use libvirt_go.Prelude.Words.{int32_of}

-- `nativeObject`; its mutex is seen in the trace, its `api` is the section's.
pub record NativeObject : Type 0 where
  pub ptr : Ptr
  pub kind : String

-- `Connect` and `Domain`
pub record Connect : Type 0 where
  pub ptr : Ptr

pub record Domain : Type 0 where
  pub ptr : Ptr

unfoldable pub new_native_object : Ptr → String → NativeObject
new_native_object p kind = record { ptr = p; kind = kind }

-- `unsafe.Slice((*unsafe.Pointer)(list), n)`; reading past the block is a fault.
unfoldable pub slice_pointers : Ptr → ℕ → Memory → Option (List Ptr)
slice_pointers p n m = elim (m.pointers p) [
  | none ↦ none
  | some hs ↦ if leb n (length hs) then some (take n hs) else none
]

-- `unsafe.Slice((*byte)(p), n)`
unfoldable pub slice_bytes : Ptr → ℕ → Memory → Option Bytes
slice_bytes p zero m = some []
slice_bytes p (suc n) m = elim (m.bytes p) [
  | none ↦ none
  | some b ↦ if leb (suc n) (length b) then some (take (suc n) b) else none
]

-- `func() { mu.RLock(); defer mu.RUnlock(); body }`, and for the write lock.
abbrev pub reading : {L T : Type 0} → M L T → M L T
reading body = do log_event r_lock; r ← body; log_event r_unlock; pure r

-- The world behind a call that took a lock, gave it back and did nothing else.
abbrev pub after_read : {L : Type 0} → World L → World L
after_read w = record w { trace = r_unlock ∷ r_lock ∷ w.trace }

abbrev pub after_write : {L : Type 0} → World L → World L
after_write w = record w { trace = w_unlock ∷ w_lock ∷ w.trace }

abbrev pub writing : {L T : Type 0} → M L T → M L T
writing body = do log_event w_lock; r ← body; log_event w_unlock; pure r

module _ {L : Type 0} where
  -- A call whose negative result is its failure, and one whose nil result is.
  abbrev pub status : (Ptr → M L ℤ) → Ptr → M L (ℤ × Bool)
  status call p = do result ← call p; pure (result, is_negative result)

  abbrev pub not_nil : (Ptr → M L Ptr) → Ptr → M L (Ptr × Bool)
  not_nil call p = do result ← call p; pure (result, result == nil)

  -- A text argument in front of a call that takes it.
  abbrev pub with_text :
      String
      → Bytes
      → Bool
      → (Option Bytes → M L (Ptr × Option GoError))
      → M L (Ptr × Option GoError)
  with_text field value optional body = elim (make_c_string field value optional) [
    | refused e ↦ pure (nil, some e)
    | buffer b ↦ body b
  ]

module _ {L : Type 0} (api : NativeApi L) where
  -- `connectCall`
  unfoldable pub connect_call :
      {T : Type 0} → T → Option Connect → String → (Ptr → M L (T × Bool)) → M L (T × Option GoError)
  connect_call zero_value none operation call = pure (zero_value, some (closed "connection"))
  connect_call zero_value (some conn) operation call = reading (
      if conn.ptr == nil
      then pure (zero_value, some (closed "connection"))
      else native_call api zero_value operation (call conn.ptr))

  -- `domainCall`
  unfoldable pub domain_call :
      {T : Type 0} → T → Option Domain → String → (Ptr → M L (T × Bool)) → M L (T × Option GoError)
  domain_call zero_value none operation call = pure (zero_value, some (closed "domain"))
  domain_call zero_value (some domain) operation call = reading (
      if domain.ptr == nil
      then pure (zero_value, some (closed "domain"))
      else native_call api zero_value operation (call domain.ptr))

  -- `objectCall`
  unfoldable pub object_call :
      {T : Type 0}
      → T
      → Option NativeObject
      → String
      → (Ptr → M L (T × Bool))
      → M L (T × Option GoError)
  object_call zero_value none operation call = pure (zero_value, some (closed "native object"))
  object_call zero_value (some object) operation call = reading (
      if object.ptr == nil
      then pure (zero_value, some (closed object.kind))
      else native_call api zero_value operation (call object.ptr))

  -- The pointer of a handle is cleared where its release succeeded.
  abbrev pub released : NativeObject → Option GoError → Option GoError × Option NativeObject
  released object none = (none, some (record object { ptr = nil }))
  released object (some e) = (some e, some object)

  -- `objectFree`, with the handle behind it
  unfoldable pub object_free :
      Option NativeObject → String → (Ptr → M L ℤ) → M L (Option GoError × Option NativeObject)
  object_free none operation free = pure (some (closed "native object"), none)
  object_free (some object) operation free = writing (
      if object.ptr == nil then pure (some (closed object.kind), some object) else do
        (result, e) ← native_call api (pos 0) operation (status free object.ptr)
        pure (released object e))

  -- `objectStatus`
  unfoldable pub object_status : Option NativeObject → String → (Ptr → M L ℤ) → M L (Option GoError)
  unfolding object_call
  object_status object operation call = do
    (result, e) ← object_call (pos 0) object operation (status call)
    pure e

  -- `objectBool`
  unfoldable pub object_bool :
      Option NativeObject → String → (Ptr → M L ℤ) → M L (Bool × Option GoError)
  unfolding object_call
  object_bool object operation call = do
    (result, e) ← object_call (pos 0) object operation (status call)
    pure (eqb_ℤ result (pos 1), e)

  borrowed : (Ptr → M L Ptr) → Ptr → M L (Bytes × Bool)
  borrowed call p = do
    value ← call p
    result ← read_memory (copy_c_string value)
    pure (result, value == nil)

  -- `objectBorrowedString`
  unfoldable pub object_borrowed_string :
      Option NativeObject → String → (Ptr → M L Ptr) → M L (Bytes × Option GoError)
  unfolding object_call borrowed
  object_borrowed_string object operation call = object_call [] object operation (borrowed call)

  -- The text that the caller owns, released behind the copy.
  unfoldable pub owned : (Ptr → M L Ptr) → Ptr → M L (Bytes × Bool)
  owned call p = do
    value ← call p
    if value == nil
        then pure ([], true)
        else do result ← read_memory (copy_c_string value); api_free api value; pure (result, false)

  -- `objectOwnedString`
  unfoldable pub object_owned_string :
      Option NativeObject → String → (Ptr → M L Ptr) → M L (Bytes × Option GoError)
  unfolding object_call owned
  object_owned_string object operation call = object_call [] object operation (owned call)

  -- `var buffer [uuidStringBufferLength]byte` as a call filled it from its start, less the last byte
  abbrev uuid_text : List ℕ → Bytes
  uuid_text wrote = take 36 (wrote ++ replicate 37 0)

  uuid : (Ptr → M L (ℤ × List ℕ)) → Ptr → M L (Bytes × Bool)
  uuid call p = do (result, wrote) ← call p; pure (uuid_text wrote, is_negative result)

  -- `objectUUIDString`; the call returns its result and the bytes that it wrote.
  unfoldable pub object_uuid_string :
      Option NativeObject → String → (Ptr → M L (ℤ × List ℕ)) → M L (Bytes × Option GoError)
  unfolding object_call uuid
  object_uuid_string object operation call = object_call [] object operation (uuid call)

  -- `connectObjectFromString`
  unfoldable pub connect_object_from_string :
      Option Connect
      → String
      → Bytes
      → String
      → (Ptr → Option Bytes → M L Ptr)
      → M L (Ptr × Option GoError)
  unfolding connect_call make_c_string
  connect_object_from_string conn field value operation call =
      with_text field value false λ b. connect_call nil conn operation (not_nil λ p. call p b)

  -- `objectFromString`
  unfoldable pub object_from_string :
      Option NativeObject
      → String
      → Bytes
      → String
      → (Ptr → Option Bytes → M L Ptr)
      → M L (Ptr × Option GoError)
  unfolding object_call make_c_string
  object_from_string object field value operation call =
      with_text field value false λ b. object_call nil object operation (not_nil λ p. call p b)

  -- `connectObjectFromXML`
  unfoldable pub connect_object_from_xml :
      Option Connect
      → Bytes
      → String
      → ℕ
      → (Ptr → Option Bytes → ℕ → M L Ptr)
      → M L (Ptr × Option GoError)
  unfolding connect_call make_c_string
  connect_object_from_xml conn xml operation flags call =
      with_text "XML" xml false λ b. connect_call nil conn operation (not_nil λ p. call p b flags)

  -- `objectFromXML`
  unfoldable pub object_from_xml :
      Option NativeObject
      → Bytes
      → String
      → ℕ
      → (Ptr → Option Bytes → ℕ → M L Ptr)
      → M L (Ptr × Option GoError)
  unfolding object_call make_c_string
  object_from_xml object xml operation flags call =
      with_text "XML" xml false λ b. object_call nil object operation (not_nil λ p. call p b flags)

  -- What is behind the call in `nativeObjectList`: its count and the array that it stored.
  list_handles : ℤ → Ptr → M L (List Ptr × Bool)
  unfolding slice_pointers
  list_handles (negsuc n) list = pure ([], true)
  list_handles (pos n) list =
      if list == nil then (if n == 0 then pure ([], false) else pure ([], true)) else (do
        handles ← (if n == 0 then pure [] else read_memory (slice_pointers list n))
        api_free api list
        pure (handles, false))

  -- `nativeObjectList`
  unfoldable pub native_object_list : Ptr → (Ptr → M L (ℤ × Ptr)) → M L (List Ptr × Bool)
  unfolding list_handles
  native_object_list owner call = do (count, list) ← call owner; list_handles count list

  -- `connectListObjects`, `objectListObjects`, `domainListObjects`; the flags are in the call.
  unfoldable pub connect_list_objects :
      Option Connect → String → (Ptr → M L (ℤ × Ptr)) → M L (List Ptr × Option GoError)
  unfolding connect_call native_object_list
  connect_list_objects conn operation call =
      connect_call [] conn operation λ p. native_object_list p call

  unfoldable pub object_list_objects :
      Option NativeObject → String → (Ptr → M L (ℤ × Ptr)) → M L (List Ptr × Option GoError)
  unfolding object_call native_object_list
  object_list_objects object operation call =
      object_call [] object operation λ p. native_object_list p call

  unfoldable pub domain_list_objects :
      Option Domain → String → (Ptr → M L (ℤ × Ptr)) → M L (List Ptr × Option GoError)
  unfolding domain_call native_object_list
  domain_list_objects domain operation call =
      domain_call [] domain operation λ p. native_object_list p call

  -- Calls that fill a variable of the caller, or a buffer.
  unfoldable pub call_out : String → List Arg → M L (ℤ × ℕ)
  call_out name args = do r ← invoke api name args; pure (int32_of r.word, written r 0 0)

  unfoldable pub call_filling : String → List Arg → M L (ℤ × List ℕ)
  call_filling name args = do r ← invoke api name args; pure (int32_of r.word, r.outs)

  -- `GetAutostart` of an object: a variable of type int32 that the call fills, compared with 1.
  unfoldable pub object_flag :
      Option NativeObject → String → (Ptr → M L (ℤ × ℕ)) → M L (Bool × Option GoError)
  unfolding object_call
  object_flag object operation call = do
    (value, e) ←
        object_call 0 object operation
          λ p. do (result, filled) ← call p; pure (filled, is_negative result)
    pure (eqb_ℤ (int32_of value) (pos 1), e)

-- What a lookup or a listing makes of its pointers: `newX(api, ptr)` behind `if err != nil`.
unfoldable pub handle_of :
    {L : Type 0} → String → M L (Ptr × Option GoError) → M L (Result NativeObject)
handle_of kind call = do
  (p, e) ← call
  elim e [ some e' ↦ pure (err e') | none ↦ pure (ok (new_native_object p kind)) ]

abbrev handles : String → List Ptr → List NativeObject
handles kind [] = []
handles kind (p ∷ ps) = new_native_object p kind ∷ handles kind ps

unfoldable pub handles_of :
    {L : Type 0} → String → M L (List Ptr × Option GoError) → M L (Result (List NativeObject))
handles_of kind call = do
  (ps, e) ← call
  elim e [ some e' ↦ pure (err e') | none ↦ pure (ok (handles kind ps)) ]

-- `value := int32(0); if flag { value = 1 }`
abbrev pub int32_of_bool : Bool → ℤ
int32_of_bool true = pos 1
int32_of_bool false = pos 0
