-- ===== src/Handles/Secret.antt =====
-- secret.go: the operations of `Secret`, in the order of the file.
use libvirt_go.World.{◌>>◌, ◌>>=◌, pure, M, read_memory}
use libvirt_go.Resource.{
  NativeObject, object_call, Connect, object_free, object_status, handle_of, object_uuid_string,
  object_owned_string, handles_of, connect_object_from_string, connect_object_from_xml,
  call_filling, with_text, connect_list_objects, call_out, connect_call, not_nil, slice_bytes,
}
use libvirt_go.Prelude.{
  none, String, Option, Bytes, ℕ, Bool, List, if◌then◌else◌, [], ◌∷◌, ◌==◌, false, true, ltb,
  length,
}
use libvirt_go.Native.{
  NativeApi, Arg, text, call_int, ptr, call_ptr, invoke, buffer, num, out, api_free, written,
}
use libvirt_go.Memory.{Ptr, nil}
use libvirt_go.Errors.{Result, GoError}
use libvirt_go.Prelude.Int.{ℤ, pos}

-- `newSecret` gives its handles this kind.
abbrev kind : String
kind = "secret"

module _ {L : Type 0} (api : NativeApi L) where
  unfoldable list_all_secrets : Option Connect → ℕ → M L (Result (List NativeObject))
  list_all_secrets c flags = handles_of kind (
      connect_list_objects api c "virConnectListAllSecrets"
        λ p. call_out api "virConnectListAllSecrets" (ptr p ∷ out ∷ num (pos flags) ∷ []))

  unfoldable lookup_secret_by_uuid_string : Option Connect → Bytes → M L (Result NativeObject)
  lookup_secret_by_uuid_string c uuid = handle_of kind (
      connect_object_from_string api c "secret UUID" uuid "virSecretLookupByUUIDString"
        λ p b. call_ptr api "virSecretLookupByUUIDString" (ptr p ∷ text b ∷ []))

  unfoldable define_secret_xml : Option Connect → Bytes → ℕ → M L (Result NativeObject)
  define_secret_xml c xml flags = handle_of kind (
      connect_object_from_xml api c xml "virSecretDefineXML" flags
        λ p b f. call_ptr api "virSecretDefineXML" (ptr p ∷ text b ∷ num (pos f) ∷ []))

  unfoldable free : Option NativeObject → M L (Option GoError × Option NativeObject)
  free secret =
      object_free api secret "virSecretFree" λ p. call_int api "virSecretFree" (ptr p ∷ [])

  unfoldable get_uuid_string : Option NativeObject → M L (Bytes × Option GoError)
  get_uuid_string secret =
      object_uuid_string api secret "virSecretGetUUIDString"
        λ p. call_filling api "virSecretGetUUIDString" (ptr p ∷ out ∷ [])

  unfoldable get_xml_desc : Option NativeObject → ℕ → M L (Bytes × Option GoError)
  get_xml_desc secret flags =
      object_owned_string api secret "virSecretGetXMLDesc"
        λ p. call_ptr api "virSecretGetXMLDesc" (ptr p ∷ num (pos flags) ∷ [])

  unfoldable undefine : Option NativeObject → M L (Option GoError)
  undefine secret =
      object_status api secret "virSecretUndefine"
        λ p. call_int api "virSecretUndefine" (ptr p ∷ [])

  unfoldable lookup_secret_by_usage : Option Connect → ℤ → Bytes → M L (Result NativeObject)
  lookup_secret_by_usage c usage_type usage_id = handle_of kind (
      with_text "secret usage ID" usage_id false λ b.
        connect_call api nil c "virSecretLookupByUsage" (
          not_nil
            λ p. call_ptr api "virSecretLookupByUsage" (ptr p ∷ num usage_type ∷ text b ∷ [])))

  -- The value that libvirt allocated, released behind the copy; a size past the largest int fails.
  unfoldable copy_value : Ptr → ℕ → M L (Bytes × Bool)
  copy_value value size =
      if value == nil
      then pure ([], true)
      else if ltb 0x7fffffffffffffff size
      then (do api_free api value; pure ([], true))
      else (do
        bytes ← read_memory (slice_bytes value size)
        api_free api value
        pure (bytes, false))

  unfoldable get_value : Option NativeObject → ℕ → M L (Bytes × Option GoError)
  get_value secret flags = object_call api [] secret "virSecretGetValue" λ p. do
    r ← invoke api "virSecretGetValue" (ptr p ∷ out ∷ num (pos flags) ∷ [])
    copy_value r.word (written r 0 0)

  -- The bytes of a slice, a nil pointer where it has none.
  abbrev bytes_argument : Bytes → Arg
  bytes_argument [] = text none
  bytes_argument (b ∷ bs) = buffer (b ∷ bs)

  unfoldable set_value : Option NativeObject → Bytes → ℕ → M L (Option GoError)
  set_value secret value flags = object_status api secret "virSecretSetValue" λ p.
      call_int api "virSecretSetValue"
        (ptr p ∷ bytes_argument value ∷ num (pos (length value)) ∷ num (pos flags) ∷ [])
