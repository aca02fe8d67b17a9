-- ===== src/Handles/Connect.antt =====
-- connect.go: opening and closing a connection, and its operations on domains and versions.
use libvirt_go.Resource.{
  Connect, connect_call, Domain, not_nil, writing, reading, call_out, status,
  connect_object_from_xml, slice_pointers,
}
use libvirt_go.Prelude.{
  none, some, String, Bytes, Option, List, Bool, ℕ, [], false, ◌∷◌, if◌then◌else◌, ◌==◌, ◌%◌,
}
use libvirt_go.World.{◌>>=◌, pure, ◌>>◌, M, read_memory}
use libvirt_go.Native.CString.{buffer, refused, make_c_string}
use libvirt_go.Native.{NativeApi, native_call, call_ptr, text, ptr, call_int, api_free, out, num}
use libvirt_go.Memory.{Ptr, nil, copy_c_string}
use libvirt_go.Prelude.Int.{ℤ, pos, negsuc, eqb_ℤ, is_negative}
use libvirt_go.Errors.{GoError, Result, closed, err, ok, nil_storage}
use mathlib.Core.Bool.{true}

module _ {L : Type 0} (api : NativeApi L) where
  abbrev opened : Ptr → Option GoError → Result Connect
  opened p (some e) = err e
  opened p none = ok (record { ptr = p })

  unfoldable open_with : String → Bytes → M L (Result Connect)
  open_with operation uri = elim (make_c_string "URI" uri true) [
    | refused e ↦ pure (err e)
    | buffer b ↦ do
      (p, e) ←
          native_call api nil operation
            (do result ← call_ptr api operation (text b ∷ []); pure (result, result == nil))
      pure (opened p e)
  ]

  -- `newConnect`, behind `getNativeAPI`
  unfoldable new_connect : Bytes → Bool → M L (Result Connect)
  unfolding open_with
  new_connect uri true = open_with "virConnectOpenReadOnly" uri
  new_connect uri false = open_with "virConnectOpen" uri

  abbrev after_close : Connect → ℤ → Option GoError → (ℤ × Option GoError) × Option Connect
  after_close c result (some e) = ((result, some e), some c)
  after_close c result none = ((result, none), some (record { ptr = nil }))

  -- `Close`, with the handle behind it
  unfoldable close : Option Connect → M L ((ℤ × Option GoError) × Option Connect)
  close none = pure ((pos 0, some (closed "connection")), none)
  close (some c) = writing (
      if c.ptr == nil then pure ((pos 0, some (closed "connection")), some c) else do
        (result, e) ←
            native_call api (pos 0) "virConnectClose"
              (status (λ p. call_int api "virConnectClose" (ptr p ∷ [])) c.ptr)
        pure (after_close c result e))

  -- The check and the read lock around a method.
  abbrev guarded :
      {T : Type 0}
      → T
      → Option Connect
      → (Ptr → M L (T × Option GoError))
      → M L (T × Option GoError)
  guarded zero_value none body = pure (zero_value, some (closed "connection"))
  guarded zero_value (some c) body =
      reading (if c.ptr == nil then pure (zero_value, some (closed "connection")) else body c.ptr)

  -- The copy of a text that the caller owns, released behind it.
  unfoldable taken : Ptr → Option GoError → M L (Bytes × Option GoError)
  taken chars (some e) = pure ([], some e)
  taken chars none = do
    result ← read_memory (copy_c_string chars)
    api_free api chars
    pure (result, none)

  unfoldable get_uri : Option Connect → M L (Bytes × Option GoError)
  get_uri c = guarded [] c λ p. do
    (chars, e) ←
        native_call api nil "virConnectGetURI"
          (not_nil (λ q. call_ptr api "virConnectGetURI" (ptr q ∷ [])) p)
    taken chars e

  -- `getVersion`; the call's variable is of type unsigned long.
  unfoldable get_version_by : Option Connect → String → M L (ℕ × Option GoError)
  get_version_by c operation = guarded 0 c λ p. native_call api 0 operation (do
    (result, version) ← call_out api operation (ptr p ∷ out ∷ [])
    pure (version % 0x10000000000000000, is_negative result))

  unfoldable get_lib_version : Option Connect → M L (ℕ × Option GoError)
  unfolding get_version_by
  get_lib_version c = get_version_by c "virConnectGetLibVersion"

  unfoldable get_version : Option Connect → M L (ℕ × Option GoError)
  unfolding get_version_by
  get_version c = get_version_by c "virConnectGetVersion"

  unfoldable is_alive : Option Connect → M L (Bool × Option GoError)
  is_alive c = guarded false c λ p. do
    (result, e) ←
        native_call api (pos 0) "virConnectIsAlive"
          (status (λ q. call_int api "virConnectIsAlive" (ptr q ∷ [])) p)
    pure (eqb_ℤ result (pos 1), e)

  abbrev domains : List Ptr → List Domain
  domains [] = []
  domains (p ∷ ps) = record { ptr = p } ∷ domains ps

  -- What is behind the call in `ListAllDomains`.
  unfoldable listed : ℤ → Ptr → M L (Result (List Domain))
  listed (negsuc n) list =
      if list == nil then pure (err (nil_storage "virConnectListAllDomains" (negsuc n))) else λ _.
      none
  listed (pos n) list =
      if list == nil
      then (if n == 0
          then pure (ok [])
          else pure (err (nil_storage "virConnectListAllDomains" (pos n))))
      else (do
        handles ← (if n == 0 then pure [] else read_memory (slice_pointers list n))
        api_free api list
        pure (ok (domains handles)))

  abbrev listing : ℤ × Ptr → Option GoError → M L (Result (List Domain))
  listing _ (some e) = pure (err e)
  listing r none = listed r.0 r.1

  unfoldable list_all_domains : Option Connect → ℕ → M L (Result (List Domain))
  unfolding listed
  list_all_domains none flags = pure (err (closed "connection"))
  list_all_domains (some c) flags = reading (
      if c.ptr == nil then pure (err (closed "connection")) else do
        (r, e) ←
            native_call api (pos 0, nil) "virConnectListAllDomains"
              (do
                (count, list) ←
                    call_out api "virConnectListAllDomains" (ptr c.ptr ∷ out ∷ num (pos flags) ∷ [])
                pure ((count, list), is_negative count))
        listing r e)

  unfoldable get_capabilities : Option Connect → M L (Bytes × Option GoError)
  unfolding taken
  get_capabilities c = do
    (chars, e) ←
        connect_call api nil c "virConnectGetCapabilities"
          (not_nil λ p. call_ptr api "virConnectGetCapabilities" (ptr p ∷ []))
    taken chars e

  abbrev found : Ptr → Option GoError → Result Domain
  found p (some e) = err e
  found p none = ok (record { ptr = p })

  -- `domainFromString`
  unfoldable domain_from_string : Option Connect → String → Bytes → String → M L (Result Domain)
  domain_from_string none field value operation = pure (err (closed "connection"))
  domain_from_string (some c) field value operation = elim (make_c_string field value false) [
    | refused e ↦ pure (err e)
    | buffer b ↦ reading (
        if c.ptr == nil then pure (err (closed "connection")) else do
          (p, e) ←
              native_call api nil operation
                (not_nil (λ q. call_ptr api operation (ptr q ∷ text b ∷ [])) c.ptr)
          pure (found p e))
  ]

  unfoldable lookup_domain_by_name : Option Connect → Bytes → M L (Result Domain)
  unfolding domain_from_string
  lookup_domain_by_name c name = domain_from_string c "domain name" name "virDomainLookupByName"

  unfoldable lookup_domain_by_uuid_string : Option Connect → Bytes → M L (Result Domain)
  unfolding domain_from_string
  lookup_domain_by_uuid_string c uuid =
      domain_from_string c "domain UUID" uuid "virDomainLookupByUUIDString"

  unfoldable domain_define_xml : Option Connect → Bytes → M L (Result Domain)
  unfolding domain_from_string
  domain_define_xml c xml = domain_from_string c "domain XML" xml "virDomainDefineXML"

  unfoldable domain_define_xml_flags : Option Connect → Bytes → ℕ → M L (Result Domain)
  domain_define_xml_flags c xml flags = do
    (p, e) ←
        connect_object_from_xml api c xml "virDomainDefineXMLFlags" flags
          λ p b f. call_ptr api "virDomainDefineXMLFlags" (ptr p ∷ text b ∷ num (pos f) ∷ [])
    pure (found p e)
