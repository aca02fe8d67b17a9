-- ===== src/Handles/Domain.antt =====
-- domain.go: the operations of `Domain`, which has its own copy of the locked call.
pub mod SendKey
use libvirt_go.Resource.{
  Domain, domain_call, call_out, reading, writing, status, after_read, not_nil, call_filling,
  after_write, int32_of_bool,
}
use libvirt_go.Prelude.{
  none, some, Option, List, ℕ, String, Bytes, Bool, [], false, ◌≡◌, take, if◌then◌else◌, ◌++◌, ◌∷◌,
  ◌==◌, replicate, ◌%◌, refl, not,
}
use libvirt_go.World.{◌>>=◌, pure, ◌>>◌, World, M, read_memory}
use libvirt_go.Native.CString.{buffer, refused, make_c_string}
use libvirt_go.Native.{
  NativeApi, call_int, invoke, native_call, ptr, call_ptr, out, api_free, num, text, written,
}
use libvirt_go.Memory.{Ptr, nil, copy_c_string}
use libvirt_go.Errors.{GoError, closed}
use libvirt_go.Prelude.Int.{ℤ, pos, eqb_ℤ, is_negative}
use libvirt_go.Prelude.Words.{int32_of}

module _ {L : Type 0} (api : NativeApi L) where
  -- The check and the read lock around a method.
  abbrev guarded :
      {T : Type 0} → T → Option Domain → (Ptr → M L (T × Option GoError)) → M L (T × Option GoError)
  guarded zero_value none body = pure (zero_value, some (closed "domain"))
  guarded zero_value (some d) body =
      reading (if d.ptr == nil then pure (zero_value, some (closed "domain")) else body d.ptr)

  abbrev freed : Domain → Option GoError → Option GoError × Option Domain
  freed d none = (none, some (record { ptr = nil }))
  freed d (some e) = (some e, some d)

  -- `Free`, with the handle behind it
  unfoldable free : Option Domain → M L (Option GoError × Option Domain)
  free none = pure (some (closed "domain"), none)
  free (some d) = writing (
      if d.ptr == nil then pure (some (closed "domain"), some d) else do
        (result, e) ←
            native_call api (pos 0) "virDomainFree"
              (status (λ p. call_int api "virDomainFree" (ptr p ∷ [])) d.ptr)
        pure (freed d e))

  -- The copy of a text behind the call that gave it.
  unfoldable copied : Ptr → Option GoError → M L (Bytes × Option GoError)
  copied chars (some e) = pure ([], some e)
  copied chars none = do result ← read_memory (copy_c_string chars); pure (result, none)

  unfoldable get_name : Option Domain → M L (Bytes × Option GoError)
  get_name d = guarded [] d λ p. do
    (chars, e) ←
        native_call api nil "virDomainGetName"
          (not_nil (λ q. call_ptr api "virDomainGetName" (ptr q ∷ [])) p)
    copied chars e

  abbrev uuid_result : List ℕ → Option GoError → Bytes × Option GoError
  uuid_result wrote (some e) = ([], some e)
  uuid_result wrote none = (take 36 (wrote ++ replicate 37 0), none)

  unfoldable get_uuid_string : Option Domain → M L (Bytes × Option GoError)
  get_uuid_string d = guarded [] d λ p. do
    (wrote, e) ← native_call api [] "virDomainGetUUIDString" (do
      (result, wrote) ← call_filling api "virDomainGetUUIDString" (ptr p ∷ out ∷ [])
      pure (wrote, is_negative result))
    pure (uuid_result wrote e)

  -- The state and the reason, two variables of type int32.
  unfoldable get_state : Option Domain → M L ((ℤ × ℤ) × Option GoError)
  get_state d =
      guarded (pos 0, pos 0) d
        λ p.
          native_call api (pos 0, pos 0) "virDomainGetState"
            (do
              r ← invoke api "virDomainGetState" (ptr p ∷ out ∷ out ∷ num (pos 0) ∷ [])
              pure (
                (int32_of (written r 0 0), int32_of (written r 1 0)),
                is_negative (int32_of r.word),
              ))

  unfoldable is_active : Option Domain → M L (Bool × Option GoError)
  is_active d = guarded false d λ p. do
    (result, e) ←
        native_call api (pos 0) "virDomainIsActive"
          (status (λ q. call_int api "virDomainIsActive" (ptr q ∷ [])) p)
    pure (eqb_ℤ result (pos 1), e)

  -- The copy of a text that the caller owns, released behind it.
  unfoldable taken : Ptr → Option GoError → M L (Bytes × Option GoError)
  taken chars (some e) = pure ([], some e)
  taken chars none = do
    result ← read_memory (copy_c_string chars)
    api_free api chars
    pure (result, none)

  unfoldable get_xml_desc : Option Domain → ℕ → M L (Bytes × Option GoError)
  get_xml_desc d flags = guarded [] d λ p. do
    (chars, e) ←
        native_call api nil "virDomainGetXMLDesc"
          (not_nil (λ q. call_ptr api "virDomainGetXMLDesc" (ptr q ∷ num (pos flags) ∷ [])) p)
    taken chars e

  -- `callStatus`
  unfoldable pub call_status : Option Domain → String → (Ptr → M L ℤ) → M L (Option GoError)
  call_status none operation call = pure (some (closed "domain"))
  call_status (some d) operation call = reading (
      if d.ptr == nil
      then pure (some (closed "domain"))
      else do (result, e) ← native_call api (pos 0) operation (status call d.ptr); pure e)

  -- `domainCall` of a call whose negative result is its failure.
  unfoldable pub domain_status : Option Domain → String → (Ptr → M L ℤ) → M L (Option GoError)
  domain_status d operation call = do
    (result, e) ← domain_call api (pos 0) d operation (status call)
    pure e

  unfoldable reset : Option Domain → ℕ → M L (Option GoError)
  reset d flags =
      call_status d "virDomainReset"
        λ p. call_int api "virDomainReset" (ptr p ∷ num (pos flags) ∷ [])

  unfoldable reboot : Option Domain → ℕ → M L (Option GoError)
  reboot d flags =
      call_status d "virDomainReboot"
        λ p. call_int api "virDomainReboot" (ptr p ∷ num (pos flags) ∷ [])

  unfoldable resume : Option Domain → M L (Option GoError)
  resume d = call_status d "virDomainResume" λ p. call_int api "virDomainResume" (ptr p ∷ [])

  unfoldable suspend : Option Domain → M L (Option GoError)
  suspend d = call_status d "virDomainSuspend" λ p. call_int api "virDomainSuspend" (ptr p ∷ [])

  unfoldable destroy_flags : Option Domain → ℕ → M L (Option GoError)
  destroy_flags d flags =
      call_status d "virDomainDestroyFlags"
        λ p. call_int api "virDomainDestroyFlags" (ptr p ∷ num (pos flags) ∷ [])

  unfoldable create : Option Domain → M L (Option GoError)
  create d = call_status d "virDomainCreate" λ p. call_int api "virDomainCreate" (ptr p ∷ [])

  unfoldable create_with_flags : Option Domain → ℕ → M L (Option GoError)
  create_with_flags d flags =
      call_status d "virDomainCreateWithFlags"
        λ p. call_int api "virDomainCreateWithFlags" (ptr p ∷ num (pos flags) ∷ [])

  unfoldable shutdown : Option Domain → M L (Option GoError)
  shutdown d = call_status d "virDomainShutdown" λ p. call_int api "virDomainShutdown" (ptr p ∷ [])

  unfoldable destroy : Option Domain → M L (Option GoError)
  destroy d = call_status d "virDomainDestroy" λ p. call_int api "virDomainDestroy" (ptr p ∷ [])

  unfoldable undefine : Option Domain → M L (Option GoError)
  undefine d = call_status d "virDomainUndefine" λ p. call_int api "virDomainUndefine" (ptr p ∷ [])

  unfoldable undefine_flags : Option Domain → ℕ → M L (Option GoError)
  undefine_flags d flags =
      call_status d "virDomainUndefineFlags"
        λ p. call_int api "virDomainUndefineFlags" (ptr p ∷ num (pos flags) ∷ [])

  unfoldable modify_device :
      Option Domain → String → Bytes → (Ptr → Option Bytes → M L ℤ) → M L (Option GoError)
  modify_device d operation xml call = elim (make_c_string "device XML" xml false) [
    | refused e ↦ pure (some e)
    | buffer b ↦ domain_status d operation λ p. call p b
  ]

  unfoldable attach_device_flags : Option Domain → Bytes → ℕ → M L (Option GoError)
  attach_device_flags d xml flags =
      modify_device d "virDomainAttachDeviceFlags" xml
        λ p b. call_int api "virDomainAttachDeviceFlags" (ptr p ∷ text b ∷ num (pos flags) ∷ [])

  unfoldable detach_device_flags : Option Domain → Bytes → ℕ → M L (Option GoError)
  detach_device_flags d xml flags =
      modify_device d "virDomainDetachDeviceFlags" xml
        λ p b. call_int api "virDomainDetachDeviceFlags" (ptr p ∷ text b ∷ num (pos flags) ∷ [])

  unfoldable get_id : Option Domain → M L (ℕ × Option GoError)
  get_id d = domain_call api 0 d "virDomainGetID" λ p. do
    r ← invoke api "virDomainGetID" (ptr p ∷ [])
    pure (r.word % 0x100000000, r.word % 0x100000000 == 0xffffffff)

  unfoldable has_managed_save_image : Option Domain → ℕ → M L (Bool × Option GoError)
  has_managed_save_image d flags = do
    (value, e) ←
        domain_call api (pos 0) d "virDomainHasManagedSaveImage"
          (status λ p. call_int api "virDomainHasManagedSaveImage" (ptr p ∷ num (pos flags) ∷ []))
    pure (eqb_ℤ value (pos 1), e)

  unfoldable get_autostart : Option Domain → M L (Bool × Option GoError)
  get_autostart d = do
    (value, e) ← domain_call api 0 d "virDomainGetAutostart" λ p. do
      (result, autostart) ← call_out api "virDomainGetAutostart" (ptr p ∷ out ∷ [])
      pure (autostart, is_negative result)
    pure (not (eqb_ℤ (int32_of value) (pos 0)), e)

  unfoldable set_autostart : Option Domain → Bool → M L (Option GoError)
  set_autostart d autostart =
      domain_status d "virDomainSetAutostart"
        λ p. call_int api "virDomainSetAutostart" (ptr p ∷ num (int32_of_bool autostart) ∷ [])
