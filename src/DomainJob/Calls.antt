-- ===== src/DomainJob/Calls.antt =====
-- The calls of domain_job.go: backups, the statistics of a job, file systems.
use libvirt_go.Prelude.{
  none, some, String, Option, List, Bytes, Bool, ℕ, ◌∷◌, false, if◌then◌else◌, true, [], ltb,
  length, ◌&&◌, ◌==◌, ◌%◌,
}
use libvirt_go.World.{M, pure, ◌>>=◌, ◌>>◌, read_memory}
use libvirt_go.Errors.{Result, GoError, ok, err, nil_storage, too_many}
use libvirt_go.Native.CString.{make_c_string, buffer, refused}
use libvirt_go.Native.{
  NativeApi, Arg, call_int, text, ptr, texts, invoke, num, call_ptr, out, written,
}
use libvirt_go.Prelude.Int.{ℤ, ltb_ℤ, pos, is_negative}
use libvirt_go.Resource.{Domain, domain_call, owned}
use libvirt_go.Memory.{Ptr, nil}
use libvirt_go.Handles.Domain.{call_status, domain_status}
use libvirt_go.DomainJob.{DomainJobInfo, domain_job_info_from_parameters}
use libvirt_go.Prelude.Words.{int32_of}
use libvirt_go.TypedParams.Decode.{decode_typed_parameters}
use libvirt_go.TypedParams.Marshal.{free_typed_parameters}

module _ {L : Type 0} (api : NativeApi L) where
  -- A text argument in front of a call that returns only an error.
  abbrev pub checked_text :
      String → Bytes → Bool → (Option Bytes → M L (Option GoError)) → M L (Option GoError)
  checked_text field value optional body = elim (make_c_string field value optional) [
    | refused e ↦ pure (some e)
    | buffer b ↦ body b
  ]

  unfoldable backup_begin : Option Domain → Bytes → Bytes → ℕ → M L (Option GoError)
  backup_begin d backup_xml checkpoint_xml flags = checked_text "backup XML" backup_xml false λ b.
      checked_text "checkpoint XML" checkpoint_xml true λ c.
        domain_status api d "virDomainBackupBegin"
          λ p. call_int api "virDomainBackupBegin" (ptr p ∷ text b ∷ text c ∷ num (pos flags) ∷ [])

  unfoldable backup_get_xml_desc : Option Domain → ℕ → M L (Bytes × Option GoError)
  backup_get_xml_desc d flags =
      domain_call api [] d "virDomainBackupGetXMLDesc"
        (owned api λ p. call_ptr api "virDomainBackupGetXMLDesc" (ptr p ∷ num (pos flags) ∷ []))

  unfoldable abort_job : Option Domain → M L (Option GoError)
  abort_job d =
      call_status api d "virDomainAbortJob" λ p. call_int api "virDomainAbortJob" (ptr p ∷ [])

  -- The statistics behind a call that left the job's type, the array and its count.
  unfoldable job_stats : ℤ → Ptr → ℤ → M L (Result DomainJobInfo)
  job_stats t memory count =
      if ltb_ℤ (pos 0) count && (memory == nil)
      then pure (err (nil_storage "virDomainGetJobStats" count))
      else (do
        r ← read_memory (decode_typed_parameters memory count)
        free_typed_parameters api memory count
        elim r [ err e ↦ pure (err e) | ok ps ↦ pure (domain_job_info_from_parameters t ps) ])

  unfoldable get_job_stats : Option Domain → ℕ → M L (Result DomainJobInfo)
  unfolding job_stats
  get_job_stats d flags = do
    (r, e) ←
        domain_call api (record { word = 0; outs = [] }) d "virDomainGetJobStats"
          λ p. do
            r ← invoke api "virDomainGetJobStats" (ptr p ∷ out ∷ out ∷ out ∷ num (pos flags) ∷ [])
            pure (r, is_negative (int32_of r.word))
    elim e [
      | some e' ↦ pure (err e')
      | none ↦ job_stats (int32_of (written r 0 0)) (written r 1 nil) (int32_of (written r 2 0))
    ]

  -- The loop over the mount points: the buffers, or the first error.
  unfoldable pub mount_buffers : List Bytes → Result (List Bytes)
  mount_buffers [] = ok []
  mount_buffers (mountpoint ∷ rest) =
      elim (make_c_string "filesystem mountpoint" mountpoint false) [
        | refused e ↦ err e
        | buffer b ↦ elim (mount_buffers rest) [
          | err e ↦ err e
          | ok bs ↦ ok (elim b [ some bytes ↦ bytes | none ↦ [] ] ∷ bs)
        ]
      ]

  abbrev mounts : List Bytes → Arg
  mounts [] = text none
  mounts (b ∷ bs) = texts (b ∷ bs)

  unfoldable pub filesystem_call : String → Option Domain → List Bytes → ℕ → M L (Option GoError)
  unfolding mount_buffers
  filesystem_call operation d mountpoints flags =
      if ltb 0xffffffff (length mountpoints)
      then pure (some (too_many (length mountpoints)))
      else elim (mount_buffers mountpoints) [
        | err e ↦ pure (some e)
        | ok bs ↦ domain_status api d operation λ p.
            call_int api operation
              (ptr p ∷ mounts bs ∷ num (pos (length bs % 0x100000000)) ∷ num (pos flags) ∷ [])
      ]

  unfoldable fs_freeze : Option Domain → List Bytes → ℕ → M L (Option GoError)
  fs_freeze = filesystem_call "virDomainFSFreeze"

  unfoldable fs_thaw : Option Domain → List Bytes → ℕ → M L (Option GoError)
  fs_thaw = filesystem_call "virDomainFSThaw"
