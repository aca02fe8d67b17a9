-- ===== src/Handles/DomainSnapshot.antt =====
-- snapshot.go: the operations of `DomainSnapshot`, in the order of the file.
use libvirt_go.Resource.{
  NativeObject, object_call, Domain, object_free, object_status, handle_of, object_borrowed_string,
  object_owned_string, handles_of, with_text, domain_call, status, domain_list_objects, not_nil,
  call_out,
}
use libvirt_go.Prelude.{String, Option, ℕ, Bytes, List, false, ◌∷◌, []}
use libvirt_go.World.{M}
use libvirt_go.Native.{NativeApi, call_int, ptr, call_ptr, text, num, out}
use libvirt_go.Memory.{nil}
use libvirt_go.Errors.{Result, GoError}
use libvirt_go.Prelude.Int.{ℤ, pos}

-- `newDomainSnapshot` gives its handles this kind.
abbrev kind : String
kind = "domain snapshot"

module _ {L : Type 0} (api : NativeApi L) where
  unfoldable list_all_snapshots : Option Domain → ℕ → M L (Result (List NativeObject))
  list_all_snapshots domain flags = handles_of kind (
      domain_list_objects api domain "virDomainListAllSnapshots"
        λ p. call_out api "virDomainListAllSnapshots" (ptr p ∷ out ∷ num (pos flags) ∷ []))

  unfoldable create_snapshot_xml : Option Domain → Bytes → ℕ → M L (Result NativeObject)
  create_snapshot_xml domain xml flags = handle_of kind (
      with_text "snapshot XML" xml false λ b.
        domain_call api nil domain "virDomainSnapshotCreateXML" (
          not_nil
            λ p. call_ptr api "virDomainSnapshotCreateXML" (ptr p ∷ text b ∷ num (pos flags) ∷ [])))

  unfoldable snapshot_lookup_by_name : Option Domain → Bytes → ℕ → M L (Result NativeObject)
  snapshot_lookup_by_name domain name flags = handle_of kind (
      with_text "snapshot name" name false λ b.
        domain_call api nil domain "virDomainSnapshotLookupByName" (
          not_nil λ p.
            call_ptr api "virDomainSnapshotLookupByName" (ptr p ∷ text b ∷ num (pos flags) ∷ [])))

  unfoldable snapshot_current : Option Domain → ℕ → M L (Result NativeObject)
  snapshot_current domain flags = handle_of kind (
      domain_call api nil domain "virDomainSnapshotCurrent"
        (not_nil λ p. call_ptr api "virDomainSnapshotCurrent" (ptr p ∷ num (pos flags) ∷ [])))

  unfoldable free : Option NativeObject → M L (Option GoError × Option NativeObject)
  free snapshot =
      object_free api snapshot "virDomainSnapshotFree"
        λ p. call_int api "virDomainSnapshotFree" (ptr p ∷ [])

  unfoldable num_children : Option NativeObject → ℕ → M L (ℤ × Option GoError)
  num_children snapshot flags =
      object_call api (pos 0) snapshot "virDomainSnapshotNumChildren"
        (status λ p. call_int api "virDomainSnapshotNumChildren" (ptr p ∷ num (pos flags) ∷ []))

  unfoldable get_name : Option NativeObject → M L (Bytes × Option GoError)
  get_name snapshot =
      object_borrowed_string api snapshot "virDomainSnapshotGetName"
        λ p. call_ptr api "virDomainSnapshotGetName" (ptr p ∷ [])

  unfoldable get_xml_desc : Option NativeObject → ℕ → M L (Bytes × Option GoError)
  get_xml_desc snapshot flags =
      object_owned_string api snapshot "virDomainSnapshotGetXMLDesc"
        λ p. call_ptr api "virDomainSnapshotGetXMLDesc" (ptr p ∷ num (pos flags) ∷ [])

  unfoldable delete : Option NativeObject → ℕ → M L (Option GoError)
  delete snapshot flags =
      object_status api snapshot "virDomainSnapshotDelete"
        λ p. call_int api "virDomainSnapshotDelete" (ptr p ∷ num (pos flags) ∷ [])

  unfoldable revert_to_snapshot : Option NativeObject → ℕ → M L (Option GoError)
  revert_to_snapshot snapshot flags =
      object_status api snapshot "virDomainRevertToSnapshot"
        λ p. call_int api "virDomainRevertToSnapshot" (ptr p ∷ num (pos flags) ∷ [])
