-- ===== src/Handles/DomainCheckpoint.antt =====
-- snapshot.go: the operations of `DomainCheckpoint`, in the order of the file.
use libvirt_go.Resource.{
  NativeObject, Domain, object_free, object_status, handle_of, object_borrowed_string,
  object_owned_string, handles_of, with_text, object_list_objects, domain_list_objects, call_out,
  domain_call, not_nil,
}
use libvirt_go.Prelude.{String, Option, ℕ, Bytes, List, false, ◌∷◌, []}
use libvirt_go.World.{M}
use libvirt_go.Native.{NativeApi, call_int, ptr, call_ptr, out, num, text}
use libvirt_go.Memory.{nil}
use libvirt_go.Errors.{Result, GoError}
use libvirt_go.Prelude.Int.{pos}

-- `newDomainCheckpoint` gives its handles this kind.
abbrev kind : String
kind = "domain checkpoint"

module _ {L : Type 0} (api : NativeApi L) where
  unfoldable list_all_checkpoints : Option Domain → ℕ → M L (Result (List NativeObject))
  list_all_checkpoints domain flags = handles_of kind (
      domain_list_objects api domain "virDomainListAllCheckpoints"
        λ p. call_out api "virDomainListAllCheckpoints" (ptr p ∷ out ∷ num (pos flags) ∷ []))

  unfoldable create_checkpoint_xml : Option Domain → Bytes → ℕ → M L (Result NativeObject)
  create_checkpoint_xml domain xml flags = handle_of kind (
      with_text "checkpoint XML" xml false λ b.
        domain_call api nil domain "virDomainCheckpointCreateXML" (
          not_nil λ p.
            call_ptr api "virDomainCheckpointCreateXML" (ptr p ∷ text b ∷ num (pos flags) ∷ [])))

  unfoldable checkpoint_lookup_by_name : Option Domain → Bytes → ℕ → M L (Result NativeObject)
  checkpoint_lookup_by_name domain name flags = handle_of kind (
      with_text "checkpoint name" name false λ b.
        domain_call api nil domain "virDomainCheckpointLookupByName" (
          not_nil λ p.
            call_ptr api "virDomainCheckpointLookupByName" (ptr p ∷ text b ∷ num (pos flags) ∷ [])))

  unfoldable free : Option NativeObject → M L (Option GoError × Option NativeObject)
  free checkpoint =
      object_free api checkpoint "virDomainCheckpointFree"
        λ p. call_int api "virDomainCheckpointFree" (ptr p ∷ [])

  unfoldable get_name : Option NativeObject → M L (Bytes × Option GoError)
  get_name checkpoint =
      object_borrowed_string api checkpoint "virDomainCheckpointGetName"
        λ p. call_ptr api "virDomainCheckpointGetName" (ptr p ∷ [])

  unfoldable get_xml_desc : Option NativeObject → ℕ → M L (Bytes × Option GoError)
  get_xml_desc checkpoint flags =
      object_owned_string api checkpoint "virDomainCheckpointGetXMLDesc"
        λ p. call_ptr api "virDomainCheckpointGetXMLDesc" (ptr p ∷ num (pos flags) ∷ [])

  unfoldable list_all_children : Option NativeObject → ℕ → M L (Result (List NativeObject))
  list_all_children checkpoint flags = handles_of kind (
      object_list_objects api checkpoint "virDomainCheckpointListAllChildren"
        λ p. call_out api "virDomainCheckpointListAllChildren" (ptr p ∷ out ∷ num (pos flags) ∷ []))

  unfoldable delete : Option NativeObject → ℕ → M L (Option GoError)
  delete checkpoint flags =
      object_status api checkpoint "virDomainCheckpointDelete"
        λ p. call_int api "virDomainCheckpointDelete" (ptr p ∷ num (pos flags) ∷ [])
