-- ===== src/Witnesses/Methods.antt =====
-- Methods of handles, for the properties of Handles and Resource/Locks.
use libvirt_go.Prelude.{none, some, [], if◌then◌else◌, ◌≡◌, str_eq, ◌∷◌, arith, refl, ◌≢◌, String}
use libvirt_go.Errors.{argument_too_large}
use libvirt_go.Memory.{Ptr}
use libvirt_go.World.{World, called, r_unlock, r_lock}
use libvirt_go.Native.{
  CFun, NativeApi, native_call, reset_last_error, call_int, ptr, outcome, require_symbol, lookup,
  invoke,
}
use libvirt_go.Native.Laws.{Quiet, Quiet-bind, Quiet-call_int, Quiet-pure}
use libvirt_go.Prelude.Int.{pos, negsuc}
use libvirt_go.Resource.{status, NativeObject, object_call}
use libvirt_go.Handles.Stream.{read, received, transferred}
use libvirt_go.Handles.Stream.Reading.{read-positive}
use libvirt_go.Resource.Locks.{Locked, object_call-Locked}
use libvirt_go.Handles.Domain.SendKey.{send_key, send_key-refuses}
use libvirt_go.Witnesses.{network_1, release_network, world_0, small_api}

abbrev stream_1 : NativeObject
stream_1 = record { ptr = 64; kind = "stream" }

-- `virStreamRecv` that fills two bytes.
abbrev two_bytes : CFun (Unit {0})
two_bytes args s = (record { word = 2; outs = 5 ∷ 6 ∷ [] }, s)

abbrev stream_api : NativeApi (Unit {0})
stream_api = record small_api {
  fn = λ name. if str_eq name "virStreamRecv" then some two_bytes else none;
}

abbrev read_world : World (Unit {0})
read_world = record world_0 { trace = r_unlock ∷ called "virStreamRecv" 1 ∷ r_lock ∷ [] }

read-two :
    read stream_api (some stream_1) (0 ∷ 0 ∷ 0 ∷ []) world_0
    ≡ some ((5 ∷ 6 ∷ 0 ∷ [], (pos 2, none)), read_world)
unfolding read received transferred object_call native_call reset_last_error invoke outcome
    require_symbol lookup
read-two = refl

read-positive_example : (pos 2 ≢ pos 0) × (pos 2 ≢ negsuc 1)
read-positive_example =
    read-positive stream_api (some stream_1) 0 (0 ∷ 0 ∷ []) (5 ∷ 6 ∷ 0 ∷ []) (pos 2) world_0
      read_world read-two

release_network-Quiet : (p : Ptr) → Quiet (status release_network p)
release_network-Quiet p =
    Quiet-bind (release_network p) _ (Quiet-call_int small_api "virDomainCreate" (ptr p ∷ []))
      λ r. Quiet-pure _

abbrev called_world : World (Unit {0})
called_world = record world_0 { trace = r_unlock ∷ called "virDomainCreate" 1 ∷ r_lock ∷ [] }

object_call-called :
    object_call small_api
      (pos 0)
      (some network_1)
      "virDomainCreate"
      (status release_network)
      world_0
    ≡ some ((pos 0, none), called_world)
unfolding object_call native_call reset_last_error call_int outcome require_symbol lookup invoke
object_call-called = refl

object_call-Locked_example : Locked world_0 called_world
object_call-Locked_example =
    object_call-Locked small_api (pos 0) network_1 "virDomainCreate" (status release_network)
      release_network-Quiet world_0 (pos 0, none) called_world object_call-called

send_key-refuses_example :
    (what : String) × (send_key small_api
        (some (record { ptr = 64 }))
        0
        50
        (30 ∷ 0x100000000 ∷ [])
        0
        world_0
      ≡ some (some (argument_too_large what), world_0))
send_key-refuses_example =
    send_key-refuses small_api (some (record { ptr = 64 })) 0 50 (30 ∷ 0x100000000 ∷ []) 0 world_0
      (λ (few, set, time, (first, (second, rest))). absurd (omega (arith, second)))
