-- ===== src/Witnesses/Handling.antt =====
-- Calls through handles, for the properties of Native and Resource.
use libvirt_go.Prelude.{none, some, [], if◌then◌else◌, Bool, ◌≡◌, ◌∷◌, false, arith, refl, ◌==◌}
use libvirt_go.Errors.{closed, libvirt_error, bare_error}
use libvirt_go.Memory.{Memory, Ptr, nil, erase}
use libvirt_go.World.{World, M, called, pure, w_unlock, with_memory, w_lock}
use libvirt_go.Native.{
  native_call, reset_last_error, call_int, ptr, outcome, require_symbol, lookup, invoke, last_error,
}
use libvirt_go.Native.Laws.{Quiet, Calls, Quiet-bind, native_call-Calls, Quiet-call_int, Quiet-pure}
use libvirt_go.Prelude.Int.{ℤ, pos}
use libvirt_go.Resource.{status, NativeObject, object_free, native_object_list, owned, after_write}
use libvirt_go.Resource.Laws.{
  object_free-failed, object_free-once, native_object_list-releases, owned-releases,
}
use libvirt_go.Witnesses.{network_1, release_network, lost, no_memory, world_0, small_api}

abbrev created : World (Unit {0})
created = record world_0 { trace = called "virDomainCreate" 1 ∷ [] }

abbrev create_domain : M (Unit {0}) (ℤ × Bool)
create_domain = status (λ p. call_int small_api "virDomainCreate" (ptr p ∷ [])) 64

create_domain-Quiet : Quiet create_domain
create_domain-Quiet =
    Quiet-bind (call_int small_api "virDomainCreate" (ptr 64 ∷ [])) _
      (Quiet-call_int small_api "virDomainCreate" (ptr 64 ∷ [])) λ r. Quiet-pure _

native_call-created :
    native_call small_api (pos 0) "virDomainCreate" create_domain world_0
    ≡ some ((pos 0, none), created)
unfolding native_call reset_last_error call_int outcome require_symbol lookup invoke
native_call-created = refl

native_call-Calls_example : Calls 1 world_0 created
native_call-Calls_example =
    native_call-Calls small_api (pos 0) "virDomainCreate" create_domain create_domain-Quiet world_0
      (pos 0, none) created native_call-created

-- A release that closes the handle, and one that fails.
abbrev network_gone : NativeObject
network_gone = record { ptr = nil; kind = "network" }

abbrev released_world : World (Unit {0})
released_world = record world_0 { trace = w_unlock ∷ called "virDomainCreate" 1 ∷ w_lock ∷ [] }

release-done :
    object_free small_api (some network_1) "virNetworkFree" release_network world_0
    ≡ some ((none, some network_gone), released_world)
unfolding object_free native_call reset_last_error call_int outcome require_symbol lookup invoke
release-done = refl

object_free-once_example :
    object_free small_api (some network_gone) "virNetworkFree" lost world_0
    ≡ some ((some (closed "network"), some network_gone), after_write world_0)
object_free-once_example =
    object_free-once small_api network_1 "virNetworkFree" release_network world_0 released_world
      (some network_gone) release-done "virNetworkFree" lost world_0

release-failed :
    object_free small_api (some network_1) "virNetworkFree" lost world_0
    ≡ some
        ((some (libvirt_error (bare_error "virNetworkFree")), some network_1), after_write world_0)
unfolding object_free native_call reset_last_error last_error outcome require_symbol lookup
release-failed = refl

object_free-failed_example : some network_1 ≡ some network_1
object_free-failed_example =
    object_free-failed small_api network_1 "virNetworkFree" lost world_0 (after_write world_0)
      (libvirt_error (bare_error "virNetworkFree")) (some network_1) release-failed

-- A world with an array of three handles and a text.
abbrev full_memory : Memory
full_memory = record no_memory {
  pointers = λ p. if p == 64 then some (100 ∷ 200 ∷ 300 ∷ []) else none;
  bytes = λ p. if p == 32 then some (97 ∷ 98 ∷ 0 ∷ 99 ∷ []) else none;
}

abbrev full_world : World (Unit {0})
full_world = with_memory world_0 full_memory

abbrev two_handles : Ptr → M (Unit {0}) (ℤ × Ptr)
two_handles p = pure (pos 2, 64)

native_object_list-releases_example :
    native_object_list small_api 8 two_handles full_world
    ≡ some ((100 ∷ 200 ∷ [], false), with_memory full_world (erase 64 full_memory))
native_object_list-releases_example =
    native_object_list-releases small_api 8 two_handles full_world full_world 1 64
      (100 ∷ 200 ∷ 300 ∷ []) refl (λ e. absurd (omega (arith, e))) refl (omega arith)

abbrev text_at : Ptr → M (Unit {0}) Ptr
text_at p = pure 32

owned-releases_example :
    owned small_api text_at 8 full_world
    ≡ some ((97 ∷ 98 ∷ [], false), with_memory full_world (erase 32 full_memory))
owned-releases_example =
    owned-releases small_api text_at 8 32 full_world full_world (97 ∷ 98 ∷ []) (99 ∷ []) refl
      (λ e. absurd (omega (arith, e))) refl
      ((λ e. absurd (omega (arith, e))), ((λ e. absurd (omega (arith, e))), tt))
