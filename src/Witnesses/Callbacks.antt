-- ===== src/Witnesses/Callbacks.antt =====
-- A subscription on a small libvirt, for the properties of Events.
use libvirt_go.Prelude.{
  [], ◌∷◌, none, some, ◌≡◌, refl, str_eq, if◌then◌else◌, true, false, ◌≢◌, arith,
}
use mathlib.Core.Option.{some-injective}
use libvirt_go.Prelude.Int.{ℤ, pos}
use libvirt_go.Errors.{ok, err, Result, symbol_unavailable}
use libvirt_go.Memory.{update, Ptr, malloc, erase}
use libvirt_go.World.{World, M, called, r_lock, r_unlock, pure, change_memory, with_memory}
use libvirt_go.Native.{
  NativeApi, native_call, require_symbol, lookup, api_malloc, call_int, invoke, reset_last_error,
  outcome,
}
use libvirt_go.Resource.{Connect, after_write, after_read}
use libvirt_go.Events.{
  Registry, CallbackRecord, no_callback, Thunks, Subscription, offer, offered, settle,
  allocate_callback_record, on_free,
}
use libvirt_go.Events.Subscribing.{
  close_subscription, close_locked, register_domain_callback, with_domain, with_connection,
  register_any, subscribed,
}
use libvirt_go.Events.Tokens.{
  Status, Process, Reach, with_status, absent, pending, held, start, later, allocates, accepts,
}
use libvirt_go.Events.Tokens.Safety.{Reach-recorded, Reach-on_free, Reach-fresh}
use libvirt_go.Events.Closing.{close_subscription_again}
use libvirt_go.Events.Registering.{Subscribes, register_domain_callback-Subscribes, ResetKeeps}
use libvirt_go.Witnesses.{world_0, small_api, success, no_memory, is_free, two_blocks-IsLawful}

abbrev thunks : Thunks
thunks = record { close = 1; lifecycle = 2; node_lifecycle = 3; job_completed = 4; free = 5 }

abbrev nothing : Registry
nothing = λ p. none

abbrev connection : Connect
connection = record { ptr = 64 }

abbrev lifecycle_record : CallbackRecord
lifecycle_record = record no_callback { lifecycle = some 9 }

-- The symbol is missing, so that nothing is registered.
abbrev old_api : NativeApi (Unit {0})
old_api = record small_api { missing = ("virConnectDomainEventRegisterAny", "0.8.0") ∷ [] }

abbrev unsupported : Result Subscription × Registry
unsupported = (err (symbol_unavailable "virConnectDomainEventRegisterAny" "0.8.0"), nothing)

unsupported_registers :
    register_domain_callback old_api thunks
      (some connection)
      none
      nothing
      (pos 0)
      2
      lifecycle_record
      world_0
    ≡ some (unsupported, after_read world_0)
unfolding register_domain_callback with_connection with_domain register_any native_call
    require_symbol lookup subscribed
unsupported_registers = refl

-- A libvirt that takes subscriptions.
abbrev subscribing_api : NativeApi (Unit {0})
subscribing_api = record small_api {
  fn = λ name.
      if str_eq name "virConnectDomainEventRegisterAny"
      then some success
      else if str_eq name "virResetLastError"
      then some success
      else none;
}

-- A token that libvirt has.
abbrev token_world : World (Unit {0})
token_world =
    with_memory world_0 (record no_memory { bytes = update no_memory.bytes 16 (some (7 ∷ [])) })

abbrev token_registry : Registry
token_registry = update nothing 16 (some lifecycle_record)

abbrev subscription : Subscription
subscription = record {
  conn = some connection;
  opaque = 32;
  callback_id = pos 0;
  is_closed = false;
}

abbrev subscribed_world : World (Unit {0})
subscribed_world = record {
  state = record {
    memory = record no_memory { bytes = update token_world.state.memory.bytes 32 (some (7 ∷ [])) };
    lib = tt;
  };
  pinned = 0;
  trace =
      r_unlock
      ∷ called "virConnectDomainEventRegisterAny" 1
      ∷ called "virResetLastError" 1
      ∷ r_lock
      ∷ [];
}

abbrev registered : Result Subscription × Registry
registered = (ok subscription, update token_registry 32 (some lifecycle_record))

-- A second subscription, beside the token that libvirt has.
registers :
    register_domain_callback subscribing_api thunks
      (some connection)
      none
      token_registry
      (pos 0)
      2
      lifecycle_record
      token_world
    ≡ some (registered, subscribed_world)
unfolding register_domain_callback with_connection with_domain register_any native_call
    require_symbol lookup subscribed offer offered settle allocate_callback_record api_malloc
    change_memory malloc call_int invoke reset_last_error outcome is_free
registers = refl

token_registry-IsLive :
    (p : Ptr) → token_registry p ≢ none → token_world.state.memory.bytes p ≢ none
token_registry-IsLive p known gone = ground (arith, known, gone)

reset_keeps : ResetKeeps subscribing_api token_registry lifecycle_record
reset_keeps f s p there known = rw (← some-injective success f there) refl

register_domain_callback-Subscribes_example : Subscribes token_registry lifecycle_record registered
register_domain_callback-Subscribes_example =
    register_domain_callback-Subscribes subscribing_api thunks token_registry lifecycle_record
      two_blocks-IsLawful reset_keeps (some connection) none (pos 0) 2 token_world
      token_registry-IsLive registered subscribed_world registers

-- The record of the subscription is gone: the connection was closed before.
abbrev over : Subscription
over = record subscription { is_closed = true }

abbrev unregister : Subscription → Ptr → M (Unit {0}) ℤ
unregister s p = pure (pos 0)

closes :
    close_subscription subscribing_api thunks "virConnectDomainEventDeregisterAny" unregister
      nothing
      (some subscription)
      world_0
    ≡ some ((none, some over), after_write world_0)
unfolding close_subscription close_locked
closes = refl

close_subscription_again_example :
    close_subscription subscribing_api thunks "virConnectDomainEventDeregisterAny" unregister
      nothing
      (some over)
      subscribed_world
    ≡ some ((none, some over), after_write subscribed_world)
close_subscription_again_example =
    close_subscription_again subscribing_api thunks "virConnectDomainEventDeregisterAny" unregister
      nothing nothing (some subscription) (some over) world_0 (after_write world_0) subscribed_world
      closes

allocation :
    allocate_callback_record small_api nothing lifecycle_record world_0
    ≡ some ((some 16, token_registry), token_world)
unfolding allocate_callback_record api_malloc change_memory malloc is_free
allocation = refl

abbrev subscribed_process : Process (Unit {0})
subscribed_process = record {
  registry = token_registry;
  world = token_world;
  status =
      with_status (with_status (λ p. absent) 16 (pending lifecycle_record)) 16
        (held lifecycle_record);
}

accepted : Reach small_api world_0 subscribed_process
accepted =
    later (later start (allocates lifecycle_record 16 allocation))
      (accepts 16 lifecycle_record refl)

Reach-recorded_example : token_registry 16 ≡ some lifecycle_record
Reach-recorded_example = Reach-recorded small_api accepted 16

Reach-on_free_example :
    on_free small_api token_registry 16 token_world
    ≡ some
        (update token_registry 16 none, with_memory token_world (erase 16 token_world.state.memory))
Reach-on_free_example = Reach-on_free small_api accepted 16 lifecycle_record refl

Reach-fresh_example : ◌≡◌ {A = Status} absent absent
Reach-fresh_example =
    Reach-fresh small_api start two_blocks-IsLawful 16 lifecycle_record token_registry token_world
      allocation
