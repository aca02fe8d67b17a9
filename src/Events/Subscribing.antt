-- ===== src/Events/Subscribing.antt =====
-- The registrations of events.go, and the closing of what they return.
use libvirt_go.Prelude.{ℕ, String, [], ◌∷◌, true, false, Option, none, some, ◌==◌, if◌then◌else◌}
use libvirt_go.Prelude.Int.{ℤ, pos}
use libvirt_go.Errors.{GoError, Result, ok, err, closed, allocation_failed, other_error}
use libvirt_go.Memory.{Ptr, nil}
use libvirt_go.World.{M, pure, ◌>>=◌}
use libvirt_go.Native.{NativeApi, native_call, call_int, ptr, num}
use libvirt_go.Resource.{Connect, Domain, NativeObject, connect_call, reading, writing, status}
use libvirt_go.Events.{
  CallbackRecord, no_callback, Registry, Thunks, Subscription, allocate_callback_record,
  discard_callback_record, offer,
}

-- `CloseCallback` or `DomainEventCallback` behind a registration.
unfoldable pub subscribed :
    Option Connect → (ℤ × Ptr × Registry) × Option GoError → Result Subscription × Registry
subscribed c ((result, token, registry), some e) = (err e, registry)
subscribed c ((result, token, registry), none) =
    (ok (record { conn = c; opaque = token; callback_id = result; is_closed = false }), registry)

-- A subscription behind its unregistration.
abbrev pub unregistered : Subscription → Option GoError → Option GoError × Option Subscription
unregistered s none = (none, some (record s { is_closed = true }))
unregistered s (some e) = (some e, some s)

module _ {L : Type 0} where
  -- The pointer of an optional domain, under its read lock.
  unfoldable pub with_domain :
      {T : Type 0}
      → Registry
      → Option Domain
      → (Ptr → M L (Result T × Registry))
      → M L (Result T × Registry)
  with_domain registry none body = body nil
  with_domain registry (some d) body =
      reading (if d.ptr == nil then pure (err (closed "domain"), registry) else body d.ptr)

  unfoldable pub with_connection :
      {T : Type 0}
      → Registry
      → Option Connect
      → (Ptr → M L (Result T × Registry))
      → M L (Result T × Registry)
  with_connection registry none body = pure (err (closed "connection"), registry)
  with_connection registry (some c) body =
      reading (if c.ptr == nil then pure (err (closed "connection"), registry) else body c.ptr)

  -- The pointer of an optional node device, under its read lock.
  unfoldable pub with_device :
      {T : Type 0}
      → Registry
      → Option NativeObject
      → (Ptr → M L (Result T × Registry))
      → M L (Result T × Registry)
  with_device registry none body = body nil
  with_device registry (some o) body =
      reading (if o.ptr == nil then pure (err (closed "node device"), registry) else body o.ptr)

module _ {L : Type 0} (api : NativeApi L) (thunks : Thunks) where
  register_close : Option Connect → Registry → ℕ → M L ((ℤ × Ptr × Registry) × Option GoError)
  unfolding connect_call offer
  register_close c registry callback =
      connect_call api (pos 0, nil, registry) c "virConnectRegisterCloseCallback"
        λ p.
          offer api registry (record no_callback { close = some callback })
            λ opaque.
              call_int api "virConnectRegisterCloseCallback"
                (ptr p ∷ ptr thunks.close ∷ ptr opaque ∷ ptr thunks.free ∷ [])

  -- `RegisterCloseCallback`
  unfoldable pub register_close_callback :
      Option Connect → Registry → Option ℕ → M L (Result Subscription × Registry)
  unfolding register_close
  register_close_callback c registry none =
      pure (err (other_error "close callback is nil"), registry)
  register_close_callback c registry (some callback) = do
    r ← register_close c registry callback
    pure (subscribed c r)

  -- A registration for the events of a domain or of all domains.
  unfoldable pub register_any :
      Registry → CallbackRecord → ℤ → Ptr → Ptr → Ptr → M L ((ℤ × Ptr × Registry) × Option GoError)
  unfolding offer
  register_any registry r event_id thunk conn domain =
      native_call api (pos 0, nil, registry) "virConnectDomainEventRegisterAny"
        (offer api registry r λ opaque.
          call_int api "virConnectDomainEventRegisterAny"
            (ptr conn ∷ ptr domain ∷ num event_id ∷ ptr thunk ∷ ptr opaque ∷ ptr thunks.free ∷ []))

  -- `registerDomainCallback`
  unfoldable pub register_domain_callback :
      Option Connect
      → Option Domain
      → Registry
      → ℤ
      → Ptr
      → CallbackRecord
      → M L (Result Subscription × Registry)
  unfolding register_any with_domain with_connection
  register_domain_callback c domain registry event_id thunk r = with_connection registry c λ conn.
      with_domain registry domain
        λ d. do x ← register_any registry r event_id thunk conn d; pure (subscribed c x)

  unfoldable pub register_domain_lifecycle_callback :
      Option Connect → Option Domain → Registry → Option ℕ → M L (Result Subscription × Registry)
  unfolding register_domain_callback
  register_domain_lifecycle_callback c domain registry none =
      pure (err (other_error "domain lifecycle callback is nil"), registry)
  register_domain_lifecycle_callback c domain registry (some callback) =
      register_domain_callback c domain registry (pos 0) thunks.lifecycle
        (record no_callback { lifecycle = some callback })

  unfoldable pub register_domain_job_completed_callback :
      Option Connect → Option Domain → Registry → Option ℕ → M L (Result Subscription × Registry)
  unfolding register_domain_callback
  register_domain_job_completed_callback c domain registry none =
      pure (err (other_error "domain job callback is nil"), registry)
  register_domain_job_completed_callback c domain registry (some callback) =
      register_domain_callback c domain registry (pos 21) thunks.job_completed
        (record no_callback { job_completed = some callback })

  -- A node-device registration, whose token is there before `nativeCall` and given up behind it.
  unfoldable pub register_device : Registry → ℕ → Ptr → Ptr → M L (Result ℤ × Registry)
  unfolding allocate_callback_record discard_callback_record
  register_device registry callback conn device = do
    (token, registry') ←
        allocate_callback_record api registry
          (record no_callback { node_lifecycle = some callback })
    elim token [
      | none ↦ pure (err (allocation_failed "callback token"), registry')
      | some opaque ↦ do
        (result, e) ← native_call api (pos 0) "virConnectNodeDeviceEventRegisterAny" (
            status
              (λ p. call_int api "virConnectNodeDeviceEventRegisterAny" (
                ptr p
                ∷ ptr device
                ∷ num (pos 0)
                ∷ ptr thunks.node_lifecycle
                ∷ ptr opaque
                ∷ ptr thunks.free
                ∷ []))
              conn)
        elim e [
          | some e' ↦ (do left ← discard_callback_record api registry' opaque; pure (err e', left))
          | none ↦ pure (ok result, registry')
        ]
    ]

  -- `NodeDeviceEventLifecycleRegister`
  unfoldable pub node_device_event_lifecycle_register :
      Option Connect → Option NativeObject → Registry → Option ℕ → M L (Result ℤ × Registry)
  unfolding register_device with_device with_connection
  node_device_event_lifecycle_register c device registry none =
      pure (err (other_error "node-device lifecycle callback is nil"), registry)
  node_device_event_lifecycle_register c device registry (some callback) =
      with_connection registry c
        λ conn. with_device registry device λ d. register_device registry callback conn d

  -- `NodeDeviceEventDeregister`
  unfoldable pub node_device_event_deregister : Option Connect → ℤ → M L (Option GoError)
  node_device_event_deregister c callback_id = do
    (result, e) ← connect_call api (pos 0) c "virConnectNodeDeviceEventDeregisterAny" (
        status
          λ p. call_int api "virConnectNodeDeviceEventDeregisterAny" (ptr p ∷ num callback_id ∷ []))
    pure e

  -- What `Close` does under the mutex of the subscription.
  unfoldable pub close_locked :
      String
      → (Subscription → Ptr → M L ℤ)
      → Registry
      → Subscription
      → M L (Option GoError × Option Subscription)
  unfolding connect_call
  close_locked operation call registry s =
      if s.is_closed then pure (none, some s) else elim (registry s.opaque) [
        | none ↦ pure (none, some (record s { is_closed = true }))
        | some _ ↦ do
          (result, e) ← connect_call api (pos 0) s.conn operation (status (call s))
          pure (unregistered s e)
      ]

  -- The two methods `Close`, with the subscription behind them; they differ in the call.
  unfoldable pub close_subscription :
      String
      → (Subscription → Ptr → M L ℤ)
      → Registry
      → Option Subscription
      → M L (Option GoError × Option Subscription)
  unfolding close_locked
  close_subscription operation call registry none = pure (none, none)
  close_subscription operation call registry (some s) =
      writing (close_locked operation call registry s)

  -- `func (callback *CloseCallback) Close() error`
  unfoldable pub close_callback_close :
      Registry → Option Subscription → M L (Option GoError × Option Subscription)
  unfolding close_subscription
  close_callback_close =
      close_subscription "virConnectUnregisterCloseCallback"
        λ s p. call_int api "virConnectUnregisterCloseCallback" (ptr p ∷ ptr thunks.close ∷ [])

  -- `func (callback *DomainEventCallback) Close() error`
  unfoldable pub domain_event_callback_close :
      Registry → Option Subscription → M L (Option GoError × Option Subscription)
  unfolding close_subscription
  domain_event_callback_close =
      close_subscription "virConnectDomainEventDeregisterAny"
        λ s p. call_int api "virConnectDomainEventDeregisterAny" (ptr p ∷ num s.callback_id ∷ [])
