-- ===== src/Events.antt =====
-- events.go: the records of the callbacks by their tokens, the functions that libvirt calls with a
-- token, and the registration and the closing of subscriptions.
pub mod Default
pub mod Subscribing
pub mod Closing
pub mod Registering
pub mod Tokens
use libvirt_go.Prelude.{
  ℕ, String, List, [], ◌∷◌, Bytes, Bool, true, false, Option, none, some, ◌==◌, ◌&&◌, if◌then◌else◌,
}
use libvirt_go.Prelude.Int.{ℤ, pos, is_negative, ltb_ℤ, negsuc}
use libvirt_go.Errors.{
  GoError, Result, ok, err, closed, nil_storage, allocation_failed, other_error,
}
use libvirt_go.Memory.{Ptr, nil, copy_c_string, update}
use libvirt_go.World.{M, pure, ◌>>=◌, ◌>>◌, read_memory}
use libvirt_go.Native.{NativeApi, native_call, call_int, call_ptr, api_malloc, api_free, ptr, num}
use libvirt_go.Resource.{Connect, Domain, NativeObject, connect_call, reading, writing}
use libvirt_go.TypedParams.Decode.{decode_typed_parameters}
use libvirt_go.DomainJob.{DomainJobInfo, domain_job_info_from_parameters}

-- `callbackRecord`: a Go callback is known by a number; `none` is nil.
pub record CallbackRecord : Type 0 where
  pub close : Option ℕ
  pub lifecycle : Option ℕ
  pub node_lifecycle : Option ℕ
  pub job_completed : Option ℕ

abbrev pub no_callback : CallbackRecord
no_callback = record { close = none; lifecycle = none; node_lifecycle = none; job_completed = none }

-- `callbackRecords`, a `sync.Map` from tokens.
abbrev pub Registry : Type 0
Registry = Ptr → Option CallbackRecord

-- What a callback is called with.
pub data Invocation : Type 0 where
  close_call : ℕ → ℤ → Invocation
  lifecycle_call : ℕ → Bytes → ℤ → ℤ → Invocation
  job_call : ℕ → Bytes → Result DomainJobInfo → Invocation
  node_call : ℕ → Ptr → Ptr → ℤ → ℤ → Invocation

-- `closeCallbackPointer`: the call that is started, if there is one.
unfoldable pub on_close : Registry → ℤ → Ptr → Option Invocation
on_close registry reason opaque = elim (registry opaque) [
  | none ↦ none
  | some r ↦ elim r.close [ none ↦ none | some callback ↦ some (close_call callback reason) ]
]

-- `nodeDeviceLifecycleCallbackPointer`
unfoldable pub on_node_lifecycle : Registry → Ptr → Ptr → ℤ → ℤ → Ptr → Option Invocation
on_node_lifecycle registry conn device event detail opaque = elim (registry opaque) [
  | none ↦ none
  | some r ↦ elim r.node_lifecycle [
    | none ↦ none
    | some callback ↦ some (node_call callback conn device event detail)
  ]
]

-- The addresses of the functions that libvirt calls, as `purego.NewCallback` gave them.
pub record Thunks : Type 0 where
  pub close : Ptr
  pub lifecycle : Ptr
  pub node_lifecycle : Ptr
  pub job_completed : Ptr
  pub free : Ptr

-- `CloseCallback` and `DomainEventCallback`; the first one has no id.
pub record Subscription : Type 0 where
  pub conn : Option Connect
  pub opaque : Ptr
  pub callback_id : ℤ
  pub is_closed : Bool

module _ {L : Type 0} (api : NativeApi L) where
  -- The name of an event's domain, where there is one.
  unfoldable pub event_name : Ptr → M L Bytes
  event_name domain = if domain == nil then pure [] else elim (api.fn "virDomainGetName") [
    | none ↦ pure []
    | some _ ↦ do
      name ← call_ptr api "virDomainGetName" (ptr domain ∷ [])
      read_memory (copy_c_string name)
  ]

  -- `domainLifecycleCallbackPointer`
  unfoldable pub on_lifecycle : Registry → Ptr → ℤ → ℤ → Ptr → M L (Option Invocation)
  unfolding event_name
  on_lifecycle registry domain event detail opaque = elim (registry opaque) [
    | none ↦ pure none
    | some r ↦ elim r.lifecycle [
      | none ↦ pure none
      | some callback ↦ do
        name ← event_name domain
        pure (some (lifecycle_call callback name event detail))
    ]
  ]

  -- The statistics of a completed job, or the error.
  unfoldable pub completed_job : Ptr → ℤ → M L (Result DomainJobInfo)
  completed_job memory count =
      if ltb_ℤ (pos 0) count && (memory == nil)
      then pure (err (nil_storage "job completion" count))
      else (do
        r ← read_memory (decode_typed_parameters memory count)
        elim r [ err e ↦ pure (err e) | ok ps ↦ pure (domain_job_info_from_parameters (pos 3) ps) ])

  -- `domainJobCompletedCallbackPointer`
  unfoldable pub on_job_completed : Registry → Ptr → Ptr → ℤ → Ptr → M L (Option Invocation)
  unfolding event_name completed_job
  on_job_completed registry domain memory count opaque = elim (registry opaque) [
    | none ↦ pure none
    | some r ↦ elim r.job_completed [
      | none ↦ pure none
      | some callback ↦ do
        name ← event_name domain
        result ← completed_job memory count
        pure (some (job_call callback name result))
    ]
  ]

  -- `callbackFreePointer`, with the registry behind it
  unfoldable pub on_free : Registry → Ptr → M L Registry
  on_free registry opaque = elim (registry opaque) [
    | none ↦ pure registry
    | some _ ↦ let left = update registry opaque none in (do api_free api opaque; pure left)
  ]

  -- `allocateCallbackRecord`; `none` is its error.
  unfoldable pub allocate_callback_record : Registry → CallbackRecord → M L (Option Ptr × Registry)
  allocate_callback_record registry r = do
    opaque ← api_malloc api 1
    if opaque == nil
        then pure (none, registry)
        else pure (some opaque, update registry opaque (some r))

  -- `discardCallbackRecord`
  unfoldable pub discard_callback_record : Registry → Ptr → M L Registry
  discard_callback_record registry opaque =
      let left = update registry opaque none in (do api_free api opaque; pure left)

  -- What a registration does with its token: the token is given up where libvirt refuses it. The
  -- answer is libvirt's result, the token and the registry.
  unfoldable pub settle : Registry → Ptr → ℤ → M L ((ℤ × Ptr × Registry) × Bool)
  unfolding discard_callback_record
  settle registry opaque result =
      if is_negative result
      then (do left ← discard_callback_record registry opaque; pure ((result, nil, left), true))
      else pure ((result, opaque, registry), false)

  unfoldable pub offered : (Ptr → M L ℤ) → Option Ptr × Registry → M L ((ℤ × Ptr × Registry) × Bool)
  unfolding settle
  offered call (none, registry) = pure ((negsuc 0, nil, registry), true)
  offered call (some opaque, registry) = do result ← call opaque; settle registry opaque result

  unfoldable pub offer :
      Registry → CallbackRecord → (Ptr → M L ℤ) → M L ((ℤ × Ptr × Registry) × Bool)
  unfolding allocate_callback_record offered
  offer registry r call = do token ← allocate_callback_record registry r; offered call token
