-- ===== src/Events/Tokens.antt =====
-- The tokens of callbacks, between Go code and libvirt: who has a token, step by step. libvirt is
-- taken to do what it documents: it gives a token to the free function at most once, and only if it
-- accepted it; nobody else writes to a token's block or frees it.
pub mod Invariant
pub mod Safety
use libvirt_go.Prelude.{ℕ, Option, none, some, ◌≡◌, ◌≢◌, ◌==◌, if◌then◌else◌, Bytes}
use libvirt_go.Memory.{Ptr}
use libvirt_go.World.{World}
use libvirt_go.Native.{NativeApi}
use libvirt_go.Events.{
  Registry, CallbackRecord, allocate_callback_record, discard_callback_record, on_free,
}

-- Who has a token: nobody, a registration that libvirt has not answered, or libvirt.
pub data Status : Type 0 where
  absent : Status
  pending : CallbackRecord → Status
  held : CallbackRecord → Status

-- `callbackRecords`, the world, and who has each token.
pub record Process (L : Type 0) : Type 0 where
  pub registry : Registry
  pub world : World L
  pub status : Ptr → Status

abbrev pub with_status : (Ptr → Status) → Ptr → Status → Ptr → Status
with_status status p st q = if q == p then st else status q

-- The block of a token.
abbrev pub block : {L : Type 0} → World L → Ptr → Option Bytes
block w p = w.state.memory.bytes p

-- A step of the process.
pub data Step {L : Type 0} (api : NativeApi L) (s : Process L) : Process L → Type 0 where
  -- `allocateCallbackRecord`, with a token and without
  allocates :
      (r : CallbackRecord) (p : Ptr) {registry : Registry} {w : World L}
      → allocate_callback_record api s.registry r s.world ≡ some ((some p, registry), w)
      → Step api s
          (record { registry = registry; world = w; status = with_status s.status p (pending r) })
  fails :
      (r : CallbackRecord) {registry : Registry} {w : World L}
      → allocate_callback_record api s.registry r s.world ≡ some ((none, registry), w)
      → Step api s (record s { registry = registry; world = w })
  -- libvirt takes the token.
  accepts :
      (p : Ptr) (r : CallbackRecord)
      → s.status p ≡ pending r
      → Step api s (record s { status = with_status s.status p (held r) })
  -- `discardCallbackRecord`, as libvirt refused
  refuses :
      (p : Ptr) (r : CallbackRecord) {registry : Registry} {w : World L}
      → s.status p ≡ pending r
      → discard_callback_record api s.registry p s.world ≡ some (registry, w)
      → Step api s
          (record { registry = registry; world = w; status = with_status s.status p absent })
  -- libvirt calls `callbackFreePointer`.
  releases :
      (p : Ptr) (r : CallbackRecord) {registry : Registry} {w : World L}
      → s.status p ≡ held r
      → on_free api s.registry p s.world ≡ some (registry, w)
      → Step api s
          (record { registry = registry; world = w; status = with_status s.status p absent })
  -- Anything else, which leaves the blocks of tokens alone.
  elsewhere :
      (w : World L)
      → ((p : Ptr) → s.status p ≢ absent → block w p ≡ block s.world p)
      → Step api s (record s { world = w })

-- A process before any registration.
abbrev pub before : {L : Type 0} → World L → Process L
before w = record { registry = λ p. none; world = w; status = λ p. absent }

pub data Reach {L : Type 0} (api : NativeApi L) (w : World L) : Process L → Type 0 where
  start : Reach api w (before w)
  later : {s t : Process L} → Reach api w s → Step api s t → Reach api w t
