-- ===== src/World.antt =====
-- The state that Go code and the C library share, and the monad of code that may fault. A fault
-- (`none`) is a crash of the process: a call of a nil function, a read or a free through an address
-- where nothing is.
use libvirt_go.Prelude.{ℕ, suc, ◌-◌, String, Option, none, some, List, ◌∷◌, ◌≡◌, arith}
use libvirt_go.Memory.{Memory}

-- What happens in order: calls of C functions, with the number of `LockOSThread` calls that are
-- open when they are made, the same for `Dlclose` with the handle that it closes, and the mutex
-- operations of a wrapper.
pub data Event : Type 0 where
  called : String → ℕ → Event
  closed_library : ℕ → ℕ → Event
  r_lock r_unlock w_lock w_unlock : Event

-- The C side: memory, and the library's own state.
pub record CState (L : Type 0) : Type 0 where
  pub memory : Memory
  pub lib : L

-- `pinned` counts the open calls of `runtime.LockOSThread`; `trace` has the newest event first.
pub record World (L : Type 0) : Type 0 where
  pub state : CState L
  pub pinned : ℕ
  pub trace : List Event

abbrev pub M : Type 0 → Type 0 → Type 0
M L A = World L → Option (A × World L)

module _ {L : Type 0} where
  abbrev pub pure : {A : Type 0} → A → M L A
  pure a w = some (a, w)

  infixl 5 ◌>>=◌ ◌>>◌
  abbrev pub ◌>>=◌ : {A B : Type 0} → M L A → (A → M L B) → M L B
  ◌>>=◌ m f w = elim (m w) [ none ↦ none | some (a, w') ↦ f a w' ]

  abbrev pub ◌>>◌ : {A B : Type 0} → M L A → M L B → M L B
  m >> k = m >>= λ _. k

  abbrev pub log_event : Event → M L (Unit {0})
  log_event e w = some (tt, record w { trace = e ∷ w.trace })

  -- runtime.LockOSThread, runtime.UnlockOSThread
  abbrev pub lock_os_thread : M L (Unit {0})
  lock_os_thread w = some (tt, record w { pinned = suc w.pinned })

  abbrev pub unlock_os_thread : M L (Unit {0})
  unlock_os_thread w = some (tt, record w { pinned = w.pinned - 1 })

  -- The world with other C memory.
  abbrev pub with_memory : World L → Memory → World L
  with_memory w m = record w { state = record { memory = m; lib = w.state.lib } }

  -- A read or a write of C memory by Go code.
  unfoldable pub read_memory : {A : Type 0} → (Memory → Option A) → M L A
  read_memory f w = elim (f w.state.memory) [ none ↦ none | some a ↦ some (a, w) ]

  unfoldable pub change_memory : {A : Type 0} → (Memory → Option (A × Memory)) → M L A
  change_memory f w = elim (f w.state.memory) [
    | none ↦ none
    | some (a, m) ↦ some (a, with_memory w m)
  ]

  unfoldable pub update_memory : (Memory → Option Memory) → M L (Unit {0})
  update_memory f w = elim (f w.state.memory) [ none ↦ none | some m ↦ some (tt, with_memory w m) ]

  -- A step that succeeds, and what comes behind it.
  pub >>=-step :
      {A B : Type 0} (m : M L A) (f : A → M L B) (w : World L) {a : A} {w' : World L}
      {r : Option (B × World L)}
      → m w ≡ some (a, w')
      → f a w' ≡ r
      → (m >>= f) w ≡ r
  >>=-step m f w e h = rw (e, ◌>>=◌) h

  pub read_memory-step :
      {A : Type 0} (f : Memory → Option A) (w : World L) {a : A}
      → f w.state.memory ≡ some a
      → read_memory f w ≡ some (a, w)
  unfolding read_memory
  read_memory-step f w e = rw (e, read_memory)

  pub change_memory-step :
      {A : Type 0} (f : Memory → Option (A × Memory)) (w : World L) {a : A} {m : Memory}
      → f w.state.memory ≡ some (a, m)
      → change_memory f w ≡ some (a, with_memory w m)
  unfolding change_memory
  change_memory-step f w e = rw (e, change_memory)

  pub update_memory-step :
      (f : Memory → Option Memory) (w : World L) {m : Memory}
      → f w.state.memory ≡ some m
      → update_memory f w ≡ some (tt, with_memory w m)
  unfolding update_memory
  update_memory-step f w e = rw (e, update_memory)

  pub read_memory-inv :
      {A : Type 0} (f : Memory → Option A) (w : World L) {a : A} {w' : World L}
      → read_memory f w ≡ some (a, w')
      → (w' ≡ w) × (f w.state.memory ≡ some a)
  unfolding read_memory
  read_memory-inv f w e = ground (arith, e)
