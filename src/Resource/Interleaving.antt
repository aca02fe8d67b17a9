-- ===== src/Resource/Interleaving.antt =====
-- `objectCall` and `objectFree` of resource.go, called by any number of goroutines on one handle: a
-- step is one access to the handle, its lock or the C library. The lock is sync.RWMutex as
-- it is documented: it is held by any number of readers or by one writer. A goroutine that calls has
-- the name of its operation with it, and `present` tells which symbols the library has.
pub mod Safety
pub mod Progress
use libvirt_go.Prelude.{
  none, some, Bool, String, ◌≡◌, ℕ, List, true, ◌||◌, false, [], ◌≢◌, ◌∷◌, if◌then◌else◌, ◌==◌,
}
use libvirt_go.Memory.{Ptr, nil}

-- Where a goroutine stands.
pub data Pc : Type 0 where
  idle : Pc  -- outside of both functions
  checking : String → Pc  -- objectCall, before `object.ptr == nil`
  calling : String → Pc  -- objectCall, before the call of the C function
  leaving : Pc  -- objectCall, before the deferred RUnlock
  free_checking : String → Pc  -- objectFree, before `object.ptr == nil`
  freeing : String → Pc  -- objectFree, before the call of the C function
  clearing : Pc  -- objectFree, before `object.ptr = nil`
  free_leaving : Pc  -- objectFree, before the deferred Unlock

-- What the C library is asked for: a use of a pointer, a release of it that fails, and one that
-- succeeds.
pub data CCall : Type 0 where
  used : Ptr → CCall
  kept : Ptr → CCall
  freed : Ptr → CCall

-- The handle's pointer, and the calls of C functions, the newest first.
pub record Shared : Type 0 where
  pub ptr : Ptr
  pub calls : List CCall

abbrev pub is_reading : Pc → Bool
is_reading (checking op) = true
is_reading (calling op) = true
is_reading leaving = true
is_reading _ = false

abbrev pub is_writing : Pc → Bool
is_writing (free_checking op) = true
is_writing (freeing op) = true
is_writing clearing = true
is_writing free_leaving = true
is_writing _ = false

abbrev pub is_inside : Pc → Bool
is_inside p = is_reading p || is_writing p

-- One step of one goroutine that does not take the lock. `nativeCall` returns without the C call
-- exactly where the symbol is missing; the C library decides whether a release succeeds.
pub data Move (present : String → Bool) (m : Shared) : Pc → Shared → Pc → Type 0 where
  is_closed : (op : String) → m.ptr ≡ nil → Move present m (checking op) m leaving
  is_open : (op : String) → m.ptr ≢ nil → Move present m (checking op) m (calling op)
  missing : (op : String) → present op ≡ false → Move present m (calling op) m leaving
  call :
      (op : String)
      → present op ≡ true
      → Move present m (calling op) (record m { calls = used m.ptr ∷ m.calls }) leaving
  r_unlock : Move present m leaving m idle
  free_closed : (op : String) → m.ptr ≡ nil → Move present m (free_checking op) m free_leaving
  free_open : (op : String) → m.ptr ≢ nil → Move present m (free_checking op) m (freeing op)
  free_missing : (op : String) → present op ≡ false → Move present m (freeing op) m free_leaving
  free_fails :
      (op : String)
      → present op ≡ true
      → Move present m (freeing op) (record m { calls = kept m.ptr ∷ m.calls }) free_leaving
  free_succeeds :
      (op : String)
      → present op ≡ true
      → Move present m (freeing op) (record m { calls = freed m.ptr ∷ m.calls }) clearing
  clear : Move present m clearing (record m { ptr = nil }) free_leaving
  w_unlock : Move present m free_leaving m idle

pub record System : Type 0 where
  pub shared : Shared
  pub pc : ℕ → Pc

abbrev pub assign {ℓ} : {A : Type ℓ} → (ℕ → A) → ℕ → A → ℕ → A
assign f i a j = if i == j then a else f j

-- A step of the goroutines: one takes the lock where sync.RWMutex lets it, or moves on.
pub data Step (present : String → Bool) (s : System) : System → Type 0 where
  r_locks :
      (i : ℕ) (op : String)
      → s.pc i ≡ idle
      → ((j : ℕ) → is_writing (s.pc j) ≡ false)
      → Step present s (record s { pc = assign s.pc i (checking op) })
  w_locks :
      (i : ℕ) (op : String)
      → s.pc i ≡ idle
      → ((j : ℕ) → is_inside (s.pc j) ≡ false)
      → Step present s (record s { pc = assign s.pc i (free_checking op) })
  moves :
      (i : ℕ) {m : Shared} {p : Pc}
      → Move present s.shared (s.pc i) m p
      → Step present s (record { shared = m; pc = assign s.pc i p })

-- `newNativeObject(api, p, kind)`, before any call.
abbrev pub created : Ptr → System
created p = record { shared = record { ptr = p; calls = [] }; pc = λ _. idle }

pub data Reach (present : String → Bool) (p : Ptr) : System → Type 0 where
  start : Reach present p (created p)
  later : {s t : System} → Reach present p s → Step present s t → Reach present p t
