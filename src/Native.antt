-- ===== src/Native.antt =====
-- native.go: the loaded library, symbols that it lacks, and calls of it with the error it leaves.
pub mod CString
pub mod Laws
pub mod Trace
pub mod Results
use libvirt_go.Prelude.{
  ℕ, String, Option, none, some, List, [], ◌∷◌, Bytes, Bool, true, false, str_eq, if◌then◌else◌,
  ◌==◌, ◌≡◌, index_byte, ◌++◌, get_elem?,
}
use libvirt_go.Prelude.Int.{ℤ}
use libvirt_go.Prelude.Words.{int32_of}
use libvirt_go.Memory.{Ptr, nil, Memory, CError, Allocator, copy_c_string, free, malloc}
use libvirt_go.Errors.{GoError, symbol_unavailable, libvirt_error, embedded_nul, Error, bare_error}
use libvirt_go.World.{
  World, CState, Event, called, M, pure, ◌>>=◌, ◌>>◌, lock_os_thread, unlock_os_thread, read_memory,
  change_memory, update_memory,
}

-- An argument of a C call: a handle, a number, a NUL-terminated Go buffer (`none` is a nil pointer),
-- the address of a Go variable that the call may fill, of Go bytes, of an array of such buffers, or of an array of
-- handles.
pub data Arg : Type 0 where
  ptr : Ptr → Arg
  num : ℤ → Arg
  text : Option Bytes → Arg
  out : Arg
  buffer : Bytes → Arg
  texts : List Bytes → Arg
  ptrs : List Ptr → Arg

-- The result register of a C call, and what it wrote through its `out` arguments, in their order.
pub record Reply : Type 0 where
  pub word : ℕ
  pub outs : List ℕ

-- The value of a variable that a call may have written to as its `i`-th output.
abbrev pub written : Reply → ℕ → ℕ → ℕ
written r i old = elim (get_elem? r.outs i) [ some x ↦ x | none ↦ old ]

-- A registered C function, over library states of type `L`.
abbrev pub CFun : Type 0 → Type 0
CFun L = List Arg → CState L → Reply × CState L

-- `nativeAPI`: `fn name` is the function field for a symbol, `none` while it is nil. `missing` maps
-- the symbols that were not found to the version that has them.
pub record NativeApi (L : Type 0) : Type 0 where
  pub missing : List (String × String)
  pub known : List (String × String)
  pub fn : String → Option (CFun L)
  pub allocator : Allocator

unfoldable pub lookup {ℓ} : {A : Type ℓ} → String → List (String × A) → Option A
lookup k [] = none
lookup k ((j, v) ∷ rest) = if str_eq j k then some v else lookup k rest

module _ {L : Type 0} (api : NativeApi L) where
  -- `hasSymbol`: generated for this package, and not missing.
  unfoldable pub has_symbol : String → Bool
  unfolding lookup
  has_symbol name = elim (lookup name api.known) [
    | none ↦ false
    | some _ ↦ elim (lookup name api.missing) [ some _ ↦ false | none ↦ true ]
  ]

  unfoldable pub require_symbol : String → Option GoError
  require_symbol name = elim (lookup name api.missing) [
    | some version ↦ some (symbol_unavailable name version)
    | none ↦ none
  ]

  -- A call of the function field for a symbol; a nil field faults.
  unfoldable pub invoke : String → List Arg → M L Reply
  invoke name args w = elim (api.fn name) [
    | none ↦ none
    | some f ↦
        let (r, s) = f args w.state in
        some (r, record w { state = s; trace = called name w.pinned ∷ w.trace })
  ]

  -- The same for a result of type int, and of a pointer type.
  unfoldable pub call_int : String → List Arg → M L ℤ
  unfolding invoke
  call_int name args = do r ← invoke name args; pure (int32_of r.word)

  unfoldable pub call_ptr : String → List Arg → M L Ptr
  unfolding invoke
  call_ptr name args = do r ← invoke name args; pure r.word

  -- `api.virResetLastError()` behind its nil check.
  unfoldable pub reset_last_error : M L (Unit {0})
  unfolding invoke
  reset_last_error w = elim (api.fn "virResetLastError") [
    | none ↦ some (tt, w)
    | some _ ↦ (do r ← invoke "virResetLastError" []; pure tt) w
  ]

  unfoldable pub error_record : Ptr → Memory → Option CError
  error_record p m = m.errors p

  -- The copy of libvirt's error record; a nil record gives the operation alone.
  unfoldable pub error_at : String → Ptr → M L GoError
  unfolding error_record read_memory
  error_at operation p = if p == nil then pure (libvirt_error (bare_error operation)) else do
    e ← read_memory (error_record p)
    message ← read_memory (copy_c_string e.message)
    pure (
        libvirt_error (record {
          operation = operation;
          code = e.code;
          domain = e.domain;
          level = e.level;
          message = message;
        }))

  -- `lastError`
  unfoldable pub last_error : String → M L GoError
  unfolding call_ptr error_at
  last_error operation w = elim (api.fn "virGetLastError") [
    | none ↦ some (libvirt_error (bare_error operation), w)
    | some _ ↦ (do p ← call_ptr "virGetLastError" []; error_at operation p) w
  ]

  -- The error that a call gets: none, or what libvirt left.
  unfoldable pub outcome : {T : Type 0} → String → T → Bool → M L (T × Option GoError)
  outcome operation value failed =
      if failed then (do e ← last_error operation; pure (value, some e)) else pure (value, none)

  -- `nativeCall`; `zero` is the zero value of `T`.
  unfoldable pub native_call : {T : Type 0} → T → String → M L (T × Bool) → M L (T × Option GoError)
  native_call zero operation call = elim (require_symbol operation) [
    | some err ↦ pure (zero, some err)
    | none ↦ do
      lock_os_thread
      reset_last_error
      (value, failed) ← call
      r ← outcome operation value failed
      unlock_os_thread
      pure r
  ]

  -- `api.free`
  unfoldable pub api_free : Ptr → M L (Unit {0})
  unfolding update_memory
  api_free p = update_memory (free p)

  -- `api.malloc`
  unfoldable pub api_malloc : ℕ → M L Ptr
  unfolding change_memory
  api_malloc n = change_memory (λ m. some (malloc api.allocator n m))
