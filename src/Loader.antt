-- ===== src/Loader.antt =====
-- loader_unix.go and the binding of symbols in native.go: the library is opened, its functions are
-- found and registered, and what is not found is put down as missing.
pub mod Closing
pub mod Symbols
pub mod Once
use libvirt_go.Prelude.{
  ℕ, String, List, [], ◌∷◌, ◌++◌, Bytes, Bool, true, false, Option, none, some, str_eq, map,
  if◌then◌else◌, ◌⊎◌, inr, inl, not,
}
use libvirt_go.Prelude.Int.{ℤ, is_negative}
use libvirt_go.Errors.{GoError, Result, ok, err, other_error}
use libvirt_go.Memory.{Allocator}
use libvirt_go.Native.{NativeApi, CFun, lookup, require_symbol, call_int, last_error}
use libvirt_go.World.{
  M, pure, ◌>>=◌, ◌>>◌, log_event, closed_library, lock_os_thread, unlock_os_thread,
}

-- `nativeSymbolBinding`; its `target` is the function field for its name.
pub record Binding : Type 0 where
  pub name : String
  pub since : String
  pub library : String

-- The dynamic linker: `purego.Dlopen`, whose handles are not 0, and `purego.Dlsym`.
pub record Linker (L : Type 0) : Type 0 where
  pub open_library : String → Option ℕ
  pub symbol : ℕ → String → Option (CFun L)
  pub default_has : String → Bool

-- The environment (`os.Getenv` gives an empty text for what is unset), the operating system, and what is generated: the bindings and the versions.
pub record Platform : Type 0 where
  pub environment : String → String
  pub is_darwin : Bool
  pub bindings : List Binding
  pub known : List (String × String)
  pub allocator : Allocator

-- `delete(m, k)`
unfoldable pub delete : String → List (String × String) → List (String × String)
delete k [] = []
delete k ((j, v) ∷ rest) = if str_eq j k then delete k rest else (j, v) ∷ delete k rest

-- `m[k] = v`
unfoldable pub put_missing : String → String → List (String × String) → List (String × String)
unfolding delete
put_missing k v m = (k, v) ∷ delete k m

module _ {L : Type 0} where
  -- `purego.RegisterFunc(target, symbol)`
  abbrev pub register : NativeApi L → String → CFun L → NativeApi L
  register api name f = record api { fn = λ k. if str_eq name k then some f else api.fn k }

  -- `registerSymbol`; `none` is its error.
  unfoldable pub register_symbol : Linker L → ℕ → String → NativeApi L → Option (NativeApi L)
  register_symbol linker handle name api = elim (linker.symbol handle name) [
    | none ↦ none
    | some f ↦ some (register api name f)
  ]

  -- What one round of `bindLibvirtSymbols` does behind `bind`.
  abbrev pub bound : Binding → NativeApi L → Option (NativeApi L) → NativeApi L
  bound b api none = record api { missing = put_missing b.name b.since api.missing }
  bound b api (some api') = record api' { missing = delete b.name api'.missing }

  -- `bindLibvirtSymbols`
  unfoldable pub bind_symbols :
      List Binding → (Binding → NativeApi L → Option (NativeApi L)) → NativeApi L → NativeApi L
  unfolding put_missing delete
  bind_symbols [] bind api = api
  bind_symbols (b ∷ bs) bind api = bind_symbols bs bind (bound b api (bind b api))

  -- The first binding, of the main library, and the second one.
  unfoldable pub bind_main : Linker L → ℕ → Binding → NativeApi L → Option (NativeApi L)
  unfolding register_symbol
  bind_main linker handle b api =
      if str_eq b.library "main" then register_symbol linker handle b.name api else none

  unfoldable pub bind_extension :
      Linker L → List (String × ℕ) → Binding → NativeApi L → Option (NativeApi L)
  unfolding register_symbol lookup
  bind_extension linker handles b api =
      if str_eq b.library "main"
      then elim (require_symbol api b.name) [ some _ ↦ none | none ↦ some api ]
      else elim (lookup b.library handles) [
        | none ↦ none
        | some handle ↦ register_symbol linker handle b.name api
      ]

-- `libvirtLibraryCandidates`
unfoldable pub library_candidates : Platform → List String
library_candidates platform =
    let path = platform.environment "LIBVIRT_GO_LIBRARY" in
    if not (str_eq path "")
    then path ∷ []
    else if platform.is_darwin
    then "libvirt.0.dylib" ∷ "libvirt.dylib" ∷ []
    else "libvirt.so.0" ∷ "libvirt.so" ∷ []

-- `extensionLibraryCandidates`, at the three libraries.
pub data Extension : Type 0 where
  admin lxc qemu : Extension

abbrev pub extension_name : Extension → String
extension_name admin = "admin"
extension_name lxc = "lxc"
extension_name qemu = "qemu"

abbrev pub extension_variable : Extension → String
extension_variable admin = "LIBVIRT_ADMIN_LIBRARY"
extension_variable lxc = "LIBVIRT_LXC_LIBRARY"
extension_variable qemu = "LIBVIRT_QEMU_LIBRARY"

abbrev pub dylibs : Extension → List String
dylibs admin = "libvirt-admin.0.dylib" ∷ "libvirt-admin.dylib" ∷ []
dylibs lxc = "libvirt-lxc.0.dylib" ∷ "libvirt-lxc.dylib" ∷ []
dylibs qemu = "libvirt-qemu.0.dylib" ∷ "libvirt-qemu.dylib" ∷ []

abbrev pub shared_objects : Extension → List String
shared_objects admin = "libvirt-admin.so.0" ∷ "libvirt-admin.so" ∷ []
shared_objects lxc = "libvirt-lxc.so.0" ∷ "libvirt-lxc.so" ∷ []
shared_objects qemu = "libvirt-qemu.so.0" ∷ "libvirt-qemu.so" ∷ []

unfoldable pub extension_candidates : Platform → Extension → List String
extension_candidates platform x =
    let path = platform.environment (extension_variable x) in
    if not (str_eq path "")
    then path ∷ []
    else if platform.is_darwin
    then dylibs x
    else shared_objects x

module _ {L : Type 0} where
  -- `if err == nil { return api, nil }`
  abbrev pub attempted :
      Result (NativeApi L)
      → (GoError → M L (NativeApi L ⊎ List (String × GoError)))
      → M L (NativeApi L ⊎ List (String × GoError))
  attempted (ok api) next = pure (inl api)
  attempted (err e) next = next e

module _ {L : Type 0} (api : NativeApi L) where
  unfoldable pub initialized : ℤ → M L (Option GoError)
  unfolding last_error
  initialized result =
      if is_negative result
      then (do e ← last_error api "virInitialize"; pure (some e))
      else pure none

  -- `initializeNativeAPI`
  unfoldable pub initialize : M L (Option GoError)
  unfolding require_symbol call_int initialized
  initialize = elim (require_symbol api "virInitialize") [
    | some e ↦ pure (some e)
    | none ↦ do
      lock_os_thread
      result ← call_int api "virInitialize" []
      r ← initialized result
      unlock_os_thread
      pure r
  ]

module _ {L : Type 0} (linker : Linker L) (platform : Platform) where
  -- The inner loop: the handle of the first candidate that opens.
  unfoldable pub first_opened : List String → Option ℕ
  first_opened [] = none
  first_opened (path ∷ rest) =
      let later = first_opened rest in
      elim (linker.open_library path) [ some handle ↦ some handle | none ↦ later ]

  -- `loadExtensionLibraries`
  unfoldable pub load_extensions : List Extension → List (String × ℕ)
  unfolding first_opened extension_candidates
  load_extensions [] = []
  load_extensions (x ∷ xs) =
      let rest = load_extensions xs in
      elim (first_opened (extension_candidates platform x)) [
        | some handle ↦ (extension_name x, handle) ∷ rest
        | none ↦ rest
      ]

  abbrev pub extension_handles : List (String × ℕ)
  extension_handles = load_extensions (admin ∷ lxc ∷ qemu ∷ [])

  -- `&nativeAPI{handle, path, missing}`
  abbrev pub new_api : NativeApi L
  new_api = record {
    missing = [];
    known = platform.known;
    fn = λ _. none;
    allocator = platform.allocator;
  }

  -- The api behind the first binding, and behind the second.
  unfoldable pub main_api : ℕ → NativeApi L
  unfolding bind_symbols bind_main
  main_api handle = bind_symbols platform.bindings (bind_main linker handle) new_api

  unfoldable pub full_api : ℕ → NativeApi L
  unfolding bind_symbols bind_extension main_api load_extensions
  full_api handle =
      bind_symbols platform.bindings (bind_extension linker extension_handles) (main_api handle)

  -- The loop over the allocator's functions: the first one that the process does not have.
  unfoldable pub absent_allocator : List String → Option String
  absent_allocator [] = none
  absent_allocator (name ∷ rest) =
      let later = absent_allocator rest in if linker.default_has name then later else some name

  -- An error behind `purego.Dlclose(handle)`
  abbrev closing : ℕ → GoError → M L (Result (NativeApi L))
  closing handle e w = (log_event (closed_library handle w.pinned) >> pure (err e)) w

  unfoldable pub load_opened : ℕ → M L (Result (NativeApi L))
  unfolding absent_allocator initialize main_api full_api
  load_opened handle = elim (absent_allocator ("malloc" ∷ "calloc" ∷ "free" ∷ [])) [
    | some name ↦ closing handle (other_error name)
    | none ↦ do
      e ← initialize (main_api handle)
      elim e [ some e' ↦ closing handle e' | none ↦ pure (ok (full_api handle)) ]
  ]

  -- `loadNativeAPIFrom`
  unfoldable pub load_native_api_from : String → M L (Result (NativeApi L))
  unfolding load_opened
  load_native_api_from path = elim (linker.open_library path) [
    | none ↦ pure (err (other_error path))
    | some handle ↦ load_opened handle
  ]

  -- `loadNativeAPI`, with the candidates that are left and the attempts so far; without a library the
  -- error wraps `ErrLibraryNotFound` and the attempts.
  unfoldable pub load_candidates :
      List String → List (String × GoError) → M L (NativeApi L ⊎ List (String × GoError))
  unfolding load_native_api_from
  load_candidates [] attempts = pure (inr attempts)
  load_candidates (path ∷ rest) attempts = do
    r ← load_native_api_from path
    attempted r (λ e. load_candidates rest (attempts ++ (path, e) ∷ []))

  unfoldable pub load_native_api : M L (NativeApi L ⊎ List (String × GoError))
  unfolding load_candidates library_candidates
  load_native_api = load_candidates (library_candidates platform) []
