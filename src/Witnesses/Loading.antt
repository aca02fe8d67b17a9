-- ===== src/Witnesses/Loading.antt =====
-- A small dynamic linker, for the properties of Loader.
use libvirt_go.Prelude.{
  ℕ, [], ◌∷◌, none, some, ◌≡◌, refl, str_eq, str_eq_iff, if◌then◌else◌, true, false, inl,
}
use libvirt_go.Errors.{err, symbol_unavailable}
use libvirt_go.World.{World, called, closed_library}
use libvirt_go.Native.{require_symbol, lookup, call_int, invoke}
use libvirt_go.Loader.{
  Binding, Linker, Platform, load_opened, load_native_api, load_native_api_from, full_api, main_api,
  library_candidates, load_candidates, absent_allocator, initialize, initialized, bind_symbols,
  bind_main, register_symbol, put_missing, delete,
}
use libvirt_go.Loader.Symbols.{entry, exported, full_api-entry}
use libvirt_go.Loader.Closing.{Leaves, Loads, load_opened-Leaves, load_native_api-Loads}
use libvirt_go.Witnesses.{world_0, two_blocks, success}

abbrev init : Binding
init = record { name = "virInitialize"; since = "0.1.0"; library = "main" }

abbrev qemu_attach : Binding
qemu_attach = record { name = "virDomainQemuAttach"; since = "0.9.4"; library = "qemu" }

-- One library, libvirt.so, that exports all that is asked for; no extension library.
abbrev linker : Linker (Unit {0})
linker = record {
  open_library = λ path. if str_eq path "libvirt.so" then some 7 else none;
  symbol = λ handle name. some success;
  default_has = λ name. true;
}

-- The same without any symbol.
abbrev bare_linker : Linker (Unit {0})
bare_linker = record linker { symbol = λ handle name. none }

abbrev platform : Platform
platform = record {
  environment = λ name. "";
  is_darwin = false;
  bindings = init ∷ qemu_attach ∷ [];
  known = ("virInitialize", "0.1.0") ∷ ("virDomainQemuAttach", "0.9.4") ∷ [];
  allocator = two_blocks;
}

full_api-entry_example :
    entry "virDomainQemuAttach" (full_api linker platform 7)
    ≡ elim (exported linker platform 7 qemu_attach) [
      | none ↦ (some "0.9.4", none)
      | some f ↦ (none, some f)
    ]
full_api-entry_example =
    full_api-entry linker platform 7 1 qemu_attach
      (((λ e. cc ((str_eq_iff "virDomainQemuAttach" "virInitialize").1 e)), tt), (tt, tt)) refl

abbrev closed_world : World (Unit {0})
closed_world = record world_0 { trace = closed_library 7 0 ∷ [] }

load_fails :
    load_opened bare_linker platform 7 world_0
    ≡ some (err (symbol_unavailable "virInitialize" "0.1.0"), closed_world)
unfolding load_opened absent_allocator initialize main_api bind_symbols bind_main register_symbol
    put_missing delete require_symbol lookup
load_fails = refl

load_opened-Leaves_example :
    (◌≡◌ {A = ℕ} 0 0)
    × Leaves bare_linker platform 7 world_0
        (err (symbol_unavailable "virInitialize" "0.1.0"))
        closed_world
load_opened-Leaves_example =
    load_opened-Leaves bare_linker platform 7 world_0
      (err (symbol_unavailable "virInitialize" "0.1.0")) closed_world load_fails

abbrev loaded_world : World (Unit {0})
loaded_world = record world_0 { trace = called "virInitialize" 1 ∷ [] }

loads :
    load_native_api linker platform world_0 ≡ some (inl (full_api linker platform 7), loaded_world)
unfolding load_native_api load_candidates library_candidates load_native_api_from load_opened
    absent_allocator initialize initialized main_api bind_symbols bind_main register_symbol
    put_missing delete require_symbol lookup call_int invoke
loads = refl

load_native_api-Loads_example :
    Loads linker platform
      (library_candidates platform)
      []
      world_0
      (inl (full_api linker platform 7), loaded_world)
load_native_api-Loads_example =
    load_native_api-Loads linker platform world_0 (inl (full_api linker platform 7), loaded_world)
      loads
