-- ===== src/Loader/Once.antt =====
-- `getNativeAPI` of native.go, which loads once in a process, and what only reads its api: the rest of
-- native.go, `GetVersion` of version.go, and raw.go.
use libvirt_go.Prelude.{ℕ, String, List, [], ◌∷◌, ◌⊎◌, inl, inr, Bool, false, Option, none, some}
use libvirt_go.Prelude.Int.{pos, is_negative}
use libvirt_go.Prelude.Words.{int32_of}
use libvirt_go.Errors.{GoError, closed}
use libvirt_go.World.{M, pure, ◌>>=◌}
use libvirt_go.Native.{
  NativeApi, native_call, invoke, out, num, written, lookup, has_symbol, require_symbol,
}
use libvirt_go.Loader.{Linker, Platform, load_native_api}

-- What a load left: the api, or the attempts of the error.
abbrev pub Loaded : Type 0 → Type 0
Loaded L = NativeApi L ⊎ List (String × GoError)

-- `apiOnce`, `api` and `apiErr`: `none` before the first call.
unfoldable pub get_native_api :
    {L : Type 0} → Linker L → Platform → Option (Loaded L) → M L (Loaded L × Option (Loaded L))
get_native_api linker platform (some o) = pure (o, some o)
get_native_api linker platform none = do o ← load_native_api linker platform; pure (o, some o)

-- `HasSymbol`; `none` is the error of the load.
unfoldable pub loaded_has_symbol : {L : Type 0} → Loaded L → String → Option Bool
loaded_has_symbol (inl api) name = some (has_symbol api name)
loaded_has_symbol (inr attempts) name = none

-- `SymbolVersion`, in the generated versions
unfoldable pub symbol_version : Platform → String → Option String
symbol_version platform name = lookup name platform.known

-- `GetVersion`, behind the load
unfoldable pub loaded_version : {L : Type 0} → NativeApi L → M L (ℕ × Option GoError)
loaded_version api = native_call api 0 "virGetVersion" (do
  r ← invoke api "virGetVersion" (out ∷ num (pos 0) ∷ num (pos 0) ∷ [])
  pure (written r 0 0, is_negative (int32_of r.word)))

-- `RawAPI`; `none` is a nil `api`.
pub record RawApi (L : Type 0) : Type 0 where
  pub api : Option (NativeApi L)

-- `NewRawAPI`; `none` is the error of the load.
unfoldable pub new_raw_api : {L : Type 0} → Loaded L → Option (RawApi L)
new_raw_api (inl api) = some (record { api = some api })
new_raw_api (inr attempts) = none

-- `func (raw *RawAPI) HasSymbol` and `requireSymbol`, which returns `ErrClosed` itself, without a kind.
unfoldable pub raw_has_symbol : {L : Type 0} → Option (RawApi L) → String → Bool
raw_has_symbol none name = false
raw_has_symbol (some raw) name = elim raw.api [ none ↦ false | some api ↦ has_symbol api name ]

unfoldable pub raw_require_symbol : {L : Type 0} → Option (RawApi L) → String → Option GoError
raw_require_symbol none name = some (closed "")
raw_require_symbol (some raw) name = elim raw.api [
  | none ↦ some (closed "")
  | some api ↦ require_symbol api name
]
