-- ===== src/Loader/Symbols.antt =====
-- What a loaded library is to its callers, symbol by symbol.
use libvirt_go.Prelude.{
  ℕ, String, List, [], ◌∷◌, true, false, Option, none, some, str_eq, str_eq_iff, ◌≡◌, ◌≢◌, refl, ap,
  ◌∙◌, if◌then◌else◌, arith, suc, zero, get_elem?, All, subst,
}
use mathlib.Core.Option.{some-injective}
use libvirt_go.Native.{NativeApi, CFun, lookup, require_symbol}
use libvirt_go.Loader.{
  Binding, Linker, Platform, delete, put_missing, register_symbol, bound, bind_symbols, bind_main,
  bind_extension, main_api, full_api, new_api, extension_handles,
}

str_eq_ne : (a b : String) → a ≢ b → str_eq a b ≡ false
str_eq_ne a b h = ground (arith, str_eq_iff a b)

str_eq_self : (a : String) → str_eq a a ≡ true
str_eq_self a = (str_eq_iff a a).1 refl

module _ (k n : String) where
  lookup-delete :
      (m : List (String × String))
      → lookup n (delete k m) ≡ (if str_eq k n then none else lookup n m)
  unfolding lookup delete
  lookup-delete [] = ground arith
  lookup-delete ((j, v) ∷ m) =
      ground (arith, str_eq_iff j k, str_eq_iff j n, str_eq_iff k n, lookup-delete m)

  lookup-put_missing :
      (v : String) (m : List (String × String))
      → lookup n (put_missing k v m) ≡ (if str_eq k n then some v else lookup n m)
  unfolding lookup put_missing
  lookup-put_missing v m = ground (arith, lookup-delete m)

-- What the api has for a symbol: the version where it is missing, and the function.
abbrev pub Entry : Type 0 → Type 0
Entry L = Option String × Option (CFun L)

module _ {L : Type 0} where
  abbrev pub entry : String → NativeApi L → Entry L
  entry n api = (lookup n api.missing, api.fn n)

  -- What a binding makes of the entry of its symbol: the function that was found, or none.
  abbrev pub found_or : Binding → Option (CFun L) → Entry L → Entry L
  found_or b none (m, f) = (some b.since, f)
  found_or b (some g) (m, f) = (none, some g)

  abbrev pub main_step : Linker L → ℕ → Binding → Entry L → Entry L
  main_step linker handle b =
      found_or b (if str_eq b.library "main" then linker.symbol handle b.name else none)

  abbrev pub kept : Binding → Entry L → Entry L
  kept b (none, f) = (none, f)
  kept b (some m, f) = (some b.since, f)

  abbrev pub extension_function : Linker L → List (String × ℕ) → Binding → Option (CFun L)
  extension_function linker handles b = elim (lookup b.library handles) [
    | none ↦ none
    | some handle ↦ linker.symbol handle b.name
  ]

  abbrev pub extension_step : Linker L → List (String × ℕ) → Binding → Entry L → Entry L
  extension_step linker handles b o =
      if str_eq b.library "main"
      then kept b o
      else found_or b (extension_function linker handles b) o

  module _ (n : String) (b : Binding) (api : NativeApi L) where
    entry-bound_main :
        (linker : Linker L) (handle : ℕ)
        → entry n (bound b api (bind_main linker handle b api))
          ≡ (if str_eq b.name n then main_step linker handle b (entry n api) else entry n api)
    unfolding bind_main register_symbol
    entry-bound_main linker handle = ground (
      arith,
      lookup-delete b.name n api.missing,
      lookup-put_missing b.name n b.since api.missing,
      str_eq_iff b.name n,
    )

    entry-bound_extension :
        (linker : Linker L) (handles : List (String × ℕ))
        → entry n (bound b api (bind_extension linker handles b api))
          ≡ (if str_eq b.name n then extension_step linker handles b (entry n api) else entry n api)
    unfolding bind_extension register_symbol require_symbol
    entry-bound_extension linker handles = ground (
      arith,
      lookup-delete b.name n api.missing,
      lookup-put_missing b.name n b.since api.missing,
      str_eq_iff b.name n,
    )

-- No symbol is bound twice.
abbrev pub IsDistinct : List Binding → Type 0
IsDistinct [] = Unit
IsDistinct (b ∷ bs) = All (λ c. c.name ≢ b.name) bs × IsDistinct bs

-- A binding of the list does not differ in name from all of the list.
named_elem :
    (i : ℕ) (b : Binding) (bs : List Binding)
    → get_elem? bs i ≡ some b
    → ¬ (All (λ c. c.name ≢ b.name) bs)
named_elem i b [] e h = cc e
named_elem zero b (c ∷ bs) e h = h.0 (ap (λ x. x.name) (some-injective c b e))
named_elem (suc i) b (c ∷ bs) e h = named_elem i b bs e h.1

module _ {L : Type 0} (bind : Binding → NativeApi L → Option (NativeApi L))
    (act : Binding → Entry L → Entry L)
    (step : (n : String) (b : Binding) (api : NativeApi L)
      → entry n (bound b api (bind b api))
        ≡ (if str_eq b.name n then act b (entry n api) else entry n api)) where
  bind_symbols-elsewhere :
      (n : String) (bs : List Binding) (api : NativeApi L)
      → All (λ c. c.name ≢ n) bs
      → entry n (bind_symbols bs bind api) ≡ entry n api
  unfolding bind_symbols
  bind_symbols-elsewhere n [] api h = refl
  bind_symbols-elsewhere n (b ∷ bs) api h =
      bind_symbols-elsewhere n bs (bound b api (bind b api)) h.1
      ∙ step n b api
      ∙ rw (str_eq_ne b.name n h.0) refl

  bind_symbols-entry :
      (i : ℕ) (b : Binding) (bs : List Binding) (api : NativeApi L)
      → IsDistinct bs
      → get_elem? bs i ≡ some b
      → entry b.name (bind_symbols bs bind api) ≡ act b (entry b.name api)
  unfolding bind_symbols
  bind_symbols-entry i b [] api d e = absurd (cc e)
  bind_symbols-entry zero b (c ∷ bs) api d e =
      let same : c ≡ b = some-injective c b e in
      rw (← same) (
        bind_symbols-elsewhere c.name bs (bound c api (bind c api)) d.0
        ∙ step c.name c api
        ∙ rw (str_eq_self c.name) refl)
  bind_symbols-entry (suc i) b (c ∷ bs) api d e =
      let other : c.name ≢ b.name =
        λ h. named_elem i b bs e (subst (λ x. All (λ c'. c'.name ≢ x) bs) h d.0) in
      bind_symbols-entry i b bs (bound c api (bind c api)) d.1 e
      ∙ ap (act b) (step b.name c api ∙ rw (str_eq_ne c.name b.name other) refl)

-- The function that the libraries export for a binding.
abbrev pub exported : {L : Type 0} → Linker L → Platform → ℕ → Binding → Option (CFun L)
exported linker platform handle b =
    if str_eq b.library "main"
    then linker.symbol handle b.name
    else extension_function linker (extension_handles linker platform) b

-- Behind the two bindings of a load, in which no symbol is bound twice, each symbol that is bound is
-- either registered and not missing, where its library is open and exports it, or missing, with the
-- version that introduced it, and its function nil.
pub full_api-entry :
    {L : Type 0} (linker : Linker L) (platform : Platform) (handle i : ℕ) (b : Binding)
    → IsDistinct platform.bindings
    → get_elem? platform.bindings i ≡ some b
    → entry b.name (full_api linker platform handle) ≡ elim (exported linker platform handle b) [
      | none ↦ (some b.since, none)
      | some f ↦ (none, some f)
    ]
unfolding full_api main_api lookup
full_api-entry linker platform handle i b d e =
    bind_symbols-entry (bind_extension linker (extension_handles linker platform))
      (extension_step linker (extension_handles linker platform))
      (λ n c api. entry-bound_extension n c api linker (extension_handles linker platform)) i b
      platform.bindings (main_api linker platform handle) d e
    ∙ ap (extension_step linker (extension_handles linker platform) b) (
        bind_symbols-entry (bind_main linker handle) (main_step linker handle)
          (λ n c api. entry-bound_main n c api linker handle) i b platform.bindings
          (new_api linker platform) d e)
    ∙ ground arith
