-- ===== src/Loader/Closing.antt =====
-- What a load leaves: an api, or the closed library and the attempts.
use libvirt_go.Prelude.{
  ℕ, String, List, [], ◌∷◌, ◌++◌, Option, some, ◌≡◌, refl, sym, ap, ◌∙◌, arith, Bool-cases,
  Option-cases, inl, inr, ◌⊎◌, map, append_assoc, suc, subst, get_elem?, append-nil,
}
use mathlib.Core.List.{map-append}
use mathlib.Core.Option.{some-injective}
use libvirt_go.Prelude.Int.{ℤ, is_negative}
use libvirt_go.Errors.{GoError, Result, ok, err, other_error}
use libvirt_go.World.{World, closed_library, Event}
use libvirt_go.Native.{NativeApi, call_int, last_error, require_symbol}
use libvirt_go.Native.Laws.{
  >>=-inverse, Quiet, Quiet-call_int, Quiet-last_error, Quiet-bind, Quiet-pure,
}
use libvirt_go.Loader.{
  Linker, Platform, initialize, load_opened, load_native_api_from, load_candidates, load_native_api,
  full_api, main_api, library_candidates, absent_allocator, initialized, attempted,
}

module _ {L : Type 0} (api : NativeApi L) where
  Quiet-initialized : (result : ℤ) → Quiet (initialized api result)
  unfolding initialized
  Quiet-initialized result = elim (Bool-cases (is_negative result)) [
    | inl h ↦
        rw (h, initialized)
          (Quiet-bind (last_error api "virInitialize") _ (Quiet-last_error api "virInitialize")
            λ e. Quiet-pure _)
    | inr h ↦ rw (h, initialized) (Quiet-pure _)
  ]

  initialize-pinned :
      (w : World L) {r : Option GoError} {w' : World L}
      → initialize api w ≡ some (r, w')
      → w'.pinned ≡ w.pinned
  unfolding initialize
  initialize-pinned w e = elim (Option-cases (require_symbol api "virInitialize")) [
    | inr (e', h) ↦ ground (arith, (rw (h, initialize) at e))
    | inl h ↦
        let (result, w₂, e₂, f₂) =
          >>=-inverse (call_int api "virInitialize" []) _ (record w { pinned = suc w.pinned })
            (rw (h, initialize) at e) in
        let (x, w₃, e₃, f₃) = >>=-inverse (initialized api result) _ w₂ f₂ in
        let c₂ = Quiet-call_int api "virInitialize" [] _ result w₂ e₂ in
        let c₃ = Quiet-initialized result w₂ x w₃ e₃ in ground (arith, f₃, c₂.kept, c₃.kept)
  ]

module _ {L : Type 0} (linker : Linker L) (platform : Platform) where
  -- What a library that was opened leaves: the api of both bindings, or a call of Dlclose with its handle.
  abbrev pub Leaves : ℕ → World L → Result (NativeApi L) → World L → Type 0
  Leaves handle w (ok api) w' = api ≡ full_api linker platform handle
  Leaves handle w (err e) w' = (t : List Event) × (w'.trace ≡ closed_library handle w.pinned ∷ t)

  abbrev Left : ℕ → World L → Result (NativeApi L) × World L → Type 0
  Left handle w x = (x.1.pinned ≡ w.pinned) × Leaves handle w x.0 x.1

  closed-Left :
      (handle : ℕ) (e : GoError) (w v : World L) (x : Result (NativeApi L) × World L)
      → v.pinned ≡ w.pinned
      → some (err e, record v { trace = closed_library handle v.pinned ∷ v.trace }) ≡ some x
      → Left handle w x
  closed-Left handle e w v x kept p =
      subst (Left handle w) (some-injective _ x p)
        (kept, (v.trace, ap (λ n. closed_library handle n ∷ v.trace) kept))

  -- A load of a library that was opened, where it returns, gives the locks of the thread back, and
  -- either returns the api behind both bindings or has closed that library, by its handle, as its last call.
  pub load_opened-Leaves :
      (handle : ℕ) (w : World L) (r : Result (NativeApi L)) (w' : World L)
      → load_opened linker platform handle w ≡ some (r, w')
      → (w'.pinned ≡ w.pinned) × Leaves handle w r w'
  unfolding load_opened
  load_opened-Leaves handle w r w' e =
      elim (Option-cases (absent_allocator linker platform ("malloc" ∷ "calloc" ∷ "free" ∷ []))) [
        | inr (name, h) ↦
            closed-Left handle (other_error name) w w (r, w') refl (rw (h, load_opened) at e)
        | inl h ↦
            let (x, v, e₂, f₂) =
              >>=-inverse (initialize (main_api linker platform handle)) _ w
                (rw (h, load_opened) at e) in
            let kept : v.pinned ≡ w.pinned =
              initialize-pinned (main_api linker platform handle) w e₂ in
            elim (Option-cases x) [
              | inr (e', some_e) ↦ closed-Left handle e' w v (r, w') kept (rw some_e at f₂)
              | inl none_e ↦
                  subst (Left handle w) (some-injective _ (r, w') (rw none_e at f₂)) (kept, refl)
            ]
      ]

  -- The api of a library that a path opens.
  abbrev pub IsOpened : String → NativeApi L → Type 0
  IsOpened path api =
      (handle : ℕ) × (linker.open_library path ≡ some handle)
      × (api ≡ full_api linker platform handle)

  abbrev Opened : String → World L → Result (NativeApi L) → World L → Type 0
  Opened path w (ok api) w' = (w'.pinned ≡ w.pinned) × IsOpened path api
  Opened path w (err e) w' = w'.pinned ≡ w.pinned

  outcome_of_handle :
      (path : String) (handle : ℕ) (w : World L) (r : Result (NativeApi L)) (w' : World L)
      → linker.open_library path ≡ some handle
      → (w'.pinned ≡ w.pinned) × Leaves handle w r w'
      → Opened path w r w'
  outcome_of_handle path handle w (ok api) w' o l = (l.0, (handle, o, l.1))
  outcome_of_handle path handle w (err e) w' o l = l.0

  load_native_api_from-Opened :
      (path : String) (w : World L) (r : Result (NativeApi L)) (w' : World L)
      → load_native_api_from linker platform path w ≡ some (r, w')
      → Opened path w r w'
  unfolding load_native_api_from
  load_native_api_from-Opened path w r w' e = elim (Option-cases (linker.open_library path)) [
    | inl h ↦
        subst (λ x. Opened path w x.0 x.1)
          (some-injective _ (r, w') (rw (h, load_native_api_from) at e)) refl
    | inr (handle, h) ↦
        outcome_of_handle path handle w r w' h
          (load_opened-Leaves handle w r w' (rw (h, load_native_api_from) at e))
  ]

  -- What the loop over candidates leaves: the api of one of them, or an attempt for each.
  abbrev pub Loads :
      List String
      → List (String × GoError)
      → World L
      → (NativeApi L ⊎ List (String × GoError)) × World L
      → Type 0
  Loads paths before w (inl api, w') =
      (w'.pinned ≡ w.pinned)
      × ((i : ℕ) × (path : String) × (get_elem? paths i ≡ some path) × IsOpened path api)
  Loads paths before w (inr attempts, w') =
      (w'.pinned ≡ w.pinned) × (map (λ a. a.0) attempts ≡ map (λ a. a.0) before ++ paths)

  -- One failed attempt in front of what the later ones leave.
  later-Loads :
      (path : String) (e : GoError) (paths : List String) (before : List (String × GoError))
      (w v : World L) (x : (NativeApi L ⊎ List (String × GoError)) × World L)
      → v.pinned ≡ w.pinned
      → Loads paths (before ++ (path, e) ∷ []) v x
      → Loads (path ∷ paths) before w x
  later-Loads path e paths before w v (inl api, w') kept (k, (i, p, at_i, o)) =
      (k ∙ kept, (suc i, p, at_i, o))
  later-Loads path e paths before w v (inr attempts, w') kept (k, same) = (
    k ∙ kept,
    same
        ∙ ap (λ l. l ++ paths) (map-append (λ a. a.0) before ((path, e) ∷ []))
        ∙ append_assoc (map (λ a. a.0) before) (path ∷ []) paths,
  )

  attempt-Loads :
      (path : String) (paths : List String) (before : List (String × GoError)) (w v : World L)
      (x : (NativeApi L ⊎ List (String × GoError)) × World L)
      → ((b : List (String × GoError)) (u : World L)
          → load_candidates linker platform paths b u ≡ some x
          → Loads paths b u x)
      → (r : Result (NativeApi L)) → Opened path w r v
      → attempted r (λ e. load_candidates linker platform paths (before ++ (path, e) ∷ [])) v
        ≡ some x
      → Loads (path ∷ paths) before w x
  attempt-Loads path paths before w v x go (ok api) o e =
      subst (Loads (path ∷ paths) before w) (some-injective _ x e) (o.0, (0, path, refl, o.1))
  attempt-Loads path paths before w v x go (err e') o e =
      later-Loads path e' paths before w v x o (go (before ++ (path, e') ∷ []) v e)

  load_candidates-Loads :
      (paths : List String) (before : List (String × GoError)) (w : World L)
      (x : (NativeApi L ⊎ List (String × GoError)) × World L)
      → load_candidates linker platform paths before w ≡ some x
      → Loads paths before w x
  unfolding load_candidates
  load_candidates-Loads [] before w x e =
      subst (Loads [] before w) (some-injective _ x e) (refl, sym (append-nil _))
  load_candidates-Loads (path ∷ paths) before w x e =
      let (r, v, e₂, f₂) = >>=-inverse (load_native_api_from linker platform path) _ w e in
      attempt-Loads path paths before w v x (λ b u. load_candidates-Loads paths b u x) r
        (load_native_api_from-Opened path w r v e₂) f₂

  -- Loading the library, where it returns, gives the locks of the thread back, and either returns the
  -- api behind both bindings of a library that one of the candidates opens, or fails with one
  -- attempt for each candidate, in their order.
  pub load_native_api-Loads :
      (w : World L) (x : (NativeApi L ⊎ List (String × GoError)) × World L)
      → load_native_api linker platform w ≡ some x
      → Loads (library_candidates platform) [] w x
  unfolding load_native_api
  load_native_api-Loads w x e = load_candidates-Loads (library_candidates platform) [] w x e
