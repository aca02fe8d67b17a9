-- ===== src/Native/Results.antt =====
-- What a caller of `nativeCall` learns from the value and the error that it returns.
use libvirt_go.Prelude.{
  Bool, true, false, String, Option, none, some, ◌≡◌, Option-cases, inl, inr, subst,
}
use mathlib.Core.Option.{some-injective}
use libvirt_go.Errors.{GoError}
use libvirt_go.World.{World, M, CState}
use libvirt_go.Native.{
  NativeApi, native_call, outcome, last_error, reset_last_error, require_symbol,
}
use libvirt_go.Native.Laws.{>>=-inverse}

abbrev pub has_error : Option GoError → Bool
has_error none = false
has_error (some e) = true

module _ {L T : Type 0} (api : NativeApi L) (P : T → Bool → Type 0) where
  -- The value and whether there is an error.
  abbrev pub Says : T × Option GoError → Type 0
  Says (v, e) = P v (has_error e)

  outcome-Says :
      (operation : String) (v : T) (failed : Bool) (w : World L) (y : T × Option GoError)
      (w' : World L)
      → P v failed
      → outcome api operation v failed w ≡ some (y, w')
      → Says y
  unfolding outcome
  outcome-Says operation v true w y w' h e =
      let (er, u, a, b) = >>=-inverse (last_error api operation) _ w e in
      subst (λ x. Says x.0) (some-injective _ (y, w') b) h
  outcome-Says operation v false w y w' h e = subst (λ x. Says x.0) (some-injective _ (y, w') e) h

  -- What holds of every value and failure of a call holds of the value and the error; `Ready` is what
  -- the call needs of its world, and virResetLastError does not take it away.
  pub native_call-Says :
      (Ready : CState L → Type 0) (zero_value : T) (operation : String) (call : M L (T × Bool))
      → P zero_value true
      → ((w : World L) (u : Unit {0}) (w' : World L)
          → reset_last_error api w ≡ some (u, w')
          → Ready w.state
          → Ready w'.state)
      → ((w : World L)
          → Ready w.state
          → (x : T × Bool) (w' : World L) → call w ≡ some (x, w')
          → P x.0 x.1)
      → (w : World L) → Ready w.state
      → (y : T × Option GoError) (w' : World L)
      → native_call api zero_value operation call w ≡ some (y, w')
      → Says y
  unfolding native_call
  native_call-Says Ready zero_value operation call refused resets holds w ready y w' e =
      elim (Option-cases (require_symbol api operation)) [
        | inr (e', missing) ↦
            subst (λ x. Says x.0) (some-injective _ (y, w') (rw (missing, native_call) at e))
              refused
        | inl there ↦
            let (a, w₁, e₁, f₁) =
              >>=-inverse (reset_last_error api) _ _ (rw (there, native_call) at e) in
            let (x, w₂, e₂, f₂) = >>=-inverse call _ w₁ f₁ in
            let (z, w₃, e₃, f₃) = >>=-inverse (outcome api operation x.0 x.1) _ w₂ f₂ in
            subst (λ x. Says x.0) (some-injective _ (y, w') f₃)
              (outcome-Says operation x.0 x.1 w₂ z w₃ (holds w₁ (resets _ a w₁ e₁ ready) x w₂ e₂)
                e₃)
      ]
