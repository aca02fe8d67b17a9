-- ===== src/Events/Closing.antt =====
-- `Close` of a subscription can be repeated.
use libvirt_go.Prelude.{
  String, true, Option, none, some, ◌≡◌, refl, inl, inr, Option-cases, Bool-cases, subst,
}
use mathlib.Core.Option.{some-injective}
use libvirt_go.Native.Laws.{>>=-inverse}
use libvirt_go.Prelude.Int.{ℤ, pos}
use libvirt_go.Errors.{GoError}
use libvirt_go.Memory.{Ptr}
use libvirt_go.World.{World, M}
use libvirt_go.Native.{NativeApi}
use libvirt_go.Resource.{after_write, connect_call, status}
use libvirt_go.Events.{Registry, Subscription, Thunks}
use libvirt_go.Events.Subscribing.{close_subscription, unregistered, close_locked}

-- The world behind a repeated call: the mutex of a subscription was taken and given back.
abbrev pub touched : {L : Type 0} → Option Subscription → World L → World L
touched none w = w
touched (some s) w = after_write w

-- A subscription that there is not, or that is closed.
abbrev IsOver : Option Subscription → Type 0
IsOver none = Unit {0}
IsOver (some s) = s.is_closed ≡ true

-- Without an error the subscription is over.
abbrev Ends : Option GoError × Option Subscription → Type 0
Ends (none, s) = IsOver s
Ends (some e, s) = Unit {0}

module _ {L : Type 0} (api : NativeApi L) (thunks : Thunks) (operation : String)
    (call : Subscription → Ptr → M L ℤ) where
  unregistered-Ends : (s : Subscription) (e : Option GoError) → Ends (unregistered s e)
  unregistered-Ends s none = refl
  unregistered-Ends s (some e) = tt

  close_locked-Ends :
      (registry : Registry) (s : Subscription) (w : World L)
      (x : Option GoError × Option Subscription) (w' : World L)
      → close_locked api thunks operation call registry s w ≡ some (x, w')
      → Ends x
  unfolding close_locked
  close_locked-Ends registry s w x w' e = elim (Bool-cases s.is_closed) [
    | inl h ↦ subst (λ y. Ends y.0) (some-injective _ (x, w') (rw (h, close_locked) at e)) refl
    | inr h ↦ elim (Option-cases (registry s.opaque)) [
      | inl g ↦ subst (λ y. Ends y.0) (some-injective _ (x, w') (rw (h, g, close_locked) at e)) refl
      | inr (r, g) ↦
          let (y, v, a, b) =
            >>=-inverse (connect_call api (pos 0) s.conn operation (status (call s))) _ w
              (rw (h, g, close_locked) at e) in
          subst (λ z. Ends z.0) (some-injective _ (x, w') b) (unregistered-Ends s y.1)
    ]
  ]

  close_subscription-Ends :
      (registry : Registry) (s : Option Subscription) (w : World L)
      (x : Option GoError × Option Subscription) (w' : World L)
      → close_subscription api thunks operation call registry s w ≡ some (x, w')
      → Ends x
  unfolding close_subscription
  close_subscription-Ends registry none w x w' e =
      subst (λ y. Ends y.0) (some-injective _ (x, w') e) tt
  close_subscription-Ends registry (some s) w x w' e =
      let (y, v, a, b) = >>=-inverse (close_locked api thunks operation call registry s) _ _ e in
      subst (λ z. Ends z.0) (some-injective _ (x, w') b) (close_locked-Ends registry s _ y v a)

  close_over :
      (registry : Registry) (s : Option Subscription) (w : World L)
      → IsOver s
      → close_subscription api thunks operation call registry s w ≡ some ((none, s), touched s w)
  unfolding close_subscription
  close_over registry none w h = refl
  close_over registry (some s) w h = rw (h, close_subscription) refl

  -- `Close` that returned no error returns none again, whatever else happened in between, and calls no
  -- C function: it takes the mutex of the subscription and gives it back.
  pub close_subscription_again :
      (registry registry' : Registry) (s s' : Option Subscription) (w w' v : World L)
      → close_subscription api thunks operation call registry s w ≡ some ((none, s'), w')
      → close_subscription api thunks operation call registry' s' v
        ≡ some ((none, s'), touched s' v)
  close_subscription_again registry registry' s s' w w' v e =
      close_over registry' s' v (close_subscription-Ends registry s w (none, s') w' e)
