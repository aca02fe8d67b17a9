-- ===== src/Events/Registering.antt =====
-- What a registration leaves in the registry: its record under its token, or nothing.
use libvirt_go.Prelude.{
  Bool, true, false, Option, none, some, ◌≡◌, ◌≢◌, refl, sym, ap, ◌∙◌, inl, inr, Bool-cases, ◌==◌,
  subst, arith, ◌⊎◌, if◌then◌else◌, [], Option-cases,
}
use mathlib.Core.Option.{some-injective}
use libvirt_go.Prelude.Int.{ℤ, is_negative}
use libvirt_go.Errors.{GoError, Result, ok, err, closed}
use libvirt_go.Memory.{Ptr, nil, update, Memory, malloc, IsLawful}
use libvirt_go.Memory.Laws.{update-update_unused}
use libvirt_go.World.{World, M, pure, change_memory, CState}
use libvirt_go.Native.{NativeApi, api_malloc, api_free, CFun, reset_last_error, invoke}
use libvirt_go.Native.Laws.{>>=-inverse}
use libvirt_go.Native.Results.{native_call-Says, Says}
use libvirt_go.Resource.{Connect, Domain, reading}
use libvirt_go.Events.{
  Registry, CallbackRecord, Subscription, Thunks, allocate_callback_record, discard_callback_record,
  offer, settle, offered,
}
use libvirt_go.Events.Subscribing.{
  subscribed, register_any, register_domain_callback, with_domain, with_connection,
}
use libvirt_go.Native.Trace.{invoke-Invokes}

module _ {L : Type 0} (api : NativeApi L) (registry : Registry) (r : CallbackRecord) where
  -- The block of every token of the registry is allocated.
  abbrev pub IsLive : CState L → Type 0
  IsLive s = (p : Ptr) → registry p ≢ none → s.memory.bytes p ≢ none

  -- virResetLastError leaves the blocks of tokens alone.
  abbrev pub ResetKeeps : Type 0
  ResetKeeps =
      (f : CFun L) (s : CState L) (p : Ptr)
      → api.fn "virResetLastError" ≡ some f
      → registry p ≢ none
      → (f [] s).1.memory.bytes p ≡ s.memory.bytes p

  reset-IsLive :
      ResetKeeps
      → (w : World L) (u : Unit {0}) (w' : World L) → reset_last_error api w ≡ some (u, w')
      → IsLive w.state
      → IsLive w'.state
  unfolding reset_last_error
  reset-IsLive keeps w u w' e live p known = elim (Option-cases (api.fn "virResetLastError")) [
    | inl h ↦
        subst (λ x. x.1.state.memory.bytes p ≢ none)
          (some-injective (u, w) (u, w') (rw (h, reset_last_error) at e)) (live p known)
    | inr (g, h) ↦
        let (reply, v, a, b) =
          >>=-inverse (invoke api "virResetLastError" []) _ w (rw (h, reset_last_error) at e) in
        let (f, there, _, state, _) = invoke-Invokes api "virResetLastError" [] w a in
        subst (λ x. x.1.state.memory.bytes p ≢ none) (some-injective (tt, v) (u, w') b)
          λ gone.
            live p known
              (sym (keeps f w.state p there known) ∙ sym (ap (λ s. s.memory.bytes p) state) ∙ gone)
  ]

  fresh_token :
      IsLawful api.allocator
      → (m : Memory) → ((p : Ptr) → registry p ≢ none → m.bytes p ≢ none)
      → api.allocator.place m 1 ≢ nil
      → registry (api.allocator.place m 1) ≡ none
  fresh_token lawful m live ne = elim (Option-cases (registry (api.allocator.place m 1))) [
    | inl e ↦ e
    | inr (r', e) ↦
        absurd (live (api.allocator.place m 1) (λ h. cc (e, h)) (lawful.fresh m 1 ne).bytes)
  ]

  -- The token of an allocation is new.
  abbrev Allocated : Option Ptr × Registry → Type 0
  Allocated (none, left) = left ≡ registry
  Allocated (some p, left) = (left ≡ update registry p (some r)) × (registry p ≡ none)

  placed :
      (w : World L) (p : Ptr) (w' : World L)
      → api_malloc api 1 w ≡ some (p, w')
      → (p ≡ nil) ⊎ (p ≡ api.allocator.place w.state.memory 1)
  unfolding api_malloc change_memory malloc
  placed w p w' e = ground (arith, e)

  allocate-Allocated :
      IsLawful api.allocator
      → (w : World L) → IsLive w.state
      → (x : Option Ptr × Registry) (w' : World L)
      → allocate_callback_record api registry r w ≡ some (x, w')
      → Allocated x
  unfolding allocate_callback_record
  allocate-Allocated lawful w live x w' e =
      let (p, v, a, b) = >>=-inverse (api_malloc api 1) _ w e in
      elim (Bool-cases (p == nil)) [
        | inl h ↦ subst (λ z. Allocated z.0) (some-injective _ (x, w') (rw h at b)) refl
        | inr h ↦
            subst (λ z. Allocated z.0) (some-injective _ (x, w') (rw h at b))
              (
                refl,
                elim (placed w p v a) [
                  | inl is_nil ↦ absurd (ground (arith, h, is_nil))
                  | inr there ↦
                      rw there
                        (fresh_token lawful w.state.memory live (λ k. ground (arith, h, k, there)))
                ],
              )
      ]

  -- Behind an offer that failed the registry is as it was; behind one that did not it has the record
  -- under the token as well.
  abbrev pub Kept : ℤ × Ptr × Registry → Bool → Type 0
  Kept (result, token, left) true = left ≡ registry
  Kept (result, token, left) false = left ≡ update registry token (some r)

  settle-Kept :
      (p : Ptr) (result : ℤ) (w : World L) (x : (ℤ × Ptr × Registry) × Bool) (w' : World L)
      → registry p ≡ none
      → settle api (update registry p (some r)) p result w ≡ some (x, w')
      → Kept x.0 x.1
  unfolding settle discard_callback_record
  settle-Kept p result w x w' free e = elim (Bool-cases (is_negative result)) [
    | inr h ↦ subst (λ z. Kept z.0.0 z.0.1) (some-injective _ (x, w') (rw (h, settle) at e)) refl
    | inl h ↦
        let (left, v, a, b) =
          >>=-inverse (discard_callback_record api (update registry p (some r)) p) _ w
            (rw (h, settle) at e) in
        let (u, v', a', b') = >>=-inverse (api_free api p) _ w a in
        let back : update (update registry p (some r)) p none ≡ left =
          ap (λ z. z.0) (some-injective _ (left, v) b') in
        subst (λ z. Kept z.0.0 z.0.1) (some-injective _ (x, w') b)
          (sym back ∙ update-update_unused registry p (some r) free)
  ]

  offered-Kept :
      (call : Ptr → M L ℤ) (token : Option Ptr × Registry) (w : World L)
      (x : (ℤ × Ptr × Registry) × Bool) (w' : World L)
      → Allocated token
      → offered api call token w ≡ some (x, w')
      → Kept x.0 x.1
  unfolding offered
  offered-Kept call (none, left) w x w' new e =
      subst (λ z. Kept z.0.0 z.0.1) (some-injective _ (x, w') e) new
  offered-Kept call (some p, left) w x w' new e =
      let (result, v, a, b) = >>=-inverse (call p) _ w e in
      settle-Kept p result v x w' new.1
        (subst (λ l. settle api l p result v ≡ some (x, w')) new.0 b)

  offer-Kept :
      IsLawful api.allocator
      → (call : Ptr → M L ℤ) (w : World L) → IsLive w.state
      → (x : (ℤ × Ptr × Registry) × Bool) (w' : World L)
      → offer api registry r call w ≡ some (x, w')
      → Kept x.0 x.1
  unfolding offer
  offer-Kept lawful call w live x w' e =
      let (y, v, a, b) = >>=-inverse (allocate_callback_record api registry r) _ w e in
      offered-Kept call y v x w' (allocate-Allocated lawful w live y v a) b

module _ (L : Type 0) {T : Type 0} (Ready : CState L → Type 0) (registry : Registry)
    (P : Result T × Registry → Type 0) (refused : (e : GoError) → P (err e, registry)) where
  -- What holds of every result of a program that starts in a state with `Ready`.
  Yields : M L (Result T × Registry) → Type 0
  Yields m =
      (w : World L)
      → Ready w.state
      → (y : Result T × Registry) (w' : World L) → m w ≡ some (y, w')
      → P y

  Yields-pure : (y : Result T × Registry) → P y → Yields (pure y)
  unfolding Yields
  Yields-pure y h w ready z w' e = subst (λ x. P x.0) (some-injective _ (z, w') e) h

  Yields-reading : (m : M L (Result T × Registry)) → Yields m → Yields (reading m)
  unfolding Yields
  Yields-reading m h w ready y w' e =
      let (z, v, a, b) = >>=-inverse m _ _ e in
      subst (λ x. P x.0) (some-injective _ (y, w') b) (h _ ready z v a)

  Yields-if :
      (b : Bool) (m n : M L (Result T × Registry))
      → Yields m
      → Yields n
      → Yields (if b then m else n)
  Yields-if true m n h k = h
  Yields-if false m n h k = k

  Yields-with_domain :
      (d : Option Domain) (body : Ptr → M L (Result T × Registry))
      → ((p : Ptr) → Yields (body p))
      → Yields (with_domain registry d body)
  unfolding with_domain
  Yields-with_domain none body h = h nil
  Yields-with_domain (some d) body h = Yields-reading _ (
      Yields-if (d.ptr == nil) (pure (err (closed "domain"), registry)) (body d.ptr)
        (Yields-pure _ (refused (closed "domain"))) (h d.ptr))

  Yields-with_connection :
      (c : Option Connect) (body : Ptr → M L (Result T × Registry))
      → ((p : Ptr) → Yields (body p))
      → Yields (with_connection registry c body)
  unfolding with_connection
  Yields-with_connection none body h = Yields-pure _ (refused (closed "connection"))
  Yields-with_connection (some c) body h = Yields-reading _ (
      Yields-if (c.ptr == nil) (pure (err (closed "connection"), registry)) (body c.ptr)
        (Yields-pure _ (refused (closed "connection"))) (h c.ptr))

-- A subscription whose record is in the registry under its token, or an error and nothing changed.
abbrev pub Subscribes : Registry → CallbackRecord → Result Subscription × Registry → Type 0
Subscribes registry r (ok s, left) =
    (left ≡ update registry s.opaque (some r)) × (s.is_closed ≡ false)
Subscribes registry r (err e, left) = left ≡ registry

module _ {L : Type 0} (api : NativeApi L) (thunks : Thunks) (registry : Registry)
    (r : CallbackRecord) (lawful : IsLawful api.allocator) (keeps : ResetKeeps api registry r) where
  subscribed-Subscribes :
      (c : Option Connect) (y : (ℤ × Ptr × Registry) × Option GoError)
      → Says api (Kept api registry r) y
      → Subscribes registry r (subscribed c y)
  unfolding subscribed
  subscribed-Subscribes c (x, none) h = (h, refl)
  subscribed-Subscribes c (x, some e) h = h

  register_any-Says :
      (event_id : ℤ) (thunk conn domain : Ptr) (w : World L)
      → IsLive api registry r w.state
      → (y : (ℤ × Ptr × Registry) × Option GoError) (w' : World L)
      → register_any api thunks registry r event_id thunk conn domain w ≡ some (y, w')
      → Says api (Kept api registry r) y
  unfolding register_any
  register_any-Says event_id thunk conn domain =
      native_call-Says api (Kept api registry r) (IsLive api registry r) _
        "virConnectDomainEventRegisterAny" _ refl (reset-IsLive api registry r keeps)
        (offer-Kept api registry r lawful _)

  -- A registration for domain events, where it returns, either returns an open subscription, and then
  -- the registry has the record of its callback under the token of the subscription and is otherwise
  -- as before, or returns an error, and then the registry is as before: on a closed connection or
  -- domain, on a missing symbol, on a failed allocation and on libvirt's refusal. At the
  -- start each token of the registry has its block, malloc gives no address that is in use, and
  -- virResetLastError leaves the blocks of tokens alone.
  pub register_domain_callback-Subscribes :
      (c : Option Connect) (domain : Option Domain) (event_id : ℤ) (thunk : Ptr) (w : World L)
      → IsLive api registry r w.state
      → (y : Result Subscription × Registry) (w' : World L)
      → register_domain_callback api thunks c domain registry event_id thunk r w ≡ some (y, w')
      → Subscribes registry r y
  unfolding register_domain_callback Yields
  register_domain_callback-Subscribes c domain event_id thunk =
      Yields-with_connection L (IsLive api registry r) registry (Subscribes registry r) (λ e. refl)
        c _
        λ conn.
          Yields-with_domain L (IsLive api registry r) registry (Subscribes registry r) (λ e. refl)
            domain _
            λ d w live y w' e.
              let (x, v, a, b) =
                >>=-inverse (register_any api thunks registry r event_id thunk conn d) _ w e in
              subst (λ z. Subscribes registry r z.0) (some-injective _ (y, w') b)
                (subscribed-Subscribes c x (register_any-Says event_id thunk conn d w live x v a))
