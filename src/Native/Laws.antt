-- ===== src/Native/Laws.antt =====
-- What runs between `LockOSThread` and `UnlockOSThread` in `nativeCall`: every C call of an
-- operation, and the read of the error that it leaves.
use libvirt_go.Prelude.{
  ℕ, suc, ◌≤◌, List, [], ◌∷◌, ◌++◌, ◌≡◌, refl, Option, none, some, arith, All, append_assoc,
  Option-cases, inl, inr, Bool, true, false, String, sym, ◌∙◌, ap, ◌-◌, Bool-cases, ◌==◌,
}
use mathlib.Core.Option.{some-injective}
use libvirt_go.World.{World, M, Event, called, pure, ◌>>=◌, read_memory, unlock_os_thread}
use libvirt_go.Native.{
  NativeApi, invoke, call_int, call_ptr, reset_last_error, Arg, error_at, last_error, outcome,
  error_record, native_call, require_symbol,
}
use libvirt_go.Memory.{Memory, Ptr, nil, copy_c_string}
use libvirt_go.Errors.{GoError, libvirt_error, bare_error}

-- The event is a call of a C function, with at least `n` locks of the thread open.
abbrev pub IsCallAt : ℕ → Event → Type 0
IsCallAt n (called name k) = n ≤ k
IsCallAt n _ = ⊥

-- From `w` to `w'` C functions were called so, and nothing else was logged.
pub record Calls {L : Type 0} (n : ℕ) (w w' : World L) : Type 0 where
  pub events : List Event
  pub traced : w'.trace ≡ events ++ w.trace
  pub at_level : All (IsCallAt n) events
  pub kept : w'.pinned ≡ w.pinned

-- A program that does nothing but call C functions, and gives back the locks of the thread.
abbrev pub Quiet : {L A : Type 0} → M L A → Type 0
Quiet {L} {A} m = (w : World L) (a : A) (w' : World L) → m w ≡ some (a, w') → Calls w.pinned w w'

All-append {ℓ} :
    {A : Type ℓ} (P : A → Type 0) (xs ys : List A) → All P xs → All P ys → All P (xs ++ ys)
All-append P [] ys h k = k
All-append P (x ∷ xs) ys (p, h) k = (p, All-append P xs ys h k)

Calls-trans :
    {L : Type 0} {n : ℕ} {w w' w'' : World L} → Calls n w w' → Calls n w' w'' → Calls n w w''
Calls-trans {n = n} f g = record {
  events = g.events ++ f.events;
  traced = g.traced ∙ ap (λ t. g.events ++ t) f.traced ∙ sym (append_assoc g.events f.events _);
  at_level = All-append (IsCallAt n) g.events f.events g.at_level f.at_level;
  kept = g.kept ∙ f.kept;
}

pub >>=-inverse :
    {L A B : Type 0} (m : M L A) (f : A → M L B) (w : World L) {r : B × World L}
    → (m >>= f) w ≡ some r
    → (a : A) × (w' : World L) × (m w ≡ some (a, w')) × (f a w' ≡ some r)
>>=-inverse m f w e = elim (Option-cases (m w)) [
  | inl fault ↦ absurd (cc (fault, e))
  | inr ((a, w'), h) ↦ (a, w', h, rw (h, ◌>>=◌) at e)
]

-- The worlds of a result that is known.
after : {L A : Type 0} (r r' : A × World L) → some r ≡ some r' → r'.1 ≡ r.1
after r r' e = sym (ap (λ x. x.1) (some-injective r r' e))

pub Calls-same : {L : Type 0} (n : ℕ) (w w' : World L) → w' ≡ w → Calls n w w'
Calls-same n w w' e = rw e (record { events = []; traced = refl; at_level = tt; kept = refl })

pub Quiet-pure : {L A : Type 0} (a : A) → Quiet {L = L} (pure a)
Quiet-pure a w b w' e = Calls-same w.pinned w w' (after (a, w) (b, w') e)

pub Quiet-bind :
    {L A B : Type 0} (m : M L A) (f : A → M L B)
    → Quiet m
    → ((a : A) → Quiet (f a))
    → Quiet (m >>= f)
Quiet-bind m f h k w b w'' e =
    let (a, w', e₁, e₂) = >>=-inverse m f w e in
    let first = h w a w' e₁ in Calls-trans first (rw first.kept at (k a w' b w'' e₂))

pub Quiet-fault : {L A : Type 0} → Quiet {L = L} {A = A} (λ _. none)
Quiet-fault w b w' e = absurd (cc e)

pub Quiet-read_memory : {L A : Type 0} (f : Memory → Option A) → Quiet {L = L} (read_memory f)
unfolding read_memory
Quiet-read_memory f w b w' e = elim (Option-cases (f w.state.memory)) [
  | inl fault ↦ absurd (cc (fault, e))
  | inr (a, h) ↦ Calls-same w.pinned w w' (after (a, w) (b, w') (rw (h, read_memory) at e))
]

module _ {L : Type 0} (api : NativeApi L) where
  pub Quiet-invoke : (name : String) (args : List Arg) → Quiet (invoke api name args)
  unfolding invoke
  Quiet-invoke name args w r w' e = elim (Option-cases (api.fn name)) [
    | inl fault ↦ absurd (cc (fault, e))
    | inr (f, h) ↦
        rw
          (after
            (
              (f args w.state).0,
              record w { state = (f args w.state).1; trace = called name w.pinned ∷ w.trace },
            )
            (r, w') (rw (h, invoke) at e))
          (record {
            events = called name w.pinned ∷ [];
            traced = refl;
            at_level = (omega arith, tt);
            kept = refl;
          })
  ]

  pub Quiet-call_int : (name : String) (args : List Arg) → Quiet (call_int api name args)
  unfolding call_int
  Quiet-call_int name args =
      Quiet-bind (invoke api name args) _ (Quiet-invoke name args) λ r. Quiet-pure _

  pub Quiet-call_ptr : (name : String) (args : List Arg) → Quiet (call_ptr api name args)
  unfolding call_ptr
  Quiet-call_ptr name args =
      Quiet-bind (invoke api name args) _ (Quiet-invoke name args) λ r. Quiet-pure _

  Quiet-reset_last_error : Quiet (reset_last_error api)
  unfolding reset_last_error
  Quiet-reset_last_error w r w' e = elim (Option-cases (api.fn "virResetLastError")) [
    | inl unset ↦
        Calls-same w.pinned w w' (after (tt, w) (r, w') (rw (unset, reset_last_error) at e))
    | inr (f, h) ↦
        Quiet-bind (invoke api "virResetLastError" []) (λ r. pure tt)
          (Quiet-invoke "virResetLastError" []) (λ r. Quiet-pure tt) w r w'
          (rw (h, reset_last_error) at e)
  ]

  -- The error record that libvirt keeps, copied.
  Quiet-error_at : (operation : String) (p : Ptr) → Quiet (error_at api operation p)
  unfolding error_at error_record
  Quiet-error_at operation p = elim (Bool-cases (p == nil)) [
    | inl empty ↦ rw (error_at, empty) (Quiet-pure _)
    | inr full ↦
        rw (error_at, full)
          (Quiet-bind (read_memory (error_record api p)) _ (Quiet-read_memory _) λ e.
            Quiet-bind (read_memory (copy_c_string e.message)) _ (Quiet-read_memory _)
              λ message. Quiet-pure _)
  ]

  pub Quiet-last_error : (operation : String) → Quiet (last_error api operation)
  unfolding last_error
  Quiet-last_error operation w r w' e = elim (Option-cases (api.fn "virGetLastError")) [
    | inl unset ↦
        Calls-same w.pinned w w'
          (after (libvirt_error (bare_error operation), w) (r, w') (rw (unset, last_error) at e))
    | inr (f, h) ↦
        Quiet-bind (call_ptr api "virGetLastError" []) (error_at api operation)
          (Quiet-call_ptr "virGetLastError" []) (Quiet-error_at operation) w r w'
          (rw (h, last_error) at e)
  ]

  Quiet-outcome :
      {T : Type 0} (operation : String) (v : T) (failed : Bool)
      → Quiet (outcome api operation v failed)
  unfolding outcome
  Quiet-outcome operation v true =
      Quiet-bind (last_error api operation) _ (Quiet-last_error operation) λ e. Quiet-pure _
  Quiet-outcome operation v false = Quiet-pure _

  -- What `nativeCall` runs with the thread locked, from the lock to the unlock.
  within :
      {T : Type 0} (operation : String) (call : M L (T × Bool))
      → Quiet call
      → (w : World L) {r : T × Option GoError} {w' : World L}
      → (reset_last_error api >>= λ _.
            call >>= λ x. outcome api operation x.0 x.1 >>= λ y. unlock_os_thread >>= λ _. pure y)
          w
        ≡ some (r, w')
      → (v : World L) × Calls w.pinned w v × (w' ≡ record v { pinned = v.pinned - 1 })
  within operation call h w {r} {w'} e =
      let (a, w₁, e₁, f₁) = >>=-inverse (reset_last_error api) _ w e in
      let (x, w₂, e₂, f₂) = >>=-inverse call _ w₁ f₁ in
      let (y, w₃, e₃, f₃) = >>=-inverse (outcome api operation x.0 x.1) _ w₂ f₂ in
      let c₁ = Quiet-reset_last_error w a w₁ e₁ in
      let c₂ = Calls-trans c₁ (rw c₁.kept at (h w₁ x w₂ e₂)) in
      let c₃ = Calls-trans c₂ (rw c₂.kept at (Quiet-outcome operation x.0 x.1 w₂ y w₃ e₃)) in
      (w₃, c₃, after (y, record w₃ { pinned = w₃.pinned - 1 }) (r, w') f₃)

  -- Where a call that only calls C functions goes through `nativeCall` and returns, with an error
  -- or without, only C functions were called between its entry and its exit, each with one more lock
  -- of the thread than outside, the read of the error among them; the lock is given back.
  pub native_call-Calls :
      {T : Type 0} (zero_value : T) (operation : String) (call : M L (T × Bool))
      → Quiet call
      → (w : World L) (r : T × Option GoError) (w' : World L)
      → native_call api zero_value operation call w ≡ some (r, w')
      → Calls (suc w.pinned) w w'
  unfolding native_call
  native_call-Calls zero_value operation call h w r w' e =
      elim (Option-cases (require_symbol api operation)) [
        | inr (e', missing) ↦
            Calls-same (suc w.pinned) w w'
              (after ((zero_value, some e'), w) (r, w') (rw (missing, native_call) at e))
        | inl there ↦
            let (v, c, back) =
              within operation call h (record w { pinned = suc w.pinned }) {r = r} {w' = w'}
                (rw (there, native_call) at e) in
            rw back (record {
              events = c.events;
              traced = c.traced;
              at_level = c.at_level;
              kept = omega (arith, c.kept);
            })
      ]
