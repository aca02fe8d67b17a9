-- ===== src/Resource/Locks.antt =====
-- The lock of a handle around `objectCall`.
use libvirt_go.Prelude.{
  some, List, ◌≡◌, ◌∷◌, String, ◌++◌, suc, Bool, All, Option, sym, ℕ_discrete, ap, ==_ne,
}
use libvirt_go.World.{pure, World, M, Event, r_lock, r_unlock}
use libvirt_go.Errors.{GoError, closed}
use mathlib.Core.Option.{some-injective}
use libvirt_go.Native.{NativeApi, native_call}
use libvirt_go.Resource.{object_call, NativeObject, reading}
use libvirt_go.Native.Laws.{Calls, Quiet, IsCallAt, >>=-inverse, Calls-same, native_call-Calls}
use libvirt_go.Memory.{Ptr, nil}

-- From `w` to `w'` a handle was locked for reading and unlocked, and in between only C functions
-- were called, on a locked thread.
pub record Locked {L : Type 0} (w w' : World L) : Type 0 where
  pub events : List Event
  pub traced : w'.trace ≡ r_unlock ∷ events ++ r_lock ∷ w.trace
  pub at_level : All (IsCallAt (suc w.pinned)) events
  pub kept : w'.pinned ≡ w.pinned

module _ {L : Type 0} (api : NativeApi L) where
  Locked-body :
      {T : Type 0} (body : M L T) (w : World L) (r : T) (w' : World L)
      → ((a : T) (v : World L)
          → body (record w { trace = r_lock ∷ w.trace }) ≡ some (a, v)
          → Calls (suc w.pinned) (record w { trace = r_lock ∷ w.trace }) v)
      → reading body w ≡ some (r, w')
      → Locked w w'
  Locked-body body w r w' h e =
      let (a, v, e₁, f) =
        >>=-inverse body (λ x u. some (x, record u { trace = r_unlock ∷ u.trace }))
          (record w { trace = r_lock ∷ w.trace }) e in
      let c = h a v e₁ in
      let same : w' ≡ record v { trace = r_unlock ∷ v.trace } =
        sym (ap (λ x. x.1) (some-injective _ _ f)) in
      rw same (record {
        events = c.events;
        traced = ap (λ t. r_unlock ∷ t) c.traced;
        at_level = c.at_level;
        kept = c.kept;
      })

  -- Whatever `objectCall` returns on a handle that is not nil, closed or not, with an error or
  -- without, the handle was locked for reading first and unlocked last, and in between only C
  -- functions were called, with the thread locked; the lock of the thread is given back. This holds
  -- of a call that only calls C functions.
  pub object_call-Locked :
      {T : Type 0} (zero_value : T) (o : NativeObject) (operation : String)
      (call : Ptr → M L (T × Bool))
      → ((p : Ptr) → Quiet (call p))
      → (w : World L) (r : T × Option GoError) (w' : World L)
      → object_call api zero_value (some o) operation call w ≡ some (r, w')
      → Locked w w'
  unfolding object_call
  object_call-Locked zero_value o operation call h w r w' e = elim (ℕ_discrete o.ptr nil) [
    | yes gone ↦
        Locked-body (pure (zero_value, some (closed o.kind))) w r w'
          (λ a v f. Calls-same _ _ v (sym (ap (λ x. x.1) (some-injective _ _ f))))
          (rw (gone, object_call) at e)
    | no opened ↦
        Locked-body (native_call api zero_value operation (call o.ptr)) w r w'
          (λ a v f. native_call-Calls api zero_value operation (call o.ptr) (h o.ptr) _ a v f)
          (rw (object_call, ==_ne o.ptr nil opened) at e)
  ]
