-- ===== src/Native/Trace.antt =====
-- What a call of the library leaves in the trace.
use libvirt_go.Prelude.{◌≡◌, String, List, some, ◌∷◌, Option-cases, inl, inr, arith, sym, ap}
use mathlib.Core.Option.{some-injective}
use libvirt_go.World.{World, called}
use libvirt_go.Native.{NativeApi, CFun, Arg, Reply, invoke}

-- A call that does not fault is in the trace.
pub invoke-trace :
    {L : Type 0} (api : NativeApi L) (name : String) (args : List Arg) (w : World L) {r : Reply}
    {w' : World L}
    → invoke api name args w ≡ some (r, w')
    → w'.trace ≡ called name w.pinned ∷ w.trace
unfolding invoke
invoke-trace api name args w e = elim (Option-cases (api.fn name)) [
  | inl h ↦ absurd (cc (rw (h, invoke) at e))
  | inr (f, h) ↦ ground (arith, (rw (h, invoke) at e))
]

-- A call that does not fault is the call of a field that is not nil, with its arguments, on the state
-- of the world.
pub invoke-Invokes :
    {L : Type 0} (api : NativeApi L) (name : String) (args : List Arg) (w : World L) {r : Reply}
    {w' : World L}
    → invoke api name args w ≡ some (r, w')
    → (f : CFun L) × (api.fn name ≡ some f)
      × (r ≡ (f args w.state).0)
      × (w'.state ≡ (f args w.state).1)
      × (w'.pinned ≡ w.pinned)
unfolding invoke
invoke-Invokes api name args w e = elim (Option-cases (api.fn name)) [
  | inl h ↦ absurd (cc (rw (h, invoke) at e))
  | inr (f, h) ↦
      let x = some-injective _ (_, _) (rw (h, invoke) at e) in
      (f, h, sym (ap (λ y. y.0) x), sym (ap (λ y. y.1.state) x), sym (ap (λ y. y.1.pinned) x))
]
