-- ===== src/Handles/Stream/Reading.antt =====
-- `Stream.Read` as an `io.Reader`.
use libvirt_go.Prelude.{none, some, Option, ℕ, ◌≡◌, Bytes, ◌≢◌, ◌∷◌, ap, suc, arith}
use libvirt_go.World.{pure, World}
use mathlib.Core.Option.{some-injective}
use libvirt_go.Native.{NativeApi}
use libvirt_go.Handles.Stream.{received, read, transferred}
use libvirt_go.Prelude.Int.{ℤ, pos, negsuc}
use libvirt_go.Resource.{NativeObject, object_call}
use libvirt_go.Errors.{GoError}
use libvirt_go.Native.Laws.{>>=-inverse}
use Prim.Native.Nat.{zero}

received-some :
    {L : Type 0} (api : NativeApi L) (result : ℤ) (e : Option GoError) (n : ℤ)
    → received api result e ≡ (n, none)
    → (n ≢ pos 0) × (n ≢ negsuc 1) × (n ≡ result)
unfolding received transferred
received-some api result (some e) n h = absurd (cc (ap (λ r. r.1) h))
received-some api (pos zero) none n h = absurd (cc (ap (λ r. r.1) h))
received-some api (pos (suc k)) none n h = ground (arith, h)
received-some api (negsuc k) none n h = ground (arith, h)

module _ {L : Type 0} (api : NativeApi L) where
  -- A `Read` into a buffer that is not empty never returns 0 bytes without an error, which
  -- `io.Reader` discourages, nor libvirt's "would block" code as a count.
  pub read-positive :
      (stream : Option NativeObject) (d : ℕ) (ds filled : Bytes) (n : ℤ) (w w' : World L)
      → read api stream (d ∷ ds) w ≡ some ((filled, (n, none)), w')
      → (n ≢ pos 0) × (n ≢ negsuc 1)
  unfolding read
  read-positive stream d ds filled n w w' e =
      let (x, w₁, _, f) =
        >>=-inverse (object_call api (pos 0, d ∷ ds) stream "virStreamRecv" _)
          (λ x. pure (x.0.1, received api x.0.0 x.1)) w e in
      let (some_bytes, no_block, _) =
        received-some api x.0.0 x.1 n (ap (λ r. r.0.1) (some-injective _ _ f)) in
      (some_bytes, no_block)
