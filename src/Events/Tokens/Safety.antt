-- ===== src/Events/Tokens/Safety.antt =====
-- Tokens are safe: each token that somebody has is in the registry with its own record, is a block of
-- memory, and is given back without a fault.
use libvirt_go.Prelude.{Bytes, Option, none, some, ◌≡◌, ◌≢◌, refl, ap, ◌∙◌, inr}
use libvirt_go.Memory.{Ptr, update, erase, IsLawful}
use libvirt_go.World.{World, with_memory}
use libvirt_go.Native.{NativeApi}
use libvirt_go.Events.{Registry, CallbackRecord, allocate_callback_record, on_free}
use libvirt_go.Events.Registering.{IsLive}
use libvirt_go.Events.Tokens.{Status, absent, pending, held, Process, Reach}
use libvirt_go.Events.Tokens.Invariant.{
  Sound, Reach-Inv, Sound-had, allocate-Allocates, on_free_lem,
}

-- The record that the registry should have for a token.
abbrev pub recorded : Status → Option CallbackRecord
recorded absent = none
recorded (pending r) = some r
recorded (held r) = some r

Sound-recorded :
    (q : Ptr) (st : Status) (o : Option CallbackRecord) (b : Option Bytes)
    → Sound q st o b
    → o ≡ recorded st
Sound-recorded q absent o b h = h
Sound-recorded q (pending r) o b h = h.0
Sound-recorded q (held r) o b h = h.0

Sound-absent :
    (q : Ptr) (st : Status) (o : Option CallbackRecord) (b : Option Bytes)
    → Sound q st o b
    → b ≡ none
    → st ≡ absent
Sound-absent q absent o b h e = refl
Sound-absent q (pending r) o b (k, ne, (x, there)) e = absurd (cc (there, e))
Sound-absent q (held r) o b (k, ne, (x, there)) e = absurd (cc (there, e))

Sound-block_there :
    (q : Ptr) (st : Status) (o : Option CallbackRecord) (b : Option Bytes)
    → Sound q st o b
    → o ≢ none
    → b ≢ none
Sound-block_there q absent o b h known e = known h
Sound-block_there q (pending r) o b (k, ne, (x, there)) known e = cc (there, e)
Sound-block_there q (held r) o b (k, ne, (x, there)) known e = cc (there, e)

module _ {L : Type 0} (api : NativeApi L) {w : World L} {s : Process L}
    (reached : Reach api w s) where
  -- Whatever was registered, refused and released before, in any order, the registry has exactly the
  -- tokens that a registration or libvirt has, each with the record that it was allocated for.
  pub Reach-recorded : (p : Ptr) → s.registry p ≡ recorded (s.status p)
  Reach-recorded p = Sound-recorded p (s.status p) _ _ (Reach-Inv api reached p)

  -- When libvirt gives back a token that it has, the free function does not fault: it frees the block
  -- of the token, which is allocated, and removes its record, and changes nothing else.
  pub Reach-on_free :
      (p : Ptr) (r : CallbackRecord)
      → s.status p ≡ held r
      → on_free api s.registry p s.world
        ≡ some (update s.registry p none, with_memory s.world (erase p s.world.state.memory))
  Reach-on_free p r has =
      let (known, ne, (b, there)) =
        Sound-had p (s.status p) r _ _ (inr has) (Reach-Inv api reached p) in
      on_free_lem api s.registry p r b s.world ne known there

  -- With a lawful allocator no token is given out that a registration or libvirt still has.
  pub Reach-fresh :
      IsLawful api.allocator
      → (p : Ptr) (r : CallbackRecord) (registry : Registry) (v : World L)
      → allocate_callback_record api s.registry r s.world ≡ some ((some p, registry), v)
      → s.status p ≡ absent
  Reach-fresh lawful p r registry v e =
      let (ne, there, left, blocks) =
        allocate-Allocates api s.registry r s.world ((some p, registry), v) e in
      let unused = lawful.fresh s.world.state.memory 1 (λ z. ne (there ∙ z)) in
      Sound-absent p (s.status p) _ _ (Reach-Inv api reached p)
        (ap s.world.state.memory.bytes there ∙ unused.bytes)

  -- Every token of the registry has its block, as a registration needs it.
  Reach-IsLive : (r : CallbackRecord) → IsLive api s.registry r s.world.state
  Reach-IsLive r p known = Sound-block_there p (s.status p) _ _ (Reach-Inv api reached p) known
