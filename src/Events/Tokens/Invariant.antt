-- ===== src/Events/Tokens/Invariant.antt =====
-- What holds of the tokens in every step: the registry, the blocks and who has the tokens agree.
use libvirt_go.Prelude.{
  Bytes, Option, none, some, ◌≡◌, ◌≢◌, ◌⊎◌, refl, sym, ap, ◌∙◌, ◌==◌, inl, inr, Bool-cases, subst,
  arith, ==_iff, ==_ne,
}
use mathlib.Core.Option.{some-injective}
use libvirt_go.Memory.{Ptr, nil, update, malloc, free, erase}
use libvirt_go.World.{World, change_memory, update_memory, with_memory, >>=-step}
use libvirt_go.Native.{NativeApi, api_malloc, api_free}
use libvirt_go.Native.Laws.{>>=-inverse}
use libvirt_go.Events.{
  Registry, CallbackRecord, allocate_callback_record, discard_callback_record, on_free,
}
use libvirt_go.Events.Tokens.{
  Status, absent, pending, held, Process, with_status, block, Step, allocates, fails, accepts,
  refuses, releases, elsewhere, Reach, start, later,
}

module _ {L : Type 0} (api : NativeApi L) where
  -- The token that an allocation gives, and the blocks behind it.
  abbrev Mallocs : World L → Ptr × World L → Type 0
  Mallocs w (p, v) =
      ((p ≡ nil) × ((q : Ptr) → block v q ≡ block w q))
      ⊎ ((p ≢ nil)
          × (p ≡ api.allocator.place w.state.memory 1)
          × ((b : Bytes) × ((q : Ptr) → block v q ≡ update (block w) p (some b) q)))

  api_malloc-Mallocs : (w : World L) (x : Ptr × World L) → api_malloc api 1 w ≡ some x → Mallocs w x
  unfolding api_malloc change_memory malloc
  api_malloc-Mallocs w x e = elim (Bool-cases (api.allocator.place w.state.memory 1 == nil)) [
    | inl h ↦
        subst (Mallocs w) (some-injective _ x (rw (h, api_malloc, change_memory, malloc) at e))
          (inl (refl, λ q. refl))
    | inr h ↦
        subst (Mallocs w) (some-injective _ x (rw (h, api_malloc, change_memory, malloc) at e))
          (inr (ground (arith, h), refl, (api.allocator.contents w.state.memory 1, λ q. refl)))
  ]

  -- A block is freed without a fault.
  api_free-block :
      (p : Ptr) (b : Bytes) (w : World L)
      → p ≢ nil
      → block w p ≡ some b
      → api_free api p w ≡ some (tt, with_memory w (erase p w.state.memory))
  unfolding api_free update_memory free
  api_free-block p b w ne e = rw (==_ne p nil ne, e, api_free, update_memory, free) refl

-- What there is of a token: nothing in the registry, or its record, and a block.
abbrev pub Sound : Ptr → Status → Option CallbackRecord → Option Bytes → Type 0
Sound q absent o b = o ≡ none
Sound q (pending r) o b = (o ≡ some r) × (q ≢ nil) × ((x : Bytes) × (b ≡ some x))
Sound q (held r) o b = (o ≡ some r) × (q ≢ nil) × ((x : Bytes) × (b ≡ some x))

abbrev pub Inv : {L : Type 0} → Process L → Type 0
Inv s = (q : Ptr) → Sound q (s.status q) (s.registry q) (block s.world q)

Sound-block :
    (q : Ptr) (st : Status) (o : Option CallbackRecord) (b c : Option Bytes)
    → Sound q st o b
    → (st ≢ absent → c ≡ b)
    → Sound q st o c
Sound-block q absent o b c h same = h
Sound-block q (pending r) o b c (k, ne, (x, e)) same = (k, ne, (x, same (λ z. cc z) ∙ e))
Sound-block q (held r) o b c (k, ne, (x, e)) same = (k, ne, (x, same (λ z. cc z) ∙ e))

-- A token that is had has a record and a block.
pub Sound-had :
    (q : Ptr) (st : Status) (r : CallbackRecord) (o : Option CallbackRecord) (b : Option Bytes)
    → (st ≡ pending r) ⊎ (st ≡ held r)
    → Sound q st o b
    → (o ≡ some r) × (q ≢ nil) × ((x : Bytes) × (b ≡ some x))
Sound-had q st r o b (inl e) h = subst (λ t. Sound q t o b) e h
Sound-had q st r o b (inr e) h = subst (λ t. Sound q t o b) e h

module _ {L : Type 0} (s : Process L) (inv : Inv s) (p : Ptr) (st : Status) where
  -- A change of one token.
  changed-Inv :
      (o : Option CallbackRecord) (b : Option Bytes) (registry : Registry) (w : World L)
      → Sound p st o b
      → registry ≡ update s.registry p o
      → ((q : Ptr) → block w q ≡ update (block s.world) p b q)
      → Inv (record { registry = registry; world = w; status = with_status s.status p st })
  changed-Inv o b registry w h er eb q = elim (Bool-cases (q == p)) [
    | inl e ↦ let same : q ≡ p = (==_iff q p).0 e in rw (er, eb q, e) (rw same h)
    | inr e ↦ rw (er, eb q, e) (inv q)
  ]

  passed-Inv :
      Sound p st (s.registry p) (block s.world p)
      → Inv (record s { status = with_status s.status p st })
  passed-Inv h q = elim (Bool-cases (q == p)) [
    | inl e ↦ let same : q ≡ p = (==_iff q p).0 e in rw e (rw same h)
    | inr e ↦ rw e (inv q)
  ]

module _ {L : Type 0} (api : NativeApi L) (registry : Registry) where
  abbrev pub Allocates : CallbackRecord → World L → (Option Ptr × Registry) × World L → Type 0
  Allocates r w ((none, left), v) = (left ≡ registry) × ((q : Ptr) → block v q ≡ block w q)
  Allocates r w ((some p, left), v) =
      (p ≢ nil)
      × (p ≡ api.allocator.place w.state.memory 1)
      × (left ≡ update registry p (some r))
      × ((b : Bytes) × ((q : Ptr) → block v q ≡ update (block w) p (some b) q))

  pub allocate-Allocates :
      (r : CallbackRecord) (w : World L) (x : (Option Ptr × Registry) × World L)
      → allocate_callback_record api registry r w ≡ some x
      → Allocates r w x
  unfolding allocate_callback_record
  allocate-Allocates r w x e =
      let (p, v, a, b) = >>=-inverse (api_malloc api 1) _ w e in
      elim (api_malloc-Mallocs api w (p, v) a) [
        | inl (is_nil, same) ↦
            subst (Allocates r w) (some-injective _ x (rw ((==_iff p nil).1 is_nil) at b))
              (refl, same)
        | inr (ne, there, kept) ↦
            subst (Allocates r w) (some-injective _ x (rw (==_ne p nil ne) at b))
              (ne, there, refl, kept)
      ]

  discard_lem :
      (p : Ptr) (b : Bytes) (w : World L)
      → p ≢ nil
      → block w p ≡ some b
      → discard_callback_record api registry p w
        ≡ some (update registry p none, with_memory w (erase p w.state.memory))
  unfolding discard_callback_record
  discard_lem p b w ne e = >>=-step (api_free api p) _ w (api_free-block api p b w ne e) refl

  pub on_free_lem :
      (p : Ptr) (r : CallbackRecord) (b : Bytes) (w : World L)
      → p ≢ nil
      → registry p ≡ some r
      → block w p ≡ some b
      → on_free api registry p w
        ≡ some (update registry p none, with_memory w (erase p w.state.memory))
  unfolding on_free
  on_free_lem p r b w ne known e =
      rw (known, on_free) (>>=-step (api_free api p) _ w (api_free-block api p b w ne e) refl)

module _ {L : Type 0} (api : NativeApi L) where
  -- What gives a token back leaves the others sound.
  back-Inv :
      (s : Process L) (inv : Inv s) (p : Ptr) {registry : Registry} {w : World L}
      → ◌≡◌ {A = Option (Registry × World L)}
          (some (update s.registry p none, with_memory s.world (erase p s.world.state.memory)))
          (some (registry, w))
      → Inv (record { registry = registry; world = w; status = with_status s.status p absent })
  back-Inv s inv p {registry} {w} e =
      let same = some-injective _ (registry, w) e in
      changed-Inv s inv p absent none none registry w refl (sym (ap (λ x. x.0) same))
        (λ q. ap (λ x. block x.1 q) (sym same))

  Step-Inv : {s t : Process L} → Inv s → Step api s t → Inv t
  Step-Inv {s} inv (allocates r p {registry} {w} e) =
      let (ne, there, left, (b, blocks)) =
        allocate-Allocates api s.registry r s.world ((some p, registry), w) e in
      changed-Inv s inv p (pending r) (some r) (some b) registry w (refl, ne, (b, refl)) left blocks
  Step-Inv {s} inv (fails r {registry} {w} e) =
      let (left, blocks) = allocate-Allocates api s.registry r s.world ((none, registry), w) e in
      λ q. rw (left, blocks q) (inv q)
  Step-Inv {s} inv (accepts p r has) =
      passed-Inv s inv p (held r) (Sound-had p (s.status p) r _ _ (inl has) (inv p))
  Step-Inv {s} inv (refuses p r has e) =
      let (known, ne, (b, there)) = Sound-had p (s.status p) r _ _ (inl has) (inv p) in
      back-Inv s inv p (sym (discard_lem api s.registry p b s.world ne there) ∙ e)
  Step-Inv {s} inv (releases p r has e) =
      let (known, ne, (b, there)) = Sound-had p (s.status p) r _ _ (inr has) (inv p) in
      back-Inv s inv p (sym (on_free_lem api s.registry p r b s.world ne known there) ∙ e)
  Step-Inv {s} inv (elsewhere w same) =
      λ q. Sound-block q (s.status q) (s.registry q) (block s.world q) (block w q) (inv q) (same q)

  pub Reach-Inv : {w : World L} {s : Process L} → Reach api w s → Inv s
  Reach-Inv start = λ q. refl
  Reach-Inv (later r st) = Step-Inv (Reach-Inv r) st
