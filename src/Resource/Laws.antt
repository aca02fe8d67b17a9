-- ===== src/Resource/Laws.antt =====
-- What the calls of resource.go promise: a handle is released once, and what libvirt allocates for
-- a result is given back.
use libvirt_go.Prelude.{
  none, some, String, Option, ◌≡◌, ◌≢◌, ℕ_discrete, sym, ==_ne, refl, ap, ℕ, Bytes, List, ◌++◌,
  Option-cases, ◌∷◌, suc, IsNulFree, inl, ◌≤◌, false, inr, length, take, ◌∙◌, leb, arith,
  if◌then◌else◌, true, ◌==◌, [],
}
use libvirt_go.World.{
  ◌>>=◌, pure, World, M, read_memory, w_lock, with_memory, w_unlock, >>=-step, ◌>>◌,
  read_memory-step, update_memory-step,
}
use libvirt_go.Errors.{GoError, closed}
use mathlib.Core.Option.{some-injective}
use libvirt_go.Native.{NativeApi, api_free, native_call}
use libvirt_go.Resource.{
  NativeObject, object_free, native_object_list, owned, list_handles, slice_pointers, after_write,
  writing, released, status,
}
use libvirt_go.Memory.{Ptr, nil, free, copy_c_string, erase, Memory}
use libvirt_go.Prelude.Int.{ℤ, pos}
use libvirt_go.Memory.Laws.{c_string-append, free-bytes}

slice_pointers-block :
    (p : Ptr) (n : ℕ) (hs : List Ptr) (m : Memory)
    → m.pointers p ≡ some hs
    → n ≤ length hs
    → slice_pointers p n m ≡ some (take n hs)
unfolding slice_pointers
slice_pointers-block p n hs m e h =
    let fits : leb n (length hs) ≡ true = ground arith in rw (e, slice_pointers, fits) refl

copy_c_string-block :
    (q : Ptr) (s rest : Bytes) (m : Memory)
    → q ≢ nil
    → m.bytes q ≡ some (s ++ 0 ∷ rest)
    → IsNulFree s
    → copy_c_string q m ≡ some s
unfolding copy_c_string
copy_c_string-block q s rest m ne e h =
    rw (==_ne q nil ne, e, copy_c_string) (c_string-append s rest h)

free-pointers :
    (q : Ptr) (hs : List Ptr) (m : Memory)
    → q ≢ nil
    → m.pointers q ≡ some hs
    → free q m ≡ some (erase q m)
unfolding free
free-pointers q hs m ne e = ground (arith, ne, e)

module _ {L : Type 0} (api : NativeApi L) where
  -- How a release ends: closed already; failed, with the handle as it was; done.
  pub data Releases (o : NativeObject) (w : World L)
      (r : Option ((Option GoError × Option NativeObject) × World L)) : Type 0 where
    was_closed :
        o.ptr ≡ nil → r ≡ some ((some (closed o.kind), some o), after_write w) → Releases o w r
    kept :
        (e : GoError) (w' : World L)
        → o.ptr ≢ nil
        → r ≡ some ((some e, some o), w')
        → Releases o w r
    done :
        (w' : World L)
        → o.ptr ≢ nil
        → r ≡ some ((none, some (record o { ptr = nil })), w')
        → Releases o w r
    crashed : r ≡ none → Releases o w r

  release_opened :
      (o : NativeObject) (w : World L) (m : M L (ℤ × Option GoError))
      → o.ptr ≢ nil
      → Releases o w (writing (m >>= λ x. pure (released api o x.1)) w)
  release_opened o w m ne = elim (Option-cases (m (record w { trace = w_lock ∷ w.trace }))) [
    | inl fault ↦ crashed (rw (fault, ◌>>=◌) refl)
    | inr (((n, none), w'), h) ↦
        done (record w' { trace = w_unlock ∷ w'.trace }) ne (rw (h, ◌>>=◌) refl)
    | inr (((n, some e), w'), h) ↦
        kept e (record w' { trace = w_unlock ∷ w'.trace }) ne (rw (h, ◌>>=◌) refl)
  ]

  object_free-Releases :
      (o : NativeObject) (operation : String) (release : Ptr → M L ℤ) (w : World L)
      → Releases o w (object_free api (some o) operation release w)
  unfolding object_free
  object_free-Releases o operation release w = elim (ℕ_discrete o.ptr nil) [
    | yes gone ↦ was_closed gone (rw (object_free, gone) refl)
    | no opened ↦
        rw (object_free, ==_ne o.ptr nil opened)
          (release_opened o w (native_call api (pos 0) operation (status release o.ptr)) opened)
  ]

  closed_again :
      (o : NativeObject) (operation : String) (release : Ptr → M L ℤ) (w : World L)
      → object_free api (some (record o { ptr = nil })) operation release w
        ≡ some ((some (closed o.kind), some (record o { ptr = nil })), after_write w)
  unfolding object_free
  closed_again o operation release w = refl

  -- After `objectFree` returned no error every further `objectFree` of the handle fails with
  -- ErrClosed and its kind, in whatever state, without a call of a C function, and the handle stays
  -- closed.
  pub object_free-once :
      (o : NativeObject) (operation : String) (release : Ptr → M L ℤ) (w w' : World L)
      (h : Option NativeObject)
      → object_free api (some o) operation release w ≡ some ((none, h), w')
      → (operation' : String) (release' : Ptr → M L ℤ) (w₁ : World L)
      → object_free api h operation' release' w₁ ≡ some ((some (closed o.kind), h), after_write w₁)
  object_free-once o operation release w w' h e operation' release' w₁ =
      elim (object_free-Releases o operation release w) [
        | was_closed gone r ↦ absurd (cc (r, e))
        | kept e' v opened r ↦ absurd (cc (r, e))
        | crashed r ↦ absurd (cc (r, e))
        | done v opened r ↦
            let same : some (record o { ptr = nil }) ≡ h =
              ap (λ x. x.0.1) (some-injective _ _ (sym r ∙ e)) in
            rw (← same) (closed_again o operation' release' w₁)
      ]

  -- A failed `objectFree` leaves the handle as it was, so that the release can be tried again.
  pub object_free-failed :
      (o : NativeObject) (operation : String) (release : Ptr → M L ℤ) (w w' : World L)
      (e' : GoError) (h : Option NativeObject)
      → object_free api (some o) operation release w ≡ some ((some e', h), w')
      → h ≡ some o
  object_free-failed o operation release w w' e' h e =
      elim (object_free-Releases o operation release w) [
        | was_closed gone r ↦ sym (ap (λ x. x.0.1) (some-injective _ _ (sym r ∙ e)))
        | kept e'' v opened r ↦ sym (ap (λ x. x.0.1) (some-injective _ _ (sym r ∙ e)))
        | crashed r ↦ absurd (cc (r, e))
        | done v opened r ↦ absurd (cc (r, e))
      ]

  -- Where libvirt returned an array of at least as many handles as it counted, and counted any,
  -- `nativeObjectList` returns the counted ones in order and releases the array, and nothing else.
  pub native_object_list-releases :
      (owner : Ptr) (call : Ptr → M L (ℤ × Ptr)) (w v : World L) (n : ℕ) (list : Ptr)
      (hs : List Ptr)
      → call owner w ≡ some ((pos (suc n), list), v)
      → list ≢ nil
      → v.state.memory.pointers list ≡ some hs
      → suc n ≤ length hs
      → native_object_list api owner call w
        ≡ some ((take (suc n) hs, false), with_memory v (erase list v.state.memory))
  unfolding native_object_list list_handles api_free
  native_object_list-releases owner call w v n list hs e ne there enough =
      >>=-step (call owner) (λ x. list_handles api x.0 x.1) w e
        (rw (list_handles, ==_ne list nil ne, ==_ne (suc n) 0 (λ z. absurd (omega arith)))
          (>>=-step (read_memory (slice_pointers list (suc n)))
            (λ handles. api_free api list >> pure (handles, false)) v
            (read_memory-step (slice_pointers list (suc n)) v
              (slice_pointers-block list (suc n) hs v.state.memory there enough))
            (>>=-step (api_free api list) (λ _. pure (take (suc n) hs, false)) v
              (update_memory-step (free list) v (free-pointers list hs v.state.memory ne there))
              refl)))

  -- A text that libvirt allocated for the caller is returned up to its NUL and released, and
  -- nothing else is.
  pub owned-releases :
      (call : Ptr → M L Ptr) (p q : Ptr) (w v : World L) (s rest : Bytes)
      → call p w ≡ some (q, v)
      → q ≢ nil
      → v.state.memory.bytes q ≡ some (s ++ 0 ∷ rest)
      → IsNulFree s
      → owned api call p w ≡ some ((s, false), with_memory v (erase q v.state.memory))
  unfolding owned api_free
  owned-releases call p q w v s rest e ne there nul_free =
      >>=-step (call p)
        (λ value.
          if value == nil
          then pure ([], true)
          else read_memory (copy_c_string value) >>= λ result.
              api_free api value >> pure (result, false))
        w e
        (rw (==_ne q nil ne) (
          >>=-step (read_memory (copy_c_string q))
            (λ result. api_free api q >> pure (result, false)) v
            (read_memory-step (copy_c_string q) v
              (copy_c_string-block q s rest v.state.memory ne there nul_free))
            (>>=-step (api_free api q) (λ _. pure (s, false)) v
              (update_memory-step (free q) v (free-bytes q _ v.state.memory ne there)) refl)))
