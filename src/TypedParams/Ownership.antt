-- ===== src/TypedParams/Ownership.antt =====
-- The legacy marshaller owns what it allocates: the compatible loop of `freeTypedParameterStrings`
-- and `free` give all of it back.
use libvirt_go.Prelude.{◌≡◌, List, Bytes, some, subst, [], sym, ◌∙◌, ◌≢◌, refl, ap, ◌∷◌}
use libvirt_go.Memory.{Ptr, CTypedParameter, Memory, IsUnused, erase}
use libvirt_go.TypedParams.Encode.{free_strings}
use libvirt_go.TypedParams.Encode.Loop.{Grown, none_left, no_owner, owner, Grown-bytes}
use libvirt_go.Memory.Laws.{
  add_bytes, set_array, erase-add_bytes, free-bytes, update_self, erase-set_array, update_ne,
  add_bytes_comm,
}

-- Two blocks of which one was placed beside the other.
unused_apart : (m : Memory) (q p : Ptr) (b : Bytes) → IsUnused (add_bytes q b m) p → q ≢ p
unused_apart m q p b v e =
    let taken : (add_bytes q b m).bytes p ≡ some b =
      subst (λ t. (add_bytes q b m).bytes t ≡ some b) e (update_self m.bytes q (some b)) in
    let free_there = v.bytes in cc (sym taken ∙ free_there)

IsUnused-below :
    (m : Memory) (q p : Ptr) (b : Bytes) → q ≢ p → IsUnused (add_bytes q b m) p → IsUnused m p
IsUnused-below m q p b h v = record {
  bytes = sym (update_ne m.bytes q p (some b) h) ∙ v.bytes;
  params = v.params;
  pointers = v.pointers;
}

IsUnused-above :
    (m : Memory) (q p : Ptr) (d : Bytes) → q ≢ p → IsUnused m q → IsUnused (add_bytes p d m) q
IsUnused-above m q p d h u = record {
  bytes = update_ne m.bytes p q (some d) (λ e. h (sym e)) ∙ u.bytes;
  params = u.params;
  pointers = u.pointers;
}

-- A block that was there before the elements' blocks can be taken away before them.
Grown-erase :
    {base : Ptr} {cs : List CTypedParameter} {k m' : Memory} (m : Memory) (q : Ptr) (b : Bytes)
    → Grown base cs k m'
    → k ≡ add_bytes q b m
    → IsUnused m q
    → Grown base cs m (erase q m')
Grown-erase {base} m q b (none_left k) e u =
    subst (λ j. Grown base [] m (erase q j)) (sym e)
      (subst (λ j. Grown base [] m j) (sym (erase-add_bytes q b m u)) (none_left m))
Grown-erase m q b (no_owner c cs k m' f g) e u = no_owner c cs m _ f (Grown-erase m q b g e u)
Grown-erase m q b (owner c cs k m' p d n o v f g) e u =
    let v' : IsUnused (add_bytes q b m) p = subst (λ j. IsUnused j p) e v in
    let apart = unused_apart m q p b v' in
    owner c cs m _ p d n o (IsUnused-below m q p b apart v') f (
      Grown-erase (add_bytes p d m) q b g (ap (add_bytes p d) e ∙ add_bytes_comm q p b d m apart)
        (IsUnused-above m q p d apart u))

pub free_strings-Grown :
    {base : Ptr} (cs : List CTypedParameter) {m m' : Memory} (xs : List CTypedParameter)
    → Grown base cs m m'
    → free_strings cs (set_array base xs m') ≡ some (set_array base xs m)
unfolding free_strings
free_strings-Grown [] xs (none_left m) = refl
free_strings-Grown {base} (c ∷ cs) xs (no_owner _ _ m m' f g) =
    rw (f (set_array base xs m'), free_strings) (free_strings-Grown cs xs g)
free_strings-Grown {base} (c ∷ cs) xs (owner _ _ m m' q b n o u f g) =
    let freed =
      f (set_array base xs m')
      ∙ free-bytes q b (set_array base xs m') n
          (Grown-bytes q b g (update_self m.bytes q (some b))) in
    rw (freed, free_strings)
      (rw (erase-set_array q base xs m' o) (free_strings-Grown cs xs (Grown-erase m q b g refl u)))
