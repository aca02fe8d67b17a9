-- ===== src/TypedParams/Encode/Loop.antt =====
-- The legacy loop of `encodeTypedParameters` over all parameters: what it leaves in memory, whether
-- it ends or stops for want of memory.
use libvirt_go.TypedParams.Encode.Written.{
  plain, text, out_of_memory, element, Written, encode_param-Written,
}
use libvirt_go.Prelude.{
  ◌≡◌, List, ℕ, [], Bytes, some, Option, replicate, ◌∷◌, arith, refl, suc, ◌≢◌, length, none, false,
  ◌++◌, ==_ne, ap, append_assoc, length-append, All, length-replicate,
}
use libvirt_go.Memory.{
  Ptr, CTypedParameter, Memory, zero_param, IsUnused, nil, free, Allocator, IsLawful,
}
use libvirt_go.TypedParams.Decode.{decode_all, decode_typed_parameter}
use libvirt_go.TypedParams.Encode.{free_text, encode_loop}
use libvirt_go.TypedParams.{TypedParameter, kind_code, string}
use libvirt_go.Errors.{ok, GoError, allocation_failed}
use libvirt_go.Prelude.Int.{eqb_ℤ}
use libvirt_go.Memory.Laws.{set_array, add_bytes, set_array-set_array, update_self}
use libvirt_go.Prelude.Words.{load_le}
use Prim.Native.Nat.{zero}
use libvirt_go.TypedParams.Normal.{IsNormal}

-- From `m` to `m'` one block of bytes was added for each element that owns one, in order, at an
-- address where nothing was; `base` is the array.
pub data Grown (base : Ptr) : List CTypedParameter → Memory → Memory → Type 0 where
  none_left : (m : Memory) → Grown base [] m m
  no_owner :
      (c : CTypedParameter) (cs : List CTypedParameter) (m m' : Memory)
      → ((k : Memory) → free_text c k ≡ some k)
      → Grown base cs m m'
      → Grown base (c ∷ cs) m m'
  owner :
      (c : CTypedParameter) (cs : List CTypedParameter) (m m' : Memory) (q : Ptr) (b : Bytes)
      → q ≢ nil
      → q ≢ base
      → IsUnused m q
      → ((k : Memory) → free_text c k ≡ free q k)
      → Grown base cs (add_bytes q b m) m'
      → Grown base (c ∷ cs) m m'

pub Grown-bytes :
    {base : Ptr} {cs : List CTypedParameter} {m m' : Memory} (q : Ptr) (b : Bytes)
    → Grown base cs m m'
    → m.bytes q ≡ some b
    → m'.bytes q ≡ some b
Grown-bytes q b (none_left m) e = e
Grown-bytes q b (no_owner c cs m m' f g) e = Grown-bytes q b g e
Grown-bytes q b (owner c cs m m' p d n o u f g) e = Grown-bytes q b g (ground (arith, u.bytes))

-- Each element is read back as its parameter.
abbrev pub Reads : List CTypedParameter → List TypedParameter → Memory → Type 0
Reads [] [] m = Unit
Reads (c ∷ cs) (p ∷ ps) m = (decode_typed_parameter c m ≡ some (ok p)) × Reads cs ps m
Reads _ _ m = ⊥

pub Reads-decode_all :
    (cs : List CTypedParameter) (ps : List TypedParameter) (m : Memory)
    → Reads cs ps m
    → decode_all cs m ≡ some (ok ps)
unfolding decode_all
Reads-decode_all [] [] m h = refl
Reads-decode_all (c ∷ cs) (p ∷ ps) m h = rw (h.0, Reads-decode_all cs ps m h.1)
Reads-decode_all [] (p ∷ ps) m h = absurd h
Reads-decode_all (c ∷ cs) [] m h = absurd h

-- How the loop ends on the elements behind `pre`.
pub data LoopEnds (base : Ptr) (pre : List CTypedParameter) (ps : List TypedParameter) (m : Memory)
    (r : Option (Option GoError × Memory)) : Type 0 where
  finished :
      (cs : List CTypedParameter) (m' : Memory)
      → Grown base cs m m'
      → length cs ≡ length ps
      → Reads cs ps m'
      → r ≡ some (none, set_array base (pre ++ cs) m')
      → LoopEnds base pre ps m r
  stopped :
      (cs : List CTypedParameter) (m' : Memory) (e : GoError)
      → Grown base cs m m'
      → length cs ≡ length ps
      → r ≡ some (some e, set_array base (pre ++ cs) m')
      → LoopEnds base pre ps m r

-- Untouched elements own nothing.
zero_param-free_text : (k : Memory) → free_text zero_param k ≡ some k
unfolding free_text
zero_param-free_text k = refl

Grown-zeros : (base : Ptr) (n : ℕ) (m : Memory) → Grown base (replicate n zero_param) m m
Grown-zeros base zero m = none_left m
Grown-zeros base (suc n) m =
    no_owner zero_param (replicate n zero_param) m m zero_param-free_text (Grown-zeros base n m)

-- `free_text` on an element of each sort.
free_text-scalar :
    (p : TypedParameter) (u : Bytes) (k : Memory)
    → eqb_ℤ p.type_ (kind_code string) ≡ false
    → free_text (element p u) k ≡ some k
unfolding free_text
free_text-scalar p u k h = rw h

free_text-nil :
    (p : TypedParameter) (u : Bytes) (k : Memory)
    → p.type_ ≡ kind_code string
    → load_le 8 u ≡ nil
    → free_text (element p u) k ≡ some k
unfolding free_text
free_text-nil p u k c e = rw (c, e)

free_text-string :
    (p : TypedParameter) (u : Bytes) (q : Ptr) (k : Memory)
    → p.type_ ≡ kind_code string
    → load_le 8 u ≡ q
    → q ≢ nil
    → free_text (element p u) k ≡ free q k
unfolding free_text
free_text-string p u q k c e h = rw (c, e, ==_ne q nil h)

IsUnused-set_array :
    (base q : Ptr) (cs : List CTypedParameter) (m : Memory)
    → IsUnused (set_array base cs m) q
    → (q ≢ base) × IsUnused m q
IsUnused-set_array base q cs m u = (
  λ e. ground (arith, u.params),
  record { bytes = u.bytes; params = ground (arith, u.params); pointers = u.pointers },
)

module _ (a : Allocator) (lawful : IsLawful a) (base : Ptr) where
  -- One more element in front of the rest, for each way in which its round ended.
  LoopEnds-cons :
      (pre : List CTypedParameter) (p : TypedParameter) (ps : List TypedParameter) (m m' : Memory)
      (c : CTypedParameter) (r : Option (Option GoError × Memory))
      → ((cs : List CTypedParameter) (k : Memory) → Grown base cs m' k → Grown base (c ∷ cs) m k)
      → ((cs : List CTypedParameter) (k : Memory)
          → Grown base cs m' k
          → decode_typed_parameter c k ≡ some (ok p))
      → LoopEnds base (pre ++ c ∷ []) ps m' r
      → LoopEnds base pre (p ∷ ps) m r
  LoopEnds-cons pre p ps m m' c r grow read (finished cs k g l h e) =
      finished (c ∷ cs) k (grow cs k g) (ap suc l) (read cs k g, h) (rw append_assoc at e)
  LoopEnds-cons pre p ps m m' c r grow read (stopped cs k x g l e) =
      stopped (c ∷ cs) k x (grow cs k g) (ap suc l) (rw append_assoc at e)

  -- The loop goes on behind the element that was written.
  next_round :
      (pre : List CTypedParameter) (ps : List TypedParameter) (zs xs : List CTypedParameter)
      (c : CTypedParameter) (m : Memory)
      → encode_loop a base
          (suc (length pre))
          ps
          (set_array base (pre ++ c ∷ zs) (set_array base xs m))
        ≡ encode_loop a base (length (pre ++ c ∷ [])) ps (set_array base ((pre ++ c ∷ []) ++ zs) m)
  next_round pre ps zs xs c m =
      let len : length (pre ++ c ∷ []) ≡ suc (length pre) =
        omega (arith, length-append pre (c ∷ [])) in
      rw (len, append_assoc, set_array-set_array base xs (pre ++ c ∷ zs) m)

  module _ (p : TypedParameter) (ps : List TypedParameter) (pre : List CTypedParameter)
      (zs : List CTypedParameter) (sized : length zs ≡ length ps)
      (none_owned : (m : Memory) → Grown base zs m m)
      (later : (c : CTypedParameter) (m : Memory)
        → LoopEnds base (pre ++ c ∷ []) ps m (
            encode_loop a base
              (length (pre ++ c ∷ []))
              ps
              (set_array base ((pre ++ c ∷ []) ++ zs) m))) where
    abbrev rest_of : Option (Option GoError × Memory) → Option (Option GoError × Memory)
    rest_of r = elim r [
      | none ↦ none
      | some (e, m') ↦ elim e [
        | some e' ↦ some (some e', m')
        | none ↦ encode_loop a base (suc (length pre)) ps m'
      ]
    ]

    LoopEnds-step :
        (m : Memory) (xs : List CTypedParameter) (r : Option (Option GoError × Memory))
        → Written p base pre zs (set_array base xs m) r
        → LoopEnds base pre (p ∷ ps) m (rest_of r)
    LoopEnds-step m xs r (plain u scalar read e) =
        let c = element p u in
        rw e (
          rw (next_round pre ps zs xs c m) (
            LoopEnds-cons pre p ps m m c _
              (λ cs k g. no_owner c cs m k (λ j. free_text-scalar p u j scalar) g)
              (λ cs k g. read k) (later c m)))
    LoopEnds-step m xs r (text u q b ne unused coded back read e) =
        let c = element p u in
        let (other, free_before) = IsUnused-set_array base q xs m unused in
        rw e (
          rw (next_round pre ps zs xs c (add_bytes q b m)) (
            LoopEnds-cons pre p ps m (add_bytes q b m) c _
              (λ cs k g.
                owner c cs m k q b ne other free_before
                  (λ j. free_text-string p u q j coded back ne) g)
              (λ cs k g. read k (Grown-bytes q b g (update_self m.bytes q (some b))))
              (later c (add_bytes q b m))))
    LoopEnds-step m xs r (out_of_memory u coded back e) =
        let c = element p u in
        rw e (
          stopped (c ∷ zs) m (allocation_failed "typed parameter")
            (no_owner c zs m m (λ j. free_text-nil p u j coded back) (none_owned m)) (ap suc sized)
            (rw (set_array-set_array base xs (pre ++ c ∷ zs) m)))

  pub encode_loop-LoopEnds :
      (ps : List TypedParameter) (pre : List CTypedParameter) (m : Memory)
      → All IsNormal ps
      → LoopEnds base pre ps m (
          encode_loop a base
            (length pre)
            ps
            (set_array base (pre ++ replicate (length ps) zero_param) m))
  unfolding encode_loop
  encode_loop-LoopEnds [] pre m h = finished [] m (none_left m) refl tt refl
  encode_loop-LoopEnds (p ∷ ps) pre m (v, h) =
      LoopEnds-step p ps pre (replicate (length ps) zero_param)
        (length-replicate (length ps) zero_param) (Grown-zeros base (length ps))
        (λ c k. encode_loop-LoopEnds ps (pre ++ c ∷ []) k h) m _ _
        (encode_param-Written a lawful p v base pre (replicate (length ps) zero_param) _
          (update_self m.params base _))
