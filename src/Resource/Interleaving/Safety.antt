-- ===== src/Resource/Interleaving/Safety.antt =====
-- No use after release and no second release, in every interleaving.
use libvirt_go.Prelude.{
  List, Bool, ◌∷◌, false, ◌≡◌, true, ℕ, ◌≢◌, arith, Bool-cases, refl, inr, inl, String, ◌+◌, ◌⊎◌,
  ℕ_discrete,
}
use libvirt_go.Resource.Interleaving.{
  CCall, Pc, used, Shared, kept, freed, calling, is_writing, Move, freeing, is_inside, assign,
  is_closed, clearing, clear, is_open, free_succeeds, call, System, free_open, free_fails, Step,
  Reach, moves, later, r_locks, start, w_locks,
}
use libvirt_go.Memory.{Ptr, nil}
use mathlib.Core.List.{[]}

abbrev pub is_freed : List CCall → Bool
is_freed [] = false
is_freed (freed p ∷ cs) = true
is_freed (c ∷ cs) = is_freed cs

abbrev pub argument : CCall → Ptr
argument (used p) = p
argument (kept p) = p
argument (freed p) = p

-- Every call is of `p`, and none comes after a release that succeeded.
abbrev pub IsClean : Ptr → List CCall → Type 0
IsClean p [] = Unit
IsClean p (c ∷ cs) = (argument c ≡ p) × (is_freed cs ≡ false) × IsClean p cs

abbrev past_check : Pc → Bool
past_check (calling op) = true
past_check (freeing op) = true
past_check _ = false

record Inv (p : Ptr) (m : Shared) (pc : ℕ → Pc) : Type 0 where
  alone : (i j : ℕ) → is_writing (pc i) ≡ true → is_inside (pc j) ≡ true → i ≡ j
  value : m.ptr ≢ nil → m.ptr ≡ p
  passed : (i : ℕ) → past_check (pc i) ≡ true → m.ptr ≢ nil
  cleared : is_freed m.calls ≡ true → m.ptr ≢ nil → (i : ℕ) × (pc i ≡ clearing)
  released : (i : ℕ) → pc i ≡ clearing → is_freed m.calls ≡ true
  gone : p ≢ nil → m.ptr ≡ nil → is_freed m.calls ≡ true
  clean : IsClean p m.calls

abbrev Clearing : (ℕ → Pc) → Type 0
Clearing pc = (i : ℕ) × (pc i ≡ clearing)

module _ {p : Ptr} {m : Shared} {pc : ℕ → Pc} (inv : Inv p m pc) (i : ℕ) where
  open inv use {passed, cleared, alone}

  -- While a goroutine is past its check the pointer has not been released.
  unfreed : past_check (pc i) ≡ true → is_freed m.calls ≡ false
  unfreed h = elim (Bool-cases (is_freed m.calls)) [
    | inr no_release ↦ no_release
    | inl release ↦ let (j, at) = cleared release (passed i h) in absurd (ground (arith, alone j i))
  ]

module _ {present : String → Bool} {p : Ptr} {m : Shared} {pc : ℕ → Pc} (inv : Inv p m pc)
    (i : ℕ) where
  open inv use {alone, value, passed, cleared, released, gone, clean}

  Move-alone :
      {q q' : Pc} {m' : Shared}
      → Move present m q m' q'
      → pc i ≡ q
      → (a b : ℕ) → is_writing (assign pc i q' a) ≡ true
      → is_inside (assign pc i q' b) ≡ true
      → a ≡ b
  Move-alone (is_closed op g) e a b x y = ground (arith, alone a b, alone i b, alone a i)
  Move-alone mv e a b x y = ground (arith, alone a b, alone i b, alone a i)

  Move-value : {q q' : Pc} {m' : Shared} → Move present m q m' q' → m'.ptr ≢ nil → m'.ptr ≡ p
  Move-value (is_closed op g) = value
  Move-value clear = λ ne. absurd (ne refl)
  Move-value mv = value

  Move-passed :
      {q q' : Pc} {m' : Shared}
      → Move present m q m' q'
      → pc i ≡ q
      → (a : ℕ) → past_check (assign pc i q' a) ≡ true
      → m'.ptr ≢ nil
  Move-passed (is_open op g) e a x = ground (arith, passed a, g)
  Move-passed (free_open op g) e a x = ground (arith, passed a, g)
  Move-passed mv e a x = ground (arith, passed a, passed i, alone i a)

  Move-cleared :
      {q q' : Pc} {m' : Shared}
      → Move present m q m' q'
      → pc i ≡ q
      → is_freed m'.calls ≡ true
      → m'.ptr ≢ nil
      → Clearing (assign pc i q')
  Move-cleared (free_succeeds op g) e r ne = (i, ground arith)
  Move-cleared clear e r ne = absurd (ne refl)
  Move-cleared mv e r ne = let (k, at) = cleared r ne in (k, ground arith)

  Move-released :
      {q q' : Pc} {m' : Shared}
      → Move present m q m' q'
      → pc i ≡ q
      → (a : ℕ) → assign pc i q' a ≡ clearing
      → is_freed m'.calls ≡ true
  Move-released (is_closed op g) e a x = ground (arith, released a)
  Move-released (call op g) e a x = ground (arith, released a, alone a i)
  Move-released (free_fails op g) e a x = ground (arith, released a, alone a i)
  Move-released (free_succeeds op g) e a x = refl
  Move-released mv e a x = ground (arith, released a)

  Move-gone :
      {q q' : Pc} {m' : Shared}
      → Move present m q m' q'
      → pc i ≡ q
      → p ≢ nil
      → m'.ptr ≡ nil
      → is_freed m'.calls ≡ true
  Move-gone (is_closed op g) e ne x = gone ne x
  Move-gone (call op g) e ne x = gone ne x
  Move-gone (free_fails op g) e ne x = gone ne x
  Move-gone (free_succeeds op g) e ne x = refl
  Move-gone clear e ne x = released i e
  Move-gone mv e ne x = gone ne x

  Move-IsClean : {q q' : Pc} {m' : Shared} → Move present m q m' q' → pc i ≡ q → IsClean p m'.calls
  Move-IsClean (call op g) e = ground (arith, value, passed i, unfreed inv i, clean)
  Move-IsClean (free_fails op g) e = ground (arith, value, passed i, unfreed inv i, clean)
  Move-IsClean (free_succeeds op g) e = ground (arith, value, passed i, unfreed inv i, clean)
  Move-IsClean mv e = clean

  Move-Inv : {q' : Pc} {m' : Shared} → Move present m (pc i) m' q' → Inv p m' (assign pc i q')
  Move-Inv mv = record {
    alone = Move-alone mv refl;
    value = Move-value mv;
    passed = Move-passed mv refl;
    cleared = Move-cleared mv refl;
    released = Move-released mv refl;
    gone = Move-gone mv refl;
    clean = Move-IsClean mv refl;
  }

Step-Inv :
    {present : String → Bool} {p : Ptr} {s t : System}
    → Step present s t
    → Inv p s.shared s.pc
    → Inv p t.shared t.pc
Step-Inv (moves i mv) inv = Move-Inv inv i mv
Step-Inv (r_locks i op e free) inv = record {
  alone = λ a b x y. ground (arith, free a, inv.alone a b);
  value = inv.value;
  passed = λ a x. ground (arith, inv.passed a);
  cleared = λ r ne. let (k, at) = inv.cleared r ne in (k, ground arith);
  released = λ a x. ground (arith, inv.released a);
  gone = inv.gone;
  clean = inv.clean;
}
Step-Inv (w_locks i op e free) inv = record {
  alone = λ a b x y. ground (arith, free a, free b, inv.alone a b);
  value = inv.value;
  passed = λ a x. ground (arith, inv.passed a);
  cleared = λ r ne. let (k, at) = inv.cleared r ne in (k, ground arith);
  released = λ a x. ground (arith, inv.released a);
  gone = inv.gone;
  clean = inv.clean;
}

Reach-Inv :
    {present : String → Bool} {p : Ptr} {s : System} → Reach present p s → Inv p s.shared s.pc
Reach-Inv start = record {
  alone = λ a b x y. cc x;
  value = λ ne. refl;
  passed = λ a x. cc x;
  cleared = λ r ne. cc r;
  released = λ a x. cc x;
  gone = λ ne x. absurd (ne x);
  clean = tt;
}
Reach-Inv (later r st) = Step-Inv st (Reach-Inv r)

-- However the goroutines interleave, every C function is called with the pointer that the handle
-- was created with, and none is called after a release that succeeded: no use after it, and no
-- second release.
pub Reach-IsClean :
    {present : String → Bool} {p : Ptr} {s : System} → Reach present p s → IsClean p s.shared.calls
Reach-IsClean r = (Reach-Inv r).clean

-- The releases that succeeded.
abbrev pub count_freed : List CCall → ℕ
count_freed [] = 0
count_freed (freed p ∷ cs) = 1 + count_freed cs
count_freed (c ∷ cs) = count_freed cs

count_freed-is_freed : (cs : List CCall) → is_freed cs ≡ false → count_freed cs ≡ 0
count_freed-is_freed [] h = refl
count_freed-is_freed (used p ∷ cs) h = count_freed-is_freed cs h
count_freed-is_freed (kept p ∷ cs) h = count_freed-is_freed cs h
count_freed-is_freed (freed p ∷ cs) h = absurd (cc h)

IsClean-count_freed :
    (p : Ptr) (cs : List CCall) → IsClean p cs → is_freed cs ≡ true → count_freed cs ≡ 1
IsClean-count_freed p [] c h = cc h
IsClean-count_freed p (used q ∷ cs) c h = IsClean-count_freed p cs c.2 h
IsClean-count_freed p (kept q ∷ cs) c h = IsClean-count_freed p cs c.2 h
IsClean-count_freed p (freed q ∷ cs) c h = rw (count_freed-is_freed cs c.1) refl

-- However the goroutines interleave, a handle that was created with a pointer other than nil either
-- still has it, and no release has succeeded, or its pointer is nil, and exactly one has: whenever no
-- goroutine stands between a release that succeeded and the write of nil behind it.
pub Reach-settled :
    {present : String → Bool} {p : Ptr} {s : System}
    → Reach present p s
    → p ≢ nil
    → ((i : ℕ) → s.pc i ≢ clearing)
    → ((s.shared.ptr ≡ p) × (count_freed s.shared.calls ≡ 0))
      ⊎ ((s.shared.ptr ≡ nil) × (count_freed s.shared.calls ≡ 1))
Reach-settled {p = p} {s = s} r ne settled =
    let inv = Reach-Inv r in
    elim (ℕ_discrete s.shared.ptr nil) [
      | yes closed ↦
          inr (closed, IsClean-count_freed p s.shared.calls inv.clean (inv.gone ne closed))
      | no opened ↦ inl (
        inv.value opened,
        elim (Bool-cases (is_freed s.shared.calls)) [
          | inr no_release ↦ count_freed-is_freed s.shared.calls no_release
          | inl release ↦ let (i, at) = inv.cleared release opened in absurd (settled i at)
        ],
      )
    ]
