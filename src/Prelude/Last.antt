-- ===== src/Prelude/Last.antt =====
-- The last answer that a function gives in a list.
use mathlib.Core.Path.{◌≡◌, refl}
use mathlib.Core.Logic.{inl, inr}
use mathlib.Core.Option.{Option, none, some}
use mathlib.Core.List.{List, [], ◌∷◌}
use libvirt_go.Prelude.Tests.{Option-cases}

unfoldable pub last {ℓ κ} : {A : Type ℓ} {B : Type κ} → (A → Option B) → List A → Option B
last f [] = none
last f (x ∷ xs) = elim (last f xs) [ some b ↦ some b | none ↦ f x ]

-- The last answer, or an older value.
abbrev pub last_or {ℓ κ} : {A : Type ℓ} {B : Type κ} → (A → Option B) → List A → Option B → Option B
last_or f xs old = elim (last f xs) [ some b ↦ some b | none ↦ old ]

pub last_or-cons {ℓ κ} :
    {A : Type ℓ} {B : Type κ} (f : A → Option B) (x : A) (xs : List A) (old : Option B)
    → last_or f (x ∷ xs) old ≡ last_or f xs (elim (f x) [ some b ↦ some b | none ↦ old ])
unfolding last
last_or-cons f x xs old = elim (Option-cases (last f xs)) [
  | inl e ↦ rw (e, last_or, last) refl
  | inr (b, e) ↦ rw (e, last_or, last) refl
]

-- The last answer where it is itself a value, or an older value.
abbrev pub latest {ℓ κ} : {A : Type ℓ} {B : Type κ} → (A → Option B) → List A → B → B
latest f xs old = elim (last f xs) [ some b ↦ b | none ↦ old ]

pub latest-cons {ℓ κ} :
    {A : Type ℓ} {B : Type κ} (f : A → Option B) (x : A) (xs : List A) (old : B)
    → latest f (x ∷ xs) old ≡ latest f xs (elim (f x) [ some b ↦ b | none ↦ old ])
unfolding last
latest-cons f x xs old = elim (Option-cases (last f xs)) [
  | inl e ↦
      rw (e, latest, last)
        (elim (Option-cases (f x)) [ inl h ↦ rw h refl | inr (b, h) ↦ rw h refl ])
  | inr (b, e) ↦ rw (e, latest, last) refl
]
