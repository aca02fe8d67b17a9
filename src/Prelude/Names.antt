-- ===== src/Prelude/Names.antt =====
-- Members that are known by a name: the search of a `switch` over names, and stores by member.
use mathlib.Core.Path.{◌≡◌, ap, ◌∙◌}
use mathlib.Core.Logic.{inl, inr}
use mathlib.Core.Option.{Option, none, some, some-injective}
use mathlib.Core.List.{List, [], ◌∷◌}
use libvirt_go.Prelude.Tests.{if◌then◌else◌, Bool-cases}
use libvirt_go.Prelude.Text.{Bytes, bytes_eq, bytes_eq_iff}

module _ {C : Type 0} (name : C → Bytes) where
  -- The member of a name, the first in the list that has it.
  abbrev pub search : Bytes → List C → Option C
  search field [] = none
  search field (c ∷ cs) =
      let rest = search field cs in if bytes_eq field (name c) then some c else rest

  pub search-some :
      (field : Bytes) (cs : List C) (c : C) → search field cs ≡ some c → field ≡ name c
  search-some field [] c e = cc e
  search-some field (d ∷ cs) c e = elim (Bool-cases (bytes_eq field (name d))) [
    | inl same ↦
        (bytes_eq_iff field (name d)).0 same ∙ ap name (some-injective d c (rw (same, search) at e))
    | inr differs ↦ search-some field cs c (rw (differs, search) at e)
  ]

  -- The members' values with one of them replaced.
  abbrev pub put {ℓ} : {A : Type ℓ} → (C → A) → C → A → C → A
  put values c a d = if bytes_eq (name c) (name d) then a else values d
