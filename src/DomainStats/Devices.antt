-- ===== src/DomainStats/Devices.antt =====
-- The devices of `DomainStats`: a slice that grows, with the map `map[int]int` from an index to its
-- position in the slice, and the sort at the end.
pub mod Laws
pub mod Order
use libvirt_go.Prelude.{
  ℕ, zero, suc, List, [], ◌∷◌, ◌++◌, map, Bytes, Option, none, some, length, leb, ◌==◌,
  if◌then◌else◌,
}

-- `DomainStatsBlock` and `DomainStatsNet`: a member with its flag is an `Option`.
pub record Device (C : Type 0) : Type 0 where
  pub index : ℕ
  pub name : Option Bytes
  pub counter : C → Option ℕ

-- A slice and its map.
pub record Table (C : Type 0) : Type 0 where
  pub devices : List (Device C)
  pub positions : List (ℕ × ℕ)

-- A read of the map.
unfoldable pub position_of : ℕ → List (ℕ × ℕ) → Option ℕ
position_of i [] = none
position_of i ((j, p) ∷ rest) = if j == i then some p else position_of i rest

module _ {C : Type 0} where
  -- `DomainStatsBlock{Index: index}`
  abbrev pub new_device : ℕ → Device C
  new_device i = record { index = i; name = none; counter = λ _. none }

  abbrev pub no_devices : Table C
  no_devices = record { devices = []; positions = [] }

  -- The position of an index, which is given to a new device where the map has none.
  unfoldable pub open_device : Table C → ℕ → Table C × ℕ
  unfolding position_of
  open_device t i = elim (position_of i t.positions) [
    | some p ↦ (t, p)
    | none ↦ (
      record {
        devices = t.devices ++ new_device i ∷ [];
        positions = (i, length t.devices) ∷ t.positions;
      },
      length t.devices,
    )
  ]

  -- A change through `&result.Block[position]`; `none` is the panic out of range.
  unfoldable pub change_at : List (Device C) → ℕ → (Device C → Device C) → Option (List (Device C))
  change_at [] p f = none
  change_at (d ∷ ds) zero f = some (f d ∷ ds)
  change_at (d ∷ ds) (suc p) f = elim (change_at ds p f) [ none ↦ none | some ds' ↦ some (d ∷ ds') ]

  abbrev pub change_opened : Table C × ℕ → (Device C → Device C) → Option (Table C)
  change_opened (t, p) f = elim (change_at t.devices p f) [
    | none ↦ none
    | some ds ↦ some (record t { devices = ds })
  ]

  unfoldable pub change_device : Table C → ℕ → (Device C → Device C) → Option (Table C)
  unfolding open_device change_at
  change_device t i f = change_opened (open_device t i) f

  -- `slices.SortFunc` by the index, as an insertion sort: the indexes differ, so that no other
  -- order is sorted.
  unfoldable pub insert : Device C → List (Device C) → List (Device C)
  insert d [] = d ∷ []
  insert d (e ∷ es) = if leb d.index e.index then d ∷ e ∷ es else e ∷ insert d es

  unfoldable pub sort : List (Device C) → List (Device C)
  unfolding insert
  sort [] = []
  sort (d ∷ ds) = insert d (sort ds)
