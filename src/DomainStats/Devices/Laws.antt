-- ===== src/DomainStats/Devices/Laws.antt =====
-- What a table of devices is to its reader: a finite map from indexes, and in its final order.
use libvirt_go.Prelude.{
  ℕ, zero, suc, ◌<◌, ◌≡◌, refl, List, [], ◌∷◌, ◌++◌, Option, none, some, length, ◌==◌,
  if◌then◌else◌, All, arith, Option-cases, Bool-cases, inl, inr, ap, sym, ◌∙◌,
}
use libvirt_go.DomainStats.Devices.{
  Device, Table, position_of, new_device, no_devices, open_device, change_at, change_device,
  change_opened,
}

module _ {C : Type 0} where
  -- The first device of an index, and its position.
  unfoldable pub find : ℕ → List (Device C) → Option (Device C)
  find i [] = none
  find i (d ∷ ds) = let rest = find i ds in if d.index == i then some d else rest

  pub locate : ℕ → List (Device C) → Option ℕ
  locate i [] = none
  locate i (d ∷ ds) =
      let rest = locate i ds in
      if d.index == i then some 0 else elim rest [ some p ↦ some (suc p) | none ↦ none ]

  -- No index stands twice.
  abbrev pub IsDistinct : List (Device C) → Type 0
  IsDistinct [] = Unit
  IsDistinct (d ∷ ds) = (find d.index ds ≡ none) × IsDistinct ds

  -- Each index is greater than the one before.
  abbrev pub IsAscending : List (Device C) → Type 0
  IsAscending [] = Unit
  IsAscending (d ∷ ds) = All (λ e. d.index < e.index) ds × IsAscending ds

  -- The map knows the position of each index, and no index stands twice.
  pub record IsIndexed (t : Table C) : Type 0 where
    pub known : (i : ℕ) → position_of i t.positions ≡ locate i t.devices
    pub distinct : IsDistinct t.devices

  -- A map from indexes that is changed at one index, which it has afterwards.
  abbrev pub changed : (ℕ → Option (Device C)) → ℕ → (Device C → Device C) → ℕ → Option (Device C)
  changed v i f j =
      if i == j then some (f (elim (v i) [ some d ↦ d | none ↦ new_device i ])) else v j

  locate-append_new :
      (i j : ℕ) (ds : List (Device C))
      → find i ds ≡ none
      → locate j (ds ++ new_device i ∷ []) ≡ (if i == j then some (length ds) else locate j ds)
  unfolding locate find
  locate-append_new i j [] h = ground arith
  locate-append_new i j (d ∷ ds) h = ground (arith, locate-append_new i j ds)

  find-append_new :
      (i j : ℕ) (ds : List (Device C))
      → find i ds ≡ none
      → find j (ds ++ new_device i ∷ []) ≡ (if i == j then some (new_device i) else find j ds)
  unfolding find
  find-append_new i j [] h = ground arith
  find-append_new i j (d ∷ ds) h = ground (arith, find-append_new i j ds)

  append_new-IsDistinct :
      (i : ℕ) (ds : List (Device C))
      → find i ds ≡ none
      → IsDistinct ds
      → IsDistinct (ds ++ new_device i ∷ [])
  unfolding find
  append_new-IsDistinct i [] h d = ground arith
  append_new-IsDistinct i (e ∷ ds) h d =
      (ground (arith, find-append_new i e.index ds), append_new-IsDistinct i ds (ground arith) d.1)

  find-none_iff_locate : (i : ℕ) (ds : List (Device C)) → locate i ds ≡ none → find i ds ≡ none
  unfolding locate find
  find-none_iff_locate i [] h = refl
  find-none_iff_locate i (d ∷ ds) h = ground (arith, find-none_iff_locate i ds)

  -- The devices with the first one of an index changed.
  edit : ℕ → (Device C → Device C) → List (Device C) → List (Device C)
  edit i f [] = []
  edit i f (d ∷ ds) = let rest = edit i f ds in if d.index == i then f d ∷ ds else d ∷ rest

  change_at-locate :
      (i p : ℕ) (f : Device C → Device C) (ds : List (Device C))
      → locate i ds ≡ some p
      → change_at ds p f ≡ some (edit i f ds)
  unfolding change_at locate edit
  change_at-locate i p f [] h = cc h
  change_at-locate i zero f (d ∷ ds) h = elim (Bool-cases (d.index == i)) [
    | inl e ↦ rw e
    | inr e ↦ elim (Option-cases (locate i ds)) [
      | inl n ↦ absurd (ground (arith, e, n, h))
      | inr (q, n) ↦ absurd (ground (arith, e, n, h))
    ]
  ]
  change_at-locate i (suc p) f (d ∷ ds) h = elim (Bool-cases (d.index == i)) [
    | inl e ↦ absurd (ground (arith, e, h))
    | inr e ↦ elim (Option-cases (locate i ds)) [
      | inl n ↦ absurd (ground (arith, e, n, h))
      | inr (q, n) ↦ rw (e, change_at-locate i p f ds (ground (arith, e, n, h)))
    ]
  ]

  module _ (i : ℕ) (f : Device C → Device C) (keeps : (d : Device C) → (f d).index ≡ d.index) where
    locate-edit : (j : ℕ) (ds : List (Device C)) → locate j (edit i f ds) ≡ locate j ds
    unfolding locate edit
    locate-edit j [] = refl
    locate-edit j (d ∷ ds) = ground (arith, keeps d, locate-edit j ds)

    find-edit :
        (j : ℕ) (ds : List (Device C))
        → find j (edit i f ds)
          ≡ (if i == j then elim (find j ds) [ some d ↦ some (f d) | none ↦ none ] else find j ds)
    unfolding find edit
    find-edit j [] = ground arith
    find-edit j (d ∷ ds) = ground (arith, keeps d, find-edit j ds)

    edit-IsDistinct : (ds : List (Device C)) → IsDistinct ds → IsDistinct (edit i f ds)
    unfolding edit
    edit-IsDistinct [] h = tt
    edit-IsDistinct (d ∷ ds) h = elim (Bool-cases (d.index == i)) [
      | inl e ↦ rw e (rw (keeps d) h.0, h.1)
      | inr e ↦ rw e (ground (arith, find-edit d.index ds), edit-IsDistinct ds h.1)
    ]

  pub no_devices-IsIndexed : IsIndexed (no_devices {C = C})
  unfolding position_of locate
  no_devices-IsIndexed = record { known = λ i. refl; distinct = tt }

  -- The table with a new device.
  abbrev grown : Table C → ℕ → Table C
  grown t i = record {
    devices = t.devices ++ new_device i ∷ [];
    positions = (i, length t.devices) ∷ t.positions;
  }

  grown-IsIndexed :
      (t : Table C) (i : ℕ) → IsIndexed t → find i t.devices ≡ none → IsIndexed (grown t i)
  unfolding position_of
  grown-IsIndexed t i h n = record {
    known = λ j. ground (arith, h.known j, locate-append_new i j t.devices n);
    distinct = append_new-IsDistinct i t.devices n h.distinct;
  }

  edited-IsIndexed :
      (t : Table C) (i : ℕ) (f : Device C → Device C)
      → ((d : Device C) → (f d).index ≡ d.index)
      → IsIndexed t
      → IsIndexed (record t { devices = edit i f t.devices })
  edited-IsIndexed t i f keeps h = record {
    known = λ j. h.known j ∙ sym (locate-edit i f keeps j t.devices);
    distinct = edit-IsDistinct i f keeps t.devices h.distinct;
  }

  find-some_of_locate :
      (i p : ℕ) (ds : List (Device C))
      → locate i ds ≡ some p
      → (d : Device C) × (find i ds ≡ some d)
  unfolding locate find
  find-some_of_locate i p [] h = absurd (cc h)
  find-some_of_locate i p (d ∷ ds) h = elim (Bool-cases (d.index == i)) [
    | inl e ↦ (d, rw e)
    | inr e ↦ elim (Option-cases (locate i ds)) [
      | inl n ↦ absurd (ground (arith, e, n, h))
      | inr (q, n) ↦ rw e (find-some_of_locate i q ds n)
    ]
  ]

  change_opened-locate :
      (t : Table C) (i p : ℕ) (f : Device C → Device C)
      → locate i t.devices ≡ some p
      → change_opened (t, p) f ≡ some (record t { devices = edit i f t.devices })
  change_opened-locate t i p f e = rw (change_at-locate i p f t.devices e, change_opened) refl

  module _ (t : Table C) (i : ℕ) (f : Device C → Device C)
      (keeps : (d : Device C) → (f d).index ≡ d.index) (h : IsIndexed t) where
    -- The table that a change leaves.
    unfoldable pub Changes : Type 0
    Changes =
        (t' : Table C) × (change_device t i f ≡ some t')
        × IsIndexed t'
        × ((j : ℕ) → find j t'.devices ≡ changed (λ k. find k t.devices) i f j)

    change_known : (p : ℕ) → position_of i t.positions ≡ some p → Changes
    unfolding change_device open_device Changes
    change_known p e =
        let l : locate i t.devices ≡ some p = sym (h.known i) ∙ e in
        let o : open_device t i ≡ (t, p) = rw (e, open_device) refl in
        (
          record t { devices = edit i f t.devices },
          ap (λ x. change_opened x f) o ∙ change_opened-locate t i p f l,
          edited-IsIndexed t i f keeps h,
          λ j. ground (arith, find-edit i f keeps j t.devices, find-some_of_locate i p t.devices l),
        )

    change_new : position_of i t.positions ≡ none → Changes
    unfolding change_device open_device Changes
    change_new e =
        let n : find i t.devices ≡ none = find-none_iff_locate i t.devices (sym (h.known i) ∙ e) in
        let o : open_device t i ≡ (grown t i, length t.devices) = rw (e, open_device) refl in
        let l : locate i (grown t i).devices ≡ some (length t.devices) =
          ground (arith, locate-append_new i i t.devices n) in
        (
          record (grown t i) { devices = edit i f (grown t i).devices },
          ap (λ x. change_opened x f) o ∙ change_opened-locate (grown t i) i (length t.devices) f l,
          edited-IsIndexed (grown t i) i f keeps (grown-IsIndexed t i h n),
          λ j. ground (
            arith,
            find-edit i f keeps j (grown t i).devices,
            find-append_new i j t.devices n,
            n,
          ),
        )

    pub change_device_lem : Changes
    unfolding Changes
    change_device_lem = elim (Option-cases (position_of i t.positions)) [
      | inl e ↦ change_new e
      | inr (p, e) ↦ change_known p e
    ]
