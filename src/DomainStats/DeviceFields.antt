-- ===== src/DomainStats/DeviceFields.antt =====
-- The names of the parameters of a device: the group, the index and the counter, with dots between.
use libvirt_go.Prelude.{
  ℕ, List, [], ◌∷◌, ◌++◌, Bytes, codes, String, true, Option, none, some, bytes_eq, bytes_eq_iff,
  bytes_eq_refl, ◌≡◌, ◌≢◌, ◌⊎◌, refl, ap, ◌∙◌, sym, subst, inl, inr, All, Option-cases, Bool-cases,
  ◌==◌, ◌&&◌, if◌then◌else◌, arith, cut,
}
use mathlib.Core.Option.{some-injective}
use libvirt_go.Prelude.Last.{last, latest}
use libvirt_go.TypedParams.{TypedParameter}
use libvirt_go.DomainStats.{group_and_key}
use libvirt_go.DomainStats.Index.{index_and_counter}
use libvirt_go.DomainStats.Index.Spelling.{
  Spells, cut_before, cut-inv, index_and_counter-Spells, Spells-index_and_counter,
}
use libvirt_go.DomainStats.Laws.{device_part}
use libvirt_go.DomainStats.Counters.{count_of}

-- A field of the device of an index: the group, a dot, a text that spells the index, and the
-- counter's name, which starts with a dot.
abbrev pub IsField : String → ℕ → Bytes → Bytes → Type 0
IsField group j name field =
    (t : Bytes) × Spells t j × (field ≡ codes group ++ (b'.' ∷ (t ++ name)))

-- The number of the last parameter with a property; none where no parameter has it.
abbrev pub IsNumberOfLast : (TypedParameter → Type 0) → List TypedParameter → Option ℕ → Type 0
IsNumberOfLast P ps r =
    (before : List TypedParameter) × (p : TypedParameter) × (after : List TypedParameter) × (ps
      ≡ before ++ p ∷ after)
    × P p
    × All (λ q. ¬ P q) after
    × (r ≡ count_of p.value)

abbrev pub IsLast : (TypedParameter → Type 0) → List TypedParameter → Option ℕ → Type 0
IsLast P ps r = (All (λ p. ¬ P p) ps × (r ≡ none)) ⊎ IsNumberOfLast P ps r

-- What a parameter says of a counter of the device at an index.
abbrev pub device_reads : String → ℕ → Bytes → TypedParameter → Option (Option ℕ)
device_reads group j name p = elim (device_part group p) [
  | none ↦ none
  | some (i, counter) ↦
      if (i == j) && bytes_eq (b'.' ∷ counter) name then some (count_of p.value) else none
]

group_and_key-some :
    (field : Bytes) {r : Bytes × Bytes} → cut field b'.' ≡ some r → group_and_key field ≡ r
unfolding group_and_key
group_and_key-some field h = rw (h, group_and_key) refl

group_and_key-none : (field : Bytes) → cut field b'.' ≡ none → group_and_key field ≡ (field, [])
unfolding group_and_key
group_and_key-none field h = rw (h, group_and_key) refl

group_and_key-inv :
    (field : Bytes) {i : ℕ} {counter : Bytes}
    → index_and_counter (group_and_key field).1 ≡ some (i, counter)
    → field ≡ (group_and_key field).0 ++ b'.' ∷ (group_and_key field).1
unfolding index_and_counter
group_and_key-inv field e = elim (Option-cases (cut field b'.')) [
  | inl h ↦ absurd (cc (rw (group_and_key-none field h) at e))
  | inr ((x, y), h) ↦ rw (group_and_key-some field h) (cut-inv field h)
]

module _ (group : String) where
  device_part-IsField :
      (p : TypedParameter) {i : ℕ} {counter : Bytes}
      → device_part group p ≡ some (i, counter)
      → IsField group i (b'.' ∷ counter) p.field
  device_part-IsField p {i} {counter} e =
      elim (Bool-cases (bytes_eq (group_and_key p.field).0 (codes group))) [
        | inr other ↦ absurd (cc (rw other at e))
        | inl same ↦
            let read : index_and_counter (group_and_key p.field).1 ≡ some (i, counter) =
              rw same at e in
            let (t, spelled, key) = index_and_counter-Spells (group_and_key p.field).1 read in
            (
              t,
              spelled,
              group_and_key-inv p.field read
                  ∙ ap (λ g. g ++ b'.' ∷ (group_and_key p.field).1)
                      ((bytes_eq_iff (group_and_key p.field).0 (codes group)).0 same)
                  ∙ ap (λ k. codes group ++ b'.' ∷ k) key,
            )
      ]

  module _ (no_dot : All (λ c. c ≢ b'.') (codes group)) (j : ℕ) (name rest : Bytes)
      (dotted : name ≡ b'.' ∷ rest) where
    IsField-device_part :
        (p : TypedParameter) → IsField group j name p.field → device_part group p ≡ some (j, rest)
    IsField-device_part p (t, spelled, e) =
        let whole : p.field ≡ codes group ++ b'.' ∷ (t ++ b'.' ∷ rest) =
          e ∙ ap (λ n. codes group ++ (b'.' ∷ (t ++ n))) dotted in
        let parts : group_and_key p.field ≡ (codes group, t ++ b'.' ∷ rest) =
          group_and_key-some p.field
            (ap (λ f. cut f b'.') whole ∙ cut_before (codes group) (t ++ b'.' ∷ rest) no_dot) in
        rw (parts, bytes_eq_refl (codes group)) (Spells-index_and_counter t j rest spelled)

    -- A parameter is read exactly where its name is one of the counter's.
    pub device_reads-IsField :
        (p : TypedParameter)
        → ((device_reads group j name p ≡ none) × (¬ IsField group j name p.field))
          ⊎ ((device_reads group j name p ≡ some (count_of p.value)) × IsField group j name p.field)
    device_reads-IsField p = elim (Option-cases (device_part group p)) [
      | inl e ↦ inl (rw (e, device_reads) refl, λ h. cc (e, IsField-device_part p h))
      | inr ((i, counter), e) ↦ elim (Bool-cases ((i == j) && bytes_eq (b'.' ∷ counter) name)) [
        | inl same ↦
            let at_j : i ≡ j = ground (arith, same) in
            let named : b'.' ∷ counter ≡ name =
              (bytes_eq_iff (b'.' ∷ counter) name).0 (ground (arith, same)) in
            inr (
              rw (e, device_reads, same) refl,
              subst (λ n. IsField group j n p.field) named
                  (subst (λ k. IsField group k (b'.' ∷ counter) p.field) at_j
                    (device_part-IsField p e)),
            )
        | inr differs ↦ inl (
          rw (e, device_reads, differs) refl,
          λ h.
              let x : ◌≡◌ {A = ℕ × Bytes} (i, counter) (j, rest) =
                some-injective _ _ (sym e ∙ IsField-device_part p h) in
              let named : bytes_eq (b'.' ∷ counter) name ≡ true =
                (bytes_eq_iff (b'.' ∷ counter) name).1 (ap (λ z. b'.' ∷ z.1) x ∙ sym dotted) in
              ground (arith, differs, named, ap (λ z. z.0) x),
        )
      ]
    ]

-- The answer of the last parameter that gives one.
module _ (f : TypedParameter → Option (Option ℕ)) (P : TypedParameter → Type 0)
    (reads : (p : TypedParameter)
      → ((f p ≡ none) × (¬ P p)) ⊎ ((f p ≡ some (count_of p.value)) × P p)) where
  last-IsLast :
      (ps : List TypedParameter)
      → ((last f ps ≡ none) × All (λ p. ¬ P p) ps)
        ⊎ ((r : Option ℕ) × (last f ps ≡ some r) × IsNumberOfLast P ps r)
  unfolding last
  last-IsLast [] = inl (refl, tt)
  last-IsLast (p ∷ ps) = elim (last-IsLast ps) [
    | inr (r, e, (before, q, after, split, has, later, number)) ↦
        inr (r, rw e refl, (p ∷ before, q, after, ap (λ l. p ∷ l) split, has, later, number))
    | inl (e, nowhere) ↦ elim (reads p) [
      | inl (silent, hasnt) ↦ inl (rw (e, silent) refl, (hasnt, nowhere))
      | inr (says, has) ↦
          inr (count_of p.value, rw (e, says) refl, ([], p, ps, refl, has, nowhere, refl))
    ]
  ]

  pub latest-IsLast : (ps : List TypedParameter) → IsLast P ps (latest f ps none)
  latest-IsLast ps = elim (last-IsLast ps) [
    | inl (e, nowhere) ↦ inl (nowhere, rw (e, latest) refl)
    | inr (r, e, there) ↦ inr (subst (IsNumberOfLast P ps) (rw (e, latest) refl) there)
  ]
