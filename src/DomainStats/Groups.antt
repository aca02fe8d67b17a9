-- ===== src/DomainStats/Groups.antt =====
-- What one parameter does to each part of the statistics.
use libvirt_go.Prelude.{
  ℕ, List, Bytes, Option, none, some, bytes_eq, bytes_eq_iff, ◌≡◌, refl, ◌≢◌, if◌then◌else◌,
  Option-cases, Bool-cases, inl, inr, arith,
}
use libvirt_go.Prelude.Names.{search, search-some}
use libvirt_go.TypedParams.{TypedParameter}
use libvirt_go.DomainStats.Fields.{
  CpuCounter, cpu_name, cpu_of, VcpuCounter, vcpu_name, vcpu_of, BalloonCounter, balloon_name,
  balloon_of, BlockCounter, NetCounter, block_name, block_of, net_name, net_of,
}
use libvirt_go.DomainStats.Devices.{Table}
use libvirt_go.DomainStats.{
  Stats, Group, state, cpu, vcpu, balloon, block, net, store, opened, number_of, group_and_key,
  store_group, store_in,
}

-- A member's own name finds it; a store through another name leaves the member.
pub store-search :
    {C : Type 0} (name : C → Bytes) (cs : List C) (values : C → Option ℕ) (field : Bytes)
    (number : Option ℕ) (c : C)
    → search name (name c) cs ≡ some c
    → store name values (search name field cs) number c
      ≡ (if bytes_eq field (name c) then number else values c)
store-search name cs values field number c own = elim (Option-cases (search name field cs)) [
  | inr (d, found) ↦ rw (found, search-some name field cs d found) refl
  | inl unknown ↦ elim (Bool-cases (bytes_eq field (name c))) [
    | inr differs ↦ rw (unknown, differs) refl
    | inl same ↦ absurd (cc (unknown, own, (bytes_eq_iff field (name c)).0 same))
  ]
]

-- The parts behind a parameter of a group.
abbrev pub cpu_after :
    Group → TypedParameter → Option (CpuCounter → Option ℕ) → Option (CpuCounter → Option ℕ)
cpu_after cpu p v =
    some (store cpu_name (opened (λ _. none) v) (cpu_of p.field) (number_of p.value))
cpu_after _ p v = v

abbrev pub balloon_after :
    Group → TypedParameter → Option (BalloonCounter → Option ℕ) → Option (BalloonCounter → Option ℕ)
balloon_after balloon p v =
    some (store balloon_name (opened (λ _. none) v) (balloon_of p.field) (number_of p.value))
balloon_after _ p v = v

abbrev pub vcpu_after : Group → TypedParameter → (VcpuCounter → Option ℕ) → (VcpuCounter → Option ℕ)
vcpu_after vcpu p v = store vcpu_name v (vcpu_of p.field) (number_of p.value)
vcpu_after _ p v = v

abbrev pub blocks_after : Group → TypedParameter → Table BlockCounter → Option (Table BlockCounter)
blocks_after block p t = store_in block_name block_of (group_and_key p.field).1 p.value t
blocks_after _ p t = some t

abbrev pub nets_after : Group → TypedParameter → Table NetCounter → Option (Table NetCounter)
nets_after net p t = store_in net_name net_of (group_and_key p.field).1 p.value t
nets_after _ p t = some t

-- The parts of the statistics behind a parameter.
pub record HasParts (g : Group) (p : TypedParameter) (s s' : Stats) : Type 0 where
  pub cpu : s'.cpu ≡ cpu_after g p s.cpu
  pub balloon : s'.balloon ≡ balloon_after g p s.balloon
  pub vcpu : s'.vcpu ≡ vcpu_after g p s.vcpu
  pub blocks : blocks_after g p s.blocks ≡ some s'.blocks
  pub nets : nets_after g p s.nets ≡ some s'.nets

module _ (p : TypedParameter) (s : Stats) where
  pub store_group-HasParts :
      (g : Group) {s' : Stats} → store_group g p s ≡ some s' → HasParts g p s s'
  unfolding store_group
  store_group-HasParts state e = ground (arith, e)
  store_group-HasParts cpu e = ground (arith, e)
  store_group-HasParts vcpu e = ground (arith, e)
  store_group-HasParts balloon e = ground (arith, e)
  store_group-HasParts block e = ground (arith, e)
  store_group-HasParts net e = ground (arith, e)

  store_group-ne_none :
      (g : Group) {b : Table BlockCounter} {n : Table NetCounter}
      → blocks_after g p s.blocks ≡ some b
      → nets_after g p s.nets ≡ some n
      → store_group g p s ≢ none
  unfolding store_group
  store_group-ne_none state hb hn = ground arith
  store_group-ne_none cpu hb hn = ground arith
  store_group-ne_none vcpu hb hn = ground arith
  store_group-ne_none balloon hb hn = ground arith
  store_group-ne_none block hb hn = ground arith
  store_group-ne_none net hb hn = ground arith

  -- A parameter that is stored in the tables is stored, part by part.
  pub store_group_lem :
      (g : Group) {b : Table BlockCounter} {n : Table NetCounter}
      → blocks_after g p s.blocks ≡ some b
      → nets_after g p s.nets ≡ some n
      → (s' : Stats) × (store_group g p s ≡ some s') × HasParts g p s s'
  store_group_lem g hb hn = elim (Option-cases (store_group g p s)) [
    | inl e ↦ absurd (store_group-ne_none g hb hn e)
    | inr (s', e) ↦ (s', e, store_group-HasParts g e)
  ]
