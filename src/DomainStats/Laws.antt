-- ===== src/DomainStats/Laws.antt =====
-- The statistics of a list of parameters: no panic, and each part by what the parameters say of it.
use libvirt_go.Prelude.{
  ℕ, Bytes, Bool, true, false, Option, none, some, bytes_eq, ◌≡◌, refl, ◌==◌, codes, if◌then◌else◌,
  Option-cases, Bool-cases, inl, inr, arith, ap, ◌∙◌, String, bytes_eq_iff,
}
use libvirt_go.TypedParams.{TypedParameter, Value}
use libvirt_go.DomainStats.Fields.{BlockCounter, NetCounter, block_name, block_of, net_name, net_of}
use libvirt_go.DomainStats.Devices.{Device, Table, new_device}
use libvirt_go.DomainStats.Devices.Laws.{
  IsIndexed, find, change_device_lem, Changes, no_devices-IsIndexed,
}
use libvirt_go.DomainStats.{
  Stats, Group, state, cpu, vcpu, balloon, block, net, opened, group_of, group_and_key, store_in,
  store_device, no_stats,
}
use libvirt_go.DomainStats.Index.{index_and_counter}
use libvirt_go.DomainStats.Groups.{blocks_after, nets_after}

module _ {C : Type 0} (name : C → Bytes) (of : Bytes → Option C) where
  store_device-index :
      (counter : Bytes) (v : Value) (d : Device C)
      → (store_device name of counter v d).index ≡ d.index
  unfolding store_device
  store_device-index counter v d = ground arith

  -- What a value with a device's index and counter does to the device of an index.
  abbrev pub device_step : Option (ℕ × Bytes) → Value → ℕ → Option (Device C) → Option (Device C)
  device_step none v j o = o
  device_step (some (i, counter)) v j o =
      if i == j then some (store_device name of counter v (opened (new_device i) o)) else o

  store_in_lem :
      (key : Bytes) (v : Value) (t : Table C)
      → IsIndexed t
      → (t' : Table C) × (store_in name of key v t ≡ some t')
        × IsIndexed t'
        × ((j : ℕ) → find j t'.devices ≡ device_step (index_and_counter key) v j (find j t.devices))
  unfolding store_in Changes
  store_in_lem key v t h = elim (Option-cases (index_and_counter key)) [
    | inl e ↦ (t, rw (e, store_in) refl, h, λ j. rw e refl)
    | inr ((i, counter), e) ↦
        let (t', stored, indexed, found) =
          change_device_lem t i (store_device name of counter v) (store_device-index counter v) h in
        (t', rw (e, store_in) stored, indexed, λ j. rw e (ground (arith, found j)))
  ]

-- Both tables are indexed.
pub record IsValid (s : Stats) : Type 0 where
  pub blocks : IsIndexed s.blocks
  pub nets : IsIndexed s.nets

pub no_stats-IsValid : IsValid no_stats
no_stats-IsValid = record { blocks = no_devices-IsIndexed; nets = no_devices-IsIndexed }

-- The index and the counter that a parameter of a group has in its name.
abbrev pub device_part : String → TypedParameter → Option (ℕ × Bytes)
device_part group p =
    if bytes_eq (group_and_key p.field).0 (codes group)
    then index_and_counter (group_and_key p.field).1
    else none

-- A block or an interface behind a parameter, from what it was before.
abbrev pub block_step :
    ℕ → TypedParameter → Option (Device BlockCounter) → Option (Device BlockCounter)
block_step j p o = device_step block_name block_of (device_part "block" p) p.value j o

abbrev pub net_step : ℕ → TypedParameter → Option (Device NetCounter) → Option (Device NetCounter)
net_step j p o = device_step net_name net_of (device_part "net" p) p.value j o

-- The group of a parameter's name.
abbrev pub p_group : TypedParameter → Option Group
p_group p = group_of (group_and_key p.field).0

module _ (p : TypedParameter) where
  is_block : Option Group → Bool
  is_block (some block) = true
  is_block _ = false

  group_of-block : (g : Bytes) → bytes_eq g (codes "block") ≡ is_block (group_of g)
  unfolding group_of is_block
  group_of-block g = elim (Bool-cases (bytes_eq g (codes "block"))) [
    | inl e ↦ rw ((bytes_eq_iff g (codes "block")).0 e) refl
    | inr e ↦ ground (arith, e)
  ]

  block_elsewhere : is_block (p_group p) ≡ false → device_part "block" p ≡ none
  block_elsewhere e = rw (group_of-block (group_and_key p.field).0 ∙ e) refl

  block_here :
      is_block (p_group p) ≡ true
      → device_part "block" p ≡ index_and_counter (group_and_key p.field).1
  block_here e = rw (group_of-block (group_and_key p.field).0 ∙ e) refl

  pub block_step-ungrouped :
      p_group p ≡ none → (j : ℕ) (o : Option (Device BlockCounter)) → o ≡ block_step j p o
  unfolding is_block
  block_step-ungrouped e j o = rw (block_elsewhere (ap is_block e)) refl

  pub blocks_after_lem :
      (g : Group) (t : Table BlockCounter)
      → p_group p ≡ some g
      → IsIndexed t
      → (t' : Table BlockCounter) × (blocks_after g p t ≡ some t')
        × IsIndexed t'
        × ((j : ℕ) → find j t'.devices ≡ block_step j p (find j t.devices))
  unfolding is_block
  blocks_after_lem state t e h = (t, refl, h, λ j. rw (block_elsewhere (ap is_block e)) refl)
  blocks_after_lem cpu t e h = (t, refl, h, λ j. rw (block_elsewhere (ap is_block e)) refl)
  blocks_after_lem vcpu t e h = (t, refl, h, λ j. rw (block_elsewhere (ap is_block e)) refl)
  blocks_after_lem balloon t e h = (t, refl, h, λ j. rw (block_elsewhere (ap is_block e)) refl)
  blocks_after_lem block t e h =
      rw (block_here (ap is_block e))
        (store_in_lem block_name block_of (group_and_key p.field).1 p.value t h)
  blocks_after_lem net t e h = (t, refl, h, λ j. rw (block_elsewhere (ap is_block e)) refl)

  is_net : Option Group → Bool
  is_net (some net) = true
  is_net _ = false

  group_of-net : (g : Bytes) → bytes_eq g (codes "net") ≡ is_net (group_of g)
  unfolding group_of is_net
  group_of-net g = elim (Bool-cases (bytes_eq g (codes "net"))) [
    | inl e ↦ rw ((bytes_eq_iff g (codes "net")).0 e) refl
    | inr e ↦ ground (arith, e)
  ]

  net_elsewhere : is_net (p_group p) ≡ false → device_part "net" p ≡ none
  net_elsewhere e = rw (group_of-net (group_and_key p.field).0 ∙ e) refl

  net_here :
      is_net (p_group p) ≡ true → device_part "net" p ≡ index_and_counter (group_and_key p.field).1
  net_here e = rw (group_of-net (group_and_key p.field).0 ∙ e) refl

  pub net_step-ungrouped :
      p_group p ≡ none → (j : ℕ) (o : Option (Device NetCounter)) → o ≡ net_step j p o
  unfolding is_net
  net_step-ungrouped e j o = rw (net_elsewhere (ap is_net e)) refl

  pub nets_after_lem :
      (g : Group) (t : Table NetCounter)
      → p_group p ≡ some g
      → IsIndexed t
      → (t' : Table NetCounter) × (nets_after g p t ≡ some t')
        × IsIndexed t'
        × ((j : ℕ) → find j t'.devices ≡ net_step j p (find j t.devices))
  unfolding is_net
  nets_after_lem state t e h = (t, refl, h, λ j. rw (net_elsewhere (ap is_net e)) refl)
  nets_after_lem cpu t e h = (t, refl, h, λ j. rw (net_elsewhere (ap is_net e)) refl)
  nets_after_lem vcpu t e h = (t, refl, h, λ j. rw (net_elsewhere (ap is_net e)) refl)
  nets_after_lem balloon t e h = (t, refl, h, λ j. rw (net_elsewhere (ap is_net e)) refl)
  nets_after_lem block t e h = (t, refl, h, λ j. rw (net_elsewhere (ap is_net e)) refl)
  nets_after_lem net t e h =
      rw (net_here (ap is_net e))
        (store_in_lem net_name net_of (group_and_key p.field).1 p.value t h)
