-- ===== src/DomainStats.antt =====
-- domain_stats.go: the statistics of a domain, as they are decoded from typed parameters whose names
-- carry a group, and for devices an index.
pub mod Fields
pub mod Devices
pub mod Index
pub mod Calls
pub mod Groups
pub mod Loop
pub mod Laws
pub mod Decoded
pub mod Counters
pub mod DeviceFields
pub mod DeviceCounters
pub mod LastNumber
pub mod Release
use libvirt_go.Prelude.{
  ℕ, ◌+◌, ◌-◌, ◌*◌, List, [], ◌∷◌, Bytes, codes, Bool, true, false, Option, none, some, bytes_eq,
  cut, leb, ltb, ◌==◌, ◌&&◌, ◌%◌, if◌then◌else◌,
}
use libvirt_go.Prelude.Int.{ℤ, pos, negsuc}
use libvirt_go.Prelude.Words.{int32_of}
use libvirt_go.Prelude.Names.{put}
use libvirt_go.TypedParams.{TypedParameter, Value, uint64_v, uint32_v, int64_v, int32_v, string_v}
use libvirt_go.DomainStats.Fields.{
  CpuCounter, cpu_name, cpu_of, VcpuCounter, vcpu_name, vcpu_of, BalloonCounter, balloon_name,
  balloon_of, BlockCounter, block_name, block_of, NetCounter, net_name, net_of,
}
use libvirt_go.DomainStats.Devices.{Device, Table, no_devices, change_device, sort}
use libvirt_go.DomainStats.Index.{index_and_counter}

-- `DomainStatsState`; a member with its flag is an `Option`.
pub record StatsState : Type 0 where
  pub state : Option ℤ
  pub reason : Option ℤ

abbrev pub no_state : StatsState
no_state = record { state = none; reason = none }

-- `DomainStats`, and the local maps of its decoder.
pub record Stats : Type 0 where
  pub state : Option StatsState
  pub cpu : Option (CpuCounter → Option ℕ)
  pub balloon : Option (BalloonCounter → Option ℕ)
  pub vcpu : VcpuCounter → Option ℕ
  pub blocks : Table BlockCounter
  pub nets : Table NetCounter

-- `&DomainStats{}` and the two empty maps.
abbrev pub no_stats : Stats
no_stats = record {
  state = none;
  cpu = none;
  balloon = none;
  vcpu = λ _. none;
  blocks = no_devices;
  nets = no_devices;
}

-- The first `switch`: `number` where it is `available`.
unfoldable pub number_of : Value → Option ℕ
number_of (uint64_v n) = some n
number_of (uint32_v n) = some n
number_of (int64_v (pos n)) = some n
number_of (int32_v (pos n)) = some n
number_of _ = none

-- `strings.Cut(field, ".")`
unfoldable pub group_and_key : Bytes → Bytes × Bytes
group_and_key field = elim (cut field b'.') [ some r ↦ r | none ↦ (field, []) ]

-- `*present, *destination = available, number`, at the counter of a field.
abbrev pub store : {C : Type 0} → (C → Bytes) → (C → Option ℕ) → Option C → Option ℕ → C → Option ℕ
store name counters none number = counters
store name counters (some c) number = put name counters c number

-- The pointer to a group, which is set where it is nil.
abbrev pub opened : {A : Type 0} → A → Option A → A
opened zero none = zero
opened zero (some a) = a

-- `if name, ok := parameter.Value.(string); ok`
abbrev pub store_name : {C : Type 0} → Value → Device C → Device C
store_name (string_v s) d = record d { name = some s }
store_name v d = d

-- The text of a device's name is stored as such, every other value as a counter.
unfoldable pub store_device :
    {C : Type 0} → (C → Bytes) → (Bytes → Option C) → Bytes → Value → Device C → Device C
unfolding number_of
store_device name of counter value d =
    let suffix = b'.' ∷ counter in
    if bytes_eq suffix (codes ".name")
    then store_name value d
    else record d { counter = store name d.counter (of suffix) (number_of value) }

-- The groups of the `switch`.
pub data Group : Type 0 where
  state cpu vcpu balloon block net : Group

unfoldable pub group_of : Bytes → Option Group
group_of group =
    if bytes_eq group (codes "state")
    then some state
    else if bytes_eq group (codes "cpu")
    then some cpu
    else if bytes_eq group (codes "vcpu")
    then some vcpu
    else if bytes_eq group (codes "balloon")
    then some balloon
    else if bytes_eq group (codes "block")
    then some block
    else if bytes_eq group (codes "net")
    then some net
    else none

unfoldable pub store_state : Bytes → ℕ → StatsState → StatsState
store_state field number s =
    if bytes_eq field (codes "state.state")
    then record s { state = some (int32_of number) }
    else if bytes_eq field (codes "state.reason")
    then record s { reason = some (int32_of number) }
    else s

-- The device of a key is changed; a key without an index changes nothing.
unfoldable pub store_in :
    {C : Type 0} → (C → Bytes) → (Bytes → Option C) → Bytes → Value → Table C → Option (Table C)
unfolding index_and_counter store_device change_device
store_in name of key value t = elim (index_and_counter key) [
  | none ↦ some t
  | some (i, counter) ↦ change_device t i (store_device name of counter value)
]

-- The `switch` on the group; `none` is the panic of a position out of range.
unfoldable pub store_group : Group → TypedParameter → Stats → Option Stats
unfolding number_of store_state store_in group_and_key cpu_of vcpu_of balloon_of block_of net_of
store_group state p s = elim (number_of p.value) [
  | none ↦ some s
  | some n ↦ some (record s { state = some (store_state p.field n (opened no_state s.state)) })
]
store_group cpu p s = some (record s {
  cpu = some (store cpu_name (opened (λ _. none) s.cpu) (cpu_of p.field) (number_of p.value));
})
store_group vcpu p s =
    some (record s { vcpu = store vcpu_name s.vcpu (vcpu_of p.field) (number_of p.value) })
store_group balloon p s = some (record s {
  balloon =
      some (
        store balloon_name (opened (λ _. none) s.balloon) (balloon_of p.field) (number_of p.value));
})
store_group block p s =
    elim (store_in block_name block_of (group_and_key p.field).1 p.value s.blocks) [
      | none ↦ none
      | some t ↦ some (record s { blocks = t })
    ]
store_group net p s = elim (store_in net_name net_of (group_and_key p.field).1 p.value s.nets) [
  | none ↦ none
  | some t ↦ some (record s { nets = t })
]

-- One round of the loop behind `decodeTypedParameter`.
unfoldable pub store_parameter : TypedParameter → Stats → Option Stats
unfolding group_of group_and_key store_group
store_parameter p s = elim (group_of (group_and_key p.field).0) [
  | none ↦ some s
  | some g ↦ store_group g p s
]

-- The two sorts behind the loop.
unfoldable pub sorted : Stats → Stats
unfolding sort
sorted s = record s {
  blocks = record s.blocks { devices = sort s.blocks.devices };
  nets = record s.nets { devices = sort s.nets.devices };
}
