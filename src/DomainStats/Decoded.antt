-- ===== src/DomainStats/Decoded.antt =====
-- The whole decoder: `decodeTypedParameters` and then a store of each parameter, which never panics.
use libvirt_go.Prelude.{
  ℕ, List, [], ◌∷◌, Option, none, some, ◌≡◌, refl, Option-cases, subst, inl, inr, ap, ◌∙◌, sym,
}
use mathlib.Core.Option.{some-injective}
use libvirt_go.Prelude.Int.{pos}
use libvirt_go.Errors.{Result, ok, err}
use libvirt_go.Memory.{Ptr, Memory, CTypedParameter}
use libvirt_go.TypedParams.{TypedParameter}
use libvirt_go.TypedParams.Decode.{
  decode_typed_parameter, slice_params, decode_all, decode_typed_parameters, collect,
}
use libvirt_go.DomainStats.{Stats, no_stats, store_parameter, sorted, Group}
use libvirt_go.DomainStats.Devices.{Device, Table}
use libvirt_go.DomainStats.Devices.Laws.{find, IsIndexed, IsAscending}
use libvirt_go.DomainStats.Devices.Order.{find-sort, sort-IsAscending}
use libvirt_go.DomainStats.Groups.{HasParts, store_group_lem, blocks_after, nets_after}
use libvirt_go.DomainStats.Laws.{
  IsValid, no_stats-IsValid, p_group, block_step, net_step, blocks_after_lem, nets_after_lem,
  block_step-ungrouped, net_step-ungrouped,
}
use libvirt_go.DomainStats.Loop.{stats_loop, stored, round, with_sorted, decode_domain_stats}
use libvirt_go.DomainStats.Fields.{BlockCounter, NetCounter}

-- What a parameter does to the two tables.
pub record Steps (p : TypedParameter) (s s' : Stats) : Type 0 where
  pub valid : IsValid s'
  pub block : (j : ℕ) → find j s'.blocks.devices ≡ block_step j p (find j s.blocks.devices)
  pub net : (j : ℕ) → find j s'.nets.devices ≡ net_step j p (find j s.nets.devices)

module _ (p : TypedParameter) (s : Stats) (h : IsValid s) where
  -- The tables behind a parameter are those that its stores gave.
  steps :
      (g : Group) (s' : Stats) (b : Table BlockCounter) (n : Table NetCounter)
      → HasParts g p s s'
      → blocks_after g p s.blocks ≡ some b
      → nets_after g p s.nets ≡ some n
      → IsIndexed b
      → IsIndexed n
      → ((j : ℕ) → find j b.devices ≡ block_step j p (find j s.blocks.devices))
      → ((j : ℕ) → find j n.devices ≡ net_step j p (find j s.nets.devices))
      → Steps p s s'
  steps g s' b n parts hb hn ib in_ fb fn =
      let eb : b ≡ s'.blocks = some-injective b s'.blocks (sym hb ∙ parts.blocks) in
      let en : n ≡ s'.nets = some-injective n s'.nets (sym hn ∙ parts.nets) in
      record {
        valid = record { blocks = subst IsIndexed eb ib; nets = subst IsIndexed en in_ };
        block = λ j. ap (λ (t : Table BlockCounter). find j t.devices) (sym eb) ∙ fb j;
        net = λ j. ap (λ (t : Table NetCounter). find j t.devices) (sym en) ∙ fn j;
      }

  pub store_parameter_lem : (s' : Stats) × (store_parameter p s ≡ some s') × Steps p s s'
  unfolding store_parameter
  store_parameter_lem = elim (Option-cases (p_group p)) [
    | inl e ↦ (
      s,
      rw (e, store_parameter) refl,
      record {
        valid = h;
        block = λ j. block_step-ungrouped p e j (find j s.blocks.devices);
        net = λ j. net_step-ungrouped p e j (find j s.nets.devices);
      },
    )
    | inr (g, e) ↦
        let (b, stored_b, indexed_b, found_b) = blocks_after_lem p g s.blocks e h.blocks in
        let (n, stored_n, indexed_n, found_n) = nets_after_lem p g s.nets e h.nets in
        let (s', stored_s, parts) = store_group_lem p s g stored_b stored_n in
        (
          s',
          rw (e, store_parameter) stored_s,
          steps g s' b n parts stored_b stored_n indexed_b indexed_n found_b found_n,
        )
  ]

-- The stores of a list of parameters, in their order.
unfoldable pub store_all : List TypedParameter → Stats → Option Stats
store_all [] s = some s
store_all (p ∷ ps) s = elim (store_parameter p s) [ none ↦ none | some s' ↦ store_all ps s' ]

-- A device is what the parameters of the list made of it, one after the other.
unfoldable pub device_of_parameters :
    {A : Type 0} → (TypedParameter → A → A) → List TypedParameter → A → A
device_of_parameters step [] o = o
device_of_parameters step (p ∷ ps) o = device_of_parameters step ps (step p o)

abbrev pub block_of_parameters : ℕ → List TypedParameter → Option (Device BlockCounter)
block_of_parameters j ps = device_of_parameters (block_step j) ps none

abbrev pub net_of_parameters : ℕ → List TypedParameter → Option (Device NetCounter)
net_of_parameters j ps = device_of_parameters (net_step j) ps none

pub store_all_lem :
    (ps : List TypedParameter) (s : Stats)
    → IsValid s
    → (s' : Stats) × (store_all ps s ≡ some s')
      × IsValid s'
      × ((j : ℕ)
          → find j s'.blocks.devices
            ≡ device_of_parameters (block_step j) ps (find j s.blocks.devices))
      × ((j : ℕ)
          → find j s'.nets.devices ≡ device_of_parameters (net_step j) ps (find j s.nets.devices))
unfolding store_all device_of_parameters
store_all_lem [] s h = (s, refl, h, λ j. refl, λ j. refl)
store_all_lem (p ∷ ps) s h =
    let (t, stored_t, st) = store_parameter_lem p s h in
    let (s', stored_s, valid, block, net) = store_all_lem ps t st.valid in
    (
      s',
      rw (stored_t, store_all) stored_s,
      valid,
      λ j. block j ∙ ap (device_of_parameters (block_step j) ps) (st.block j),
      λ j. net j ∙ ap (device_of_parameters (net_step j) ps) (st.net j),
    )

-- What the loop makes of the decoded parameters.
abbrev pub as_result : Option Stats → Option (Result Stats)
as_result none = none
as_result (some s) = some (ok s)

abbrev pub stored_from : Stats → Option (Result (List TypedParameter)) → Option (Result Stats)
stored_from s none = none
stored_from s (some (err e)) = some (err e)
stored_from s (some (ok ps)) = as_result (store_all ps s)

stored_from-cons :
    (p : TypedParameter) (ps : List TypedParameter) (s t : Stats)
    → store_parameter p s ≡ some t
    → stored_from s (some (ok (p ∷ ps))) ≡ stored_from t (some (ok ps))
unfolding store_all
stored_from-cons p ps s t e =
    ap (λ o. as_result (elim o [ none ↦ none | some t' ↦ store_all ps t' ])) e

round-collect :
    (o : Option (Result TypedParameter)) (rest : Option (Result (List TypedParameter))) (s : Stats)
    (next : Stats → Option (Result Stats))
    → IsValid s
    → ((t : Stats) → IsValid t → next t ≡ stored_from t rest)
    → round o s next ≡ stored_from s (collect o rest)
unfolding store_all
round-collect none rest s next h go = refl
round-collect (some (err e)) rest s next h go = refl
round-collect (some (ok p)) none s next h go =
    let (t, stored_t, st) = store_parameter_lem p s h in rw stored_t (go t st.valid)
round-collect (some (ok p)) (some (err e)) s next h go =
    let (t, stored_t, st) = store_parameter_lem p s h in rw stored_t (go t st.valid)
round-collect (some (ok p)) (some (ok ps)) s next h go =
    let (t, stored_t, st) = store_parameter_lem p s h in
    ap (λ o. stored o next) stored_t ∙ go t st.valid ∙ sym (stored_from-cons p ps s t stored_t)

stats_loop-decode_all :
    (cs : List CTypedParameter) (m : Memory) (s : Stats)
    → IsValid s
    → stats_loop cs m s ≡ stored_from s (decode_all cs m)
unfolding stats_loop decode_all store_all
stats_loop-decode_all [] m s h = refl
stats_loop-decode_all (c ∷ cs) m s h =
    round-collect (decode_typed_parameter c m) (decode_all cs m) s (stats_loop cs m) h
      (stats_loop-decode_all cs m)

-- The decoder, which stores each parameter before it decodes the next one, gives what comes of
-- decoding all parameters first and storing them then: the same fault, the same error or the same
-- statistics.
pub decode_domain_stats-decode_typed_parameters :
    (p : Ptr) (n : ℕ) (m : Memory)
    → decode_domain_stats p n m
      ≡ with_sorted (stored_from no_stats (decode_typed_parameters p (pos n) m))
unfolding decode_domain_stats decode_typed_parameters
decode_domain_stats-decode_typed_parameters p n m = elim (Option-cases (slice_params p n m)) [
  | inl e ↦ rw (e, decode_domain_stats, decode_typed_parameters) refl
  | inr (cs, e) ↦
      rw (e, decode_domain_stats, decode_typed_parameters)
        (ap with_sorted (stats_loop-decode_all cs m no_stats no_stats-IsValid))
]

module _ (p : Ptr) (n : ℕ) (m : Memory) (ps : List TypedParameter)
    (decoded : decode_typed_parameters p (pos n) m ≡ some (ok ps)) where
  pub decode_domain_stats-store_all :
      {s : Stats}
      → store_all ps no_stats ≡ some s
      → decode_domain_stats p n m ≡ some (ok (sorted s))
  decode_domain_stats-store_all {s} e =
      let w : stored_from no_stats (some (ok ps)) ≡ some (ok s) = ap as_result e in
      decode_domain_stats-decode_typed_parameters p n m
      ∙ ap (λ r. with_sorted (stored_from no_stats r)) decoded
      ∙ ap with_sorted w

  -- Where the parameters decode, the statistics are decoded, without a panic, and the blocks and the
  -- interfaces each stand in strictly ascending order of their indexes.
  pub decode_domain_stats-IsAscending :
      (s : Stats) × (decode_domain_stats p n m ≡ some (ok s))
      × IsAscending s.blocks.devices
      × IsAscending s.nets.devices
  unfolding sorted
  decode_domain_stats-IsAscending =
      let (s, stored_s, valid, block, net) = store_all_lem ps no_stats no_stats-IsValid in
      (
        sorted s,
        decode_domain_stats-store_all stored_s,
        sort-IsAscending s.blocks.devices valid.blocks.distinct,
        sort-IsAscending s.nets.devices valid.nets.distinct,
      )

  -- Where the parameters decode, the statistics are decoded, and for every index the block and the
  -- interface found at it are those that come of nothing by the parameters of that group and index,
  -- one after the other; parameters of other groups or indexes leave them alone.
  pub decode_domain_stats-find :
      (s : Stats) × (decode_domain_stats p n m ≡ some (ok s))
      × ((j : ℕ) → find j s.blocks.devices ≡ block_of_parameters j ps)
      × ((j : ℕ) → find j s.nets.devices ≡ net_of_parameters j ps)
  unfolding sorted find
  decode_domain_stats-find =
      let (s, stored_s, valid, block, net) = store_all_lem ps no_stats no_stats-IsValid in
      (
        sorted s,
        decode_domain_stats-store_all stored_s,
        λ j. find-sort j s.blocks.devices ∙ block j,
        λ j. find-sort j s.nets.devices ∙ net j,
      )
