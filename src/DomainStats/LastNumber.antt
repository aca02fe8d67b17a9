-- ===== src/DomainStats/LastNumber.antt =====
-- The counters of the whole decoder: the last parameter of a counter's name gives its value.
use libvirt_go.Prelude.{ℕ, List, none, some, ◌≡◌, ap, ◌∙◌, sym, arith, subst}
use libvirt_go.Prelude.Int.{pos}
use libvirt_go.Prelude.Last.{latest}
use libvirt_go.Errors.{ok}
use libvirt_go.Memory.{Ptr, Memory}
use libvirt_go.TypedParams.{TypedParameter}
use libvirt_go.TypedParams.Decode.{decode_typed_parameters}
use libvirt_go.DomainStats.Fields.{
  CpuCounter, cpu_name, VcpuCounter, vcpu_name, BalloonCounter, balloon_name, BlockCounter,
  NetCounter, block_name, block_of, net_name, net_of, block_counters, net_counters,
}
use libvirt_go.DomainStats.{Stats, no_stats, sorted}
use libvirt_go.DomainStats.Devices.Laws.{find}
use libvirt_go.DomainStats.Laws.{no_stats-IsValid}
use libvirt_go.DomainStats.Loop.{decode_domain_stats}
use libvirt_go.DomainStats.Decoded.{
  store_all, store_all_lem, decode_domain_stats-store_all, decode_domain_stats-find,
}
use libvirt_go.DomainStats.Counters.{
  Follows, store_all-Follows, last_number, cpu_counter, balloon_counter, vcpu_counter,
  cpu_counter-Follows, balloon_counter-Follows, vcpu_counter-Follows,
}
use libvirt_go.DomainStats.DeviceFields.{
  device_reads, IsLast, IsField, latest-IsLast, device_reads-IsField,
}
use libvirt_go.DomainStats.DeviceCounters.{
  device_counter, block_name-dotted, device_of_parameters-counter, block-own, block-unlike_text,
  net_name-dotted, net-own, net-unlike_text,
}

-- The counters of the whole decoder.
module _ (p : Ptr) (n : ℕ) (m : Memory) (ps : List TypedParameter) (s : Stats)
    (decoded : decode_typed_parameters p (pos n) m ≡ some (ok ps))
    (result : decode_domain_stats p n m ≡ some (ok s)) where
  stats-store_all : (s' : Stats) × (store_all ps no_stats ≡ some s') × (s ≡ sorted s')
  stats-store_all =
      let (s', stored_s, _, _, _) = store_all_lem ps no_stats no_stats-IsValid in
      (s', stored_s, cc (result, decode_domain_stats-store_all p n m ps decoded stored_s))

  -- Where the parameters decode, and the decoder gives statistics, each counter of the CPU, of the
  -- balloon and of the vCPUs is the number of the last parameter of its name: it is unset where no
  -- parameter has the name, or where the last one that has it holds no number or a negative one.
  pub decode_domain_stats-counters :
      ((c : CpuCounter) → cpu_counter c s ≡ last_number (cpu_name c) ps)
      × ((c : BalloonCounter) → balloon_counter c s ≡ last_number (balloon_name c) ps)
      × ((c : VcpuCounter) → vcpu_counter c s ≡ last_number (vcpu_name c) ps)
  unfolding sorted cpu_counter balloon_counter vcpu_counter Follows
  decode_domain_stats-counters =
      let (s', stored_s, same) = stats-store_all in
      (
        λ c.
            ap (cpu_counter c) same
            ∙ store_all-Follows (cpu_counter c) (cpu_name c) (cpu_counter-Follows c) ps no_stats
                stored_s,
        λ c.
            ap (balloon_counter c) same
            ∙ store_all-Follows (balloon_counter c) (balloon_name c) (balloon_counter-Follows c) ps
                no_stats stored_s,
        λ c.
            ap (vcpu_counter c) same
            ∙ store_all-Follows (vcpu_counter c) (vcpu_name c) (vcpu_counter-Follows c) ps no_stats
                stored_s,
      )

-- Where the parameters decode, and the decoder gives statistics, each counter of the block and of the
-- interface found at an index is the number of the last parameter with its name: the group, a dot, a
-- decimal text of the index, which may have a sign, and the counter's name. It is unset where no
-- parameter has such a name, or where the last one that has it holds no integer or a negative one.
pub decode_domain_stats-device_counters :
    (p : Ptr) (n : ℕ) (m : Memory) (ps : List TypedParameter) (s : Stats)
    → decode_typed_parameters p (pos n) m ≡ some (ok ps)
    → decode_domain_stats p n m ≡ some (ok s)
    → ((j : ℕ) (c : BlockCounter)
        → IsLast
            (λ q. IsField "block" j (block_name c) q.field)
            ps
            (device_counter c (find j s.blocks.devices)))
      × ((j : ℕ) (c : NetCounter)
          → IsLast
              (λ q. IsField "net" j (net_name c) q.field)
              ps
              (device_counter c (find j s.nets.devices)))
unfolding block_of net_of
decode_domain_stats-device_counters p n m ps s decoded result =
    let (s', result', found_b, found_n) = decode_domain_stats-find p n m ps decoded in
    let same : s' ≡ s = cc (result, result') in
    (
      λ j c.
          let (rest, dotted) = block_name-dotted c in
          let read : device_counter c (find j s.blocks.devices)
              ≡ latest (device_reads "block" j (block_name c)) ps none =
            ap (λ t. device_counter c (find j t.blocks.devices)) (sym same)
            ∙ ap (device_counter c) (found_b j)
            ∙ device_of_parameters-counter block_name block_counters c (block-own c)
                (block-unlike_text c) "block" j ps none in
          subst (IsLast (λ q. IsField "block" j (block_name c) q.field) ps) (sym read) (
            latest-IsLast (device_reads "block" j (block_name c))
              (λ q. IsField "block" j (block_name c) q.field)
              (device_reads-IsField "block" (omega arith) j (block_name c) rest dotted) ps),
      λ j c.
          let (rest, dotted) = net_name-dotted c in
          let read : device_counter c (find j s.nets.devices)
              ≡ latest (device_reads "net" j (net_name c)) ps none =
            ap (λ t. device_counter c (find j t.nets.devices)) (sym same)
            ∙ ap (device_counter c) (found_n j)
            ∙ device_of_parameters-counter net_name net_counters c (net-own c) (net-unlike_text c)
                "net" j ps none in
          subst (IsLast (λ q. IsField "net" j (net_name c) q.field) ps) (sym read) (
            latest-IsLast (device_reads "net" j (net_name c))
              (λ q. IsField "net" j (net_name c) q.field)
              (device_reads-IsField "net" (omega arith) j (net_name c) rest dotted) ps),
    )
