-- ===== src/Witnesses/Statistics.antt =====
-- Parameters in memory, for the properties of DomainJob and DomainStats.
use libvirt_go.Prelude.{
  ℕ, List, [], ◌∷◌, ◌++◌, ◌≡◌, ◌↔◌, refl, Bytes, codes, none, some, replicate, length, ◌-◌, All,
  if◌then◌else◌, false, ◌==◌, str_eq, arith,
}
use libvirt_go.Prelude.Int.{ℤ, pos}
use libvirt_go.Prelude.Last.{last}
use libvirt_go.Prelude.Words.{load_le, of_le}
use libvirt_go.Errors.{ok, invalid_stats_record}
use libvirt_go.Memory.{Memory, CTypedParameter}
use libvirt_go.World.{called, World}
use libvirt_go.TypedParams.{TypedParameter, uint64_v, kind_of}
use libvirt_go.TypedParams.Decode.{
  decode_typed_parameters, slice_params, decode_typed_parameter, decode_value,
}
use libvirt_go.DomainJob.{
  domain_job_info_from_parameters, decode_domain_job_parameter, store_counter, store_other,
  other_of, DomainJobInfo, set_counter, empty_info,
}
use libvirt_go.Witnesses.{no_memory, world_0, small_api, success}
use libvirt_go.DomainJob.Fields.{Counter, counter_of}
use libvirt_go.DomainJob.Laws.{counts, HasFieldType, domain_job_info-counter, domain_job_info-ok}
use libvirt_go.DomainStats.Release.{Takes, take_records-Takes}
use libvirt_go.DomainStats.Calls.{take_records, decode_records}
use libvirt_go.DomainStats.{Stats, no_stats}
use libvirt_go.DomainStats.Loop.{decode_domain_stats, with_sorted}
use libvirt_go.DomainStats.Decoded.{
  stored_from, decode_domain_stats-decode_typed_parameters, decode_domain_stats-IsAscending,
  decode_domain_stats-find, block_of_parameters, net_of_parameters,
}
use libvirt_go.DomainStats.Devices.Laws.{find, IsAscending}
use libvirt_go.DomainStats.Fields.{
  CpuCounter, BalloonCounter, VcpuCounter, BlockCounter, NetCounter, cpu_name, balloon_name,
  vcpu_name, block_name, net_name,
}
use libvirt_go.DomainStats.Counters.{cpu_counter, balloon_counter, vcpu_counter, last_number}
use libvirt_go.DomainStats.LastNumber.{
  decode_domain_stats-counters, decode_domain_stats-device_counters,
}
use libvirt_go.Native.{NativeApi, invoke}
use libvirt_go.DomainStats.Index.{index_and_counter}
use libvirt_go.DomainStats.Index.Decimal.{decimal, index_and_counter-decimal}
use libvirt_go.DomainStats.DeviceFields.{IsLast, IsField}
use libvirt_go.DomainStats.DeviceCounters.{device_counter}
use libvirt_go.DomainStats.Index.Spelling.{Spells, index_and_counter-exactly}
use libvirt_go.DomainJob
use libvirt_go.TypedParams.Decode

-- A job with a remaining time of 5, then of 7.
abbrev time_left : ℕ → TypedParameter
time_left n = record { field = codes "time_remaining"; type_ = pos 4; value = uint64_v n }

abbrev job_parameters : List TypedParameter
job_parameters = time_left 5 ∷ time_left 7 ∷ []

abbrev job_info : DomainJobInfo
job_info =
    set_counter (set_counter (empty_info (pos 3) job_parameters) Counter.time_remaining 5)
      Counter.time_remaining 7

job_decodes : domain_job_info_from_parameters (pos 3) job_parameters ≡ ok job_info
unfolding domain_job_info_from_parameters DomainJob.decode_all decode_domain_job_parameter
    store_counter counter_of
job_decodes = refl

domain_job_info-counter_example :
    job_info.counter Counter.time_remaining ≡ last (counts Counter.time_remaining) job_parameters
domain_job_info-counter_example =
    domain_job_info-counter (pos 3) job_parameters job_info Counter.time_remaining job_decodes

domain_job_info-ok_example :
    ((info : DomainJobInfo) × (domain_job_info_from_parameters (pos 3) job_parameters ≡ ok info))
    ↔ All HasFieldType job_parameters
domain_job_info-ok_example = domain_job_info-ok (pos 3) job_parameters

-- The counters of two blocks, out of order, and of a CPU.
abbrev c_field : Bytes → Bytes
c_field s = s ++ replicate (80 - length s) 0

abbrev c_number : Bytes → ℤ → ℕ → CTypedParameter
c_number field t n = record { field = c_field field; type_ = t; value = n ∷ replicate 7 0 }

abbrev stats_array : List CTypedParameter
stats_array =
    c_number (codes "cpu.time") (pos 4) 5
    ∷ c_number (codes "block.1.rd.bytes") (pos 4) 7
    ∷ c_number (codes "block.0.rd.bytes") (pos 4) 9
    ∷ c_number (codes "net.0.rx.bytes") (pos 4) 11
    ∷ []

abbrev stats_memory : Memory
stats_memory = record no_memory { params = λ p. if p == 64 then some stats_array else none }

abbrev number_at : Bytes → ℕ → TypedParameter
number_at field n = record { field = field; type_ = pos 4; value = uint64_v n }

abbrev stats_parameters : List TypedParameter
stats_parameters =
    number_at (codes "cpu.time") 5
    ∷ number_at (codes "block.1.rd.bytes") 7
    ∷ number_at (codes "block.0.rd.bytes") 9
    ∷ number_at (codes "net.0.rx.bytes") 11
    ∷ []

stats_decode : decode_typed_parameters 64 (pos 4) stats_memory ≡ some (ok stats_parameters)
unfolding decode_typed_parameters slice_params Decode.decode_all decode_typed_parameter decode_value
    kind_of load_le of_le
stats_decode = refl

decode_domain_stats-decode_typed_parameters_example :
    decode_domain_stats 64 4 stats_memory
    ≡ with_sorted (stored_from no_stats (decode_typed_parameters 64 (pos 4) stats_memory))
decode_domain_stats-decode_typed_parameters_example =
    decode_domain_stats-decode_typed_parameters 64 4 stats_memory

decode_domain_stats-IsAscending_example :
    (s : Stats) × (decode_domain_stats 64 4 stats_memory ≡ some (ok s))
    × IsAscending s.blocks.devices
    × IsAscending s.nets.devices
decode_domain_stats-IsAscending_example =
    decode_domain_stats-IsAscending 64 4 stats_memory stats_parameters stats_decode

decode_domain_stats-find_example :
    (s : Stats) × (decode_domain_stats 64 4 stats_memory ≡ some (ok s))
    × ((j : ℕ) → find j s.blocks.devices ≡ block_of_parameters j stats_parameters)
    × ((j : ℕ) → find j s.nets.devices ≡ net_of_parameters j stats_parameters)
decode_domain_stats-find_example =
    decode_domain_stats-find 64 4 stats_memory stats_parameters stats_decode

-- The statistics of that array.
stats_result : (s : Stats) × (decode_domain_stats 64 4 stats_memory ≡ some (ok s))
stats_result =
    let r = decode_domain_stats-IsAscending 64 4 stats_memory stats_parameters stats_decode in
    (r.0, r.1)

abbrev stats : Stats
stats = stats_result.0

decode_domain_stats-counters_example :
    ((c : CpuCounter) → cpu_counter c stats ≡ last_number (cpu_name c) stats_parameters)
    × ((c : BalloonCounter)
        → balloon_counter c stats ≡ last_number (balloon_name c) stats_parameters)
    × ((c : VcpuCounter) → vcpu_counter c stats ≡ last_number (vcpu_name c) stats_parameters)
decode_domain_stats-counters_example =
    decode_domain_stats-counters 64 4 stats_memory stats_parameters stats stats_decode
      stats_result.1

decode_domain_stats-device_counters_example :
    ((j : ℕ) (c : BlockCounter)
      → IsLast
          (λ q. IsField "block" j (block_name c) q.field)
          stats_parameters
          (device_counter c (find j stats.blocks.devices)))
    × ((j : ℕ) (c : NetCounter)
        → IsLast
            (λ q. IsField "net" j (net_name c) q.field)
            stats_parameters
            (device_counter c (find j stats.nets.devices)))
decode_domain_stats-device_counters_example =
    decode_domain_stats-device_counters 64 4 stats_memory stats_parameters stats stats_decode
      stats_result.1

-- A libvirt that can release records.
abbrev freeing_api : NativeApi (Unit {0})
freeing_api = record small_api {
  fn = λ name. if str_eq name "virDomainStatsRecordListFree" then some success else none;
}

-- The release of the records, where two came instead of one.
freeing_api-frees :
    take_records freeing_api (pos 2) 64 world_0
    ≡ some (
      ((none, some (invalid_stats_record (pos 2))), false),
      record world_0 { trace = called "virDomainStatsRecordListFree" 0 ∷ [] },
    )
unfolding take_records decode_records invoke
freeing_api-frees = refl

abbrev freed_world : World (Unit {0})
freed_world = record world_0 { trace = called "virDomainStatsRecordListFree" 0 ∷ [] }

take_records-Takes_example :
    Takes freeing_api 64 world_0
      (pos 2)
      ((none, some (invalid_stats_record (pos 2))), false)
      freed_world
take_records-Takes_example = take_records-Takes freeing_api 64 world_0 (pos 2) freeing_api-frees

index_and_counter-decimal_example :
    index_and_counter (decimal 12 ++ b'.' ∷ codes "rd.bytes") ≡ some (12, codes "rd.bytes")
index_and_counter-decimal_example = index_and_counter-decimal 12 (codes "rd.bytes") (omega arith)

index_and_counter-exactly_example :
    (index_and_counter (codes "+07.rd.bytes") ≡ some (7, codes "rd.bytes"))
    ↔ ((t : Bytes) × Spells t 7 × (codes "+07.rd.bytes" ≡ t ++ b'.' ∷ codes "rd.bytes"))
index_and_counter-exactly_example =
    index_and_counter-exactly (codes "+07.rd.bytes") 7 (codes "rd.bytes")
