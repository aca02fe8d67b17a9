-- ===== src/DomainJob.antt =====
-- domain_job.go: statistics of a domain's job, as they are decoded from typed parameters, and the
-- operations on jobs, backups and file systems.
pub mod Fields
pub mod Calls
pub mod Laws
use libvirt_go.Prelude.{
  none, some, ℕ, Bytes, List, Option, if◌then◌else◌, ◌∷◌, Bool, bytes_eq, codes,
}
use libvirt_go.Prelude.Names.{put}
use libvirt_go.DomainJob.Fields.{Counter, name, counter_of}
use libvirt_go.Errors.{Result, GoError, ok, err, ◌>>=◌, job_field_type}
use libvirt_go.Prelude.Int.{ℤ}
use libvirt_go.TypedParams.{TypedParameter, Value, uint64_v, int32_v, bool_v, string_v}
use mathlib.Core.List.{[]}

-- `DomainJobInfo`: a member with its flag is an `Option`; a member whose flag is false is zero.
pub record DomainJobInfo : Type 0 where
  pub type_ : ℤ
  pub counter : Counter → Option ℕ
  pub auto_converge_throttle : Option ℤ
  pub operation : Option ℤ
  pub job_success : Option Bool
  pub error_message : Option Bytes
  pub parameters : List TypedParameter

-- `&DomainJobInfo{Type: jobType, Parameters: parameters}`
abbrev pub empty_info : ℤ → List TypedParameter → DomainJobInfo
empty_info t ps = record {
  type_ = t;
  counter = λ _. none;
  auto_converge_throttle = none;
  operation = none;
  job_success = none;
  error_message = none;
  parameters = ps;
}

-- `*present, *destination = true, value`
abbrev pub set_counter : DomainJobInfo → Counter → ℕ → DomainJobInfo
set_counter info c n = record info { counter = put name info.counter c (some n) }

unfoldable pub store_counter : DomainJobInfo → Counter → Bytes → Value → Result DomainJobInfo
store_counter info c field (uint64_v n) = ok (set_counter info c n)
store_counter info c field _ = err (job_field_type field)

-- The fields of the second `switch`, by their constants.
pub data Other : Type 0 where
  throttle operation success message : Other

unfoldable pub other_of : Bytes → Option Other
other_of field =
    if bytes_eq field (codes "auto_converge_throttle")
    then some throttle
    else if bytes_eq field (codes "operation")
    then some operation
    else if bytes_eq field (codes "success")
    then some success
    else if bytes_eq field (codes "errmsg")
    then some message
    else none

unfoldable pub store_other : DomainJobInfo → Other → Bytes → Value → Result DomainJobInfo
store_other info throttle field (int32_v v) = ok (record info { auto_converge_throttle = some v })
store_other info operation field (int32_v v) = ok (record info { operation = some v })
store_other info success field (bool_v b) = ok (record info { job_success = some b })
store_other info message field (string_v s) = ok (record info { error_message = some s })
store_other info _ field _ = err (job_field_type field)

-- `decodeDomainJobParameter`
unfoldable pub decode_domain_job_parameter : DomainJobInfo → TypedParameter → Result DomainJobInfo
unfolding store_counter store_other
decode_domain_job_parameter info p = elim (counter_of p.field) [
  | some c ↦ store_counter info c p.field p.value
  | none ↦ elim (other_of p.field) [ some o ↦ store_other info o p.field p.value | none ↦ ok info ]
]

unfoldable pub decode_all : DomainJobInfo → List TypedParameter → Result DomainJobInfo
unfolding decode_domain_job_parameter
decode_all info [] = ok info
decode_all info (p ∷ ps) = decode_domain_job_parameter info p >>= λ info'. decode_all info' ps

-- `domainJobInfoFromParameters`
unfoldable pub domain_job_info_from_parameters : ℤ → List TypedParameter → Result DomainJobInfo
unfolding decode_all
domain_job_info_from_parameters t ps = decode_all (empty_info t ps) ps
