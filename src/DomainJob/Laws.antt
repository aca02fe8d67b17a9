-- ===== src/DomainJob/Laws.antt =====
-- The decoded statistics, member by member: the last parameter of a member's name gives its value.
use libvirt_go.Prelude.{
  none, some, Option, List, ℕ, ◌≡◌, Bytes, ◌∷◌, if◌then◌else◌, Option-cases, bytes_eq, inl, inr,
  Bool-cases, false, refl, bytes_eq_iff, ◌∙◌, ap, sym, All, ◌↔◌,
}
use libvirt_go.Errors.{Result, ok, Result-cases}
use libvirt_go.TypedParams.{Value, TypedParameter}
use libvirt_go.DomainJob.Fields.{Counter, counter_of, name, counter_of-some, counter_of-name}
use libvirt_go.DomainJob.{
  message, throttle, operation, success, decode_domain_job_parameter, store_counter, store_other,
  DomainJobInfo, decode_all, uint64_v, Other, int32_v, bool_v, string_v, other_of,
  domain_job_info_from_parameters, empty_info,
}
use mathlib.Core.List.{[]}
use libvirt_go.Prelude.Int.{ℤ}
use libvirt_go.Prelude.Last.{last, last_or, last_or-cons}

-- What a parameter says of a counter: its uint64, if it has the counter's name.
abbrev pub uint64_of : Value → Option ℕ
uint64_of (uint64_v n) = some n
uint64_of _ = none

abbrev pub counts : Counter → TypedParameter → Option ℕ
counts c p = if bytes_eq p.field (name c) then uint64_of p.value else none

ok-injective {ℓ} : {A : Type ℓ} (a b : A) → ok a ≡ ok b → a ≡ b
ok-injective a b e = cc e

store_counter-counter :
    (info info' : DomainJobInfo) (d c : Counter) (field : Bytes) (v : Value)
    → store_counter info d field v ≡ ok info'
    → info'.counter c ≡ elim (if bytes_eq (name d) (name c) then uint64_of v else none) [
      | some n ↦ some n
      | none ↦ info.counter c
    ]
unfolding store_counter
store_counter-counter info info' d c field (uint64_v n) e =
    elim (Bool-cases (bytes_eq (name d) (name c))) [
      | inl same ↦ rw (← ok-injective _ _ e) (rw same refl)
      | inr differs ↦ rw (← ok-injective _ _ e) (rw differs refl)
    ]
store_counter-counter info info' d c field v e = cc e

store_other-counter :
    (info info' : DomainJobInfo) (o : Other) (c : Counter) (field : Bytes) (v : Value)
    → store_other info o field v ≡ ok info'
    → info'.counter c ≡ info.counter c
unfolding store_other
store_other-counter info info' throttle c field (int32_v v) e = rw (← ok-injective _ _ e) refl
store_other-counter info info' operation c field (int32_v v) e = rw (← ok-injective _ _ e) refl
store_other-counter info info' success c field (bool_v v) e = rw (← ok-injective _ _ e) refl
store_other-counter info info' message c field (string_v v) e = rw (← ok-injective _ _ e) refl
store_other-counter info info' throttle c field v e = cc e
store_other-counter info info' operation c field v e = cc e
store_other-counter info info' success c field v e = cc e
store_other-counter info info' message c field v e = cc e

counter_of-none :
    (field : Bytes) (c : Counter) → counter_of field ≡ none → bytes_eq field (name c) ≡ false
counter_of-none field c e = elim (Bool-cases (bytes_eq field (name c))) [
  | inr differs ↦ differs
  | inl same ↦ absurd (cc ((bytes_eq_iff field (name c)).0 same, counter_of-name c, e))
]

-- One parameter.
counter-step :
    (info : DomainJobInfo) (p : TypedParameter) {info' : DomainJobInfo} (c : Counter)
    → decode_domain_job_parameter info p ≡ ok info'
    → info'.counter c ≡ elim (counts c p) [ some n ↦ some n | none ↦ info.counter c ]
unfolding decode_domain_job_parameter
counter-step info p {info'} c e = elim (Option-cases (counter_of p.field)) [
  | inr (d, found) ↦ rw (counter_of-some p.field d found) (
      store_counter-counter info info' d c p.field p.value
        (rw (found, decode_domain_job_parameter) at e))
  | inl unknown ↦ rw (counter_of-none p.field c unknown) (elim (Option-cases (other_of p.field)) [
    | inr (o, found) ↦
        store_other-counter info info' o c p.field p.value
          (rw (unknown, found, decode_domain_job_parameter) at e)
    | inl ignored ↦
        rw (← ok-injective info info' (rw (unknown, ignored, decode_domain_job_parameter) at e))
          refl
  ])
]

decode_all-counter :
    (info : DomainJobInfo) (ps : List TypedParameter) {info' : DomainJobInfo} (c : Counter)
    → decode_all info ps ≡ ok info'
    → info'.counter c ≡ last_or (counts c) ps (info.counter c)
unfolding decode_all last
decode_all-counter info [] c e = rw (← ok-injective _ _ e) refl
decode_all-counter info (p ∷ ps) {info'} c e =
    elim (Result-cases (decode_domain_job_parameter info p)) [
      | inr (bad, h) ↦ absurd (cc (h, e))
      | inl (next, h) ↦
          decode_all-counter next ps c (rw (h, decode_all) at e)
          ∙ ap (last_or (counts c) ps) (counter-step info p c h)
          ∙ sym (last_or-cons (counts c) p ps (info.counter c))
    ]

-- Where the statistics are decoded, each counter is set exactly if a parameter has its name, and then
-- to the number of the last such parameter.
pub domain_job_info-counter :
    (t : ℤ) (ps : List TypedParameter) (info : DomainJobInfo) (c : Counter)
    → domain_job_info_from_parameters t ps ≡ ok info
    → info.counter c ≡ last (counts c) ps
unfolding domain_job_info_from_parameters last
domain_job_info-counter t ps info c e = elim (Option-cases (last (counts c) ps)) [
  | inl unset ↦ rw unset (rw (unset, last_or) at (decode_all-counter (empty_info t ps) ps c e))
  | inr (n, set) ↦ rw set (rw (set, last_or) at (decode_all-counter (empty_info t ps) ps c e))
]

-- Whether the value has the type of the field, if the field is known.
abbrev pub FieldType : Option Counter → Option Other → Value → Type 0
FieldType (some c) o (uint64_v n) = Unit
FieldType (some c) o _ = ⊥
FieldType none (some throttle) (int32_v v) = Unit
FieldType none (some operation) (int32_v v) = Unit
FieldType none (some success) (bool_v b) = Unit
FieldType none (some message) (string_v s) = Unit
FieldType none (some o) _ = ⊥
FieldType none none v = Unit

abbrev pub HasFieldType : TypedParameter → Type 0
HasFieldType p = FieldType (counter_of p.field) (other_of p.field) p.value

-- What `decodeDomainJobParameter` does once the names are looked up.
abbrev stored : DomainJobInfo → Bytes → Value → Option Counter → Option Other → Result DomainJobInfo
stored info field v (some c) o = store_counter info c field v
stored info field v none (some o) = store_other info o field v
stored info field v none none = ok info

decode-stored :
    (info : DomainJobInfo) (p : TypedParameter)
    → decode_domain_job_parameter info p
      ≡ stored info p.field p.value (counter_of p.field) (other_of p.field)
unfolding decode_domain_job_parameter
decode-stored info p = elim (Option-cases (counter_of p.field)) [
  | inr (c, found) ↦ rw (found, decode_domain_job_parameter) refl
  | inl unknown ↦ elim (Option-cases (other_of p.field)) [
    | inr (o, found) ↦ rw (unknown, found, decode_domain_job_parameter) refl
    | inl ignored ↦ rw (unknown, ignored, decode_domain_job_parameter) refl
  ]
]

stored-ok :
    (info : DomainJobInfo) (field : Bytes) (v : Value) (k : Option Counter) (o : Option Other)
    → FieldType k o v
    → (info' : DomainJobInfo) × (stored info field v k o ≡ ok info')
unfolding store_counter store_other
stored-ok info field (uint64_v n) (some c) o h = (_, refl)
stored-ok info field v (some c) o h = absurd h
stored-ok info field (int32_v v) none (some throttle) h = (_, refl)
stored-ok info field (int32_v v) none (some operation) h = (_, refl)
stored-ok info field (bool_v b) none (some success) h = (_, refl)
stored-ok info field (string_v s) none (some message) h = (_, refl)
stored-ok info field v none (some throttle) h = absurd h
stored-ok info field v none (some operation) h = absurd h
stored-ok info field v none (some success) h = absurd h
stored-ok info field v none (some message) h = absurd h
stored-ok info field v none none h = (_, refl)

stored-FieldType :
    (info info' : DomainJobInfo) (field : Bytes) (v : Value) (k : Option Counter) (o : Option Other)
    → stored info field v k o ≡ ok info'
    → FieldType k o v
unfolding store_counter store_other
stored-FieldType info info' field (uint64_v n) (some c) o e = tt
stored-FieldType info info' field v (some c) o e = cc e
stored-FieldType info info' field (int32_v v) none (some throttle) e = tt
stored-FieldType info info' field (int32_v v) none (some operation) e = tt
stored-FieldType info info' field (bool_v b) none (some success) e = tt
stored-FieldType info info' field (string_v s) none (some message) e = tt
stored-FieldType info info' field v none (some throttle) e = cc e
stored-FieldType info info' field v none (some operation) e = cc e
stored-FieldType info info' field v none (some success) e = cc e
stored-FieldType info info' field v none (some message) e = cc e
stored-FieldType info info' field v none none e = tt

decode_all-ok :
    (info : DomainJobInfo) (ps : List TypedParameter)
    → All HasFieldType ps
    → (info' : DomainJobInfo) × (decode_all info ps ≡ ok info')
unfolding decode_all
decode_all-ok info [] h = (info, refl)
decode_all-ok info (p ∷ ps) (typed, h) =
    let (next, e) = stored-ok info p.field p.value _ _ typed in
    let (last, f) = decode_all-ok next ps h in (last, rw (decode-stored info p ∙ e, decode_all) f)

decode_all-HasFieldType :
    (info info' : DomainJobInfo) (ps : List TypedParameter)
    → decode_all info ps ≡ ok info'
    → All HasFieldType ps
unfolding decode_all
decode_all-HasFieldType info info' [] e = tt
decode_all-HasFieldType info info' (p ∷ ps) e =
    elim (Result-cases (decode_domain_job_parameter info p)) [
      | inr (bad, h) ↦ absurd (cc (h, e))
      | inl (next, h) ↦ (
        stored-FieldType info next p.field p.value _ _ (sym (decode-stored info p) ∙ h),
        decode_all-HasFieldType next info' ps (rw (h, decode_all) at e),
      )
    ]

-- The statistics are decoded exactly if every parameter of a known name has the type of its member;
-- parameters of unknown names are accepted with any value.
pub domain_job_info-ok :
    (t : ℤ) (ps : List TypedParameter)
    → ((info : DomainJobInfo) × (domain_job_info_from_parameters t ps ≡ ok info))
      ↔ All HasFieldType ps
unfolding domain_job_info_from_parameters
domain_job_info-ok t ps =
    (λ r. decode_all-HasFieldType (empty_info t ps) r.0 ps r.1, decode_all-ok (empty_info t ps) ps)
