-- ===== src/DomainStats/Counters.antt =====
-- The statistics, counter by counter: the last parameter of a counter's name gives its value.
use libvirt_go.Prelude.{
  ℕ, List, [], ◌∷◌, Bytes, false, Option, none, some, bytes_eq, ◌≡◌, refl, if◌then◌else◌,
  Option-cases, Bool-cases, inl, inr, ap, ◌∙◌, sym, ◌≢◌, bytes_eq_iff,
}
use mathlib.Core.Option.{some-injective}
use libvirt_go.Prelude.Last.{last, latest, latest-cons}
use libvirt_go.TypedParams.{TypedParameter, Value}
use libvirt_go.DomainStats.Fields.{
  CpuCounter, cpu_name, cpu_of, VcpuCounter, vcpu_name, vcpu_of, BalloonCounter, balloon_name,
  balloon_of, cpu_counters, balloon_counters, vcpu_counters,
}
use libvirt_go.DomainStats.{
  Stats, Group, state, cpu, vcpu, balloon, block, net, number_of, group_of, group_and_key,
  store_parameter, opened, uint64_v, uint32_v, int64_v, int32_v, negsuc,
}
use libvirt_go.DomainStats.Groups.{
  HasParts, store_group-HasParts, store-search, cpu_after, vcpu_after, balloon_after,
}
use libvirt_go.DomainStats.Laws.{p_group}
use libvirt_go.DomainStats.Decoded.{store_all}
use libvirt_go.Prelude.Int.{ℤ, is_negative, pos, to_ℕ}

-- The integer that a value is, if it is of an integer type.
abbrev pub integer_of : Value → Option ℤ
integer_of (uint64_v n) = some (pos n)
integer_of (uint32_v n) = some (pos n)
integer_of (int64_v z) = some z
integer_of (int32_v z) = some z
integer_of _ = none

-- An integer as a number, if it is not negative.
abbrev pub natural : Option ℤ → Option ℕ
natural none = none
natural (some z) = if is_negative z then none else some (to_ℕ z)

-- What a counter takes of a value.
abbrev pub count_of : Value → Option ℕ
count_of v = natural (integer_of v)

pub number_of-count_of : (v : Value) → number_of v ≡ count_of v
unfolding number_of
number_of-count_of (uint64_v n) = refl
number_of-count_of (uint32_v n) = refl
number_of-count_of (int64_v (pos n)) = refl
number_of-count_of (int64_v (negsuc n)) = refl
number_of-count_of (int32_v (pos n)) = refl
number_of-count_of (int32_v (negsuc n)) = refl
number_of-count_of v = refl

-- What a parameter says of a counter: nothing, or the number of its value, or that there is none.
abbrev pub reads : Bytes → TypedParameter → Option (Option ℕ)
reads name p = if bytes_eq p.field name then some (count_of p.value) else none

-- The number of the last parameter of a name.
abbrev pub last_number : Bytes → List TypedParameter → Option ℕ
last_number name ps = latest (reads name) ps none

-- A counter of a group that may be nil.
abbrev pub counter_of : {C : Type 0} → Option (C → Option ℕ) → C → Option ℕ
counter_of none c = none
counter_of (some v) c = v c

opened-counter_of :
    {C : Type 0} (v : Option (C → Option ℕ)) (c : C) → opened (λ _. none) v c ≡ counter_of v c
opened-counter_of none c = refl
opened-counter_of (some v) c = refl

-- A parameter of another group has another name.
not_named :
    (p : TypedParameter) (w : Bytes) (g : Group)
    → group_of (group_and_key w).0 ≡ some g
    → p_group p ≢ some g
    → bytes_eq p.field w ≡ false
not_named p w g named other = elim (Bool-cases (bytes_eq p.field w)) [
  | inr differs ↦ differs
  | inl same ↦
      absurd
        (other (ap (λ x. group_of (group_and_key x).0) ((bytes_eq_iff p.field w).0 same) ∙ named))
]

-- A counter that follows the last parameter of its name, where each store does so.
module _ (get : Stats → Option ℕ) (name : Bytes) where
  unfoldable pub Follows : Type 0
  Follows =
      (p : TypedParameter) (s s' : Stats)
      → store_parameter p s ≡ some s'
      → get s' ≡ (if bytes_eq p.field name then number_of p.value else get s)

  pub store_all-Follows :
      Follows
      → (ps : List TypedParameter) (s : Stats) {s' : Stats} → store_all ps s ≡ some s'
      → get s' ≡ latest (reads name) ps (get s)
  unfolding store_all last Follows
  store_all-Follows go [] s e = ap get (sym (some-injective _ _ e))
  store_all-Follows go (p ∷ ps) s {s'} e = elim (Option-cases (store_parameter p s)) [
    | inl h ↦ absurd (cc (rw (h, store_all) at e))
    | inr (t, h) ↦
        let later : store_all ps t ≡ some s' = rw (h, store_all) at e in
        let here = number_of-count_of p.value in
        let now : get t ≡ elim (reads name p) [ some n ↦ n | none ↦ get s ] =
          go p s t h ∙ elim (Bool-cases (bytes_eq p.field name)) [
            | inl same ↦ rw same here
            | inr differs ↦ rw differs refl
          ] in
        store_all-Follows go ps t later
        ∙ ap (latest (reads name) ps) now
        ∙ sym (latest-cons (reads name) p ps (get s))
  ]

cpu_of-name : (c : CpuCounter) → cpu_of (cpu_name c) ≡ some c
unfolding cpu_of
cpu_of-name CpuCounter.time = refl
cpu_of-name CpuCounter.user = refl
cpu_of-name CpuCounter.system = refl

cpu_name-group : (c : CpuCounter) → group_of (group_and_key (cpu_name c)).0 ≡ some cpu
unfolding group_of group_and_key
cpu_name-group CpuCounter.time = refl
cpu_name-group CpuCounter.user = refl
cpu_name-group CpuCounter.system = refl

unfoldable pub cpu_counter : CpuCounter → Stats → Option ℕ
cpu_counter c s = counter_of s.cpu c

cpu_part :
    (c : CpuCounter) (p : TypedParameter) (v : Option (CpuCounter → Option ℕ)) (g : Group)
    → p_group p ≡ some g
    → counter_of (cpu_after g p v) c
      ≡ (if bytes_eq p.field (cpu_name c) then number_of p.value else counter_of v c)
unfolding cpu_of
cpu_part c p v state e = rw (not_named p (cpu_name c) cpu (cpu_name-group c) (λ h. cc (e, h))) refl
cpu_part c p v cpu e =
    store-search cpu_name cpu_counters (opened (λ _. none) v) p.field (number_of p.value) c
      (cpu_of-name c)
    ∙ ap (λ o. if bytes_eq p.field (cpu_name c) then number_of p.value else o)
        (opened-counter_of v c)
cpu_part c p v vcpu e = rw (not_named p (cpu_name c) cpu (cpu_name-group c) (λ h. cc (e, h))) refl
cpu_part c p v balloon e =
    rw (not_named p (cpu_name c) cpu (cpu_name-group c) (λ h. cc (e, h))) refl
cpu_part c p v block e = rw (not_named p (cpu_name c) cpu (cpu_name-group c) (λ h. cc (e, h))) refl
cpu_part c p v net e = rw (not_named p (cpu_name c) cpu (cpu_name-group c) (λ h. cc (e, h))) refl

pub cpu_counter-Follows : (c : CpuCounter) → Follows (cpu_counter c) (cpu_name c)
unfolding Follows cpu_counter store_parameter
cpu_counter-Follows c p s s' e = elim (Option-cases (p_group p)) [
  | inl h ↦
      rw (not_named p (cpu_name c) cpu (cpu_name-group c) (λ k. cc (h, k)))
        (ap (λ t. cpu_counter c t) (sym (some-injective s s' (rw (h, store_parameter) at e))))
  | inr (g, h) ↦
      let parts : HasParts g p s s' = store_group-HasParts p s g (rw (h, store_parameter) at e) in
      ap (λ v. counter_of v c) parts.cpu ∙ cpu_part c p s.cpu g h
]

balloon_of-name : (c : BalloonCounter) → balloon_of (balloon_name c) ≡ some c
unfolding balloon_of
balloon_of-name BalloonCounter.current = refl
balloon_of-name BalloonCounter.maximum = refl
balloon_of-name BalloonCounter.available = refl
balloon_of-name BalloonCounter.unused = refl
balloon_of-name BalloonCounter.usable = refl
balloon_of-name BalloonCounter.rss = refl
balloon_of-name BalloonCounter.last_update = refl

balloon_name-group :
    (c : BalloonCounter) → group_of (group_and_key (balloon_name c)).0 ≡ some balloon
unfolding group_of group_and_key
balloon_name-group BalloonCounter.current = refl
balloon_name-group BalloonCounter.maximum = refl
balloon_name-group BalloonCounter.available = refl
balloon_name-group BalloonCounter.unused = refl
balloon_name-group BalloonCounter.usable = refl
balloon_name-group BalloonCounter.rss = refl
balloon_name-group BalloonCounter.last_update = refl

unfoldable pub balloon_counter : BalloonCounter → Stats → Option ℕ
balloon_counter c s = counter_of s.balloon c

balloon_part :
    (c : BalloonCounter) (p : TypedParameter) (v : Option (BalloonCounter → Option ℕ)) (g : Group)
    → p_group p ≡ some g
    → counter_of (balloon_after g p v) c
      ≡ (if bytes_eq p.field (balloon_name c) then number_of p.value else counter_of v c)
unfolding balloon_of
balloon_part c p v state e =
    rw (not_named p (balloon_name c) balloon (balloon_name-group c) (λ h. cc (e, h))) refl
balloon_part c p v cpu e =
    rw (not_named p (balloon_name c) balloon (balloon_name-group c) (λ h. cc (e, h))) refl
balloon_part c p v vcpu e =
    rw (not_named p (balloon_name c) balloon (balloon_name-group c) (λ h. cc (e, h))) refl
balloon_part c p v balloon e =
    store-search balloon_name balloon_counters (opened (λ _. none) v) p.field (number_of p.value) c
      (balloon_of-name c)
    ∙ ap (λ o. if bytes_eq p.field (balloon_name c) then number_of p.value else o)
        (opened-counter_of v c)
balloon_part c p v block e =
    rw (not_named p (balloon_name c) balloon (balloon_name-group c) (λ h. cc (e, h))) refl
balloon_part c p v net e =
    rw (not_named p (balloon_name c) balloon (balloon_name-group c) (λ h. cc (e, h))) refl

pub balloon_counter-Follows : (c : BalloonCounter) → Follows (balloon_counter c) (balloon_name c)
unfolding Follows balloon_counter store_parameter
balloon_counter-Follows c p s s' e = elim (Option-cases (p_group p)) [
  | inl h ↦
      rw (not_named p (balloon_name c) balloon (balloon_name-group c) (λ k. cc (h, k)))
        (ap (λ t. balloon_counter c t) (sym (some-injective s s' (rw (h, store_parameter) at e))))
  | inr (g, h) ↦
      let parts : HasParts g p s s' = store_group-HasParts p s g (rw (h, store_parameter) at e) in
      ap (λ v. counter_of v c) parts.balloon ∙ balloon_part c p s.balloon g h
]

vcpu_of-name : (c : VcpuCounter) → vcpu_of (vcpu_name c) ≡ some c
unfolding vcpu_of
vcpu_of-name VcpuCounter.current = refl
vcpu_of-name VcpuCounter.maximum = refl

vcpu_name-group : (c : VcpuCounter) → group_of (group_and_key (vcpu_name c)).0 ≡ some vcpu
unfolding group_of group_and_key
vcpu_name-group VcpuCounter.current = refl
vcpu_name-group VcpuCounter.maximum = refl

unfoldable pub vcpu_counter : VcpuCounter → Stats → Option ℕ
vcpu_counter c s = s.vcpu c

vcpu_part :
    (c : VcpuCounter) (p : TypedParameter) (v : VcpuCounter → Option ℕ) (g : Group)
    → p_group p ≡ some g
    → vcpu_after g p v c ≡ (if bytes_eq p.field (vcpu_name c) then number_of p.value else v c)
unfolding vcpu_of
vcpu_part c p v state e =
    rw (not_named p (vcpu_name c) vcpu (vcpu_name-group c) (λ h. cc (e, h))) refl
vcpu_part c p v cpu e =
    rw (not_named p (vcpu_name c) vcpu (vcpu_name-group c) (λ h. cc (e, h))) refl
vcpu_part c p v vcpu e =
    store-search vcpu_name vcpu_counters v p.field (number_of p.value) c (vcpu_of-name c)
vcpu_part c p v balloon e =
    rw (not_named p (vcpu_name c) vcpu (vcpu_name-group c) (λ h. cc (e, h))) refl
vcpu_part c p v block e =
    rw (not_named p (vcpu_name c) vcpu (vcpu_name-group c) (λ h. cc (e, h))) refl
vcpu_part c p v net e =
    rw (not_named p (vcpu_name c) vcpu (vcpu_name-group c) (λ h. cc (e, h))) refl

pub vcpu_counter-Follows : (c : VcpuCounter) → Follows (vcpu_counter c) (vcpu_name c)
unfolding Follows vcpu_counter store_parameter
vcpu_counter-Follows c p s s' e = elim (Option-cases (p_group p)) [
  | inl h ↦
      rw (not_named p (vcpu_name c) vcpu (vcpu_name-group c) (λ k. cc (h, k)))
        (ap (λ t. vcpu_counter c t) (sym (some-injective s s' (rw (h, store_parameter) at e))))
  | inr (g, h) ↦
      let parts : HasParts g p s s' = store_group-HasParts p s g (rw (h, store_parameter) at e) in
      ap (λ v. v c) parts.vcpu ∙ vcpu_part c p s.vcpu g h
]
