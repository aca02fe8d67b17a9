-- ===== src/TypedParams/Normal.antt =====
-- The normal form of a typed parameter, as `normalizeTypedParameter` promises it: what libvirt can
-- hold, and what comes back from it unchanged.
use libvirt_go.Prelude.{
  ℕ, ◌<◌, ◌≤◌, ◌≡◌, ◌≢◌, refl, sym, ◌∙◌, [], Bytes, false, length, Option, none, some, arith,
  IsNulFree, index_byte, index_byte-none, IsNulFree-index_byte, Bool-cases, Option-cases, inl, inr,
  bytes_eq_iff, if◌then◌else◌, ltb,
}
use libvirt_go.Prelude.Int.{ℤ, pos, negsuc, eqb_ℤ_iff}
use libvirt_go.Prelude.Words.{InInt32, InInt64}
use libvirt_go.Errors.{GoError, Result, ok, err, ◌>>=◌}
use libvirt_go.TypedParams.{
  Value, int_v, int32_v, int64_v, uint_v, uint32_v, uint64_v, float64_v, bool_v, string_v, other,
  TypedParameter, Kind, int, uint, long_long, u_long_long, double, boolean, string, kind_of,
  kind_code, normalize_value, normalize, field_length, has_nul, bad_field, type_or_inferred,
  normalize_as,
}

-- The values that Go's types hold.
abbrev pub IsGoValue : Value → Type 0
IsGoValue (int_v v) = InInt64 v
IsGoValue (int32_v v) = InInt32 v
IsGoValue (int64_v v) = InInt64 v
IsGoValue (uint_v n) = n < 0x10000000000000000
IsGoValue (uint32_v n) = n < 0x100000000
IsGoValue (uint64_v n) = n < 0x10000000000000000
IsGoValue (float64_v n) = n < 0x10000000000000000
IsGoValue (bool_v b) = Unit
IsGoValue (string_v s) = Unit
IsGoValue other = Unit

-- The value is of the Go type that stands for the kind, and C can hold it.
abbrev pub HasKind : Kind → Value → Type 0
HasKind int (int32_v v) = InInt32 v
HasKind uint (uint32_v n) = n < 0x100000000
HasKind long_long (int64_v v) = InInt64 v
HasKind u_long_long (uint64_v n) = n < 0x10000000000000000
HasKind double (float64_v n) = n < 0x10000000000000000
HasKind boolean (bool_v b) = Unit
HasKind string (string_v s) = IsNulFree s
HasKind _ _ = ⊥

-- The same number or text, whatever the width of its type.
abbrev pub SameValue : Value → Value → Type 0
SameValue (int_v v) (int32_v u) = v ≡ u
SameValue (uint_v v) (uint32_v u) = v ≡ u
SameValue v u = v ≡ u

pub record IsNormal (p : TypedParameter) : Type 0 where
  pub named : p.field ≢ []
  pub short : length p.field < field_length
  pub nul_free : IsNulFree p.field
  pub kind : Kind
  pub coded : p.type_ ≡ kind_code kind
  pub typed : HasKind kind p.value

-- What a successful result is.
abbrev pub Ensures {ℓ} : {A : Type ℓ} → (A → Type 0) → Result A → Type 0
Ensures P (ok a) = P a
Ensures P (err e) = Unit

pub Ensures-ok {ℓ} :
    {A : Type ℓ} (P : A → Type 0) (r : Result A) {a : A} → Ensures P r → r ≡ ok a → P a
Ensures-ok P r h e = rw e at h

-- The overflow checks: an error past the limit, and the value up to it.
Ensures-limit {ℓ} :
    {A : Type ℓ} (P : A → Type 0) (limit n : ℕ) (e : GoError) (a : A)
    → (n ≤ limit → P a)
    → Ensures P (if ltb limit n then err e else ok a)
Ensures-limit P limit n e a h = elim (Bool-cases (ltb limit n)) [
  | inl big ↦ rw big tt
  | inr fits ↦ rw fits (h (ground arith))
]

normalize_value-HasKind :
    (field : Bytes) (k : Kind) (v : Value)
    → IsGoValue v
    → Ensures (λ n. HasKind k n × SameValue v n) (normalize_value field k v)
unfolding normalize_value
normalize_value-HasKind field int (int_v (pos v)) g =
    Ensures-limit _ 0x7fffffff v _ _ λ fits. (omega arith, refl)
normalize_value-HasKind field int (int_v (negsuc v)) g =
    Ensures-limit _ 0x7fffffff v _ _ λ fits. (omega arith, refl)
normalize_value-HasKind field int (int32_v (pos v)) g =
    Ensures-limit _ 0x7fffffff v _ _ λ fits. (omega arith, refl)
normalize_value-HasKind field int (int32_v (negsuc v)) g =
    Ensures-limit _ 0x7fffffff v _ _ λ fits. (omega arith, refl)
normalize_value-HasKind field uint (uint_v v) g =
    Ensures-limit _ 0xffffffff v _ _ λ fits. (omega arith, refl)
normalize_value-HasKind field uint (uint32_v v) g =
    Ensures-limit _ 0xffffffff v _ _ λ fits. (omega arith, refl)
normalize_value-HasKind field long_long (int64_v v) g = (g, refl)
normalize_value-HasKind field u_long_long (uint64_v v) g = (g, refl)
normalize_value-HasKind field double (float64_v v) g = (g, refl)
normalize_value-HasKind field boolean (bool_v v) g = (tt, refl)
normalize_value-HasKind field string (string_v s) g = elim (Option-cases (index_byte s 0)) [
  | inl e ↦ rw (e, Ensures) (index_byte-none s e, refl)
  | inr (n, e) ↦ rw (e, Ensures) tt
]
normalize_value-HasKind field _ _ g = tt

pub Ensures-bind {ℓ κ} :
    {A : Type ℓ} {B : Type κ} (P : A → Type 0) (Q : B → Type 0) (r : Result A) (f : A → Result B)
    → Ensures P r
    → ((a : A) → P a → Ensures Q (f a))
    → Ensures Q (r >>= f)
Ensures-bind P Q (ok a) f h k = k a h
Ensures-bind P Q (err e) f h k = tt

pub kind_of-kind_code : (k : Kind) → kind_of (kind_code k) ≡ some k
unfolding kind_of
kind_of-kind_code int = refl
kind_of-kind_code uint = refl
kind_of-kind_code long_long = refl
kind_of-kind_code u_long_long = refl
kind_of-kind_code double = refl
kind_of-kind_code boolean = refl
kind_of-kind_code string = refl

kind_of-some : (t : ℤ) (k : Kind) → kind_of t ≡ some k → t ≡ kind_code k
unfolding kind_of
kind_of-some (negsuc n) k h = cc
kind_of-some (pos n) k h = ground arith

has_nul-false : (s : Bytes) → has_nul s ≡ false → IsNulFree s
has_nul-false s h = index_byte-none s (ground arith)

bad_field-false :
    (s : Bytes) → bad_field s ≡ false → (s ≢ []) × (length s < field_length) × IsNulFree s
unfolding bad_field
bad_field-false s h =
    (λ e. ground (arith, bytes_eq_iff s []), ground arith, has_nul-false s (ground arith))

type_or_inferred_given : (t : ℤ) (v : Value) → t ≢ pos 0 → type_or_inferred t v ≡ t
unfolding type_or_inferred
type_or_inferred_given t v h = ground (arith, eqb_ℤ_iff t (pos 0))

-- The normal form of a parameter: in the ranges, with its name, its number or text, and its type if
-- it gives one.
pub record Normalizes (p n : TypedParameter) : Type 0 where
  pub normal : IsNormal n
  pub same_field : n.field ≡ p.field
  pub same_value : SameValue p.value n.value
  pub same_type : p.type_ ≢ pos 0 → n.type_ ≡ p.type_

normalize_as-Normalizes :
    (p : TypedParameter) (t : ℤ) (k : Option Kind)
    → IsGoValue p.value
    → bad_field p.field ≡ false
    → kind_of t ≡ k
    → (p.type_ ≢ pos 0 → t ≡ p.type_)
    → Ensures (Normalizes p) (normalize_as p t k)
unfolding normalize_as
normalize_as-Normalizes p t none good named e given = tt
normalize_as-Normalizes p t (some k) good named e given =
    let (named', short, nul_free) = bad_field-false p.field named in
    Ensures-bind (λ n. HasKind k n × SameValue p.value n) (Normalizes p)
      (normalize_value p.field k p.value) _ (normalize_value-HasKind p.field k p.value good)
      λ v (typed, same). record {
        normal = record {
          named = named';
          short = short;
          nul_free = nul_free;
          kind = k;
          coded = kind_of-some t k e;
          typed = typed;
        };
        same_field = refl;
        same_value = same;
        same_type = given;
      }

-- Where a parameter with a value in the range of its Go type is accepted, the result is in normal
-- form, with the same name and the same number or text, and with the type that was given, if one was.
pub normalize-Normalizes :
    (p : TypedParameter) {n : TypedParameter}
    → IsGoValue p.value
    → normalize p ≡ ok n
    → Normalizes p n
unfolding normalize
normalize-Normalizes p good e = elim (Bool-cases (bad_field p.field)) [
  | inl bad ↦ cc bad
  | inr named ↦
      Ensures-ok (Normalizes p) (normalize_as p _ _)
        (normalize_as-Normalizes p _ _ good named refl (type_or_inferred_given p.type_ p.value))
        (ground arith)
]

normalize_value_self :
    (field : Bytes) (k : Kind) (v : Value) → HasKind k v → normalize_value field k v ≡ ok v
unfolding normalize_value
normalize_value_self field int (int32_v (pos n)) h = ground arith
normalize_value_self field int (int32_v (negsuc n)) h = ground arith
normalize_value_self field uint (uint32_v n) h = ground arith
normalize_value_self field long_long (int64_v v) h = refl
normalize_value_self field u_long_long (uint64_v v) h = refl
normalize_value_self field double (float64_v v) h = refl
normalize_value_self field boolean (bool_v b) h = refl
normalize_value_self field string (string_v s) h = ground (arith, IsNulFree-index_byte s h)
normalize_value_self field _ _ h = absurd h

IsNormal-bad_field : (p : TypedParameter) → IsNormal p → bad_field p.field ≡ false
unfolding bad_field
IsNormal-bad_field p v =
    ground
      (arith, IsNulFree-index_byte p.field v.nul_free, bytes_eq_iff p.field [], v.named, v.short)

kind_code-ne-zero : (k : Kind) → kind_code k ≢ pos 0
kind_code-ne-zero int = ground arith
kind_code-ne-zero uint = ground arith
kind_code-ne-zero long_long = ground arith
kind_code-ne-zero u_long_long = ground arith
kind_code-ne-zero double = ground arith
kind_code-ne-zero boolean = ground arith
kind_code-ne-zero string = ground arith

-- A parameter in normal form is accepted as it is.
pub normalize-IsNormal : (p : TypedParameter) → IsNormal p → normalize p ≡ ok p
unfolding normalize normalize_as
normalize-IsNormal p v =
    let given =
      type_or_inferred_given p.type_ p.value (λ e. kind_code-ne-zero v.kind (sym v.coded ∙ e)) in
    rw (IsNormal-bad_field p v, given, v.coded, kind_of-kind_code v.kind)
      (rw (normalize_value_self p.field v.kind p.value v.typed))
