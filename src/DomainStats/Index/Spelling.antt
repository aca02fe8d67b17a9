-- ===== src/DomainStats/Index/Spelling.antt =====
-- The texts that `strconv.Atoi` takes for an index: an optional sign and decimal digits.
use libvirt_go.Prelude.{
  ℕ, ◌+◌, ◌-◌, ◌*◌, ◌^◌, ◌<◌, ◌≤◌, ◌≡◌, ◌≢◌, refl, ap, ◌∙◌, sym, [], ◌∷◌, ◌++◌, ◌↔◌, Bytes, some,
  none, Option, cut, leb, All, arith, Bool-cases, Option-cases, inl, inr, length, ◌==◌, ◌&&◌, true,
  lt→ltb, ==_ne, ==_iff, subst, ◌↔◌,
}
use mathlib.Core.Option.{some-injective}
use native.Mathlib.Nat.{add-mul, mul_assoc, mul_left_comm}
use libvirt_go.Prelude.Int.{pos, negsuc}
use libvirt_go.DomainStats.Index.{digits, unsigned, positive, negative, atoi, index_and_counter}

abbrev pub IsDigit : ℕ → Type 0
IsDigit c = (b'0' ≤ c) × (c ≤ b'9')

-- The number of decimal digits, the most significant one first.
abbrev pub value : Bytes → ℕ
value [] = 0
value (c ∷ cs) = (c - b'0') * 10 ^ length cs + value cs

-- One digit or more, with a value.
abbrev pub IsNumeral : Bytes → ℕ → Type 0
IsNumeral [] n = ⊥
IsNumeral (c ∷ cs) n = All IsDigit (c ∷ cs) × (value (c ∷ cs) ≡ n)

-- A text that spells an index: digits, which may have a plus sign, or a minus sign where they are 0.
pub data Spells (t : Bytes) (n : ℕ) : Type 0 where
  plain : IsNumeral t n → n < 0x8000000000000000 → Spells t n
  plus : (ds : Bytes) → t ≡ b'+' ∷ ds → IsNumeral ds n → n < 0x8000000000000000 → Spells t n
  minus : (ds : Bytes) → t ≡ b'-' ∷ ds → IsNumeral ds n → n ≡ 0 → Spells t n

horner : (a d t : ℕ) → (10 * a + d) * t ≡ a * (10 * t) + d * t
horner a d t =
    add-mul (10 * a) d t ∙ ap (λ (x : ℕ). x + d * t) (mul_assoc 10 a t ∙ mul_left_comm 10 a t)

digits-value :
    (acc : ℕ) (cs : Bytes) → All IsDigit cs → digits acc cs ≡ some (acc * 10 ^ length cs + value cs)
unfolding digits
digits-value acc [] h = ap some (omega arith)
digits-value acc (c ∷ cs) h = ground (
  arith,
  digits-value (10 * acc + (c - b'0')) cs h.1,
  horner acc (c - b'0') (10 ^ length cs),
  h.0,
)

IsDigit-of_test : (c : ℕ) → (leb b'0' c && leb c b'9') ≡ true → IsDigit c
IsDigit-of_test c h = ground (arith, h)

digits-All : (acc : ℕ) (cs : Bytes) {n : ℕ} → digits acc cs ≡ some n → All IsDigit cs
unfolding digits
digits-All acc [] e = tt
digits-All acc (c ∷ cs) {n} e = elim (Bool-cases (leb b'0' c && leb c b'9')) [
  | inr other ↦ absurd (cc (rw (other, digits) at e))
  | inl digit ↦
      (IsDigit-of_test c digit, digits-All (10 * acc + (c - b'0')) cs (rw (digit, digits) at e))
]

-- The digits that are read are a numeral of the number.
unsigned-IsNumeral : (t : Bytes) {n : ℕ} → unsigned t ≡ some n → IsNumeral t n
unfolding unsigned
unsigned-IsNumeral [] e = absurd (cc e)
unsigned-IsNumeral (c ∷ cs) {n} e =
    let d = digits-All 0 (c ∷ cs) e in
    (d, omega (arith, some-injective _ n (sym (digits-value 0 (c ∷ cs) d) ∙ e)))

IsNumeral-unsigned : (t : Bytes) (n : ℕ) → IsNumeral t n → unsigned t ≡ some n
unfolding unsigned
IsNumeral-unsigned [] n h = absurd h
IsNumeral-unsigned (c ∷ cs) n h = digits-value 0 (c ∷ cs) h.0 ∙ ap some (omega (arith, h.1))

positive-inv :
    (o : Option ℕ) {n : ℕ} → positive o ≡ some (pos n) → (o ≡ some n) × (n < 0x8000000000000000)
unfolding positive
positive-inv none e = absurd (cc e)
positive-inv (some k) {n} e = ground (arith, e)

negative-inv : (o : Option ℕ) {n : ℕ} → negative o ≡ some (pos n) → (o ≡ some n) × (n ≡ 0)
unfolding negative
negative-inv none e = absurd (cc e)
negative-inv (some k) {n} e = ground (arith, e)

-- `strconv.Atoi` reads an index exactly from the texts that spell it.
pub atoi-Spells : (t : Bytes) {n : ℕ} → atoi t ≡ some (pos n) → Spells t n
unfolding atoi
atoi-Spells [] e = absurd (cc e)
atoi-Spells (c ∷ cs) {n} e = elim (Bool-cases (c == b'-')) [
  | inl dash ↦
      let (read, is_0) = negative-inv (unsigned cs) (rw (dash, atoi) at e) in
      minus cs (ap (λ x. x ∷ cs) (ground (arith, dash))) (unsigned-IsNumeral cs read) is_0
  | inr no_dash ↦ elim (Bool-cases (c == b'+')) [
    | inl cross ↦
        let (read, small) = positive-inv (unsigned cs) (rw (no_dash, cross, atoi) at e) in
        plus cs (ap (λ x. x ∷ cs) (ground (arith, cross))) (unsigned-IsNumeral cs read) small
    | inr bare ↦
        let (read, small) = positive-inv (unsigned (c ∷ cs)) (rw (no_dash, bare, atoi) at e) in
        plain (unsigned-IsNumeral (c ∷ cs) read) small
  ]
]

positive_small : (n : ℕ) → n < 0x8000000000000000 → positive (some n) ≡ some (pos n)
unfolding positive
positive_small n h = rw (lt→ltb n 0x8000000000000000 h) refl

pub Spells-atoi : (t : Bytes) (n : ℕ) → Spells t n → atoi t ≡ some (pos n)
unfolding atoi negative
Spells-atoi t n (plus ds e h small) = rw e (rw (IsNumeral-unsigned ds n h) (positive_small n small))
Spells-atoi t n (minus ds e h is_0) = rw e (rw (IsNumeral-unsigned ds n h) (rw is_0 refl))
Spells-atoi [] n (plain h small) = absurd h
Spells-atoi (c ∷ cs) n (plain h small) =
    rw (==_ne c b'-' (λ x. omega (arith, x, h.0.0)), ==_ne c b'+' (λ x. omega (arith, x, h.0.0)))
      (rw (IsNumeral-unsigned (c ∷ cs) n h) (positive_small n small))

IsDigit-ne_dot : (t : Bytes) → All IsDigit t → All (λ c. c ≢ b'.') t
IsDigit-ne_dot [] h = tt
IsDigit-ne_dot (c ∷ cs) h = ((λ e. omega (arith, e, h.0)), IsDigit-ne_dot cs h.1)

IsNumeral-ne_dot : (t : Bytes) (n : ℕ) → IsNumeral t n → All (λ c. c ≢ b'.') t
IsNumeral-ne_dot [] n h = tt
IsNumeral-ne_dot (c ∷ cs) n h = IsDigit-ne_dot (c ∷ cs) h.0

Spells-ne_dot : (t : Bytes) (n : ℕ) → Spells t n → All (λ c. c ≢ b'.') t
Spells-ne_dot t n (plain h small) = IsNumeral-ne_dot t n h
Spells-ne_dot t n (plus ds e h small) = rw e ((λ x. omega (arith, x)), IsNumeral-ne_dot ds n h)
Spells-ne_dot t n (minus ds e h is_0) = rw e ((λ x. omega (arith, x)), IsNumeral-ne_dot ds n h)

pub cut_before :
    (s rest : Bytes) → All (λ c. c ≢ b'.') s → cut (s ++ b'.' ∷ rest) b'.' ≡ some (s, rest)
cut_before [] rest h = refl
cut_before (c ∷ s) rest h = ground (arith, cut_before s rest h.1, h.0)

pub cut-inv : (s : Bytes) {x y : Bytes} → cut s b'.' ≡ some (x, y) → s ≡ x ++ b'.' ∷ y
cut-inv [] e = absurd (cc e)
cut-inv (c ∷ s) {x} {y} e = elim (Bool-cases (c == b'.')) [
  | inl dot ↦
      let same = some-injective ([], s) (x, y) (rw dot at e) in
      ap (λ k. k ∷ s) ((==_iff c b'.').0 dot) ∙ ap (λ z. z.0 ++ b'.' ∷ z.1) same
  | inr no_dot ↦ elim (Option-cases (cut s b'.')) [
    | inl h ↦ absurd (cc (rw (no_dot, h) at e))
    | inr ((x', y'), h) ↦
        let same = some-injective (c ∷ x', y') (x, y) (rw (no_dot, h) at e) in
        ap (λ r. c ∷ r) (cut-inv s h) ∙ ap (λ z. z.0 ++ b'.' ∷ z.1) same
  ]
]

pub index_and_counter-Spells :
    (key : Bytes) {n : ℕ} {counter : Bytes}
    → index_and_counter key ≡ some (n, counter)
    → (t : Bytes) × Spells t n × (key ≡ t ++ b'.' ∷ counter)
unfolding index_and_counter
index_and_counter-Spells key {n} {counter} e = elim (Option-cases (cut key b'.')) [
  | inl h ↦ absurd (cc (rw (h, index_and_counter) at e))
  | inr ((t, rest), h) ↦ elim (Option-cases (atoi t)) [
    | inl a ↦ absurd (cc (rw (h, a, index_and_counter) at e))
    | inr (negsuc k, a) ↦ absurd (cc (rw (h, a, index_and_counter) at e))
    | inr (pos k, a) ↦
        let same = some-injective (k, rest) (n, counter) (rw (h, a, index_and_counter) at e) in
        (
          t,
          subst (Spells t) (ap (λ z. z.0) same) (atoi-Spells t a),
          cut-inv key h ∙ ap (λ z. t ++ b'.' ∷ z.1) same,
        )
  ]
]

pub Spells-index_and_counter :
    (t : Bytes) (n : ℕ) (counter : Bytes)
    → Spells t n
    → index_and_counter (t ++ b'.' ∷ counter) ≡ some (n, counter)
unfolding index_and_counter
Spells-index_and_counter t n counter h =
    rw (cut_before t counter (Spells-ne_dot t n h), index_and_counter, Spells-atoi t n h) refl

-- A key has an index and a counter exactly where it is a text that spells the index, a dot and the
-- counter: the text has decimal digits of a value below 2^63, with a plus sign or without one, or
-- digits of 0 behind a minus sign.
pub index_and_counter-exactly :
    (key : Bytes) (n : ℕ) (counter : Bytes)
    → (index_and_counter key ≡ some (n, counter))
      ↔ ((t : Bytes) × Spells t n × (key ≡ t ++ b'.' ∷ counter))
index_and_counter-exactly key n counter = (
  index_and_counter-Spells key,
  λ (t, spelled, e). ap index_and_counter e ∙ Spells-index_and_counter t n counter spelled,
)
