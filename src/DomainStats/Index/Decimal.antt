-- ===== src/DomainStats/Index/Decimal.antt =====
-- An index in decimal is read back.
use libvirt_go.Prelude.{
  ℕ, zero, suc, ◌+◌, ◌/◌, ◌%◌, ◌<◌, ◌≤◌, ◌≡◌, refl, ap, ◌∙◌, [], ◌∷◌, ◌++◌, Bytes, some, cut, ltb,
  if◌then◌else◌, All, arith, Bool-cases, inl, inr, lt→ltb, subst, sym,
}
use libvirt_go.Prelude.Int.{pos}
use libvirt_go.DomainStats.Index.{digits, unsigned, positive, atoi, index_and_counter}

-- The decimal digits of a number in front of others; the fuel is more than the number of digits.
spell : ℕ → ℕ → Bytes → Bytes
spell zero n acc = acc
spell (suc f) n acc =
    let more = spell f (n / 10) ((b'0' + n % 10) ∷ acc) in
    if ltb n 10 then (b'0' + n) ∷ acc else more

-- A number in decimal, without a sign or leading zeros.
unfoldable pub decimal : ℕ → Bytes
unfolding spell
decimal n = spell (suc n) n []

abbrev IsDigit : ℕ → Type 0
IsDigit c = (b'0' ≤ c) × (c ≤ b'9')

digits-spell : (f n : ℕ) (acc : Bytes) → n < f → digits 0 (spell f n acc) ≡ digits n acc
unfolding digits spell
digits-spell zero n acc h = absurd (omega arith)
digits-spell (suc f) n acc h = elim (Bool-cases (ltb n 10)) [
  | inl small ↦ rw small (ground (arith, small))
  | inr large ↦ rw large (
      digits-spell f (n / 10) ((b'0' + n % 10) ∷ acc) (ground (arith, large))
      ∙ ground (arith, large))
]

All-spell : (f n : ℕ) (acc : Bytes) → n < f → All IsDigit acc → All IsDigit (spell f n acc)
unfolding spell
All-spell zero n acc h a = a
All-spell (suc f) n acc h a = elim (Bool-cases (ltb n 10)) [
  | inl small ↦ rw small (ground (arith, small), a)
  | inr large ↦
      rw large
        (All-spell f (n / 10) ((b'0' + n % 10) ∷ acc) (ground (arith, large)) (omega arith, a))
]

-- There is a first digit.
spell-cons : (f n : ℕ) (acc : Bytes) → n < f → (c : ℕ) × (cs : Bytes) × (spell f n acc ≡ c ∷ cs)
unfolding spell
spell-cons zero n acc h = absurd (omega arith)
spell-cons (suc f) n acc h = elim (Bool-cases (ltb n 10)) [
  | inl small ↦ (b'0' + n, acc, rw small refl)
  | inr large ↦
      let (c, cs, e) = spell-cons f (n / 10) ((b'0' + n % 10) ∷ acc) (ground (arith, large)) in
      (c, cs, rw large e)
]

cut-digits : (s rest : Bytes) → All IsDigit s → cut (s ++ b'.' ∷ rest) b'.' ≡ some (s, rest)
cut-digits [] rest h = refl
cut-digits (c ∷ s) rest h = ground (arith, cut-digits s rest h.1)

atoi-digits :
    (s : Bytes) (n c : ℕ) (cs : Bytes)
    → s ≡ c ∷ cs
    → All IsDigit s
    → digits 0 s ≡ some n
    → n < 0x8000000000000000
    → atoi s ≡ some (pos n)
unfolding atoi unsigned positive
atoi-digits s n c cs e d v h =
    let d' : All IsDigit (c ∷ cs) = subst (All IsDigit) e d in
    let v' : digits 0 (c ∷ cs) ≡ some n = ap (digits 0) (sym e) ∙ v in
    rw e (ground (arith, v', d'.0, lt→ltb n 0x8000000000000000 h))

-- A key that starts with an index in decimal and a dot gives the index, if an int64 holds it, and
-- what is behind the dot.
pub index_and_counter-decimal :
    (n : ℕ) (rest : Bytes)
    → n < 0x8000000000000000
    → index_and_counter (decimal n ++ b'.' ∷ rest) ≡ some (n, rest)
unfolding index_and_counter decimal digits
index_and_counter-decimal n rest h =
    let (c, cs, e) = spell-cons (suc n) n [] (omega arith) in
    let d = All-spell (suc n) n [] (omega arith) tt in
    rw
      (
        cut-digits (spell (suc n) n []) rest d,
        index_and_counter,
        atoi-digits (spell (suc n) n []) n c cs e d (digits-spell (suc n) n [] (omega arith)) h,
      )
      refl
