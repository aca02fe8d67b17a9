-- ===== src/DomainStats/Index.antt =====
-- The index in the name of a device's field, as `strconv.Atoi` reads it.
pub mod Decimal
pub mod Spelling
use libvirt_go.Prelude.{
  ℕ, ◌+◌, ◌-◌, ◌*◌, [], ◌∷◌, Bytes, Option, none, some, cut, leb, ltb, ◌==◌, ◌&&◌, if◌then◌else◌,
}
use libvirt_go.Prelude.Int.{ℤ, pos, negsuc}

-- The digits of `strconv.Atoi` behind the sign.
unfoldable pub digits : ℕ → Bytes → Option ℕ
digits acc [] = some acc
digits acc (c ∷ cs) =
    let rest = digits (10 * acc + (c - b'0')) cs in if leb b'0' c && leb c b'9' then rest else none

unfoldable pub unsigned : Bytes → Option ℕ
unfolding digits
unsigned [] = none
unsigned (c ∷ cs) = digits 0 (c ∷ cs)

-- What `strconv.Atoi` reads behind a sign, in the range of a 64-bit int.
unfoldable pub positive : Option ℕ → Option ℤ
positive none = none
positive (some n) = if ltb n 0x8000000000000000 then some (pos n) else none

unfoldable pub negative : Option ℕ → Option ℤ
negative none = none
negative (some n) =
    if n == 0
    then some (pos 0)
    else if leb n 0x8000000000000000
    then some (negsuc (n - 1))
    else none

-- `strconv.Atoi`; `none` is its error.
unfoldable pub atoi : Bytes → Option ℤ
unfolding unsigned positive negative
atoi [] = none
atoi (c ∷ cs) =
    if c == b'-'
    then negative (unsigned cs)
    else if c == b'+'
    then positive (unsigned cs)
    else positive (unsigned (c ∷ cs))

-- The index of a device and what follows it, where the key has both.
unfoldable pub index_and_counter : Bytes → Option (ℕ × Bytes)
unfolding atoi
index_and_counter key = elim (cut key b'.') [
  | none ↦ none
  | some (index_text, counter) ↦ elim (atoi index_text) [
    | some (pos n) ↦ some (n, counter)
    | _ ↦ none
  ]
]
