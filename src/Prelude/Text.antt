-- ===== src/Prelude/Text.antt =====
-- Go strings and byte slices: lists of byte values, with the operations of `bytes` and `strings`
-- that the program uses.
use Prim.Native.Char.{code}
use Prim.Native.String.{String}
use Prim.Native.Nat.{ℕ, zero, suc, ◌<◌}
use mathlib.Core.Path.{◌≡◌, refl, ap}
use mathlib.Core.Logic.{◌↔◌, ◌≢◌}
use mathlib.Core.Bool.{Bool, true, false, ◌&&◌}
use mathlib.Core.Option
use mathlib.Core.Option.{Option, none, some}
use mathlib.Core.List.{List, [], ◌∷◌, ◌++◌}
use native.Mathlib.Omega.{arith}
use libvirt_go.Prelude.Tests.{◌==◌, if◌then◌else◌}
use libvirt_go.Prelude.Lists.{length, take, replicate, All}

abbrev pub Bytes : Type 0
Bytes = List ℕ

-- The code points of a literal; these are its bytes when the text is ASCII.
abbrev pub codes : String → Bytes
codes String.[] = []
codes (String.◌∷◌ c s) = code c ∷ codes s

-- `a == b` on strings.
abbrev pub bytes_eq : Bytes → Bytes → Bool
bytes_eq [] [] = true
bytes_eq (x ∷ xs) (y ∷ ys) = (x == y) && bytes_eq xs ys
bytes_eq _ _ = false

-- `strings.IndexByte`, `bytes.IndexByte`; `none` is -1.
abbrev pub index_byte : Bytes → ℕ → Option ℕ
index_byte [] b = none
index_byte (x ∷ xs) b = if x == b then some 0 else Option.map suc (index_byte xs b)

-- The built-in `copy(destination, source)`.
abbrev pub copy_into : Bytes → Bytes → Bytes
copy_into [] src = []
copy_into (x ∷ dst) [] = x ∷ dst
copy_into (x ∷ dst) (y ∷ src) = y ∷ copy_into dst src

-- `strings.Cut(s, sep)` with a separator of one byte: what stands before and behind its first
-- occurrence, or `none`.
abbrev pub cut : Bytes → ℕ → Option (Bytes × Bytes)
cut [] b = none
cut (x ∷ xs) b = if x == b then some ([], xs) else Option.map (λ r. (x ∷ r.0, r.1)) (cut xs b)

pub bytes_eq→eq : (a b : Bytes) → bytes_eq a b ≡ true → a ≡ b
bytes_eq→eq [] [] h = refl
bytes_eq→eq [] (y ∷ ys) h = ground arith
bytes_eq→eq (x ∷ xs) [] h = ground arith
bytes_eq→eq (x ∷ xs) (y ∷ ys) h = ground (arith, bytes_eq→eq xs ys)

pub bytes_eq_refl : (a : Bytes) → bytes_eq a a ≡ true
bytes_eq_refl [] = refl
bytes_eq_refl (x ∷ xs) = ground (arith, bytes_eq_refl xs)

pub bytes_eq_iff : (a b : Bytes) → (bytes_eq a b ≡ true) ↔ (a ≡ b)
bytes_eq_iff a b = (bytes_eq→eq a b, λ e. ground (arith, bytes_eq_refl a))

-- No byte is zero: the text can be passed as a C string.
abbrev pub IsNulFree : Bytes → Type 0
IsNulFree = All (λ x. x ≢ 0)

pub index_byte-none : (s : Bytes) → index_byte s 0 ≡ none → IsNulFree s
index_byte-none [] h = tt
index_byte-none (x ∷ xs) h = (ground arith, index_byte-none xs (ground arith))

pub IsNulFree-index_byte : (s : Bytes) → IsNulFree s → index_byte s 0 ≡ none
IsNulFree-index_byte [] h = refl
IsNulFree-index_byte (x ∷ xs) h = ground (arith, IsNulFree-index_byte xs h.1)

-- A NUL-free text in front of a NUL ends at it.
pub index_byte-append :
    (s rest : Bytes) → IsNulFree s → index_byte (s ++ 0 ∷ rest) 0 ≡ some (length s)
index_byte-append [] rest h = refl
index_byte-append (x ∷ xs) rest h = ground (arith, index_byte-append xs rest h.1)

pub take-length-append : (s rest : Bytes) → take (length s) (s ++ rest) ≡ s
take-length-append [] rest = refl
take-length-append (x ∷ xs) rest = ap (◌∷◌ x) (take-length-append xs rest)

-- Copying a shorter text into zeroed storage leaves a NUL behind it.
pub copy_into-zeros :
    (s : Bytes) (n : ℕ)
    → length s < n
    → (k : ℕ) × (copy_into (replicate n 0) s ≡ s ++ 0 ∷ replicate k 0)
copy_into-zeros [] zero h = elim h [ ]
copy_into-zeros [] (suc n) h = (n, refl)
copy_into-zeros (x ∷ xs) zero h = elim h [ ]
copy_into-zeros (x ∷ xs) (suc n) h =
    let (k, e) = copy_into-zeros xs n (omega arith) in (k, ap (◌∷◌ x) e)

pub length-copy_into : (dst src : Bytes) → length (copy_into dst src) ≡ length dst
length-copy_into [] src = refl
length-copy_into (x ∷ dst) [] = refl
length-copy_into (x ∷ dst) (y ∷ src) = ap suc (length-copy_into dst src)

pub copy_into-full : (dst src : Bytes) → length dst ≡ length src → copy_into dst src ≡ src
copy_into-full [] [] h = refl
copy_into-full [] (y ∷ src) h = absurd (omega arith)
copy_into-full (x ∷ dst) [] h = absurd (omega arith)
copy_into-full (x ∷ dst) (y ∷ src) h = ap (◌∷◌ y) (copy_into-full dst src (omega arith))
