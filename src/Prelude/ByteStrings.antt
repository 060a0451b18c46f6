-- ===== src/Prelude/ByteStrings.antt =====
-- Bytes and texts as lists of numbers: `[u8; 32]`, `Vec<u8>`, `u64::to_le_bytes` and the like.
use Prim.Native.Char.{code}
use Prim.Native.String.{String}
use native.Mathlib.Decide.{ℕ_discrete}
use native.Mathlib.Nat.{pow-suc}
use Prim.Native.Nat.{ℕ, zero, suc, ◌+◌, ◌*◌, ◌/◌, ◌%◌, ◌^◌, ◌<◌, compare, Ordering}
use mathlib.Core.Path.{◌≡◌, refl, ap}
use mathlib.Core.List.{List, [], ◌∷◌}
use native.Mathlib.Omega.{arith}
use wicara.Prelude.Tests.{DecEq}
use wicara.Prelude.Lists.{length}

abbrev pub Bytes : Type 0
Bytes = List ℕ

-- a `String`, by the bytes of its UTF-8
abbrev pub Text : Type 0
Text = List ℕ

-- an ASCII literal
abbrev pub codes : String → List ℕ
codes String.[] = []
codes (String.◌∷◌ c s) = code c ∷ codes s

unfoldable pub Bytes-discrete : Discrete Bytes
Bytes-discrete = hlevel ℕ_discrete

instance abbrev pub nat_eq : DecEq ℕ
nat_eq = record { dec = ℕ_discrete }

instance abbrev pub bytes_eq : DecEq Bytes
bytes_eq = record { dec = Bytes-discrete }

-- the lexicographic order of byte arrays, by which a `BTreeSet` of keys is kept
abbrev pub cmp : Bytes → Bytes → Ordering
cmp [] [] = Ordering.eq
cmp [] (y ∷ ys) = Ordering.lt
cmp (x ∷ xs) [] = Ordering.gt
cmp (x ∷ xs) (y ∷ ys) = elim (compare x y) [
  | Ordering.lt ↦ Ordering.lt
  | Ordering.eq ↦ cmp xs ys
  | Ordering.gt ↦ Ordering.gt
]

pub eq_of_cmp : (xs ys : Bytes) → cmp xs ys ≡ Ordering.eq → xs ≡ ys
eq_of_cmp [] [] h = refl
eq_of_cmp [] (y ∷ ys) h = cc
eq_of_cmp (x ∷ xs) [] h = cc
eq_of_cmp (x ∷ xs) (y ∷ ys) h = ground (arith, eq_of_cmp xs ys)

-- `to_le_bytes` of a number that has `w` bytes
unfoldable pub to_le_bytes : ℕ → ℕ → Bytes
to_le_bytes zero n = []
to_le_bytes (suc w) n = (n % 256) ∷ to_le_bytes w (n / 256)

unfoldable pub from_le_bytes : Bytes → ℕ
from_le_bytes [] = 0
from_le_bytes (b ∷ bs) = b + 256 * from_le_bytes bs

pub length-to_le_bytes : (w n : ℕ) → length (to_le_bytes w n) ≡ w
unfolding to_le_bytes
length-to_le_bytes zero n = refl
length-to_le_bytes (suc w) n = ap suc (length-to_le_bytes w (n / 256))

pub from_le_bytes-to_le_bytes : (w n : ℕ) → n < 256 ^ w → from_le_bytes (to_le_bytes w n) ≡ n
unfolding to_le_bytes from_le_bytes
from_le_bytes-to_le_bytes zero n h = omega arith
from_le_bytes-to_le_bytes (suc w) n h =
    let p : 256 ^ suc w ≡ 256 ^ w * 256 = pow-suc 256 w in
    rw (from_le_bytes-to_le_bytes w (n / 256) (omega arith)) (omega arith)

pub to_le_bytes_inj :
    (w n m : ℕ) → n < 256 ^ w → m < 256 ^ w → to_le_bytes w n ≡ to_le_bytes w m → n ≡ m
to_le_bytes_inj w n m hn hm e =
    cc (from_le_bytes-to_le_bytes w n hn, from_le_bytes-to_le_bytes w m hm, ap from_le_bytes e)
