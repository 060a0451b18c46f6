-- ===== src/Room/Members.antt =====
-- `BTreeSet<[u8; 32]>`, as crates/wicara-core/src/room.rs uses it: keys in their lexicographic
-- order.
use wicara.Prelude.{
  ◌≡◌, refl, Bool, false, not, ◌||◌, ◌&&◌, List, [], ◌∷◌, Ordering, Bytes, bytes_eq, cmp, eq_of_cmp,
  ◌==◌, arith, if◌then◌else◌,
}

abbrev pub KeySet : Type 0
KeySet = List Bytes

unfoldable pub contains : Bytes → KeySet → Bool
contains k [] = false
contains k (x ∷ xs) = k == x || contains k xs

unfoldable pub insert : Bytes → KeySet → KeySet
insert k [] = k ∷ []
insert k (x ∷ xs) = elim (cmp k x) [
  | Ordering.lt ↦ k ∷ x ∷ xs
  | Ordering.eq ↦ x ∷ xs
  | Ordering.gt ↦ x ∷ insert k xs
]

unfoldable pub remove : Bytes → KeySet → KeySet
remove k [] = []
remove k (x ∷ xs) = if k == x then remove k xs else x ∷ remove k xs

-- `BTreeSet::union`, collected
unfoldable pub union : KeySet → KeySet → KeySet
unfolding insert
union [] ys = ys
union (x ∷ xs) ys = insert x (union xs ys)

pub contains-insert :
    (j k : Bytes) (s : KeySet) → contains j (insert k s) ≡ (j == k || contains j s)
unfolding contains insert
contains-insert j k [] = refl
contains-insert j k (x ∷ xs) = ground (arith, contains-insert j k xs, eq_of_cmp k x)

pub contains-remove :
    (j k : Bytes) (s : KeySet) → contains j (remove k s) ≡ (not (j == k) && contains j s)
unfolding contains remove
contains-remove j k [] = ground arith
contains-remove j k (x ∷ xs) = ground (arith, contains-remove j k xs)

pub contains-union :
    (j : Bytes) (s t : KeySet) → contains j (union s t) ≡ (contains j s || contains j t)
unfolding contains union
contains-union j [] t = refl
contains-union j (x ∷ xs) t =
    ground (arith, contains-insert j x (union xs t), contains-union j xs t)
