-- ===== src/Hub/Registry/Rows.antt =====
-- Rows of the tables of rooms and prekeys (crates/wicara-hub/src/store.rs) as they are written and found.
use wicara.Prelude.{
  ◌≤◌, ◌≡◌, Option, none, some, List, [], ◌∷◌, Bytes, bytes_eq, nat_eq, ◌==◌, ltb, if◌then◌else◌,
  Option-cases, inl, inr, ◌⊎◌, arith,
}
use wicara.Hub.Tables.{PrekeyRow, RoomRow, upsert_prekey, find_prekey, upsert_room, find_room}

-- the longer of the stored row and the new one; the stored one, if they are equally long
abbrev pub longer : Option RoomRow → RoomRow → RoomRow
longer none r = r
longer (some x) r = if ltb x.length r.length then r else x

-- A log that is stored for a room replaces the one before it if it is longer, and touches no other
-- room.
pub find_room-upsert_room :
    (j : Bytes) (r : RoomRow) (xs : List RoomRow)
    → find_room j (upsert_room r xs).0
      ≡ (if r.id == j then some (longer (find_room j xs) r) else find_room j xs)
unfolding find_room upsert_room
find_room-upsert_room j r [] = ground arith
find_room-upsert_room j r (x ∷ xs) = ground (arith, find_room-upsert_room j r xs)

pub find_prekey-upsert_prekey :
    (j : Bytes) (r : PrekeyRow) (xs : List PrekeyRow)
    → find_prekey j (upsert_prekey r xs) ≡ (if r.owner == j then some r.blob else find_prekey j xs)
unfolding find_prekey upsert_prekey
find_prekey-upsert_prekey j r [] = ground arith
find_prekey-upsert_prekey j r (x ∷ xs) = ground (arith, find_prekey-upsert_prekey j r xs)

-- what is found after a write was there before it, or is what was written
pub found_room :
    (j : Bytes) (n r : RoomRow) (xs : List RoomRow)
    → find_room j (upsert_room n xs).0 ≡ some r
    → (find_room j xs ≡ some r) ⊎ ((n.id ≡ j) × (n ≡ r))
found_room j n r xs h = elim (Option-cases (find_room j xs)) [
  | inl e ↦ ground (arith, find_room-upsert_room j n xs, e)
  | inr (x, e) ↦ ground (arith, find_room-upsert_room j n xs, e)
]

pub found_prekey :
    (j blob : Bytes) (n : PrekeyRow) (xs : List PrekeyRow)
    → find_prekey j (upsert_prekey n xs) ≡ some blob
    → (find_prekey j xs ≡ some blob) ⊎ ((n.owner ≡ j) × (n.blob ≡ blob))
found_prekey j blob n xs h = ground (arith, find_prekey-upsert_prekey j n xs)

-- a stored log stays or is replaced by a longer one
pub room_stays :
    (j : Bytes) (n r : RoomRow) (xs : List RoomRow)
    → find_room j xs ≡ some r
    → (r' : RoomRow) × (find_room j (upsert_room n xs).0 ≡ some r') × (r.length ≤ r'.length)
room_stays j n r xs h = (
  (if n.id == j then longer (some r) n else r),
  ground (arith, find_room-upsert_room j n xs),
  ground arith,
)
