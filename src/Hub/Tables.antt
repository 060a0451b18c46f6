-- ===== src/Hub/Tables.antt =====
-- crates/wicara-hub/src/store.rs: the hub's three tables, as lists of rows in the order of their
-- insertion, and the statements that it runs. That sqlite itself fails is left out: each method
-- returns what its statement gives. The clock is an argument.
use wicara.Prelude.{
  ℕ, ◌+◌, ◌-◌, ◌%◌, ◌^◌, max, Bool, true, false, not, ◌&&◌, Option, none, some, List, [], ◌∷◌, ◌++◌,
  Bytes, bytes_eq, nat_eq, ◌==◌, ltb, if◌then◌else◌, length, filter,
}
use wicara.Crypto.{Codec}
use wicara.E2e.{Envelope, SignedPrekey}

pub record PrekeyRow : Type 0 where
  pub owner : Bytes
  pub created_ms : ℕ
  pub blob : Bytes

pub record MailRow : Type 0 where
  pub id : ℕ
  pub recipient : Bytes
  pub sender : Bytes
  pub received_ms : ℕ
  pub blob : Bytes

pub record RoomRow : Type 0 where
  pub id : Bytes
  pub length : ℕ
  pub blob : Bytes

pub record HubStore : Type 0 where
  pub prekeys : List PrekeyRow
  pub mail : List MailRow
  pub rooms : List RoomRow

-- `INSERT … ON CONFLICT(owner) DO UPDATE`
unfoldable pub upsert_prekey : PrekeyRow → List PrekeyRow → List PrekeyRow
upsert_prekey r [] = r ∷ []
upsert_prekey r (x ∷ xs) = if x.owner == r.owner then r ∷ xs else x ∷ upsert_prekey r xs

unfoldable pub put_prekey : HubStore → SignedPrekey → Bytes → HubStore
put_prekey s p blob = record s {
  prekeys =
      upsert_prekey (record { owner = p.owner; created_ms = p.created_ms; blob = blob }) s.prekeys;
}

unfoldable pub find_prekey : Bytes → List PrekeyRow → Option Bytes
find_prekey owner [] = none
find_prekey owner (x ∷ xs) = if x.owner == owner then some x.blob else find_prekey owner xs

unfoldable pub prekey : HubStore → Bytes → Option Bytes
prekey s owner = find_prekey owner s.prekeys

-- `id INTEGER PRIMARY KEY`: a new row's id is one more than the greatest in the table, or 1
unfoldable pub last_id : List MailRow → ℕ
last_id [] = 0
last_id (x ∷ xs) = max x.id (last_id xs)

unfoldable pub put_mail : HubStore → Bytes → Bytes → Bytes → ℕ → HubStore
put_mail s sender recipient blob now = record s {
  mail =
      s.mail
      ++ record {
        id = last_id s.mail + 1;
        recipient = recipient;
        sender = sender;
        received_ms = now;
        blob = blob;
      }
        ∷ [];
}

unfoldable pub pending_from : HubStore → Bytes → Bytes → ℕ
pending_from s sender recipient =
    length (filter (λ (m : MailRow). m.sender == sender && m.recipient == recipient) s.mail)

unfoldable pub pending_for : HubStore → Bytes → ℕ
pending_for s recipient = length (filter (λ (m : MailRow). m.recipient == recipient) s.mail)

-- Row ids grow with the rows, so the order of insertion is `ORDER BY id`. A row that does not decode
-- is skipped.
unfoldable pub decoded : Codec Envelope → List MailRow → List (ℕ × Envelope)
decoded envelopes [] = []
decoded envelopes (m ∷ ms) = elim (envelopes.from_bytes m.blob) [
  | none ↦ decoded envelopes ms
  | some e ↦ (m.id, e) ∷ decoded envelopes ms
]

unfoldable pub mail_for : Codec Envelope → HubStore → Bytes → List (ℕ × Envelope)
mail_for envelopes s recipient =
    decoded envelopes (filter (λ (m : MailRow). m.recipient == recipient) s.mail)

-- `DELETE FROM mail WHERE id = ?1 AND recipient = ?2`, for each id, in one transaction
abbrev pub keeps_row : Bytes → ℕ → MailRow → Bool
keeps_row recipient id m = not (m.id == id && m.recipient == recipient)

unfoldable pub delete_rows : Bytes → List ℕ → List MailRow → List MailRow
delete_rows recipient [] ms = ms
delete_rows recipient (id ∷ ids) ms = delete_rows recipient ids (filter (keeps_row recipient id) ms)

-- The store and the number of deleted rows.
unfoldable pub delete_mail : HubStore → Bytes → List ℕ → HubStore × ℕ
delete_mail s recipient ids =
    let left = delete_rows recipient ids s.mail in
    (record s { mail = left }, length s.mail - length left)

-- `INSERT … ON CONFLICT(id) DO UPDATE … WHERE excluded.length > rooms.length`; whether a row changed
unfoldable pub upsert_room : RoomRow → List RoomRow → List RoomRow × Bool
upsert_room r [] = (r ∷ [], true)
upsert_room r (x ∷ xs) =
    if x.id == r.id
    then (if ltb x.length r.length then (r ∷ xs, true) else (x ∷ xs, false))
    else (x ∷ (upsert_room r xs).0, (upsert_room r xs).1)

unfoldable pub put_room : HubStore → Bytes → ℕ → Bytes → HubStore × Bool
put_room s id len blob =
    let (rows, changed) = upsert_room (record { id = id; length = len; blob = blob }) s.rooms in
    (record s { rooms = rows }, changed)

unfoldable pub find_room : Bytes → List RoomRow → Option RoomRow
find_room id [] = none
find_room id (x ∷ xs) = if x.id == id then some x else find_room id xs

unfoldable pub room : HubStore → Bytes → Option Bytes
room s id = elim (find_room id s.rooms) [ none ↦ none | some x ↦ some x.blob ]

-- the order of 64 bits as an `i64`, in which the column and the cutoff are compared
unfoldable pub as_i64 : ℕ → ℕ
as_i64 n = (n + 2 ^ 63) % 2 ^ 64

-- the cutoff is `now_ms().saturating_sub(ttl)`
unfoldable pub sweep : HubStore → ℕ → ℕ → HubStore × ℕ
sweep s ttl now =
    let cutoff = now - ttl in
    let left = filter (λ (m : MailRow). not (ltb (as_i64 m.received_ms) (as_i64 cutoff))) s.mail in
    (record s { mail = left }, length s.mail - length left)
