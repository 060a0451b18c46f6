-- ===== src/Room/Chain.antt =====
-- What crates/wicara-core/src/room.rs calls a chain that holds up, said without its loop: which
-- entries may follow which, and the room after each.
pub mod Steps
pub mod Logs
use wicara.Prelude.{◌+◌, ◌≡◌, ◌≢◌, true, List, [], ◌∷◌, ◌++◌, Bytes, length, ok}
use wicara.Crypto.{Crypto, Codec}
use wicara.Room.Members.{KeySet, contains, insert, remove}
use wicara.Room.{
  RoomOp, create, invite, kick, leave, RoomEntry, Room, genesis, transcript, entry_hash,
}

-- Who may do what, and the members after it.
abbrev pub Authorised : Room → Bytes → RoomOp → KeySet → Type 0
Authorised r author (create name) ms = ⊥
Authorised r author (invite m) ms = (author ≡ r.founder) × (ms ≡ insert m r.members)
Authorised r author (kick m) ms = (author ≡ r.founder) × (m ≢ r.founder) × (ms ≡ remove m r.members)
Authorised r author leave ms =
    (contains author r.members ≡ true) × (author ≢ r.founder) × (ms ≡ remove author r.members)

module _ (c : Crypto) (ops : Codec RoomOp) where
  -- The entry carries a signature of 64 bytes by the author that it names, over its own content.
  pub record IsSigned (e : RoomEntry) : Type 0 where
    pub sixty_four : length e.signature ≡ 64
    pub key : c.is_verifying_key e.author ≡ true
    pub content : Bytes
    pub content-eq : transcript c ops e.prev e.author e.ts_ms e.op ≡ ok content
    pub verifies : c.verify_strict e.author content e.signature ≡ true

  -- The room that a first entry founds.
  pub record Founded (e : RoomEntry) (r : Room) : Type 0 where
    pub starts : e.prev ≡ genesis
    pub signed : IsSigned e
    pub names : e.op ≡ create r.name
    pub hashed : entry_hash c ops e ≡ ok r.id
    pub founder : r.founder ≡ e.author
    pub members : r.members ≡ e.author ∷ []
    pub head : r.head ≡ r.id
    pub length : r.length ≡ 1

  -- The room after one more entry.
  pub record Stepped (r : Room) (e : RoomEntry) (r' : Room) : Type 0 where
    pub follows : e.prev ≡ r.head
    pub signed : IsSigned e
    pub allowed : Authorised r e.author e.op r'.members
    pub hashed : entry_hash c ops e ≡ ok r'.head
    pub id : r'.id ≡ r.id
    pub name : r'.name ≡ r.name
    pub founder : r'.founder ≡ r.founder
    pub length : r'.length ≡ r.length + 1

  pub data Chain : List RoomEntry → Room → Type 0 where
    start :
        {es : List RoomEntry} {r : Room} (e : RoomEntry) → es ≡ e ∷ [] → Founded e r → Chain es r
    extend :
        {es fs : List RoomEntry} {r s : Room} (e : RoomEntry)
        → Chain es r
        → fs ≡ es ++ e ∷ []
        → Stepped r e s
        → Chain fs s
