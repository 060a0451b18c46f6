-- ===== src/Room.antt =====
-- crates/wicara-core/src/room.rs: a room as a signed, hash-chained membership log. A `BTreeSet` of
-- keys is a sorted list. The checks of `verify_log` are in the order of the source, each with its
-- error; the number of the entry that a message names is left out.
pub mod Members
pub mod Chain
pub mod Safety
pub mod Heads
pub mod Honest
use wicara.Prelude.{
  ℕ, ◌+◌, Bool, not, List, [], ◌∷◌, ◌++◌, Bytes, Text, codes, bytes_eq, nat_eq, ◌==◌, Result, ok,
  err, ◌>>=◌, ◌>>◌, ensure, ok_or, to_le_bytes, replicate, length,
}
use wicara.Crypto.{Crypto, Codec}
use wicara.Room.Members.{KeySet, contains, insert, remove}

abbrev pub entry_context : Bytes
entry_context = codes "wicara room entry v1"

abbrev pub genesis : Bytes
genesis = replicate 32 0

pub data RoomOp : Type 0 where
  create : Text → RoomOp
  invite : Bytes → RoomOp
  kick : Bytes → RoomOp
  leave : RoomOp

pub record RoomEntry : Type 0 where
  pub prev : Bytes
  pub author : Bytes
  pub ts_ms : ℕ
  pub op : RoomOp
  pub signature : Bytes

pub record Room : Type 0 where
  pub id : Bytes
  pub name : Text
  pub founder : Bytes
  pub members : KeySet
  pub head : Bytes
  pub length : ℕ

-- the messages of room.rs, and postcard's failure
pub data RoomError : Type 0 where
  codec_error : RoomError
  signature_not_64_bytes author_not_a_key not_signed_by_author : RoomError
  empty_log no_genesis not_a_create : RoomError
  does_not_follow second_create not_admin kicks_founder not_in_room founder_leaves : RoomError

unfoldable pub is_admin : Room → Bytes → Bool
is_admin room who = room.founder == who

-- the `match &entry.op` of the loop: who may do what, and the members after it
unfoldable pub apply_op : Room → Bytes → RoomOp → Result RoomError KeySet
apply_op room author (create name) = err second_create
apply_op room author (invite member) = do
  ensure (is_admin room author) not_admin
  ok (insert member room.members)
apply_op room author (kick member) = do
  ensure (is_admin room author) not_admin
  ensure (not (member == room.founder)) kicks_founder
  ok (remove member room.members)
apply_op room author leave = do
  ensure (contains author room.members) not_in_room
  ensure (not (author == room.founder)) founder_leaves
  ok (remove author room.members)

-- `let RoomOp::Create { name } = &create.op else`
abbrev pub create_name : RoomOp → Result RoomError Text
create_name (create name) = ok name
create_name (invite member) = err not_a_create
create_name (kick member) = err not_a_create
create_name leave = err not_a_create

module _ (c : Crypto) (ops : Codec RoomOp) where
  unfoldable pub transcript : Bytes → Bytes → ℕ → RoomOp → Result RoomError Bytes
  transcript prev author ts_ms op = do
    encoded ← ok_or (ops.to_stdvec op) codec_error
    ok (entry_context ++ (prev ++ (author ++ (to_le_bytes 8 ts_ms ++ encoded))))

  -- `RoomEntry::new`
  unfoldable pub new_entry : Bytes → Bytes → ℕ → RoomOp → Result RoomError RoomEntry
  new_entry author prev ts_ms op = do
    let author_key = c.verifying_key author
    t ← transcript prev author_key ts_ms op
    ok (record {
      prev = prev;
      author = author_key;
      ts_ms = ts_ms;
      op = op;
      signature = c.sign author t;
    })

  -- `RoomEntry::hash`
  unfoldable pub entry_hash : RoomEntry → Result RoomError Bytes
  entry_hash e = do t ← transcript e.prev e.author e.ts_ms e.op; ok (c.hash (t ++ e.signature))

  unfoldable pub verify_signature : RoomEntry → Result RoomError (Unit {0})
  verify_signature e = do
    ensure (length e.signature == 64) signature_not_64_bytes
    ensure (c.is_verifying_key e.author) author_not_a_key
    t ← transcript e.prev e.author e.ts_ms e.op
    ensure (c.verify_strict e.author t e.signature) not_signed_by_author

  -- one round of the loop
  unfoldable pub step : Room → RoomEntry → Result RoomError Room
  step room e = do
    ensure (e.prev == room.head) does_not_follow
    verify_signature e
    members ← apply_op room e.author e.op
    head ← entry_hash e
    ok (record room { members = members; head = head; length = room.length + 1 })

  unfoldable pub replay : Room → List RoomEntry → Result RoomError Room
  replay room [] = ok room
  replay room (e ∷ es) = do room' ← step room e; replay room' es

  -- what `verify_log` does with the first entry
  unfoldable pub found : RoomEntry → Result RoomError Room
  found e = do
    ensure (e.prev == genesis) no_genesis
    verify_signature e
    name ← create_name e.op
    id ← entry_hash e
    ok (record {
      id = id;
      name = name;
      founder = e.author;
      members = e.author ∷ [];
      head = id;
      length = 1;
    })

  unfoldable pub verify_log : List RoomEntry → Result RoomError Room
  verify_log [] = err empty_log
  verify_log (e ∷ es) = do room ← found e; replay room es
