-- ===== src/App/Sending.antt =====
-- crates/wicara/src/main.rs: `deliver`, `append` and `load_rooms`. What is put on a wire or mailed is a
-- list of sends; who is connected, the hub's answer to a log and the clock are arguments.
use wicara.Prelude.{
  ℕ, Bool, Option, none, some, List, [], ◌∷◌, ◌++◌, Bytes, bytes_eq, nat_eq, ◌==◌, if◌then◌else◌,
  Result, ok, err, ◌>>=◌, ◌>>◌, ok_or, map_err,
}
use wicara.Crypto.{Crypto}
use wicara.Room.{RoomOp, RoomEntry, Room, genesis, verify_log, new_entry, entry_hash}
use wicara.Room.Members.{KeySet, contains, union}
use wicara.Wire.{Frame, in_room, room_updated}
use wicara.Store.Tables.{save_room, rooms}
use wicara.App.{
  App, AppError, Codecs, store_failed, room_failed, unknown_room, find_known, show_room,
}

pub data Route : Type 0 where
  wire mailbox saved_only : Route

-- a frame on its way to a peer
pub record Send : Type 0 where
  pub peer : Bytes
  pub route : Route
  pub frame : Frame

-- `deliver_to`
unfoldable pub deliver_to : (Bytes → Bool) → Bool → Bytes → Frame → Send
deliver_to live has_hub peer frame = record {
  peer = peer;
  route = if live peer then wire else if has_hub then mailbox else saved_only;
  frame = frame;
}

-- `deliver`
unfoldable pub fan_out : (Bytes → Bool) → Bool → Bytes → Frame → KeySet → List Send
fan_out live has_hub me frame [] = []
fan_out live has_hub me frame (m ∷ ms) =
    let rest = fan_out live has_hub me frame ms in
    if m == me then rest else deliver_to live has_hub m frame ∷ rest

unfoldable pub deliver : App → (Bytes → Bool) → Bool → Bytes → Frame → List Send
deliver a live has_hub conversation frame = elim (find_known conversation a.rooms) [
  | none ↦ deliver_to live has_hub conversation frame ∷ []
  | some r ↦
      if contains a.me r.members
      then fan_out live has_hub a.me (in_room conversation frame) r.members
      else []
]

unfoldable pub last_entry : List RoomEntry → Option RoomEntry
last_entry [] = none
last_entry (e ∷ []) = some e
last_entry (e ∷ f ∷ es) = last_entry (f ∷ es)

unfoldable pub find_log : Bytes → List (Bytes × List RoomEntry) → Option (List RoomEntry)
find_log id [] = none
find_log id (x ∷ xs) = if x.0 == id then some x.1 else find_log id xs

module _ (c : Crypto) (k : Codecs) where
  -- the log to append to: the stored one of the room, or an empty one for a new room
  unfoldable pub current_log : App → Option Bytes → Result AppError (List RoomEntry)
  current_log a none = ok []
  current_log a (some id) = do
    known ← map_err (rooms c k.logs a.store) store_failed
    ok_or (find_log id known) unknown_room

  unfoldable pub members_before : List RoomEntry → KeySet
  members_before entries = elim (verify_log c k.ops entries) [ ok r ↦ r.members | err e ↦ [] ]

  unfoldable pub head_of : List RoomEntry → Result AppError Bytes
  head_of entries = elim (last_entry entries) [
    | none ↦ ok genesis
    | some e ↦ map_err (entry_hash c k.ops e) room_failed
  ]

  -- the checks of `append`: the log before, the log with the new entry, and its room
  unfoldable pub drafted :
      App → Option Bytes → RoomOp → ℕ → Result AppError (List RoomEntry × List RoomEntry × Room)
  drafted a room op now = do
    before ← current_log a room
    prev ← head_of before
    entry ← map_err (new_entry c k.ops a.identity prev now op) room_failed
    r ← map_err (verify_log c k.ops (before ++ entry ∷ [])) room_failed
    ok (before, before ++ entry ∷ [], r)

  -- `publish_room`; `published` is what the hub answers to the log, `ok` without a hub
  unfoldable pub publish_room :
      App → Room → Result AppError (Unit {0}) → Result AppError (Unit {0}) × App
  publish_room a room published = let (shown, a') = show_room c k a room in (shown >> published, a')

  -- `append`: the new state, and whom it tells of the log
  unfoldable pub append :
      App
      → (Bytes → Bool)
      → Bool
      → Option Bytes
      → RoomOp
      → ℕ
      → Result AppError (Unit {0})
      → Option Bytes
      → Result AppError (List Send) × App
  append a live has_hub room op now published random_nonce = elim (drafted a room op now) [
    | err e ↦ (err e, a)
    | ok (before, log, r) ↦
        let (s, saved) = save_room c k.logs a.store r.id log random_nonce in
        elim saved [
          | err e ↦ (err (store_failed e), record a { store = s })
          | ok _ ↦
              let (done, a') = publish_room (record a { store = s }) r published in
              (
                done
                    >> ok (
                        fan_out live has_hub a.me (room_updated r.id log)
                          (union (members_before before) r.members)),
                a',
              )
        ]
  ]

  -- the loop of `load_rooms`; asking the hub is `fetch_room`, later and for each room
  unfoldable pub load_each : App → List (Bytes × List RoomEntry) → Result AppError (Unit {0}) × App
  load_each a [] = (ok tt, a)
  load_each a ((id, entries) ∷ rest) = elim (verify_log c k.ops entries) [
    | err e ↦ load_each a rest
    | ok r ↦
        if r.id == id
        then (let (shown, a') = show_room c k a r in
            elim shown [ err e ↦ (err e, a') | ok _ ↦ load_each a' rest ])
        else load_each a rest
  ]

  unfoldable pub load_rooms : App → Result AppError (Unit {0}) × App
  load_rooms a = elim (rooms c k.logs a.store) [
    | err e ↦ (err (store_failed e), a)
    | ok stored ↦ load_each a stored
  ]
