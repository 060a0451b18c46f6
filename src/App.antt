-- ===== src/App.antt =====
-- crates/wicara/src/main.rs: what the client does with an operation or a room's log that reaches it,
-- and `Hub::room` of crates/wicara/src/hub.rs, by what it does with an answer. An operation takes the
-- state and gives its result and the state, since an error does not undo what was done before it.
-- What is only shown to the user is left out.
pub mod Sending
pub mod Membership
pub mod Delivered
pub mod Names
pub mod Dispatch
pub mod Genuine
pub mod Recipients
pub mod Mail
pub mod Requests
use wicara.Prelude.{
  ℕ, ◌+◌, ◌*◌, Bool, true, false, not, ◌&&◌, ◌||◌, Option, none, some, List, [], ◌∷◌, ◌++◌, map,
  Bytes, bytes_eq, nat_eq, ◌==◌, ltb, leb, if◌then◌else◌, length, filter, replicate, Result, ok,
  err, ◌>>=◌, ◌>>◌, ensure, ok_or, map_err,
}
use wicara.Crypto.{Crypto, Codec}
use wicara.Room.{RoomOp, RoomEntry, Room, RoomError, verify_log, new_entry, entry_hash}
use wicara.Room.Members.{KeySet, contains, union}
use wicara.E2e.{Envelope, E2eError, open_envelope}
use wicara.Wire.{
  Frame, hello, chat, edit, delete, react, in_room, file, room_updated, frame_id, conversation,
  unwrap_room,
}
use wicara.Store.Tables.{Store, StoreError, record_op, save_room, rooms}
use wicara.Store.History.{history}

abbrev pub history_on_start : ℕ
history_on_start = 200

abbrev pub max_room_reply : ℕ
max_room_reply = 4 * 1024 * 1024

pub record Codecs : Type 0 where
  pub frames : Codec Frame
  pub logs : Codec (List RoomEntry)
  pub ops : Codec RoomOp

-- the fields of `App` that these operations read or change
pub record App : Type 0 where
  pub me : Bytes
  pub identity : Bytes
  pub store : Store
  pub rooms : List (Bytes × Room)

pub data AppError : Type 0 where
  store_failed : StoreError → AppError
  room_failed : RoomError → AppError
  envelope_failed : E2eError → AppError
  other_room not_in_room not_the_senders sender_not_in_room unknown_room not_decoded : AppError
  no_hub unreachable no_log no_prekey refused reply_too_large reply_not_decoded not_encoded :
      AppError

-- what asking the hub for a room's log comes to: its status and the body of the response
pub data Answer : Type 0 where
  no_hub_configured failed : Answer
  answered : ℕ → Bytes → Answer

unfoldable pub find_known : Bytes → List (Bytes × Room) → Option Room
find_known id [] = none
find_known id (x ∷ xs) = if x.0 == id then some x.1 else find_known id xs

unfoldable pub insert_known : Bytes → Room → List (Bytes × Room) → List (Bytes × Room)
insert_known id r [] = (id, r) ∷ []
insert_known id r (x ∷ xs) = if x.0 == id then (id, r) ∷ xs else x ∷ insert_known id r xs

-- `App::is_member`
unfoldable pub is_member : App → Bytes → Bytes → Bool
is_member a room who = elim (find_known room a.rooms) [
  | none ↦ false
  | some r ↦ contains who r.members
]

unfoldable pub is_known : App → Bytes → Bool
is_known a id = elim (find_known id a.rooms) [ none ↦ false | some r ↦ true ]

unfoldable pub held : App → Bytes → ℕ
held a id = elim (find_known id a.rooms) [ none ↦ 0 | some r ↦ r.length ]

module _ (c : Crypto) (k : Codecs) where
  -- `Hub::room`
  unfoldable pub hub_room : Answer → Bytes → Result AppError (Room × List RoomEntry)
  hub_room no_hub_configured id = err no_hub
  hub_room failed id = err unreachable
  hub_room (answered status body) id = do
    ensure (not (status == 404)) no_log
    ensure (leb 200 status && ltb status 300) refused
    ensure (leb (length body) max_room_reply) reply_too_large
    entries ← ok_or (k.logs.from_bytes body) reply_not_decoded
    room ← map_err (verify_log c k.ops entries) room_failed
    ensure (room.id == id) other_room
    ok (room, entries)

  -- `show_room`, which fails when the conversation cannot be folded for the user
  unfoldable pub show_room : App → Room → Result AppError (Unit {0}) × App
  show_room a room =
      let shown = record a { rooms = insert_known room.id room a.rooms } in
      (
        map_err (history c k.frames a.store room.id history_on_start) store_failed >>= λ _. ok tt,
        shown,
      )

  -- `save_room` and `show_room`
  unfoldable pub take_room :
      App → Bytes → Room → List RoomEntry → Option Bytes → Result AppError (Unit {0}) × App
  take_room a id room log random_nonce =
      let (s, saved) = save_room c k.logs a.store id log random_nonce in
      elim saved [
        | err e ↦ (err (store_failed e), record a { store = s })
        | ok _ ↦ show_room (record a { store = s }) room
      ]

  -- `fetch_room`
  unfoldable pub fetch_room : App → Answer → Bytes → Option Bytes → Result AppError (Unit {0}) × App
  fetch_room a answer id random_nonce = elim (hub_room answer id) [
    | err e ↦ (err e, a)
    | ok (room, entries) ↦ take_room a id room entries random_nonce
  ]

  -- the checks of `absorb_room` on a log that is not empty; `none` if the one held is as long
  unfoldable pub admit_room : App → Bytes → List RoomEntry → Result AppError (Option Room)
  admit_room a id log = do
    room ← map_err (verify_log c k.ops log) room_failed
    ensure (room.id == id) other_room
    ensure (is_known a id || contains a.me room.members) not_in_room
    ok (if leb room.length (held a id) then none else some room)

  -- `App::absorb_room`
  unfoldable pub absorb_room :
      App → Answer → Bytes → List RoomEntry → Option Bytes → Result AppError (Unit {0}) × App
  absorb_room a answer id [] random_nonce = fetch_room a answer id random_nonce
  absorb_room a answer id (e ∷ es) random_nonce = elim (admit_room a id (e ∷ es)) [
    | err x ↦ (err x, a)
    | ok none ↦ (ok tt, a)
    | ok (some room) ↦ take_room a id room (e ∷ es) random_nonce
  ]

  unfoldable pub check_me : App → Bytes → Result AppError (Unit {0})
  check_me a room = ensure (is_member a room a.me) not_in_room

  -- whether the sender may write where the operation goes; the hub is asked where it seems not
  unfoldable pub entitled :
      App → Answer → Bytes → Frame → Option Bytes → Result AppError (Unit {0}) × App
  entitled a answer sender (in_room room op) random_nonce =
      if is_member a room sender
      then (check_me a room, a)
      else (let (fetched, a') = fetch_room a answer room random_nonce in
          (fetched >> ensure (is_member a' room sender) sender_not_in_room >> check_me a' room, a'))
  entitled a answer sender frame random_nonce = (ok tt, a)

  -- the end of `accept`: the conversation, if the operation was new
  unfoldable pub file_op : App → Bytes → Frame → Option Bytes → Result AppError (Option Bytes) × App
  file_op a sender frame random_nonce =
      elim (record_op c k.frames a.store (conversation frame sender) (unwrap_room frame)
        random_nonce) [
          | err e ↦ (err (store_failed e), a)
          | ok (s, fresh) ↦ (
            ok (if fresh then some (conversation frame sender) else none),
            record a { store = s },
          )
        ]

  -- `App::accept` on what is not a room's log; it seals a room's log and the operation, so it takes
  -- two nonces
  unfoldable pub accept_op :
      App
      → Answer
      → Bytes
      → Frame
      → Option Bytes
      → Option Bytes
      → Result AppError (Option Bytes) × App
  accept_op a answer sender frame log_nonce op_nonce = elim (frame_id frame) [
    | none ↦ (ok none, a)
    | some id ↦
        if id.sender == sender
        then (let (allowed, a') = entitled a answer sender frame log_nonce in
            elim allowed [ err e ↦ (err e, a') | ok _ ↦ file_op a' sender frame op_nonce ])
        else (err not_the_senders, a)
  ]

  -- `App::accept`; that a room's log could not be taken is not an error
  unfoldable pub accept :
      App
      → Answer
      → Bytes
      → Frame
      → Option Bytes
      → Option Bytes
      → Result AppError (Option Bytes) × App
  accept a answer sender (room_updated room log) log_nonce op_nonce =
      (ok none, (absorb_room a answer room log log_nonce).1)
  accept a answer sender frame log_nonce op_nonce =
      accept_op a answer sender frame log_nonce op_nonce

  -- `App::absorb`, with the prekey's secret
  unfoldable pub absorb :
      App
      → Answer
      → Bytes
      → Envelope
      → Option Bytes
      → Option Bytes
      → Result AppError (Option Bytes) × App
  absorb a answer secret e log_nonce op_nonce = elim (open_envelope c e secret a.me) [
    | err x ↦ (err (envelope_failed x), a)
    | ok (plaintext, sender) ↦ elim (k.frames.from_bytes plaintext) [
      | none ↦ (err not_decoded, a)
      | some frame ↦ accept a answer sender frame log_nonce op_nonce
    ]
  ]
