-- ===== src/App/Dispatch.antt =====
-- crates/wicara/src/main.rs: the arms of `dispatch` that change what is kept, with `forget` and `unlink_all`. A
-- text of the interface becomes a `String` by `utf8`; the clock and the random nonces are arguments, and what is
-- put on a wire or mailed is a list of sends.
pub mod Recorded
pub mod Forgotten
use wicara.Prelude.{
  ℕ, ◌+◌, Bool, true, false, not, Option, none, some, List, [], ◌∷◌, Bytes, Text, codes, bytes_eq,
  ◌==◌, if◌then◌else◌, filter, Result, ok, err, ◌>>=◌, map_err,
}
use wicara.Crypto.{Crypto}
use wicara.E2e.{VerifiedPrekey}
use wicara.Room.{Room, RoomOp}
use wicara.Wire.{MessageId, Frame}
use wicara.Store.Tables.{Store, record_op, next_id, set_setting}
use wicara.Store.History.{history}
use wicara.Store.Erase
use wicara.Files.Paths.{Disk, file_at, try_remove}
use wicara.Ui.{Chars, UiCommand, RoomCommand}
use wicara.App.{App, AppError, Codecs, store_failed, history_on_start}
use wicara.App.Names.{nick_key, alias_key}
use wicara.App.Sending.{Send, deliver}

-- `live`, `rooms`, `prekeys` and the store of `App`, and the files of the machine
pub record Client : Type 0 where
  pub app : App
  pub live : List Bytes
  pub prekeys : List (Bytes × VerifiedPrekey)
  pub disk : Disk

-- `unlink_all`: the files, and how many were deleted; `removes` says of which the system allows it
unfoldable pub unlink_all : (Text → Bool) → List Text → Disk → Disk × ℕ
unlink_all removes [] disk = (disk, 0)
unlink_all removes (p ∷ ps) disk =
    let (left, gone) = unlink_all removes ps (try_remove (removes p) p disk) in
    elim (file_at p disk) [
      | none ↦ (left, gone)
      | some bytes ↦ (left, if removes p then gone + 1 else gone)
    ]

unfoldable pub close : Bytes → Client → Client
close peer x = record x {
  live = filter (λ k. not (k == peer)) x.live;
  app = record x.app { rooms = filter (λ (r : Bytes × Room). not (r.0 == peer)) x.app.rooms };
  prekeys = filter (λ (p : Bytes × VerifiedPrekey). not (p.0 == peer)) x.prekeys;
}

-- the frame of a command that makes one, for the id that was minted
unfoldable pub message_frame : (Chars → Text) → UiCommand → MessageId → Option (Bytes × Frame)
message_frame utf8 (UiCommand.send peer body reply_to) id =
    some (peer, Frame.chat id (utf8 body) reply_to)
message_frame utf8 (UiCommand.edit peer target body) id =
    some (peer, Frame.edit id target (utf8 body))
message_frame utf8 (UiCommand.delete peer target) id = some (peer, Frame.delete id target)
message_frame utf8 (UiCommand.react peer target emoji on) id =
    some (peer, Frame.react id target (utf8 emoji) on)
message_frame utf8 _ id = none

-- `room_command`: the room to append to, and the entry
unfoldable pub room_change : (Chars → Text) → RoomCommand → Option Bytes × RoomOp
room_change utf8 (RoomCommand.create name) = (none, RoomOp.create (utf8 name))
room_change utf8 (RoomCommand.invite room member) = (some room, RoomOp.invite member)
room_change utf8 (RoomCommand.kick room member) = (some room, RoomOp.kick member)
room_change utf8 (RoomCommand.leave room) = (some room, RoomOp.leave)

module _ (c : Crypto) (k : Codecs) where
  -- the end of `dispatch`: recorded, shown, delivered
  unfoldable pub dispatch_frame :
      App → (Bytes → Bool) → Bool → Bytes → Frame → Option Bytes → App × List Send
  dispatch_frame a live has_hub peer frame nonce =
      elim (record_op c k.frames a.store peer frame nonce) [
        | err e ↦ (a, [])
        | ok (s, _) ↦
            let a' = record a { store = s } in
            elim (history c k.frames s peer history_on_start) [
              | err e ↦ (a', [])
              | ok _ ↦ (a', deliver a' live has_hub peer frame)
            ]
      ]

  -- the arms of `dispatch` for the commands that make a frame, and its end; `none` for a command of
  -- another arm, which ends in `continue`
  unfoldable pub dispatch_message :
      (Chars → Text)
      → App
      → (Bytes → Bool)
      → Bool
      → UiCommand
      → ℕ
      → Option Bytes
      → Option (App × List Send)
  dispatch_message utf8 a live has_hub cmd now nonce =
      let (s, id) = next_id a.store now in
      elim (message_frame utf8 cmd id) [
        | none ↦ none
        | some (peer, frame) ↦
            some (dispatch_frame (record a { store = s }) live has_hub peer frame nonce)
      ]

  -- `forget`
  unfoldable pub forget_peer : (Text → Bool) → Client → Bytes → Client × Result AppError ℕ
  forget_peer removes x peer =
      let y = close peer x in
      elim (Erase.forget c k.frames y.app.store peer (nick_key peer ∷ alias_key peer ∷ [])) [
        | err e ↦ (y, err (store_failed e))
        | ok (s, files) ↦
            let (disk, gone) = unlink_all removes files y.disk in
            (record y { app = record y.app { store = s }; disk = disk }, ok gone)
      ]

  -- the arms for `/clear yes` and `/wipe yes`
  unfoldable pub clear_peer : (Text → Bool) → Client → Bytes → Client × Result AppError ℕ
  clear_peer removes x peer = elim (Erase.clear c k.frames x.app.store peer) [
    | err e ↦ (x, err (store_failed e))
    | ok (s, files) ↦
        let (disk, gone) = unlink_all removes files x.disk in
        (record x { app = record x.app { store = s }; disk = disk }, ok gone)
  ]

  unfoldable pub wipe_all : (Text → Bool) → Client → Client × Result AppError ℕ
  wipe_all removes x =
      let y : Client = record x { live = []; prekeys = []; app = record x.app { rooms = [] } } in
      elim (Erase.wipe c k.frames y.app.store) [
        | err e ↦ (y, err (store_failed e))
        | ok (s, files) ↦
            let (disk, gone) = unlink_all removes files y.disk in
            (record y { app = record y.app { store = s }; disk = disk }, ok gone)
      ]
