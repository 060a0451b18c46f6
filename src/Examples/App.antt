-- ===== src/Examples/App.antt =====
-- A client that holds a room of two, and is the guest in it.
use wicara.Prelude.{
  ◌<◌, ◌≡◌, refl, ◌⊎◌, ap, ◌∙◌, true, false, not, ◌&&◌, none, some, [], ◌∷◌, Bytes, bytes_eq,
  nat_eq, ◌==◌, any, All, codes, ok, Bytes-discrete, ℕ_discrete, to_le_bytes, arith,
}
use wicara.Room.{
  Room, is_admin, apply_op, transcript, new_entry, entry_hash, verify_signature, step, replay,
  found, verify_log,
}
use wicara.Room.Members.{contains, insert, remove}
use wicara.Vault.{seal}
use wicara.Wire.{
  MessageId, MessageId-discrete, Frame, chat, in_room, frame_id, conversation, unwrap_room,
}
use wicara.Store.Tables.{
  add_contact, is_key, insert_op, upsert_log, sealed_log, save_room, record_op,
}
use wicara.App.{
  App, no_hub_configured, answered, Codecs, find_known, is_member, hub_room, fetch_room,
  absorb_room, check_me, entitled, file_op, accept_op, accept,
}
use wicara.App.Sending.{Send, deliver}
use wicara.App.Membership.{absorb_never_shrinks, fetch_replaces, accepted_from_members}
use wicara.App.Genuine.{IsGenuine, accept-IsGenuine}
use wicara.App.Recipients.{on_wire, mailed, room_delivery_exact}
use wicara.Examples.Toy.{value, block, toy, toy_ops}
use wicara.Examples.Sealing.{nonce}
use wicara.Examples.Rooms.{creation, log, den, log_verifies, guest}
use wicara.Examples.Client.{empty, one_frame}

abbrev founder : Bytes
founder = block 7

-- formats in which every log is the log of the creation alone
abbrev codecs : Codecs
codecs = record {
  frames = one_frame;
  logs = record { to_stdvec = λ _. some (0 ∷ []); from_bytes = λ _. some (creation ∷ []) };
  ops = toy_ops;
}

abbrev guests_app : App
guests_app = record { me = guest; identity = 8 ∷ []; store = empty; rooms = (den.id, den) ∷ [] }

abbrev no_room : Room
no_room = record { id = []; name = []; founder = []; members = []; head = []; length = 0 }

abbrev lonely : Room
lonely = value no_room (verify_log toy toy_ops (creation ∷ []))

abbrev remark : Frame
remark = chat (record { sender = founder; seq = 1; ts_ms = 5 }) (codes "hi") none

runs :
    (find_known den.id guests_app.rooms ≡ some den)
    × (hub_room toy codecs (answered 200 (0 ∷ [])) den.id ≡ ok (lonely, creation ∷ []))
    × ((save_room toy codecs.logs empty den.id (creation ∷ []) (some nonce)).1 ≡ ok tt)
    × ((accept toy codecs guests_app no_hub_configured founder
          (in_room den.id remark)
          none
          (some nonce)).0
        ≡ ok (some den.id))
unfolding is_admin apply_op transcript new_entry entry_hash verify_signature step replay found
    verify_log contains insert remove seal frame_id conversation unwrap_room MessageId-discrete
    add_contact is_key insert_op upsert_log sealed_log save_room record_op find_known is_member
    hub_room check_me entitled file_op accept_op accept Bytes-discrete ℕ_discrete to_le_bytes
runs = (refl, refl, refl, refl)

absorb_never_shrinks_example :
    let a' = (absorb_room toy codecs guests_app no_hub_configured den.id (creation ∷ []) none).1 in
    (r : Room) × (find_known den.id a'.rooms ≡ some r) × ((r ≡ den) ⊎ (den.length < r.length))
absorb_never_shrinks_example =
    absorb_never_shrinks toy codecs guests_app no_hub_configured den.id creation [] none den.id den
      runs.0

fetch_replaces_example :
    find_known den.id
      (fetch_room toy codecs guests_app (answered 200 (0 ∷ [])) den.id (some nonce)).1.rooms
    ≡ some lonely
fetch_replaces_example =
    fetch_replaces toy codecs guests_app (answered 200 (0 ∷ [])) den.id (some nonce) lonely
      (creation ∷ []) runs.1 runs.2

accepted_from_members_example :
    let a' =
      (accept toy codecs guests_app no_hub_configured founder
        (in_room den.id remark)
        none
        (some nonce)).1 in
    (den.id ≡ den.id)
    × (is_member a' den.id founder ≡ true)
    × (is_member a' den.id a'.me ≡ true)
    × ((id : MessageId) × (frame_id remark ≡ some id) × (id.sender ≡ founder))
accepted_from_members_example =
    accepted_from_members toy codecs guests_app no_hub_configured founder den.id den.id remark none
      (some nonce) runs.3

genuine : IsGenuine toy codecs guests_app
unfolding find_known
genuine = record {
  named = λ id r h. ground arith;
  proved = λ id r h. (log, log_verifies ∙ ap ok (ground arith));
}

accept-IsGenuine_example :
    IsGenuine toy codecs
      (accept toy codecs guests_app no_hub_configured founder
        (in_room den.id remark)
        none
        (some nonce)).1
accept-IsGenuine_example =
    accept-IsGenuine toy codecs guests_app no_hub_configured founder (in_room den.id remark) none
      (some nonce) genuine

room_delivery_exact_example :
    let sends = deliver guests_app (λ _. false) true den.id remark in
    let other =
      contains guest den.members && (contains founder den.members && not (founder == guest)) in
    (any (on_wire founder) sends ≡ (other && false))
    × (any (mailed founder) sends ≡ (other && (not false && true)))
    × All (λ (s : Send). s.frame ≡ in_room den.id remark) sends
room_delivery_exact_example =
    room_delivery_exact guests_app (λ _. false) true den.id remark den founder runs.0
