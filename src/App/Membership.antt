-- ===== src/App/Membership.antt =====
-- The client's rooms (crates/wicara/src/main.rs): what it holds of them, and who may write to them.
use wicara.Prelude.{
  ◌<◌, ◌≡◌, refl, sym, ap, ◌∙◌, ◌⊎◌, inl, inr, true, Option, none, some, List, [], ◌∷◌, Bytes,
  bytes_eq, Bytes-discrete, ◌==◌, if◌then◌else◌, ok, Result-cases, Option-cases, Bool-cases, arith,
}
use wicara.Crypto.{Crypto}
use wicara.Room.{RoomEntry, Room, verify_log}
use wicara.Wire.{MessageId, Frame, in_room, frame_id, conversation, unwrap_room}
use wicara.Store.Tables.{save_room, record_op}
use wicara.App.{
  App, Answer, no_hub_configured, failed, answered, Codecs, find_known, insert_known, is_member,
  held, hub_room, show_room, take_room, fetch_room, admit_room, absorb_room, check_me, entitled,
  file_op, accept_op, accept,
}

pub find_known-insert_known :
    (j id : Bytes) (r : Room) (xs : List (Bytes × Room))
    → find_known j (insert_known id r xs) ≡ (if id == j then some r else find_known j xs)
unfolding find_known insert_known
find_known-insert_known j id r [] = ground arith
find_known-insert_known j id r (x ∷ xs) = ground (arith, find_known-insert_known j id r xs)

module _ (c : Crypto) (k : Codecs) where
  -- taking a room changes what is held of that room, or nothing
  pub take_room-holds :
      (a : App) (id : Bytes) (r : Room) (log : List RoomEntry) (n : Option Bytes) (j : Bytes)
      → let a' = (take_room c k a id r log n).1 in
        (find_known j a'.rooms ≡ find_known j a.rooms)
        ⊎ ((r.id ≡ j) × (find_known j a'.rooms ≡ some r))
  unfolding take_room show_room
  take_room-holds a id r log n j = elim (Result-cases (save_room c k.logs a.store id log n).1) [
    | inr (e, p) ↦ inl (ground (arith, p))
    | inl (_, p) ↦
        let new = find_known-insert_known j r.id r a.rooms in
        elim (Bytes-discrete r.id j) [
          | yes q ↦ inr (q, ground (arith, p, new, q))
          | no q ↦ inl (ground (arith, p, new, q))
        ]
  ]

  -- what the checks of a log that a peer hands over come to
  pub admitted :
      (a : App) (id : Bytes) (log : List RoomEntry) (r : Room)
      → admit_room c k a id log ≡ ok (some r)
      → (verify_log c k.ops log ≡ ok r) × (r.id ≡ id) × (held a id < r.length)
  unfolding admit_room
  admitted a id log r h = elim (Result-cases (verify_log c k.ops log)) [
    | inr (e, p) ↦ ground (arith, p)
    | inl (s, p) ↦ (ground (arith, p), ground (arith, p), ground (arith, p))
  ]

  -- A log that a peer hands over, if it is not empty, never takes a room back: every room that was
  -- held is held afterwards, as it was or by a strictly longer log.
  pub absorb_never_shrinks :
      (a : App) (answer : Answer) (id : Bytes) (e : RoomEntry) (es : List RoomEntry)
      (n : Option Bytes) (j : Bytes) (r : Room)
      → find_known j a.rooms ≡ some r
      → let a' = (absorb_room c k a answer id (e ∷ es) n).1 in
        (r' : Room) × (find_known j a'.rooms ≡ some r') × ((r' ≡ r) ⊎ (r.length < r'.length))
  unfolding absorb_room held
  absorb_never_shrinks a answer id e es n j r h =
      elim (Result-cases (admit_room c k a id (e ∷ es))) [
        | inr (x, p) ↦ (r, rw (p, absorb_room) h, inl refl)
        | inl (none, p) ↦ (r, rw (p, absorb_room) h, inl refl)
        | inl (some new, p) ↦
            let (_, same, longer) = admitted a id (e ∷ es) new p in
            elim (take_room-holds a id new (e ∷ es) n j) [
              | inl q ↦ (r, rw (p, absorb_room) (q ∙ h), inl refl)
              | inr (q, q') ↦
                  (new, rw (p, absorb_room) q', inr (ground (arith, same, longer, q, h)))
            ]
      ]

  -- what `Hub::room` has checked of what it returns
  pub hub_room_lem :
      (answer : Answer) (id : Bytes) (r : Room) (log : List RoomEntry)
      → hub_room c k answer id ≡ ok (r, log)
      → (verify_log c k.ops log ≡ ok r) × (r.id ≡ id)
  unfolding hub_room
  hub_room_lem no_hub_configured id r log h = ground arith
  hub_room_lem failed id r log h = ground arith
  hub_room_lem (answered status body) id r log h = elim (Option-cases (k.logs.from_bytes body)) [
    | inl e ↦ ground (arith, e)
    | inr (entries, e) ↦ elim (Result-cases (verify_log c k.ops entries)) [
      | inr (x, p) ↦ ground (arith, e, p)
      | inl (s, p) ↦ (ground (arith, e, p), ground (arith, e, p))
    ]
  ]

  -- What the hub hands over is not compared with what is held: a log that passes the checks of
  -- `Hub::room` and is saved takes the place of the one held, though it may be shorter.
  pub fetch_replaces :
      (a : App) (answer : Answer) (id : Bytes) (n : Option Bytes) (r : Room) (log : List RoomEntry)
      → hub_room c k answer id ≡ ok (r, log)
      → (save_room c k.logs a.store id log n).1 ≡ ok tt
      → find_known id (fetch_room c k a answer id n).1.rooms ≡ some r
  unfolding fetch_room take_room show_room
  fetch_replaces a answer id n r log h p =
      let (_, same) = hub_room_lem answer id r log h in
      let new = find_known-insert_known id r.id r a.rooms in ground (arith, h, p, same, new)

  entitled_lem :
      (a : App) (answer : Answer) (sender room : Bytes) (op : Frame) (n : Option Bytes)
      → (entitled c k a answer sender (in_room room op) n).0 ≡ ok tt
      → let a' = (entitled c k a answer sender (in_room room op) n).1 in
        (is_member a' room sender ≡ true) × (is_member a' room a'.me ≡ true)
  unfolding entitled check_me
  entitled_lem a answer sender room op n h = elim (Bool-cases (is_member a room sender)) [
    | inl e ↦ (ground (arith, e), ground (arith, e))
    | inr e ↦ elim (Result-cases (fetch_room c k a answer room n).0) [
      | inl (_, p) ↦ (ground (arith, e, p), ground (arith, e, p))
      | inr (x, p) ↦ ground (arith, e, p)
    ]
  ]

  file_op-keeps :
      (a : App) (sender room conv : Bytes) (op : Frame) (n : Option Bytes)
      → (file_op c k a sender (in_room room op) n).0 ≡ ok (some conv)
      → (conv ≡ room)
        × ((file_op c k a sender (in_room room op) n).1.rooms ≡ a.rooms)
        × ((file_op c k a sender (in_room room op) n).1.me ≡ a.me)
  unfolding file_op conversation
  file_op-keeps a sender room conv op n h =
      elim (Result-cases (record_op c k.frames a.store room (unwrap_room (in_room room op)) n)) [
        | inl ((s, fresh), e) ↦ (ground (arith, e), ground (arith, e), ground (arith, e))
        | inr (x, e) ↦ ground (arith, e)
      ]

  -- what an operation for a room went through before it was filed
  accept_lem :
      (a : App) (answer : Answer) (sender room conv : Bytes) (op : Frame) (n n' : Option Bytes)
      → (accept c k a answer sender (in_room room op) n n').0 ≡ ok (some conv)
      → ((id : MessageId) × (frame_id op ≡ some id) × (id.sender ≡ sender))
        × ((entitled c k a answer sender (in_room room op) n).0 ≡ ok tt)
        × (accept c k a answer sender (in_room room op) n n'
            ≡ file_op c k
                (entitled c k a answer sender (in_room room op) n).1
                sender
                (in_room room op)
                n')
  unfolding accept accept_op frame_id
  accept_lem a answer sender room conv op n n' h = elim (Option-cases (frame_id op)) [
    | inl e ↦ ground (arith, e)
    | inr (id, e) ↦ elim (Bool-cases (id.sender == sender)) [
      | inr q ↦ ground (arith, e, q)
      | inl q ↦ elim (Result-cases (entitled c k a answer sender (in_room room op) n).0) [
        | inr (x, p) ↦ ground (arith, e, q, p)
        | inl (_, p) ↦ ((id, e, ground (arith, q)), p, ground (arith, e, q, p))
      ]
    ]
  ]

  member_by_rooms :
      (a b : App) (room who : Bytes)
      → b.rooms ≡ a.rooms
      → is_member b room who ≡ is_member a room who
  unfolding is_member
  member_by_rooms a b room who p = rw p refl

  -- An operation that `accept` files in a room was minted under the key of the sender that was
  -- authenticated, and by the chain that is then held the sender and this endpoint are members of
  -- the room.
  pub accepted_from_members :
      (a : App) (answer : Answer) (sender room conv : Bytes) (op : Frame) (n n' : Option Bytes)
      → (accept c k a answer sender (in_room room op) n n').0 ≡ ok (some conv)
      → let a' = (accept c k a answer sender (in_room room op) n n').1 in
        (conv ≡ room)
        × (is_member a' room sender ≡ true)
        × (is_member a' room a'.me ≡ true)
        × ((id : MessageId) × (frame_id op ≡ some id) × (id.sender ≡ sender))
  accepted_from_members a answer sender room conv op n n' h =
      let (minted, allowed, same) = accept_lem a answer sender room conv op n n' h in
      let b = (entitled c k a answer sender (in_room room op) n).1 in
      let (writes, reads) = entitled_lem a answer sender room op n allowed in
      let (to, rooms', me') =
        file_op-keeps b sender room conv op n' (ap (λ x. x.0) (sym same) ∙ h) in
      let a' = (file_op c k b sender (in_room room op) n').1 in
      rw same (
        to,
        member_by_rooms b a' room sender rooms' ∙ writes,
        member_by_rooms b a' room a'.me rooms' ∙ ap (is_member b room) me' ∙ reads,
        minted,
      )
