-- ===== src/App/Genuine.antt =====
-- The rooms that the client holds (crates/wicara/src/main.rs), and the logs that they come from.
use wicara.Prelude.{
  ◌≡◌, sym, ◌∙◌, ap, inl, inr, Option, none, some, List, [], ◌∷◌, Bytes, bytes_eq, ◌==◌, ok,
  Result-cases, Option-cases, Bool-cases, arith,
}
use wicara.Crypto.{Crypto}
use wicara.Room.{RoomEntry, Room, verify_log}
use wicara.Wire.{Frame, in_room, room_updated, frame_id}
use wicara.App.{
  App, Answer, Codecs, find_known, is_member, hub_room, take_room, fetch_room, admit_room,
  absorb_room, entitled, file_op, accept_op, accept,
}
use wicara.App.Membership.{take_room-holds, admitted, hub_room_lem}

module _ (c : Crypto) (k : Codecs) where
  -- Every room is held under its id, and is what `verify_log` makes of some log.
  pub record IsGenuine (a : App) : Type 0 where
    pub named : (id : Bytes) (r : Room) → find_known id a.rooms ≡ some r → r.id ≡ id
    pub proved :
        (id : Bytes) (r : Room)
        → find_known id a.rooms ≡ some r
        → (log : List RoomEntry) × (verify_log c k.ops log ≡ ok r)

  same_rooms : (a b : App) → b.rooms ≡ a.rooms → IsGenuine a → IsGenuine b
  same_rooms a b p g = record {
    named = λ id r h. g.named id r (ap (find_known id) (sym p) ∙ h);
    proved = λ id r h. g.proved id r (ap (find_known id) (sym p) ∙ h);
  }

  take_room-IsGenuine :
      (a : App) (id : Bytes) (r : Room) (log : List RoomEntry) (n : Option Bytes)
      → IsGenuine a
      → verify_log c k.ops log ≡ ok r
      → IsGenuine (take_room c k a id r log n).1
  take_room-IsGenuine a id r log n g v = record {
    named = λ j s h. elim (take_room-holds c k a id r log n j) [
      | inl q ↦ g.named j s (sym q ∙ h)
      | inr (e, q) ↦ ground (arith, e, q, h)
    ];
    proved = λ j s h. elim (take_room-holds c k a id r log n j) [
      | inl q ↦ g.proved j s (sym q ∙ h)
      | inr (e, q) ↦ (log, ground (arith, v, q, h))
    ];
  }

  fetch_room-IsGenuine :
      (a : App) (answer : Answer) (id : Bytes) (n : Option Bytes)
      → IsGenuine a
      → IsGenuine (fetch_room c k a answer id n).1
  unfolding fetch_room
  fetch_room-IsGenuine a answer id n g = elim (Result-cases (hub_room c k answer id)) [
    | inr (x, p) ↦ rw (p, fetch_room) g
    | inl ((r, log), p) ↦
        rw (p, fetch_room)
          (take_room-IsGenuine a id r log n g (hub_room_lem c k answer id r log p).0)
  ]

  absorb_room-IsGenuine :
      (a : App) (answer : Answer) (id : Bytes) (log : List RoomEntry) (n : Option Bytes)
      → IsGenuine a
      → IsGenuine (absorb_room c k a answer id log n).1
  unfolding absorb_room
  absorb_room-IsGenuine a answer id [] n g = fetch_room-IsGenuine a answer id n g
  absorb_room-IsGenuine a answer id (e ∷ es) n g =
      elim (Result-cases (admit_room c k a id (e ∷ es))) [
        | inr (x, p) ↦ rw (p, absorb_room) g
        | inl (none, p) ↦ rw (p, absorb_room) g
        | inl (some r, p) ↦
            rw (p, absorb_room)
              (take_room-IsGenuine a id r (e ∷ es) n g (admitted c k a id (e ∷ es) r p).0)
      ]

  entitled-IsGenuine :
      (a : App) (answer : Answer) (sender : Bytes) (x : Frame) (n : Option Bytes)
      → IsGenuine a
      → IsGenuine (entitled c k a answer sender x n).1
  unfolding entitled
  entitled-IsGenuine a answer sender (in_room room op) n g =
      elim (Bool-cases (is_member a room sender)) [
        | inl e ↦ rw (e, entitled) g
        | inr e ↦ rw (e, entitled) (fetch_room-IsGenuine a answer room n g)
      ]
  entitled-IsGenuine a answer sender other n g = g

  rooms-file_op :
      (a : App) (sender : Bytes) (x : Frame) (n : Option Bytes)
      → (file_op c k a sender x n).1.rooms ≡ a.rooms
  unfolding file_op
  rooms-file_op a sender x n = ground arith

  accept_op-IsGenuine :
      (a : App) (answer : Answer) (sender : Bytes) (x : Frame) (n n' : Option Bytes)
      → IsGenuine a
      → IsGenuine (accept_op c k a answer sender x n n').1
  unfolding accept_op
  accept_op-IsGenuine a answer sender x n n' g =
      let b = (entitled c k a answer sender x n).1 in
      let h = entitled-IsGenuine a answer sender x n g in
      elim (Option-cases (frame_id x)) [
        | inl e ↦ rw (e, accept_op) g
        | inr (id, e) ↦ elim (Bool-cases (id.sender == sender)) [
          | inr q ↦ rw (e, q, accept_op) g
          | inl q ↦ elim (Result-cases (entitled c k a answer sender x n).0) [
            | inr (y, p) ↦ rw (e, q, p, accept_op) h
            | inl (_, p) ↦
                rw (e, q, p, accept_op)
                  (same_rooms b (file_op c k b sender x n').1 (rooms-file_op b sender x n') h)
          ]
        ]
      ]

  -- Whatever a peer or the hub sends, every room that the client holds is held under its own id and
  -- is what `verify_log` makes of some log, if that was so before.
  pub accept-IsGenuine :
      (a : App) (answer : Answer) (sender : Bytes) (x : Frame) (n n' : Option Bytes)
      → IsGenuine a
      → IsGenuine (accept c k a answer sender x n n').1
  unfolding accept
  accept-IsGenuine a answer sender (room_updated room log) n n' g =
      absorb_room-IsGenuine a answer room log n g
  accept-IsGenuine a answer sender other n n' g = accept_op-IsGenuine a answer sender other n n' g
