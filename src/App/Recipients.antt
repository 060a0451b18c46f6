-- ===== src/App/Recipients.antt =====
-- Whom `deliver` of crates/wicara/src/main.rs sends to.
use wicara.Prelude.{
  ◌≡◌, refl, Bool, true, false, not, ◌&&◌, some, [], ◌∷◌, Bytes, Bytes-discrete, bytes_eq, ◌==◌,
  ==-refl, any, All, Bool-cases, inl, inr, arith,
}
use wicara.Room.{Room}
use wicara.Room.Members.{KeySet, contains}
use wicara.Wire.{Frame, in_room}
use wicara.App.{App, find_known}
use wicara.App.Sending.{Route, wire, mailbox, Send, deliver_to, fan_out, deliver}

-- a send to the peer over its connection, or into its mailbox
abbrev is_wire : Route → Bool
is_wire wire = true
is_wire _ = false

abbrev is_mailbox : Route → Bool
is_mailbox mailbox = true
is_mailbox _ = false

abbrev pub on_wire : Bytes → Send → Bool
on_wire peer s = s.peer == peer && is_wire s.route

abbrev pub mailed : Bytes → Send → Bool
mailed peer s = s.peer == peer && is_mailbox s.route

module _ (live : Bytes → Bool) (has_hub : Bool) (me : Bytes) (x : Frame) where
  any-on_wire :
      (ms : KeySet) (peer : Bytes)
      → any (on_wire peer) (fan_out live has_hub me x ms)
        ≡ (contains peer ms && (not (peer == me) && live peer))
  unfolding fan_out deliver_to contains
  any-on_wire [] peer = ground arith
  any-on_wire (m ∷ ms) peer =
      let rest = any-on_wire ms peer in
      elim (Bytes-discrete m peer) [
        | yes q ↦ ground (arith, rest, q, ==-refl peer)
        | no q ↦ ground (arith, rest, q)
      ]

  any-mailed :
      (ms : KeySet) (peer : Bytes)
      → any (mailed peer) (fan_out live has_hub me x ms)
        ≡ (contains peer ms && (not (peer == me) && (not (live peer) && has_hub)))
  unfolding fan_out deliver_to contains
  any-mailed [] peer = ground arith
  any-mailed (m ∷ ms) peer =
      let rest = any-mailed ms peer in
      elim (Bytes-discrete m peer) [
        | yes q ↦ ground (arith, rest, q, ==-refl peer)
        | no q ↦ ground (arith, rest, q)
      ]

  pub fan_out-All : (ms : KeySet) → All (λ (s : Send). s.frame ≡ x) (fan_out live has_hub me x ms)
  unfolding fan_out deliver_to
  fan_out-All [] = tt
  fan_out-All (m ∷ ms) = elim (Bool-cases (m == me)) [
    | inl e ↦ rw (e) (fan_out-All ms)
    | inr e ↦ rw (e) (refl, fan_out-All ms)
  ]

-- An operation in a room, as long as this endpoint is a member, goes over the wire to just the other
-- members who are connected, and into the mailbox of just the other members who are not, if there is a
-- hub; if it is no member, it goes to nobody. What is sent is the operation, marked with its room.
pub room_delivery_exact :
    (a : App) (live : Bytes → Bool) (has_hub : Bool) (room : Bytes) (x : Frame) (r : Room)
    (peer : Bytes)
    → find_known room a.rooms ≡ some r
    → let sends = deliver a live has_hub room x in
      let other = contains a.me r.members && (contains peer r.members && not (peer == a.me)) in
      (any (on_wire peer) sends ≡ (other && live peer))
      × (any (mailed peer) sends ≡ (other && (not (live peer) && has_hub)))
      × All (λ (s : Send). s.frame ≡ in_room room x) sends
unfolding deliver
room_delivery_exact a live has_hub room x r peer h =
    let wired = any-on_wire live has_hub a.me (in_room room x) r.members peer in
    let posted = any-mailed live has_hub a.me (in_room room x) r.members peer in
    let marked = fan_out-All live has_hub a.me (in_room room x) r.members in
    elim (Bool-cases (contains a.me r.members)) [
      | inl e ↦ rw (h, e, deliver) (ground (arith, wired), ground (arith, posted), marked)
      | inr e ↦ rw (h, e, deliver) (refl, refl, tt)
    ]
