-- ===== src/Room/Chain/Steps.antt =====
-- The checks of crates/wicara-core/src/room.rs decide the description in `Room.Chain`, piece by
-- piece.
use wicara.Prelude.{◌≡◌, ◌↔◌, Bytes, Text, ok, Result-cases, inl, inr, arith}
use wicara.Crypto.{Crypto, Codec}
use wicara.Room.Members.{KeySet}
use wicara.Room.{
  RoomOp, create, invite, kick, leave, RoomEntry, Room, is_admin, transcript, create_name,
  entry_hash, verify_signature, apply_op, step, found,
}
use wicara.Room.Chain.{IsSigned, Authorised, Founded, Stepped}

pub apply_op-Authorised :
    (r : Room) (a : Bytes) (op : RoomOp) (ms : KeySet)
    → (apply_op r a op ≡ ok ms) ↔ Authorised r a op ms
unfolding apply_op is_admin
apply_op-Authorised r a (create name) ms = ground arith
apply_op-Authorised r a (invite m) ms = ground arith
apply_op-Authorised r a (kick m) ms = ground arith
apply_op-Authorised r a leave ms = ground arith

create_name-eq : (op : RoomOp) (n : Text) → create_name op ≡ ok n → op ≡ create n
create_name-eq op n h = ground arith

module _ (c : Crypto) (ops : Codec RoomOp) where
  -- the decision procedure and the description agree, piece by piece
  pub verify_signature-IsSigned :
      (e : RoomEntry) → verify_signature c ops e ≡ ok tt → IsSigned c ops e
  unfolding verify_signature
  verify_signature-IsSigned e h =
      elim (Result-cases (transcript c ops e.prev e.author e.ts_ms e.op)) [
        | inl (t, p) ↦ record {
          sixty_four = ground (arith, p);
          key = ground (arith, p);
          content = t;
          content-eq = p;
          verifies = ground (arith, p);
        }
        | inr (x, p) ↦ ground (arith, p)
      ]

  pub IsSigned-verify_signature :
      {e : RoomEntry} → IsSigned c ops e → verify_signature c ops e ≡ ok tt
  unfolding verify_signature
  IsSigned-verify_signature s = ground arith

  pub step-Stepped :
      (r : Room) (e : RoomEntry) (s : Room) → step c ops r e ≡ ok s → Stepped c ops r e s
  unfolding step
  step-Stepped r e s h = elim (Result-cases (apply_op r e.author e.op)) [
    | inl (ms, p) ↦ elim (Result-cases (entry_hash c ops e)) [
      | inl (d, q) ↦ elim (Result-cases (verify_signature c ops e)) [
        | inl (_, v) ↦ record {
          follows = ground (arith, p, q, v);
          signed = verify_signature-IsSigned e v;
          allowed = (apply_op-Authorised r e.author e.op s.members).0 (ground (arith, p, q, v));
          hashed = ground (arith, p, q, v);
          id = ground (arith, p, q, v);
          name = ground (arith, p, q, v);
          founder = ground (arith, p, q, v);
          length = ground (arith, p, q, v);
        }
        | inr (x, v) ↦ ground (arith, p, q, v)
      ]
      | inr (x, q) ↦ ground (arith, p, q)
    ]
    | inr (x, p) ↦ ground (arith, p)
  ]

  pub Stepped-step :
      {r : Room} {e : RoomEntry} {s : Room} → Stepped c ops r e s → step c ops r e ≡ ok s
  unfolding step
  Stepped-step {r} {e} {s} h = ground (
    arith,
    IsSigned-verify_signature h.signed,
    (apply_op-Authorised r e.author e.op s.members).1 h.allowed,
  )

  pub found-Founded : (e : RoomEntry) (r : Room) → found c ops e ≡ ok r → Founded c ops e r
  unfolding found
  found-Founded e r h = elim (Result-cases (verify_signature c ops e)) [
    | inl (_, v) ↦ elim (Result-cases (entry_hash c ops e)) [
      | inl (d, q) ↦ record {
        starts = ground (arith, v, q);
        signed = verify_signature-IsSigned e v;
        names = ground (arith, v, q);
        hashed = ground (arith, v, q);
        founder = ground (arith, v, q);
        members = ground (arith, v, q);
        head = ground (arith, v, q);
        length = ground (arith, v, q);
      }
      | inr (x, q) ↦ ground (arith, v, q)
    ]
    | inr (x, v) ↦ ground (arith, v)
  ]

  pub Founded-found : {e : RoomEntry} {r : Room} → Founded c ops e r → found c ops e ≡ ok r
  unfolding found
  Founded-found {e} {r} h = ground (arith, IsSigned-verify_signature h.signed)
