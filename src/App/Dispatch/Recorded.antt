-- ===== src/App/Dispatch/Recorded.antt =====
-- crates/wicara/src/main.rs: what `dispatch` sends.
use wicara.Prelude.{
  ℕ, ◌≡◌, refl, subst, ◌⊎◌, Bool, true, All, Option, some, List, [], ◌∷◌, Bytes, Text, bytes_eq,
  nat_eq, ==-refl, any, ok, Result-cases, Option-cases, Bool-cases, inl, inr, arith,
}
use wicara.Crypto.{Crypto}
use wicara.Vault.{seal}
use wicara.Wire.{MessageId, Frame, in_room, frame_id}
use wicara.Store.Tables.{Store, OpRow, record_op, next_id, is_key, insert_op}
use wicara.Store.History.{history}
use wicara.Store.Replay.{any-last}
use wicara.Ui.{Chars, UiCommand}
use wicara.App.{App, Codecs, find_known, history_on_start}
use wicara.App.Sending.{Send, deliver_to, fan_out, deliver}
use wicara.App.Recipients.{fan_out-All}
use wicara.Room.Members.{contains}
use wicara.App.Dispatch.{message_frame, dispatch_frame, dispatch_message}

-- an operation that is inserted is there, and what was there stays
insert_op-there :
    (id : MessageId) (peer payload : Bytes) (ops : List OpRow)
    → any (is_key id) (insert_op id peer payload ops).0 ≡ true
unfolding insert_op is_key
insert_op-there id peer payload ops =
    let row : OpRow = record {
      sender = id.sender;
      seq = id.seq;
      ts_ms = id.ts_ms;
      peer = peer;
      payload = payload;
    } in
    let own : is_key id row ≡ true =
      rw (==-refl id.sender, ==-refl id.seq, ==-refl id.ts_ms) refl in
    let last = any-last (is_key id) ops row own in
    elim (Bool-cases (any (is_key id) ops)) [
      | inl e ↦ ground (arith, e)
      | inr e ↦ ground (arith, e, last)
    ]

All-weaken :
    {A : Type 0} (P Q : A → Type 0) (h : (a : A) → P a → Q a) (xs : List A) → All P xs → All Q xs
All-weaken P Q h [] all = tt
All-weaken P Q h (x ∷ xs) all = (h x all.0, All-weaken P Q h xs all.1)

module _ (c : Crypto) (k : Codecs) where
  record_op-there :
      (s s' : Store) (peer : Bytes) (frame : Frame) (id : MessageId) (nonce : Option Bytes)
      (new : Bool)
      → frame_id frame ≡ some id
      → record_op c k.frames s peer frame nonce ≡ ok (s', new)
      → any (is_key id) s'.ops ≡ true
  unfolding record_op
  record_op-there s s' peer frame id nonce new has h =
      elim (Option-cases (k.frames.to_stdvec frame)) [
        | inl p ↦ ground (arith, has, p, h)
        | inr (bytes, p) ↦ elim (Result-cases (seal c s.vault bytes nonce)) [
          | inr (e, q) ↦ ground (arith, has, p, q, h)
          | inl (payload, q) ↦ ground (arith, has, p, q, h, insert_op-there id peer payload s.ops)
        ]
      ]

  -- the frame of a command has the id that was minted for it
  message_frame-id :
      (utf8 : Chars → Text) (cmd : UiCommand) (id : MessageId) (peer : Bytes) (frame : Frame)
      → message_frame utf8 cmd id ≡ some (peer, frame)
      → frame_id frame ≡ some id
  unfolding message_frame frame_id
  message_frame-id utf8 cmd id peer frame h = ground (arith, h)

  -- What is sent for a frame is the frame, or for a room the frame marked with it.
  deliver-All :
      (a : App) (live : Bytes → Bool) (has_hub : Bool) (peer : Bytes) (frame : Frame)
      → All
          (λ (s : Send). (s.frame ≡ frame) ⊎ (s.frame ≡ in_room peer frame))
          (deliver a live has_hub peer frame)
  unfolding deliver deliver_to
  deliver-All a live has_hub peer frame = elim (Option-cases (find_known peer a.rooms)) [
    | inl e ↦ rw (e, deliver) (inl refl, tt)
    | inr (r, e) ↦ elim (Bool-cases (contains a.me r.members)) [
      | inr m ↦ rw (e, m, deliver) tt
      | inl m ↦
          rw (e, m, deliver)
            (All-weaken (λ (s : Send). s.frame ≡ in_room peer frame) _ (λ s same. inr same)
              (fan_out live has_hub a.me (in_room peer frame) r.members)
              (fan_out-All live has_hub a.me (in_room peer frame) r.members))
    ]
  ]

  -- For a command that makes a message, an edit, a deletion or a reaction, what `dispatch` puts on a
  -- wire or mails was recorded first: if it sends anything, it is the frame of the command with the id
  -- that was minted, or for a room that frame marked with it, and an operation of that id is in the
  -- store afterwards.
  pub sent_is_recorded :
      (utf8 : Chars → Text) (a a' : App) (live : Bytes → Bool) (has_hub : Bool) (cmd : UiCommand)
      (now : ℕ) (nonce : Option Bytes) (x : Send) (xs : List Send)
      → dispatch_message c k utf8 a live has_hub cmd now nonce ≡ some (a', x ∷ xs)
      → let id = (next_id a.store now).1 in
        (peer : Bytes) × (frame : Frame) × (message_frame utf8 cmd id ≡ some (peer, frame))
        × (frame_id frame ≡ some id)
        × All (λ (s : Send). (s.frame ≡ frame) ⊎ (s.frame ≡ in_room peer frame)) (x ∷ xs)
        × (any (is_key id) a'.store.ops ≡ true)
  unfolding dispatch_message dispatch_frame
  sent_is_recorded utf8 a a' live has_hub cmd now nonce x xs h =
      let (s, id) = next_id a.store now in
      elim (Option-cases (message_frame utf8 cmd id)) [
        | inl e ↦ ground (arith, e, h)
        | inr ((peer, frame), e) ↦
            let has = message_frame-id utf8 cmd id peer frame e in
            elim (Result-cases (record_op c k.frames s peer frame nonce)) [
              | inr (why, r) ↦ ground (arith, e, r, h)
              | inl ((s', new), r) ↦
                  let there = record_op-there s s' peer frame id nonce new has r in
                  let b = record a { store = s' } in
                  elim (Result-cases (history c k.frames s' peer history_on_start)) [
                    | inr (why, q) ↦ ground (arith, e, r, q, h)
                    | inl (msgs, q) ↦
                        let sends : deliver b live has_hub peer frame ≡ x ∷ xs =
                          ground (arith, e, r, q, h) in
                        let all = deliver-All b live has_hub peer frame in
                        (
                          peer,
                          frame,
                          e,
                          has,
                          subst
                              (All
                                (λ (s : Send). (s.frame ≡ frame) ⊎ (s.frame ≡ in_room peer frame)))
                              sends all,
                          ground (arith, e, r, q, h, there),
                        )
                  ]
            ]
      ]
