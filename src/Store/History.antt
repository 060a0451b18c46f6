-- ===== src/Store/History.antt =====
-- crates/wicara/src/store.rs: `history` folds the operations of a conversation into its messages. A
-- `HashMap` is an association list; what the code makes of one does not depend on its order.
use wicara.Prelude.{
  ℕ, ◌+◌, ◌-◌, Bool, true, false, ◌||◌, ◌&&◌, Option, none, some, List, [], ◌∷◌, ◌++◌, map, Bytes,
  Text, bytes_eq, nat_eq, ◌==◌, ltb, leb, if◌then◌else◌, Ordering, cmp, length, drop, filter,
  update_at, sort_by, Result, ok, ◌>>=◌, ◌>>◌, ensure, ok_or, map_err,
}
use wicara.Crypto.{Crypto, Codec}
use wicara.Vault.{open_blob}
use wicara.Wire.{
  MessageId, message_id_eq, Frame, hello, chat, edit, delete, react, in_room, file, room_updated,
}
use wicara.Store.Tables.{
  OpRow, Store, StoreError, vault_failed, not_decoded, malformed_key, signed, file_key, setting,
}

pub record Attachment : Type 0 where
  pub name : Text
  pub size : ℕ
  pub hash : Bytes
  pub path : Option Text

pub record Message : Type 0 where
  pub id : MessageId
  pub body : Text
  pub outbound : Bool
  pub deleted : Bool
  pub reply_to : Option MessageId
  pub reactions : List (Text × ℕ × Bool)
  pub attachment : Option Attachment

-- the emoji and the reactor of a reaction to a target, and whether it is on
pub record Reaction : Type 0 where
  pub target : MessageId
  pub emoji : Text
  pub reactor : Bytes
  pub on : Bool

pub record Fold : Type 0 where
  pub messages : List Message
  pub places : List (MessageId × ℕ)
  pub reactions : List Reaction

abbrev pub nothing_yet : Fold
nothing_yet = record { messages = []; places = []; reactions = [] }

-- `ORDER BY ts_ms, seq`
unfoldable pub earlier : OpRow → OpRow → Bool
earlier x y =
    ltb (signed x.ts_ms) (signed y.ts_ms)
    || (x.ts_ms == y.ts_ms && leb (signed x.seq) (signed y.seq))

unfoldable pub ops_of : Bytes → List OpRow → List OpRow
ops_of peer ops = sort_by earlier (filter (λ (o : OpRow). o.peer == peer) ops)

-- `at.get`: the place that was inserted last
unfoldable pub place_of : MessageId → List (MessageId × ℕ) → Option ℕ
place_of id [] = none
place_of id (x ∷ xs) = if x.0 == id then some x.1 else place_of id xs

unfoldable pub set_reaction : Reaction → List Reaction → List Reaction
set_reaction r [] = r ∷ []
set_reaction r (x ∷ xs) =
    if x.target == r.target && (x.emoji == r.emoji && x.reactor == r.reactor)
    then r ∷ xs
    else x ∷ set_reaction r xs

unfoldable pub push_message : Message → Fold → Fold
push_message m f = record f {
  messages = f.messages ++ m ∷ [];
  places = (m.id, length f.messages) ∷ f.places;
}

unfoldable pub change : MessageId → (Message → Message) → Fold → Fold
change target g f = elim (place_of target f.places) [
  | none ↦ f
  | some i ↦ record f { messages = update_at i g f.messages }
]

-- one reaction that is on, counted at its target
unfoldable pub count_reaction : Text → Bool → List (Text × ℕ × Bool) → List (Text × ℕ × Bool)
count_reaction emoji mine [] = (emoji, 1, mine) ∷ []
count_reaction emoji mine ((e, n, m) ∷ xs) =
    if e == emoji then (e, n + 1, m || mine) ∷ xs else (e, n, m) ∷ count_reaction emoji mine xs

unfoldable pub tally : Bytes → List (MessageId × ℕ) → List Reaction → List Message → List Message
tally me places [] messages = messages
tally me places (r ∷ rs) messages =
    let counted = λ (m : Message). record m {
      reactions = count_reaction r.emoji (r.reactor == me) m.reactions;
    } in
    tally me places rs (
      if r.on
      then elim (place_of r.target places) [
        | none ↦ messages
        | some i ↦ update_at i counted messages
      ]
      else messages)

-- `a.0.cmp(&b.0)`, as the test of a stable sort
unfoldable pub emoji_le : Text × ℕ × Bool → Text × ℕ × Bool → Bool
emoji_le x y = elim (cmp x.0 y.0) [ Ordering.lt ↦ true | Ordering.eq ↦ true | Ordering.gt ↦ false ]

unfoldable pub sort_reactions : Message → Message
sort_reactions m = record m { reactions = sort_by emoji_le m.reactions }

-- the `match` on an operation's frame; the path is where an attachment landed, if it has
unfoldable pub apply_frame : Bytes → MessageId → Frame → Option Text → Fold → Fold
apply_frame me id (chat _ body reply_to) path f =
    push_message
      (record {
        id = id;
        body = body;
        outbound = id.sender == me;
        deleted = false;
        reply_to = reply_to;
        reactions = [];
        attachment = none;
      })
      f
apply_frame me id (file _ name size hash) path f =
    push_message
      (record {
        id = id;
        body = name;
        outbound = id.sender == me;
        deleted = false;
        reply_to = none;
        reactions = [];
        attachment = some (record { name = name; size = size; hash = hash; path = path });
      })
      f
apply_frame me id (edit _ target body) path f =
    if target.sender == id.sender
    then change target (λ (m : Message). record m { body = body }) f
    else f
apply_frame me id (delete _ target) path f =
    if target.sender == id.sender
    then change target (λ (m : Message). record m { deleted = true; body = [] }) f
    else f
apply_frame me id (react _ target emoji on) path f = record f {
  reactions =
      set_reaction (record { target = target; emoji = emoji; reactor = id.sender; on = on })
        f.reactions;
}
apply_frame me id (hello nickname) path f = f
apply_frame me id (in_room room op) path f = f
apply_frame me id (room_updated room log) path f = f

module _ (c : Crypto) (frames : Codec Frame) where
  -- for an attachment, where it landed
  unfoldable pub with_path :
      Store → MessageId → Frame → Result StoreError (MessageId × Frame × Option Text)
  with_path s id (file own name size hash) = do
    path ← setting c s (file_key id)
    ok (id, file own name size hash, path)
  with_path s id other = ok (id, other, none)

  -- what a row holds: the id, the frame, and the path of an attachment
  unfoldable pub load_row : Store → OpRow → Result StoreError (MessageId × Frame × Option Text)
  load_row s o = do
    ensure (length o.sender == 32) malformed_key
    let id : MessageId = record { sender = o.sender; seq = o.seq; ts_ms = o.ts_ms }
    bytes ← map_err (open_blob c s.vault o.payload) vault_failed
    frame ← ok_or (frames.from_bytes bytes) not_decoded
    with_path s id frame

  -- one row of the loop in `history`
  unfoldable pub fold_row : Store → OpRow → Fold → Result StoreError Fold
  fold_row s o f = do (id, frame, path) ← load_row s o; ok (apply_frame s.me id frame path f)

  unfoldable pub fold_rows : Store → List OpRow → Fold → Result StoreError Fold
  fold_rows s [] f = ok f
  fold_rows s (o ∷ os) f = fold_row s o f >>= fold_rows s os

  -- the loop over the reactions, the sort, and the newest `limit` messages
  unfoldable pub settle : Bytes → Fold → List Message
  settle me f = map sort_reactions (tally me f.places f.reactions f.messages)

  unfoldable pub newest : ℕ → List Message → List Message
  newest limit messages = drop (length messages - limit) messages

  -- `Store::history`
  unfoldable pub history : Store → Bytes → ℕ → Result StoreError (List Message)
  history s peer limit = do
    f ← fold_rows s (ops_of peer s.ops) nothing_yet
    ok (newest limit (settle s.me f))
