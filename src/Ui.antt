-- ===== src/Ui.antt =====
-- crates/wicara/src/ui.rs: the state of the terminal interface, without drawing. A text is the list
-- of its characters, since the interface counts them; `sent` is what was put on the channel of
-- commands, last first. The areas of the last frame are in Ui.Mouse.
pub mod Text
pub mod Editing
pub mod Wrap
pub mod Events
pub mod Commands
pub mod Keys
pub mod Mouse
pub mod Drawing
pub mod Loop
use wicara.Prelude.{
  ℕ, Bool, true, false, Option, none, some, List, [], ◌∷◌, ◌++◌, Bytes, codes, length, take,
}
use wicara.Wire.{MessageId, hex, decimal}

-- a `String`, by its characters
abbrev pub Chars : Type 0
Chars = List ℕ

pub record Attach : Type 0 where
  pub name : Chars
  pub size : ℕ
  pub hash : Bytes
  pub path : Option Chars

pub record Entry : Type 0 where
  pub id : MessageId
  pub body : Chars
  pub outbound : Bool
  pub deleted : Bool
  pub reply_to : Option MessageId
  pub reactions : List (Chars × ℕ × Bool)
  pub attachment : Option Attach

pub record RoomView : Type 0 where
  pub name : Chars
  pub member_keys : List Bytes
  pub founder : Bytes
  pub members : ℕ
  pub joined : Bool

pub record Link : Type 0 where
  pub relayed : Bool
  pub via : Chars
  pub rtt_ms : ℕ

pub data Delivery : Type 0 where
  wire mailbox failed : Delivery

-- the derived order of `Delivery`
unfoldable pub worse : Delivery → Delivery → Delivery
worse wire y = y
worse mailbox wire = mailbox
worse mailbox y = y
worse failed y = failed

pub data UiEvent : Type 0 where
  known : Bytes → Option Chars → Option Chars → UiEvent
  connected : Bytes → Chars → UiEvent
  path : Bytes → Option Link → UiEvent
  disconnected : Bytes → UiEvent
  log : Bytes → List Entry → UiEvent
  delivery : MessageId → Delivery → UiEvent
  transfer : MessageId → ℕ → ℕ → UiEvent
  note : Bytes → Chars → UiEvent
  forgotten : Bytes → UiEvent
  wiped : UiEvent
  room : Bytes → RoomView → UiEvent
  status : Chars → Bool → UiEvent

pub data RoomCommand : Type 0 where
  create : Chars → RoomCommand
  leave : Bytes → RoomCommand
  invite kick : Bytes → Bytes → RoomCommand

pub data UiCommand : Type 0 where
  send : Bytes → Chars → Option MessageId → UiCommand
  edit : Bytes → MessageId → Chars → UiCommand
  delete : Bytes → MessageId → UiCommand
  react : Bytes → MessageId → Chars → Bool → UiCommand
  nick : Chars → UiCommand
  name : Bytes → Option Chars → UiCommand
  connect : Bytes → UiCommand
  forget clear : Bytes → Bool → UiCommand
  wipe : Bool → UiCommand
  for_room : RoomCommand → UiCommand
  send_file : Bytes → Chars → UiCommand
  quit : UiCommand

pub data Focus : Type 0 where
  on_peers on_chat on_input : Focus

pub data Pending : Type 0 where
  reply_to edit_of : MessageId → Pending

pub record Peer : Type 0 where
  pub key : Bytes
  pub nick : Option Chars
  pub alias : Option Chars
  pub online : Bool
  pub link : Option Link
  pub rtt : List ℕ
  pub log : List Entry
  pub unread : ℕ
  pub cursor : ℕ
  pub unread_from : Option ℕ
  pub notes : List (ℕ × Chars)
  pub room : Option RoomView

pub record Ui : Type 0 where
  pub me : Chars
  pub me_key : Bytes
  pub nickname : Chars
  pub peers : List Peer
  pub index : List (Bytes × ℕ)
  pub sel : ℕ
  pub focus : Focus
  pub pending : Option Pending
  pub input : Chars
  pub caret : ℕ
  pub scroll : ℕ
  pub status : Chars
  pub status_bad : Bool
  pub transfers : List (MessageId × (ℕ × ℕ))
  pub delivery : List (MessageId × Delivery)
  pub sent : List UiCommand
  pub help : Bool
  pub members : Bool
  pub net : Bool
  pub mouse : Bool

-- `short`
unfoldable pub short : Bytes → Chars
short key = hex (take 5 key)

-- `Peer::label`, `Peer::named`
unfoldable pub label : Peer → Chars
label p = elim p.room [
  | some r ↦ codes "#" ++ r.name
  | none ↦ elim p.alias [ some a ↦ a | none ↦ elim p.nick [ some n ↦ n | none ↦ short p.key ] ]
]

unfoldable pub named : Peer → Bool
named p = elim p.room [
  | some _ ↦ true
  | none ↦ elim p.alias [ some _ ↦ true | none ↦ elim p.nick [ none ↦ true | some _ ↦ false ] ]
]

-- `Ui::new`
unfoldable pub new_ui : Chars → Bytes → Chars → Ui
new_ui me me_key nickname = record {
  me = me;
  me_key = me_key;
  nickname = nickname;
  peers = [];
  index = [];
  sel = 0;
  focus = on_input;
  pending = none;
  input = [];
  caret = 0;
  scroll = 0;
  status = codes "waiting for peers";
  status_bad = false;
  transfers = [];
  delivery = [];
  sent = [];
  help = false;
  members = false;
  net = false;
  mouse = true;
}
