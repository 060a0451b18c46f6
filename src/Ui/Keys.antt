-- ===== src/Ui/Keys.antt =====
-- crates/wicara/src/ui.rs: `on_key`, `chat_action`, `select_peer` and `move_cursor`. `none` is a
-- panic; with a state comes whether the program goes on.
pub mod Actions
use wicara.Prelude.{
  ℕ, suc, ◌+◌, ◌-◌, ◌*◌, ◌%◌, min, Bool, true, false, not, ◌&&◌, ◌||◌, Option, none, some, List, [],
  ◌∷◌, ◌++◌, Bytes, bytes_eq, nat_eq, ◌==◌, leb, codes, length, get_elem?, any, update_at,
  if◌then◌else◌,
}
use wicara.Wire.{MessageId}
use wicara.Ui.{
  Chars, Entry, UiCommand, delete, react, quit, Focus, on_peers, on_chat, on_input, Pending,
  reply_to, edit_of, Peer, Ui,
}
use wicara.Ui.Events.{peer_at}
use wicara.Ui.Text.{byte_len}
use wicara.Ui.Editing.{Line, insert_char, backspace, delete_at, go_left, go_right}
use wicara.Ui.Commands.{emit, say, selected_peer, submit}

pub data KeyCode : Type 0 where
  tab back_tab esc page_up page_down up down left right enter : KeyCode
  erase delete_key home end : KeyCode
  char : ℕ → KeyCode
  other : KeyCode

pub record KeyEvent : Type 0 where
  pub press : Bool
  pub ctrl : Bool
  pub code : KeyCode

-- a `delta` of one
pub data Delta : Type 0 where
  minus_one plus_one : Delta

abbrev pub emojis : List Chars
emojis = codes "👍" ∷ (codes "❤" ++ 65039 ∷ []) ∷ codes "😂" ∷ codes "😮" ∷ codes "😢" ∷ []

unfoldable pub mark_read : Peer → Peer
mark_read p = record p { unread = 0; unread_from = none }

-- `rem_euclid` of the place, moved by one
unfoldable pub moved : Delta → ℕ → ℕ → ℕ
moved plus_one n i = (i + 1) % n
moved minus_one n i = (i + (n - 1)) % n

unfoldable pub select_peer : Delta → Ui → Option Ui
select_peer delta u =
    let sel = moved delta (length u.peers) u.sel in
    if length u.peers == 0
    then some u
    else peer_at mark_read (record u { sel = sel; scroll = 0 }, sel)

-- `clamp` of the cursor, moved by one
unfoldable pub clamped : Delta → ℕ → ℕ → ℕ
clamped plus_one last i = min (i + 1) last
clamped minus_one last i = min (i - 1) last

unfoldable pub step_cursor : Delta → Peer → Peer
step_cursor delta p = elim p.log [
  | [] ↦ p
  | e ∷ es ↦ record p { cursor = clamped delta (length es) p.cursor }
]

unfoldable pub move_cursor : Delta → Ui → Ui
move_cursor delta u = record u { peers = update_at u.sel (step_cursor delta) u.peers }

unfoldable pub cursor_entry : Ui → Option (Bytes × Entry)
cursor_entry u = elim (selected_peer u) [
  | none ↦ none
  | some p ↦ elim (get_elem? p.log p.cursor) [ none ↦ none | some e ↦ some (p.key, e) ]
]

unfoldable pub reaction_on : Entry → Chars → Bool
reaction_on e emoji = not (any (λ (r : Chars × ℕ × Bool). r.0 == emoji && r.2) e.reactions)

-- `none` is the panic of an index that is out of range
unfoldable pub act_on : Bytes → Entry → ℕ → Ui → Option Ui
act_on peer e c u =
    if c == 114
    then some (record u { pending = some (reply_to e.id); focus = on_input })
    else if c == 101 && (e.outbound && not e.deleted)
    then some (record u {
      pending = some (edit_of e.id);
      input = e.body;
      caret = byte_len e.body;
      focus = on_input;
    })
    else if c == 101
    then some (say (codes "you can only edit your own messages") u)
    else if c == 100 && (e.outbound && not e.deleted)
    then some (emit (delete peer e.id) u)
    else if c == 100
    then some (say (codes "you can only delete your own messages") u)
    else if leb 49 c && leb c 53
    then elim (get_elem? emojis (c - 49)) [
      | none ↦ none
      | some emoji ↦ some (emit (react peer e.id emoji (reaction_on e emoji)) u)
    ]
    else some u

unfoldable pub chat_action : ℕ → Ui → Option Ui
chat_action c u = elim (cursor_entry u) [ none ↦ some u | some (peer, e) ↦ act_on peer e c u ]

-- an operation on the input and its caret
unfoldable pub edit_line : (Line → Option Line) → Ui → Option Ui
edit_line f u = elim (f (record { input = u.input; caret = u.caret })) [
  | none ↦ none
  | some l ↦ some (record u { input = l.input; caret = l.caret })
]

-- a key that only the input takes
unfoldable pub in_input : (Line → Option Line) → Ui → Option Ui
in_input f u = elim u.focus [ on_input ↦ edit_line f u | _ ↦ some u ]

unfoldable pub next_focus : Focus → Focus
next_focus on_input = on_peers
next_focus on_peers = on_chat
next_focus on_chat = on_input

unfoldable pub previous_focus : Focus → Focus
previous_focus on_input = on_chat
previous_focus on_chat = on_peers
previous_focus on_peers = on_input

unfoldable pub going_on : Option Ui → Option (Ui × Bool)
going_on none = none
going_on (some u) = some (u, true)

-- `match key.code`
unfoldable pub on_code : (Chars → Option Bytes) → KeyCode → Ui → Option (Ui × Bool)
on_code from_hex tab u = some (record u { focus = next_focus u.focus }, true)
on_code from_hex back_tab u = some (record u { focus = previous_focus u.focus }, true)
on_code from_hex esc u = some (record u { pending = none; input = []; caret = 0 }, true)
on_code from_hex page_up u = some (record u { scroll = u.scroll + 5 }, true)
on_code from_hex page_down u = some (record u { scroll = u.scroll - 5 }, true)
on_code from_hex up u = elim u.focus [
  | on_peers ↦ going_on (select_peer minus_one u)
  | on_chat ↦ some (move_cursor minus_one u, true)
  | on_input ↦ some (record u { scroll = u.scroll + 1 }, true)
]
on_code from_hex down u = elim u.focus [
  | on_peers ↦ going_on (select_peer plus_one u)
  | on_chat ↦ some (move_cursor plus_one u, true)
  | on_input ↦ some (record u { scroll = u.scroll - 1 }, true)
]
on_code from_hex enter u = some (submit from_hex u)
on_code from_hex (char c) u = elim u.focus [
  | on_chat ↦ going_on (chat_action c u)
  | on_input ↦ going_on (edit_line (insert_char c) u)
  | on_peers ↦ some (u, true)
]
on_code from_hex erase u = going_on (in_input backspace u)
on_code from_hex delete_key u = going_on (in_input delete_at u)
on_code from_hex left u = going_on (in_input go_left u)
on_code from_hex right u = going_on (in_input go_right u)
on_code from_hex home u = some (record u { caret = 0 }, true)
on_code from_hex end u = some (record u { caret = byte_len u.input }, true)
on_code from_hex other u = some (u, true)

unfoldable pub is_char : KeyCode → Bool
is_char (char c) = true
is_char _ = false

unfoldable pub is_ctrl_c : KeyEvent → Bool
is_ctrl_c key = elim key.code [ char c ↦ key.ctrl && (c == 99) | _ ↦ false ]

-- `on_key`
unfoldable pub on_key : (Chars → Option Bytes) → KeyEvent → Ui → Option (Ui × Bool)
on_key from_hex key u =
    if not key.press
    then some (u, true)
    else if is_ctrl_c key
    then some (emit quit u, false)
    else if u.help || (u.members || u.net)
    then (let v = record u { help = false; members = false; net = false } in
        if is_char key.code then on_code from_hex key.code v else some (v, true))
    else on_code from_hex key.code u
