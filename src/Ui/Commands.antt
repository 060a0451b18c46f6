-- ===== src/Ui/Commands.antt =====
-- crates/wicara/src/ui.rs: `submit` and the slash commands. A command that the interface sends is put in
-- `sent`; what `copy_to_clipboard` writes to the terminal is left out.
use wicara.Prelude.{
  Bool, true, false, not, ◌&&◌, Option, none, some, List, [], ◌∷◌, ◌++◌, Bytes, bytes_eq, nat_eq,
  ◌==◌, codes, length, get_elem?, update_at, if◌then◌else◌,
}
use wicara.Wire.{hex, decimal}
use wicara.Ui.{
  Chars, RoomCommand, create, leave, invite, kick, UiCommand, send, edit, nick, name, connect,
  forget, clear, wipe, for_room, send_file, quit, Pending, reply_to, edit_of, Peer, Ui, short,
  label,
}
use wicara.Ui.Text.{trim, split_once}
use wicara.Ui.Events.{selected_key}

unfoldable pub emit : UiCommand → Ui → Ui
emit x u = record u { sent = x ∷ u.sent }

unfoldable pub say : Chars → Ui → Ui
say text u = record u { status = text }

unfoldable pub selected_peer : Ui → Option Peer
selected_peer u = get_elem? u.peers u.sel

-- `parse_key`; `HEXLOWER_PERMISSIVE.decode` is an argument
unfoldable pub parse_key : (Chars → Option Bytes) → Chars → Option Bytes
parse_key from_hex text = elim (from_hex (trim text)) [
  | none ↦ none
  | some bytes ↦ if length bytes == 32 then some bytes else none
]

-- `join("  ")` of the peers' labels, each with its mark
unfoldable pub roster : List Peer → Chars
roster [] = []
roster (p ∷ ps) =
    let rest = roster ps in
    let one = (if p.online then codes "●" else codes "○") ++ label p in
    elim ps [ [] ↦ one | q ∷ qs ↦ one ++ (codes "  " ++ rest) ]

unfoldable pub name_command : Chars → Ui → Ui
name_command arg u = elim (selected_peer u) [
  | none ↦ say (codes "select a peer first") u
  | some p ↦ elim p.room [
    | some r ↦ say (codes "rooms are named by whoever created them") u
    | none ↦
        let alias : Option Chars = elim arg [ [] ↦ none | c ∷ cs ↦ some (c ∷ cs) ] in
        let text = elim arg as (λ _. Chars) [
          | [] ↦ codes "forgot your name for " ++ short p.key
          | c ∷ cs ↦ codes "you now call " ++ (short p.key ++ (codes " " ++ (c ∷ cs)))
        ] in
        emit (name p.key alias) (
          say text (record u {
            peers = update_at u.sel (λ (q : Peer). record q { alias = alias }) u.peers;
          }))
  ]
]

unfoldable pub forget_command : Chars → Ui → Ui
forget_command arg u = elim (selected_peer u) [
  | none ↦ say (codes "select a conversation first") u
  | some p ↦ emit (forget p.key (arg == codes "yes")) u
]

unfoldable pub identified : Peer → Chars
identified p =
    let key = hex p.key in
    elim p.room [
      | some r ↦
          codes "#"
          ++ (r.name ++ (codes " · " ++ (decimal 20 r.members ++ (codes " members · " ++ key))))
      | none ↦ elim p.alias [
        | some alias ↦ elim p.nick [
          | some theirs ↦
              alias
              ++ (codes " (your name; they call themselves " ++ (theirs ++ (codes ") · " ++ key)))
          | none ↦ alias ++ (codes " (your name) · " ++ key)
        ]
        | none ↦ elim p.nick [
          | some theirs ↦
              theirs ++ (codes " — their claim, unverified; /name to set yours · " ++ key)
          | none ↦ codes "no name yet · " ++ key
        ]
      ]
    ]

unfoldable pub whois : Ui → Ui
whois u = elim (selected_peer u) [
  | none ↦ say (codes "select a peer first") u
  | some p ↦ say (identified p) u
]

-- `invite` and `kick` of `/room`, on the room that is selected
unfoldable pub room_change :
    (Chars → Option Bytes) → Chars → (Bytes → Bytes → RoomCommand) → Chars → Ui → Ui
room_change from_hex verb change rest u = elim (selected_peer u) [
  | none ↦ say (codes "select a room first") u
  | some p ↦ elim p.room [
    | none ↦ say (codes "select a room first — invite and kick act on it") u
    | some _ ↦ elim (parse_key from_hex rest) [
      | some member ↦ emit (for_room (change p.key member)) u
      | none ↦ say (codes "usage: /room " ++ (verb ++ codes " <endpoint-id>")) u
    ]
  ]
]

unfoldable pub room_command : (Chars → Option Bytes) → Chars → Ui → Ui
room_command from_hex arg u =
    let (verb, rest) = split_once arg in
    let rest' = trim rest in
    if verb == codes "create" && not (rest' == [])
    then emit (for_room (create rest')) u
    else if verb == codes "invite"
    then room_change from_hex verb invite rest' u
    else if verb == codes "kick"
    then room_change from_hex verb kick rest' u
    else say (codes "usage: /room create <name> | invite <id> | kick <id>") u

unfoldable pub show_members : Ui → Ui
show_members u = elim (selected_peer u) [
  | none ↦ say (codes "select a room first") u
  | some p ↦ elim p.room [
    | some _ ↦ record u { members = true }
    | none ↦ say (codes "/members is for rooms") u
  ]
]

unfoldable pub leave_command : Ui → Ui
leave_command u = elim (selected_peer u) [
  | none ↦ say (codes "select a room first") u
  | some p ↦ elim p.room [
    | some _ ↦ emit (for_room (leave p.key)) u
    | none ↦ say (codes "/leave is for rooms — use /forget for a peer") u
  ]
]

unfoldable pub clear_command : Chars → Ui → Ui
clear_command arg u = elim (selected_key u) [
  | none ↦ say (codes "select a conversation first") u
  | some peer ↦ emit (clear peer (arg == codes "yes")) u
]

unfoldable pub mouse_command : Ui → Ui
mouse_command u =
    if u.mouse
    then record u {
      mouse = false;
      status = codes "mouse off — drag to select and copy; /mouse to turn it back on";
    }
    else record u {
      mouse = true;
      status = codes "mouse on — click to move around; /mouse again to select text";
    }

unfoldable pub connect_command : (Chars → Option Bytes) → Chars → Ui → Ui
connect_command from_hex arg u = elim (parse_key from_hex arg) [
  | none ↦ say (codes "usage: /connect <endpoint-id>") u
  | some peer ↦ emit (connect peer) u
]

unfoldable pub send_command : Chars → Ui → Ui
send_command arg u =
    if arg == [] then say (codes "usage: /send <path>") u else elim (selected_key u) [
      | none ↦ say (codes "select a peer first") u
      | some peer ↦ emit (send_file peer arg) u
    ]

unfoldable pub nick_command : Chars → Ui → Ui
nick_command arg u =
    if arg == []
    then say (codes "usage: /nick <name>") u
    else say (codes "you are now " ++ arg) (emit (nick arg) (record u { nickname = arg }))

unfoldable pub whoami : Ui → Ui
whoami u = say (u.nickname ++ (codes " — " ++ (u.me ++ codes " (copied)"))) u

unfoldable pub list_peers : Ui → Ui
list_peers u = elim u.peers [ [] ↦ say (codes "no peers yet") u | p ∷ ps ↦ say (roster (p ∷ ps)) u ]

-- the arms of `slash` after which the program goes on
unfoldable pub obey : (Chars → Option Bytes) → Chars → Chars → Ui → Ui
obey from_hex cmd arg u =
    if cmd == codes "whoami"
    then whoami u
    else if cmd == codes "peers"
    then list_peers u
    else if cmd == codes "nick"
    then nick_command arg u
    else if cmd == codes "room"
    then room_command from_hex arg u
    else if cmd == codes "name"
    then name_command arg u
    else if cmd == codes "whois"
    then whois u
    else if cmd == codes "help"
    then record u { help = true }
    else if cmd == codes "net"
    then record u { net = true }
    else if cmd == codes "members"
    then show_members u
    else if cmd == codes "leave"
    then leave_command u
    else if cmd == codes "forget"
    then forget_command arg u
    else if cmd == codes "clear"
    then clear_command arg u
    else if cmd == codes "wipe"
    then emit (wipe (arg == codes "yes")) u
    else if cmd == codes "mouse"
    then mouse_command u
    else if cmd == codes "connect"
    then connect_command from_hex arg u
    else if cmd == codes "send"
    then send_command arg u
    else say (codes "unknown command /" ++ cmd) u

-- `slash`: the state, and whether the program goes on
unfoldable pub slash : (Chars → Option Bytes) → Chars → Ui → Ui × Bool
slash from_hex rest u =
    let (cmd, tail) = split_once rest in
    let arg = trim tail in
    if cmd == codes "quit" then (emit quit u, false) else (obey from_hex cmd arg u, true)

-- what a line that is no command becomes
unfoldable pub as_command : Bytes → Chars → Option Pending → UiCommand
as_command peer body none = send peer body none
as_command peer body (some (reply_to target)) = send peer body (some target)
as_command peer body (some (edit_of target)) = edit peer target body

-- `submit`, once the input has been taken
unfoldable pub enter_line : (Chars → Option Bytes) → Chars → Ui → Ui × Bool
enter_line from_hex [] u = (record u { pending = none }, true)
enter_line from_hex (c ∷ rest) u =
    if c == 47 then slash from_hex rest u else elim (selected_key u) [
      | none ↦ (say (codes "no peer selected — nothing to send to") u, true)
      | some peer ↦ (
        record (emit (as_command peer (c ∷ rest) u.pending) u) { pending = none; scroll = 0 },
        true,
      )
    ]

-- `submit`
unfoldable pub submit : (Chars → Option Bytes) → Ui → Ui × Bool
submit from_hex u = enter_line from_hex (trim u.input) (record u { input = []; caret = 0 })
