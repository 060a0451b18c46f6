-- ===== src/Ui/Loop/Slash.antt =====
-- crates/wicara/src/ui.rs: what the slash commands do to a state that is sound.
use wicara.Prelude.{
  ℕ, ◌-◌, ◌≤◌, ◌≡◌, refl, sym, ◌⊎◌, true, Option, none, some, List, [], ◌∷◌, ◌++◌, Bytes, bytes_eq,
  ◌==◌, nat_eq, codes, if◌then◌else◌, length, update_at, All, subst, Option-cases, Bool-cases, inl,
  inr, arith, append-nil,
}
use wicara.Ui.{Chars, quit, wipe, Peer, Ui}
use wicara.Ui.Text.{byte_len, split_once, trim}
use wicara.Ui.Editing.Caret.{IsBoundary}
use wicara.Ui.Commands.{
  emit, say, selected_peer, name_command, forget_command, whois, room_change, room_command,
  show_members, leave_command, clear_command, mouse_command, connect_command, send_command,
  nick_command, whoami, list_peers, obey, slash,
}
use wicara.Ui.Loop.Sound.{IsIndexed, IsOnMessage, IsSound, if-IsSound, update-IsSound}

-- an input line of its own
pub line-IsSound :
    (u : Ui) (input : Chars) (caret : ℕ)
    → IsBoundary input caret
    → IsSound u
    → IsSound (record u { input = input; caret = caret })
unfolding IsSound
line-IsSound u input caret placed (indexed, sel, cursors, old) = (indexed, sel, cursors, placed)

pub start-IsBoundary : (input : Chars) → IsBoundary input 0
unfolding IsBoundary byte_len
start-IsBoundary input = ([], input, refl, refl)

pub end-IsBoundary : (input : Chars) → IsBoundary input (byte_len input)
unfolding IsBoundary
end-IsBoundary input = (input, [], sym (append-nil input), refl)

-- the part of the state that IsSound is about
unfoldable pub core : Ui → List Peer × List (Bytes × ℕ) × ℕ × Chars × ℕ
core u = (u.peers, u.index, u.sel, u.input, u.caret)

pub core-IsSound : (u v : Ui) → core v ≡ core u → IsSound u → IsSound v
unfolding core IsSound
core-IsSound u v same (indexed, sel, cursors, caret) = (
  subst (λ x. IsIndexed x.0 x.1) (sym same) indexed,
  subst (λ x. x.2 ≤ length x.0 - 1) (sym same) sel,
  subst (λ x. All IsOnMessage x.0) (sym same) cursors,
  subst (λ x. IsBoundary x.3 x.4) (sym same) caret,
)

abbrev renamed : Option Chars → Ui → Ui
renamed alias u = record u {
  peers = update_at u.sel (λ (q : Peer). record q { alias = alias }) u.peers;
}

renamed-IsSound : (alias : Option Chars) (u : Ui) → IsSound u → IsSound (renamed alias u)
unfolding IsOnMessage
renamed-IsSound alias u s =
    update-IsSound (λ q. record q { alias = alias }) u.sel u
      (record { keeps = λ p. refl; stays = λ p h. h }) s

name_command-core :
    (arg : Chars) (u : Ui)
    → (alias : Option Chars) × ((core (name_command arg u) ≡ core u)
        ⊎ (core (name_command arg u) ≡ core (renamed alias u)))
unfolding name_command core say emit
name_command-core arg u =
    let alias : Option Chars = elim arg [ [] ↦ none | c ∷ cs ↦ some (c ∷ cs) ] in
    (
      alias,
      elim (Option-cases (selected_peer u)) [
        | inl e ↦ inl (ground (arith, e))
        | inr (p, e) ↦ elim (Option-cases p.room) [
          | inr (r, q) ↦ inl (ground (arith, e, q))
          | inl q ↦ inr (rw (e, name_command) rw (q) refl)
        ]
      ],
    )

forget_command-core : (arg : Chars) (u : Ui) → core (forget_command arg u) ≡ core u
unfolding forget_command core say emit
forget_command-core arg u = ground arith

whois-core : (u : Ui) → core (whois u) ≡ core u
unfolding whois core say emit
whois-core u = ground arith

room_command-core :
    (from_hex : Chars → Option Bytes) (arg : Chars) (u : Ui)
    → core (room_command from_hex arg u) ≡ core u
unfolding room_command room_change core say emit
room_command-core from_hex arg u = ground arith

show_members-core : (u : Ui) → core (show_members u) ≡ core u
unfolding show_members core say emit
show_members-core u = ground arith

leave_command-core : (u : Ui) → core (leave_command u) ≡ core u
unfolding leave_command core say emit
leave_command-core u = ground arith

clear_command-core : (arg : Chars) (u : Ui) → core (clear_command arg u) ≡ core u
unfolding clear_command core say emit
clear_command-core arg u = ground arith

mouse_command-core : (u : Ui) → core (mouse_command u) ≡ core u
unfolding mouse_command core say emit
mouse_command-core u = ground arith

connect_command-core :
    (from_hex : Chars → Option Bytes) (arg : Chars) (u : Ui)
    → core (connect_command from_hex arg u) ≡ core u
unfolding connect_command core say emit
connect_command-core from_hex arg u = ground arith

send_command-core : (arg : Chars) (u : Ui) → core (send_command arg u) ≡ core u
unfolding send_command core say emit
send_command-core arg u = ground arith

nick_command-core : (arg : Chars) (u : Ui) → core (nick_command arg u) ≡ core u
unfolding nick_command core say emit
nick_command-core arg u = ground arith

list_peers-core : (u : Ui) → core (list_peers u) ≡ core u
unfolding list_peers core say emit
list_peers-core u = ground arith

name_command-IsSound : (arg : Chars) (u : Ui) → IsSound u → IsSound (name_command arg u)
name_command-IsSound arg u s =
    let (alias, either) = name_command-core arg u in
    elim either [
      | inl e ↦ core-IsSound u (name_command arg u) e s
      | inr e ↦ core-IsSound (renamed alias u) (name_command arg u) e (renamed-IsSound alias u s)
    ]

obey-IsSound :
    (from_hex : Chars → Option Bytes) (cmd arg : Chars) (u : Ui)
    → IsSound u
    → IsSound (obey from_hex cmd arg u)
unfolding obey whoami say emit core
obey-IsSound from_hex cmd arg u s =
    let kept : (v : Ui) → core v ≡ core u → IsSound v = λ v e. core-IsSound u v e s in
    let arm : (verb : Chars) (v w : Ui)
        → core v ≡ core u
        → IsSound w
        → IsSound (if cmd == verb then v else w) =
      λ verb v w e h. if-IsSound (cmd == verb) v w (kept v e) h in
    let other = kept (say (codes "unknown command /" ++ cmd) u) refl in
    let at_send = arm (codes "send") (send_command arg u) _ (send_command-core arg u) other in
    let at_connect =
      arm (codes "connect") (connect_command from_hex arg u) _ (connect_command-core from_hex arg u)
        at_send in
    let at_mouse = arm (codes "mouse") (mouse_command u) _ (mouse_command-core u) at_connect in
    let at_wipe = arm (codes "wipe") (emit (wipe (arg == codes "yes")) u) _ refl at_mouse in
    let at_clear = arm (codes "clear") (clear_command arg u) _ (clear_command-core arg u) at_wipe in
    let at_forget =
      arm (codes "forget") (forget_command arg u) _ (forget_command-core arg u) at_clear in
    let at_leave = arm (codes "leave") (leave_command u) _ (leave_command-core u) at_forget in
    let at_members = arm (codes "members") (show_members u) _ (show_members-core u) at_leave in
    let at_net = arm (codes "net") (record u { net = true }) _ refl at_members in
    let at_help = arm (codes "help") (record u { help = true }) _ refl at_net in
    let at_whois = arm (codes "whois") (whois u) _ (whois-core u) at_help in
    let at_name =
      if-IsSound (cmd == codes "name") (name_command arg u) _ (name_command-IsSound arg u s)
        at_whois in
    let at_room =
      arm (codes "room") (room_command from_hex arg u) _ (room_command-core from_hex arg u)
        at_name in
    let at_nick = arm (codes "nick") (nick_command arg u) _ (nick_command-core arg u) at_room in
    let at_peers = arm (codes "peers") (list_peers u) _ (list_peers-core u) at_nick in
    arm (codes "whoami") (whoami u) _ refl at_peers

pub slash-IsSound :
    (from_hex : Chars → Option Bytes) (rest : Chars) (u : Ui)
    → IsSound u
    → IsSound (slash from_hex rest u).0
unfolding slash emit core
slash-IsSound from_hex rest u s =
    let quits : IsSound (emit quit u) = core-IsSound u (emit quit u) refl s in
    let obeys = obey-IsSound from_hex (split_once rest).0 (trim (split_once rest).1) u s in
    elim (Bool-cases ((split_once rest).0 == codes "quit")) [
      | inl e ↦ rw (e, slash) quits
      | inr e ↦ rw (e, slash) obeys
    ]
