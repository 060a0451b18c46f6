-- ===== src/Examples/Ui.antt =====
-- A state of the interface with two peers, the second of them new.
use wicara.Prelude.{
  ℕ, ◌+◌, ◌-◌, ◌≤◌, ◌≡◌, refl, true, false, none, some, List, [], ◌∷◌, bytes_eq, ◌==◌,
  if◌then◌else◌, codes, ℕ_discrete, arith,
}
use wicara.Wire.{MessageId}
use wicara.Ui.{Chars, Entry, connected, delete, edit, on_chat, edit_of, Peer, Ui, new_ui}
use wicara.Ui.Text.{trim, trim_start, trim_end, is_whitespace}
use wicara.Ui.Events.{peer_at, peer_mut, selected_key}
use wicara.Ui.Commands.{emit, selected_peer, submit}
use wicara.Ui.Wrap.{wrap}
use wicara.Ui.Wrap.Ink.{ink, ink_all, wrap_keeps_ink}
use wicara.Ui.Drawing.{chat_start, Style, mention_spans}
use wicara.Ui.Drawing.Kept.{text_of, cursor_on_screen, mention_spans_keep_text}
use wicara.Ui.Keys.{
  tab, char, plus_one, moved, mark_read, select_peer, cursor_entry, act_on, chat_action, on_key,
}
use wicara.Ui.Keys.Actions.{delete_is_own, overlay_key_deletes, pending_edit_follows_selection}
use wicara.Ui.Mouse.{Rect, Drawn, left_down}
use wicara.Ui.Loop.{Turn, key, mouse, event, event_loop}
use wicara.Ui.Loop.Sound.{IsSound}
use wicara.Ui.Loop.Runs.{handling_never_panics, new_ui-IsSound}
use wicara.Ui.Loop.Lookup.{lookup, or_fresh}
use wicara.Ui.Loop.Peers.{peer_mut_is_map_update}
use wicara.Examples.Toy.{block}

abbrev start : Ui
start = new_ui (codes "me") (block 7) (codes "me")

abbrev area : Rect
area = record { x = 0; y = 0; width = 20; height = 10 }

abbrev frame : Drawn
frame = record {
  peers_area = area;
  chat_area = area;
  input_area = area;
  offset = 0;
  chat_rows = none ∷ [];
}

-- a peer comes, a click goes to it, and two keys follow
abbrev turns : List Turn
turns =
    record { drawn = frame; scroll = 0; input = event 5 (connected (block 8) (codes "bob")) }
    ∷ record { drawn = frame; scroll = 0; input = mouse left_down 1 1 }
    ∷ record {
      drawn = frame;
      scroll = 2;
      input = key (record { press = true; ctrl = false; code = tab });
    }
    ∷ record {
      drawn = frame;
      scroll = 0;
      input = key (record { press = true; ctrl = true; code = char 99 });
    }
    ∷ []

handling_never_panics_example :
    (v : Ui) × (event_loop (λ text. none) (λ c. 1) turns start ≡ some v) × IsSound v
handling_never_panics_example =
    handling_never_panics (λ text. none) (λ c. 1) turns start
      (new_ui-IsSound (codes "me") (block 7) (codes "me"))

abbrev with_unread : Peer → Peer
with_unread p = record p { unread = 3 }

peer_mut_is_map_update_example :
    (v : Ui) × (peer_mut (block 8) with_unread start ≡ some v)
    × (lookup (block 9) v ≡ (
        if block 8 == block 9
        then some (with_unread (or_fresh (block 8) (lookup (block 8) start)))
        else lookup (block 9) start))
peer_mut_is_map_update_example =
    peer_mut_is_map_update (block 8) (block 9) with_unread start (λ p. refl)
      (new_ui-IsSound (codes "me") (block 7) (codes "me"))

wrap_keeps_ink_example :
    ink_all (wrap (record { of_text = λ text. 3; of_char = λ c. 1 }) (codes "hello there") 4)
    ≡ ink (codes "hello there")
wrap_keeps_ink_example =
    wrap_keeps_ink (record { of_text = λ text. 3; of_char = λ c. 1 }) (codes "hello there") 4

cursor_on_screen_example :
    let first_shown = chat_start true 10 40 20 25 3 in
    (first_shown ≤ 20) × (25 ≤ first_shown + 10) × (first_shown ≤ 40 - 10)
cursor_on_screen_example =
    cursor_on_screen 10 40 20 25 3 (omega arith) (omega arith) (omega arith) (omega arith)

mention_spans_keep_text_example :
    (spans : List (Chars × Style)) × (mention_spans 9 (codes "me") (codes "hi @me!") ≡ some spans)
    × (text_of spans ≡ codes "hi @me!")
mention_spans_keep_text_example =
    mention_spans_keep_text 9 (codes "me") (codes "hi @me!") (omega arith)

abbrev own_id : MessageId
own_id = record { sender = block 7; seq = 1; ts_ms = 5 }

abbrev own : Entry
own = record {
  id = own_id;
  body = codes "hi";
  outbound = true;
  deleted = false;
  reply_to = none;
  reactions = [];
  attachment = none;
}

abbrev peer_of : ℕ → List Entry → Peer
peer_of n entries = record {
  key = block n;
  nick = none;
  alias = none;
  online = true;
  link = none;
  rtt = [];
  log = entries;
  unread = 0;
  cursor = 0;
  unread_from = none;
  notes = [];
  room = none;
}

-- the cursor on one's own message, the help shown, and an edit of that message begun
abbrev reading : Ui
reading = record start {
  peers = peer_of 8 (own ∷ []) ∷ peer_of 9 [] ∷ [];
  index = (block 8, 0) ∷ (block 9, 1) ∷ [];
  focus = on_chat;
  help = true;
  pending = some (edit_of own_id);
  input = codes "new";
}

abbrev deleting : Ui
deleting = emit (delete (block 8) own_id) reading

-- the peer after that one
abbrev chosen : Ui
chosen = record reading { sel = 1; scroll = 0 }

runs :
    (cursor_entry reading ≡ some (block 8, own))
    × (chat_action 100 reading ≡ some deleting)
    × (trim (codes "new") ≡ codes "new")
    × (select_peer plus_one reading ≡ some chosen)
unfolding cursor_entry chat_action act_on emit selected_peer trim selected_key select_peer peer_at
    moved mark_read ℕ_discrete new_ui trim_start trim_end is_whitespace
runs = (refl, refl, refl, refl)

delete_is_own_example :
    (e : Entry) × (cursor_entry reading ≡ some (block 8, e))
    × (e.id ≡ own_id)
    × (e.outbound ≡ true)
    × (e.deleted ≡ false)
unfolding new_ui emit
delete_is_own_example = delete_is_own 100 reading deleting (block 8) own_id runs.1 refl

overlay_key_deletes_example :
    on_key (λ text. none) (record { press = true; ctrl = false; code = char 100 }) reading
    ≡ some (
      emit
          (delete (block 8) own.id)
          (record reading { help = false; members = false; net = false }),
      true,
    )
overlay_key_deletes_example =
    overlay_key_deletes (λ text. none) reading (block 8) own refl refl runs.0 refl refl

pending_edit_follows_selection_example :
    (submit (λ text. none) chosen).0.sent ≡ edit (block 9) own_id (codes "new") ∷ []
unfolding ℕ_discrete new_ui selected_key
pending_edit_follows_selection_example =
    pending_edit_follows_selection (λ text. none) plus_one reading chosen own_id (block 9) 110
      (codes "ew") runs.3 refl runs.2 refl refl
