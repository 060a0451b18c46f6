-- ===== src/Ui/Mouse.antt =====
-- crates/wicara/src/ui.rs: `on_mouse`. What the last frame left for it is `Drawn`; the width of a
-- character is `unicode_width`'s, an argument.
use wicara.Prelude.{
  ℕ, ◌+◌, ◌-◌, min, Bool, ◌&&◌, Option, some, List, length, get_elem?, update_at, ltb, leb,
  if◌then◌else◌,
}
use wicara.Ui.{on_peers, on_chat, on_input, Peer, Ui}
use wicara.Ui.Events.{peer_at}
use wicara.Ui.Editing.{byte_at_column}
use wicara.Ui.Keys.{minus_one, plus_one, mark_read, select_peer}

-- ratatui's rectangle, of `u16`
pub record Rect : Type 0 where
  pub x : ℕ
  pub y : ℕ
  pub width : ℕ
  pub height : ℕ

-- `peers_area`, `chat_area`, `input_area`, `peer_state.offset()` and `chat_rows`; `none` is the row of
-- no message, `usize::MAX`
pub record Drawn : Type 0 where
  pub peers_area : Rect
  pub chat_area : Rect
  pub input_area : Rect
  pub offset : ℕ
  pub chat_rows : List (Option ℕ)

pub data MouseKind : Type 0 where
  scroll_up scroll_down left_down other : MouseKind

-- `saturating_add` of one
unfoldable pub succ16 : ℕ → ℕ
succ16 n = min (n + 1) 65535

unfoldable pub inner : Rect → Rect
inner a = record { x = succ16 a.x; y = succ16 a.y; width = a.width - 2; height = a.height - 2 }

unfoldable pub inside : Rect → ℕ → ℕ → Bool
inside a x y = leb a.x x && (ltb x (a.x + a.width) && (leb a.y y && ltb y (a.y + a.height)))

unfoldable pub click_peer : ℕ → Ui → Option Ui
click_peer row u =
    if ltb row (length u.peers)
    then peer_at mark_read (record u { focus = on_peers; sel = row; scroll = 0 }, row)
    else some (record u { focus = on_peers })

unfoldable pub put_cursor : ℕ → Peer → Peer
put_cursor owner p = record p { cursor = min owner (length p.log - 1) }

unfoldable pub click_chat : Option (Option ℕ) → Ui → Ui
click_chat (some (some owner)) u = record u {
  focus = on_chat;
  peers = update_at u.sel (put_cursor owner) u.peers;
}
click_chat _ u = record u { focus = on_chat }

unfoldable pub click : (ℕ → ℕ) → Drawn → ℕ → ℕ → Ui → Option Ui
click char_width drawn x y u =
    let peers = inner drawn.peers_area in
    let chat = inner drawn.chat_area in
    let input = inner drawn.input_area in
    if inside peers x y
    then click_peer ((y - peers.y) + drawn.offset) u
    else if inside chat x y
    then some (click_chat (get_elem? drawn.chat_rows (y - chat.y)) u)
    else if inside input x y
    then some
        (record u { focus = on_input; caret = byte_at_column char_width u.input (x - input.x) })
    else some u

-- `on_mouse`; `none` is a panic
unfoldable pub on_mouse : (ℕ → ℕ) → Drawn → MouseKind → ℕ → ℕ → Ui → Option Ui
on_mouse char_width drawn scroll_up x y u =
    if inside (inner drawn.chat_area) x y
    then some (record u { scroll = u.scroll + 3 })
    else select_peer minus_one u
on_mouse char_width drawn scroll_down x y u =
    if inside (inner drawn.chat_area) x y
    then some (record u { scroll = u.scroll - 3 })
    else select_peer plus_one u
on_mouse char_width drawn left_down x y u = click char_width drawn x y u
on_mouse char_width drawn other x y u = some u
