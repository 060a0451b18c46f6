-- ===== src/Ui/Loop/Runs.antt =====
-- crates/wicara/src/ui.rs: what clicks do to a state that is sound, and `event_loop` from the first state on.
use wicara.Prelude.{
  ℕ, ◌+◌, ◌-◌, ◌≡◌, refl, ◌∙◌, ap, Bool, true, false, Option, none, some, List, [], ◌∷◌, Bytes,
  nat_eq, ltb, if◌then◌else◌, length, get_elem?, Bool-cases, inl, inr, arith,
}
use wicara.Ui.{on_peers, Chars, on_input, Ui, new_ui}
use wicara.Ui.Editing.{byte_at_column}
use wicara.Ui.Editing.Caret.{byte_at_column-IsBoundary}
use wicara.Ui.Keys.{minus_one, plus_one}
use wicara.Ui.Mouse.{
  Drawn, MouseKind, inner, inside, click_peer, put_cursor, click_chat, click, on_mouse,
}
use wicara.Ui.Loop.Sound.{IsIndexed, IsOnMessage, IsSound, Change, update-IsSound, apply-IsSound}
use wicara.Ui.Loop.Slash.{line-IsSound, start-IsBoundary, core, core-IsSound}
use wicara.Ui.Loop.{Input, Turn, take_input, event_loop}
use wicara.Ui.Events.{find_index}
use wicara.Ui.Events.Index.{position, Differ}
use wicara.Ui.Mouse.{other, scroll_up, scroll_down, left_down}
use wicara.Ui.Loop.{key, mouse, event, ignored}
use wicara.Ui.Loop.Inputs.{
  peer_at-IsSound, going_on-IsFine, select_peer-IsSound, IsFine, on_key-IsFine,
}

put_cursor-Change : (owner : ℕ) → Change (put_cursor owner)
unfolding put_cursor IsOnMessage
put_cursor-Change owner = record { keeps = λ p. refl; stays = λ p h. omega arith }

-- a click or the wheel does not panic, and what is sound stays so
abbrev IsKept : Option Ui → Type 0
IsKept o = (v : Ui) × (o ≡ some v) × IsSound v

if-IsKept : (b : Bool) (o p : Option Ui) → IsKept o → IsKept p → IsKept (if b then o else p)
if-IsKept true o p ho hp = ho
if-IsKept false o p ho hp = hp

click_peer-IsKept : (row : ℕ) (u : Ui) → IsSound u → IsKept (click_peer row u)
unfolding click_peer core
click_peer-IsKept row u s = elim (Bool-cases (ltb row (length u.peers))) [
  | inr e ↦ (record u { focus = on_peers }, rw (e, click_peer) refl, core-IsSound u _ refl s)
  | inl e ↦
      let (w, got, sound) =
        peer_at-IsSound row u (record u { focus = on_peers; sel = row; scroll = 0 }) refl
          (ground (arith, e)) s in
      (w, rw (e, click_peer) got, sound)
]

click_chat-IsSound :
    (clicked : Option (Option ℕ)) (u : Ui) → IsSound u → IsSound (click_chat clicked u)
unfolding click_chat core
click_chat-IsSound none u s = core-IsSound u _ refl s
click_chat-IsSound (some none) u s = core-IsSound u _ refl s
click_chat-IsSound (some (some owner)) u s =
    core-IsSound _ _ refl (update-IsSound (put_cursor owner) u.sel u (put_cursor-Change owner) s)

click-IsKept :
    (char_width : ℕ → ℕ) (drawn : Drawn) (x y : ℕ) (u : Ui)
    → IsSound u
    → IsKept (click char_width drawn x y u)
unfolding click core
click-IsKept char_width drawn x y u s =
    let peers = inner drawn.peers_area in
    let chat = inner drawn.chat_area in
    let input = inner drawn.input_area in
    let caret = byte_at_column char_width u.input (x - input.x) in
    let placed = byte_at_column-IsBoundary char_width u.input (x - input.x) in
    let typed : IsSound (record u { focus = on_input; caret = caret }) =
      core-IsSound _ _ refl (line-IsSound u u.input caret placed s) in
    let low = if-IsKept (inside input x y) _ (some u) (_, refl, typed) (u, refl, s) in
    let row = get_elem? drawn.chat_rows (y - chat.y) in
    let mid = if-IsKept (inside chat x y) _ _ (_, refl, click_chat-IsSound row u s) low in
    if-IsKept (inside peers x y) _ _ (click_peer-IsKept ((y - peers.y) + drawn.offset) u s) mid

on_mouse-IsKept :
    (char_width : ℕ → ℕ) (drawn : Drawn) (kind : MouseKind) (x y : ℕ) (u : Ui)
    → IsSound u
    → IsKept (on_mouse char_width drawn kind x y u)
unfolding on_mouse core
on_mouse-IsKept char_width drawn scroll_up x y u s =
    let scrolled = core-IsSound u (record u { scroll = u.scroll + 3 }) refl s in
    if-IsKept (inside (inner drawn.chat_area) x y) _ _ (_, refl, scrolled)
      (select_peer-IsSound minus_one u s)
on_mouse-IsKept char_width drawn scroll_down x y u s =
    let scrolled = core-IsSound u (record u { scroll = u.scroll - 3 }) refl s in
    if-IsKept (inside (inner drawn.chat_area) x y) _ _ (_, refl, scrolled)
      (select_peer-IsSound plus_one u s)
on_mouse-IsKept char_width drawn left_down x y u s = click-IsKept char_width drawn x y u s
on_mouse-IsKept char_width drawn other x y u s = (u, refl, s)

module _ (from_hex : Chars → Option Bytes) (char_width : ℕ → ℕ) where
  take_input-IsFine :
      (drawn : Drawn) (input : Input) (u : Ui)
      → IsSound u
      → IsFine (take_input from_hex char_width drawn input u)
  unfolding take_input
  take_input-IsFine drawn (key k) u s = on_key-IsFine from_hex k u s
  take_input-IsFine drawn (mouse kind x y) u s =
      going_on-IsFine _ (on_mouse-IsKept char_width drawn kind x y u s)
  take_input-IsFine drawn (event now ev) u s =
      let (v, got, sound) = apply-IsSound now ev u s in (v, true, rw (got, take_input) refl, sound)
  take_input-IsFine drawn ignored u s = (u, true, refl, s)

  -- Handling keys, clicks and events never panics, drawing and the arithmetic of areas aside: from a state that is sound, whatever
  -- comes, and whatever scroll offset and areas the drawing in between leaves, the handlers of the loop
  -- run through it, index no list and cut no text out of range, and end in a state that is sound again.
  pub handling_never_panics :
      (ts : List Turn) (u : Ui)
      → IsSound u
      → (v : Ui) × (event_loop from_hex char_width ts u ≡ some v) × IsSound v
  unfolding event_loop core
  handling_never_panics [] u s = (u, refl, s)
  handling_never_panics (t ∷ ts) u s =
      let (v, on, got, sound) =
        take_input-IsFine t.drawn t.input (record u { scroll = t.scroll })
          (core-IsSound u _ refl s) in
      let next : Option (Ui × Bool) → Option Ui = λ o. elim o as (λ _. Option Ui) [
        | none ↦ none
        | some x ↦ if x.1 then event_loop from_hex char_width ts x.0 else some x.0
      ] in
      elim (Bool-cases on) [
        | inr e ↦ (v, ap next (got ∙ ap (λ b. some (v, b)) e), sound)
        | inl e ↦
            let (w, ran, last) = handling_never_panics ts v sound in
            (w, ap next (got ∙ ap (λ b. some (v, b)) e) ∙ ran, last)
      ]

-- the state that the program begins with is sound
pub new_ui-IsSound :
    (me : Chars) (me_key : Bytes) (nickname : Chars) → IsSound (new_ui me me_key nickname)
unfolding new_ui IsSound IsIndexed Differ find_index position
new_ui-IsSound me me_key nickname = ((tt, λ k. refl), omega arith, tt, start-IsBoundary [])
