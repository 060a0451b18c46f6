-- ===== src/Ui/Loop.antt =====
-- crates/wicara/src/ui.rs: `event_loop`. What drawing a frame leaves behind comes with each turn: what
-- `on_mouse` reads, and the scroll offset.
pub mod Sound
pub mod Slash
pub mod Inputs
pub mod Lookup
pub mod Peers
pub mod Runs
use wicara.Prelude.{ℕ, Bool, true, false, Option, none, some, List, [], ◌∷◌, Bytes, if◌then◌else◌}
use wicara.Ui.{Chars, UiEvent, Ui}
use wicara.Ui.Events.{apply}
use wicara.Ui.Keys.{KeyEvent, going_on, on_key}
use wicara.Ui.Mouse.{Drawn, MouseKind, on_mouse}

pub data Input : Type 0 where
  key : KeyEvent → Input
  mouse : MouseKind → ℕ → ℕ → Input
  event : ℕ → UiEvent → Input
  ignored : Input

pub record Turn : Type 0 where
  pub drawn : Drawn
  pub scroll : ℕ
  pub input : Input

module _ (from_hex : Chars → Option Bytes) (char_width : ℕ → ℕ) where
  -- `none` is a panic; with the state comes whether the loop goes on
  unfoldable pub take_input : Drawn → Input → Ui → Option (Ui × Bool)
  take_input drawn (key k) u = on_key from_hex k u
  take_input drawn (mouse kind x y) u = going_on (on_mouse char_width drawn kind x y u)
  take_input drawn (event now ev) u = elim (apply now ev u) [
    | none ↦ none
    | some v ↦ some (v, true)
  ]
  take_input drawn ignored u = some (u, true)

  -- the state in which the loop ends, or is when nothing more has come
  unfoldable pub event_loop : List Turn → Ui → Option Ui
  event_loop [] u = some u
  event_loop (t ∷ ts) u = elim (take_input t.drawn t.input (record u { scroll = t.scroll })) [
    | none ↦ none
    | some (v, on) ↦ let rest = event_loop ts v in if on then rest else some v
  ]
