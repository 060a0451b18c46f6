-- ===== src/Ui/Editing.antt =====
-- crates/wicara/src/ui.rs: what the keys of `on_key` and a click of `on_mouse` do to the input and its
-- caret, a byte offset. `none` is a panic.
pub mod Caret
use wicara.Prelude.{
  ℕ, suc, ◌+◌, ◌-◌, ◌≡◌, refl, Bool, true, false, Option, none, some, List, [], ◌∷◌, ◌++◌, ltb, leb,
  if◌then◌else◌,
}
use wicara.Ui.{Chars}
use wicara.Ui.Text.{len_utf8, byte_len, split_at_byte, unsnoc}

-- `input` and `caret`
pub record Line : Type 0 where
  pub input : Chars
  pub caret : ℕ

unfoldable pub insert_char : ℕ → Line → Option Line
insert_char c l = elim (split_at_byte l.caret l.input) [
  | none ↦ none
  | some (front, back) ↦ some (record { input = front ++ c ∷ back; caret = l.caret + len_utf8 c })
]

unfoldable pub backspace : Line → Option Line
backspace l = elim (split_at_byte l.caret l.input) [
  | none ↦ none
  | some (front, back) ↦ elim (unsnoc front) [
    | none ↦ some l
    | some (kept, c) ↦ some (record { input = kept ++ back; caret = l.caret - len_utf8 c })
  ]
]

unfoldable pub delete_at : Line → Option Line
delete_at l =
    if ltb l.caret (byte_len l.input)
    then elim (split_at_byte l.caret l.input) [
      | none ↦ none
      | some (front, []) ↦ none
      | some (front, c ∷ back) ↦ some (record l { input = front ++ back })
    ]
    else some l

unfoldable pub go_left : Line → Option Line
go_left l = elim (split_at_byte l.caret l.input) [
  | none ↦ none
  | some (front, back) ↦ elim (unsnoc front) [
    | none ↦ some l
    | some (kept, c) ↦ some (record l { caret = byte_len kept })
  ]
]

unfoldable pub go_right : Line → Option Line
go_right l = elim (split_at_byte l.caret l.input) [
  | none ↦ none
  | some (front, []) ↦ some l
  | some (front, c ∷ back) ↦ some (record l { caret = l.caret + len_utf8 c })
]

-- `byte_at_column`; the width of a character is `unicode_width`'s
unfoldable pub column_from : (ℕ → ℕ) → ℕ → ℕ → ℕ → Chars → ℕ
column_from char_width column width at [] = at
column_from char_width column width at (c ∷ cs) =
    let rest = column_from char_width column (width + char_width c) (at + len_utf8 c) cs in
    if leb column width then at else rest

unfoldable pub byte_at_column : (ℕ → ℕ) → Chars → ℕ → ℕ
byte_at_column char_width text column = column_from char_width column 0 0 text
