-- ===== src/Ui/Drawing.antt =====
-- crates/wicara/src/ui.rs: what is computed to draw: the window of `draw_chat`, `mention_spans`, and the grid
-- `Canvas`. A colour is a number.
pub mod Kept
use wicara.Prelude.{
  ℕ, suc, ◌+◌, ◌-◌, ◌*◌, ◌/◌, max, min, Bool, true, false, not, ◌&&◌, ◌||◌, Option, none, some,
  List, [], ◌∷◌, ◌++◌, map, nat_eq, bytes_eq, ◌==◌, ltb, leb, codes, if◌then◌else◌, length,
  update_at, replicate,
}
use wicara.Ui.{Chars}
use wicara.Ui.Text.{is_whitespace}

-- the offset from the bottom, for `count` lines in a pane of `height` lines; `first` and `last` bound the lines of the
-- message under the cursor, where the chat has the focus
unfoldable pub follow_cursor : Bool → ℕ → ℕ → ℕ → ℕ → ℕ → ℕ
follow_cursor focused height max_scroll first last scroll =
    let above = max_scroll - scroll in
    if focused && ltb 0 height
    then (if ltb first above
        then max_scroll - first
        else if ltb (above + height) last
        then max_scroll - (last - height)
        else scroll)
    else scroll

unfoldable pub chat_scroll : Bool → ℕ → ℕ → ℕ → ℕ → ℕ → ℕ
chat_scroll focused height count first last scroll =
    let max_scroll = count - height in
    min (follow_cursor focused height max_scroll first last scroll) max_scroll

-- the first line that is shown
unfoldable pub chat_start : Bool → ℕ → ℕ → ℕ → ℕ → ℕ → ℕ
chat_start focused height count first last scroll =
    (count - height) - chat_scroll focused height count first last scroll

pub data Style : Type 0 where
  raw mention own_mention : Style

-- the text up to the first character that passes a test, and the rest
unfoldable pub span_until : (ℕ → Bool) → Chars → Chars × Chars
span_until p [] = ([], [])
span_until p (c ∷ cs) =
    let (front, rest) = span_until p cs in if p c then ([], c ∷ cs) else (c ∷ front, rest)

unfoldable pub is_at : ℕ → Bool
is_at c = c == 64

unfoldable pub ends_mention : ℕ → Bool
ends_mention c = is_whitespace c || (c == 44 || c == 46)

unfoldable pub lower : ℕ → ℕ
lower c = if leb 65 c && leb c 90 then c + 32 else c

unfoldable pub push_raw : Chars → List (Chars × Style) → List (Chars × Style)
push_raw [] spans = spans
push_raw (c ∷ cs) spans = (c ∷ cs, raw) ∷ spans

unfoldable pub mention_style : Chars → Chars → Style
mention_style me name = if map lower name == map lower me then own_mention else mention

-- one round: the text before an `@`, the mention, and the spans of the rest
unfoldable pub mark :
    (Chars → Option (List (Chars × Style))) → Chars → Chars × Chars → Option (List (Chars × Style))
mark next me (front, []) = some (push_raw front [])
mark next me (front, c ∷ after) =
    let (name, rest) = span_until ends_mention after in
    elim (next rest) [
      | none ↦ none
      | some spans ↦ some (push_raw front ((c ∷ name, mention_style me name) ∷ spans))
    ]

-- `mention_spans`; every round takes one character at least, so the length of the text and one more are
-- rounds enough
unfoldable pub mention_spans : ℕ → Chars → Chars → Option (List (Chars × Style))
mention_spans ℕ.zero me text = none
mention_spans (suc fuel) me text = mark (mention_spans fuel me) me (span_until is_at text)

pub record Canvas : Type 0 where
  pub w : ℕ
  pub h : ℕ
  pub cells : List (ℕ × ℕ)

unfoldable pub new_canvas : ℕ → ℕ → Canvas
new_canvas w h = record { w = w; h = h; cells = replicate (w * h) (32, 0) }

unfoldable pub put : ℕ → ℕ → ℕ → ℕ → Canvas → Canvas
put x y ch colour k =
    if ltb x k.w && ltb y k.h
    then record k { cells = update_at (y * k.w + x) (λ cell. (ch, colour)) k.cells }
    else k

-- `Canvas::text`
unfoldable pub put_text : ℕ → ℕ → Chars → ℕ → Canvas → Canvas
put_text x y [] colour k = k
put_text x y (c ∷ cs) colour k = put_text (x + 1) y cs colour (put x y c colour k)

unfoldable pub centred : ℕ → ℕ → Chars → ℕ → Canvas → Canvas
centred x y s colour k = put_text (x - length s / 2) y s colour k

-- `vline`, `hline`: so many cells from the first on
unfoldable pub put_down : ℕ → ℕ → ℕ → ℕ → ℕ → Canvas → Canvas
put_down ℕ.zero x y ch colour k = k
put_down (suc n) x y ch colour k = put_down n x (y + 1) ch colour (put x y ch colour k)

unfoldable pub vline : ℕ → ℕ → ℕ → ℕ → ℕ → Canvas → Canvas
vline x y0 y1 ch colour k = put_down (y1 + 1 - y0) x y0 ch colour k

unfoldable pub put_across : ℕ → ℕ → ℕ → ℕ → ℕ → Canvas → Canvas
put_across ℕ.zero y x ch colour k = k
put_across (suc n) y x ch colour k = put_across n y (x + 1) ch colour (put x y ch colour k)

unfoldable pub hline : ℕ → ℕ → ℕ → ℕ → ℕ → Canvas → Canvas
hline y x0 x1 ch colour k = put_across (x1 + 1 - x0) y x0 ch colour k
