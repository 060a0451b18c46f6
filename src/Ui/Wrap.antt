-- ===== src/Ui/Wrap.antt =====
-- crates/wicara/src/ui.rs: `wrap` and `first_line`. The display width of a text and of a character
-- are `unicode_width`'s, an argument.
pub mod Ink
use wicara.Prelude.{
  ℕ, ◌+◌, max, ◌≡◌, refl, Bool, true, false, not, ◌&&◌, List, [], ◌∷◌, ◌++◌, nat_eq, ◌==◌, ltb,
  if◌then◌else◌,
}
use wicara.Ui.{Chars}
use wicara.Ui.Text.{is_whitespace}

pub record Widths : Type 0 where
  pub of_text : Chars → ℕ
  pub of_char : ℕ → ℕ

-- a character in front of the first piece
unfoldable pub join_first : ℕ → List Chars → List Chars
join_first c [] = (c ∷ []) ∷ []
join_first c (l ∷ ls) = (c ∷ l) ∷ ls

-- `split('\n')`
unfoldable pub lines_of : Chars → List Chars
lines_of [] = [] ∷ []
lines_of (c ∷ cs) = let rest = lines_of cs in if c == 10 then [] ∷ rest else join_first c rest

-- `split_whitespace`: the words from here on, and whether the text begins inside one
unfoldable pub words_from : Chars → List Chars × Bool
words_from [] = ([], false)
words_from (c ∷ cs) =
    let (words, inside) = words_from cs in
    if is_whitespace c
    then (words, false)
    else if inside
    then (join_first c words, true)
    else ((c ∷ []) ∷ words, true)

unfoldable pub words_of : Chars → List Chars
words_of cs = (words_from cs).0

unfoldable pub is_empty : Chars → Bool
is_empty [] = true
is_empty (c ∷ cs) = false

unfoldable pub add_word : Chars → Chars → Chars
add_word [] word = word
add_word (d ∷ ds) word = (d ∷ ds) ++ 32 ∷ word

module _ (w : Widths) (width : ℕ) where
  -- a word that never fits, split where the line is full: the finished lines, and the open one
  unfoldable pub split_word : List Chars → Chars → Chars → List Chars × Chars
  split_word out line [] = (out, line)
  split_word out line (c ∷ cs) =
      let full = not (is_empty line) && ltb width (w.of_text line + w.of_char c) in
      if full then split_word (out ++ line ∷ []) (c ∷ []) cs else split_word out (line ++ c ∷ []) cs

  unfoldable pub break_line : Bool → List Chars → Chars → List Chars × Chars
  break_line true out line = (out ++ line ∷ [], [])
  break_line false out line = (out, line)

  unfoldable pub fit_word : List Chars × Chars → Chars → List Chars × Chars
  fit_word (out, line) word =
      if ltb width (w.of_text word) then split_word out line word else (out, add_word line word)

  unfoldable pub put_word : List Chars → Chars → Chars → List Chars × Chars
  put_word out line word =
      let full = not (is_empty line) && ltb width (w.of_text line + 1 + w.of_text word) in
      fit_word (break_line full out line) word

  unfoldable pub put_words : List Chars → Chars → List Chars → List Chars
  put_words out line [] = out ++ line ∷ []
  put_words out line (word ∷ words) =
      let (out', line') = put_word out line word in put_words out' line' words

  unfoldable pub wrap_lines : List Chars → List Chars → List Chars
  wrap_lines out [] = out
  wrap_lines out (para ∷ paras) = wrap_lines (put_words out [] (words_of para)) paras

-- `wrap`
unfoldable pub wrap : Widths → Chars → ℕ → List Chars
wrap w text width = wrap_lines w (max width 1) [] (lines_of text)

unfoldable pub first_of : List Chars → Chars
first_of [] = []
first_of (l ∷ ls) = l

-- `first_line`
unfoldable pub first_line : Widths → Chars → ℕ → Chars
first_line w text width =
    let one = first_of (lines_of text) in
    elim (wrap w one width) [
      | [] ↦ []
      | l ∷ ls ↦ if ltb (w.of_text l) (w.of_text one) then l ++ 8230 ∷ [] else l
    ]
