-- ===== src/Ui/Drawing/Kept.antt =====
-- crates/wicara/src/ui.rs: what drawing keeps on screen and of a text.
use wicara.Prelude.{
  ℕ, suc, ◌+◌, ◌-◌, ◌≤◌, ◌<◌, ◌≡◌, refl, ◌∙◌, ap, Bool, true, Option, some, List, [], ◌∷◌, ◌++◌,
  length, arith,
}
use wicara.Ui.{Chars}
use wicara.Ui.Drawing.{
  follow_cursor, chat_scroll, chat_start, Style, span_until, is_at, ends_mention, push_raw,
  mention_style, mark, mention_spans,
}

-- With the focus on the chat, the message under the cursor is on screen: if the pane has a line and
-- the message is no taller than the pane, all of its lines are among those that are shown, and the
-- window does not reach past the last line.
pub cursor_on_screen :
    (height count first last scroll : ℕ)
    → 1 ≤ height
    → first ≤ last
    → last ≤ count
    → last ≤ first + height
    → let start = chat_start true height count first last scroll in
      (start ≤ first) × (last ≤ start + height) × (start ≤ count - height)
unfolding chat_start chat_scroll follow_cursor
cursor_on_screen height count first last scroll tall order inside small =
    (ground arith, ground arith, ground arith)

unfoldable pub text_of : List (Chars × Style) → Chars
text_of [] = []
text_of (s ∷ ss) = s.0 ++ text_of ss

span_until-joins : (p : ℕ → Bool) (cs : Chars) → (span_until p cs).0 ++ (span_until p cs).1 ≡ cs
unfolding span_until
span_until-joins p [] = refl
span_until-joins p (c ∷ cs) = ground (arith, span_until-joins p cs)

span_until-shorter : (p : ℕ → Bool) (cs : Chars) → length (span_until p cs).1 ≤ length cs
unfolding span_until
span_until-shorter p [] = omega arith
span_until-shorter p (c ∷ cs) = ground (arith, span_until-shorter p cs)

text_of-push_raw :
    (front : Chars) (spans : List (Chars × Style))
    → text_of (push_raw front spans) ≡ front ++ text_of spans
unfolding text_of push_raw
text_of-push_raw [] spans = refl
text_of-push_raw (c ∷ cs) spans = refl

mark-keeps :
    (fuel : ℕ) (next : Chars → Option (List (Chars × Style))) (me : Chars)
    → ((rest : Chars)
        → length rest < fuel
        → (spans : List (Chars × Style)) × (next rest ≡ some spans) × (text_of spans ≡ rest))
    → (front tail : Chars) → length tail ≤ fuel
    → (spans : List (Chars × Style)) × (mark next me (front, tail) ≡ some spans)
      × (text_of spans ≡ front ++ tail)
unfolding mark text_of
mark-keeps fuel next me rec front [] fits = (push_raw front [], refl, text_of-push_raw front [])
mark-keeps fuel next me rec front (c ∷ after) fits =
    let name = (span_until ends_mention after).0 in
    let rest = (span_until ends_mention after).1 in
    let (spans, got, joins) = rec rest (omega (arith, span_until-shorter ends_mention after)) in
    let whole = ((c ∷ name, mention_style me name) ∷ spans) in
    (
      push_raw front whole,
      rw (got, mark) refl,
      text_of-push_raw front whole
          ∙ ap (λ x. front ++ c ∷ (name ++ x)) joins
          ∙ ap (λ x. front ++ c ∷ x) (span_until-joins ends_mention after),
    )

-- Marking the mentions of a line ends, and loses nothing: with as many rounds as the text has characters, and one
-- more, there is a list of spans, and their texts in a row are the text.
pub mention_spans_keep_text :
    (fuel : ℕ) (me text : Chars)
    → length text < fuel
    → (spans : List (Chars × Style)) × (mention_spans fuel me text ≡ some spans)
      × (text_of spans ≡ text)
unfolding mention_spans
mention_spans_keep_text ℕ.zero me text small = absurd (omega arith)
mention_spans_keep_text (suc fuel) me text small =
    let parts = span_until is_at text in
    let (spans, got, joins) =
      mark-keeps fuel (mention_spans fuel me) me
        (λ rest fits. mention_spans_keep_text fuel me rest fits) parts.0 parts.1
        (omega (arith, span_until-shorter is_at text)) in
    (spans, got, joins ∙ span_until-joins is_at text)
