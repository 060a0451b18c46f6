-- ===== src/Ui/Editing/Caret.antt =====
-- crates/wicara/src/ui.rs: the caret, a byte offset into the input, under the operations of Ui.Editing.
use wicara.Prelude.{
  ℕ, ◌+◌, ◌-◌, ◌<◌, ◌≡◌, refl, sym, ◌∙◌, ap, some, [], ◌∷◌, ◌++◌, append_assoc, append-nil, leb,
  Bool-cases, Option-cases, inl, inr, arith,
}
use wicara.Ui.{Chars}
use wicara.Ui.Text.{
  len_utf8, len_utf8_pos, byte_len, byte_len-append, split_at_byte, split_at_byte-append, unsnoc,
  unsnoc_lem, unsnoc-append,
}
use wicara.Ui.Editing.{
  Line, insert_char, backspace, delete_at, go_left, go_right, column_from, byte_at_column,
}

-- the caret stands between two characters of the input, or at an end of it
unfoldable pub IsBoundary : Chars → ℕ → Type 0
IsBoundary input caret =
    (front : Chars) × (back : Chars) × (input ≡ front ++ back) × (byte_len front ≡ caret)

abbrev pub IsPlaced : Line → Type 0
IsPlaced l = IsBoundary l.input l.caret

pub byte_len-snoc : (cs : Chars) (c : ℕ) → byte_len (cs ++ c ∷ []) ≡ byte_len cs + len_utf8 c
unfolding byte_len
byte_len-snoc cs c = omega (arith, byte_len-append cs (c ∷ []))

pub split-boundary :
    (l : Line) (front back : Chars)
    → l.input ≡ front ++ back
    → byte_len front ≡ l.caret
    → split_at_byte l.caret l.input ≡ some (front, back)
split-boundary l front back text at =
    ap (split_at_byte l.caret) text ∙ split_at_byte-append l.caret front back at

pub insert_char-total :
    (c : ℕ) (l : Line) → IsPlaced l → (l' : Line) × (insert_char c l ≡ some l') × IsPlaced l'
unfolding insert_char IsBoundary backspace
insert_char-total c l (front, back, text, at) = (
  record { input = front ++ c ∷ back; caret = l.caret + len_utf8 c },
  rw (split-boundary l front back text at, insert_char) refl,
  (
    front ++ c ∷ [],
    back,
    sym (append_assoc front (c ∷ []) back),
    byte_len-snoc front c ∙ ap (λ n. n + len_utf8 c) at,
  ),
)

pub backspace-total : (l : Line) → IsPlaced l → (l' : Line) × (backspace l ≡ some l') × IsPlaced l'
unfolding backspace IsBoundary
backspace-total l (front, back, text, at) =
    let split = split-boundary l front back text at in
    elim (Option-cases (unsnoc front)) [
      | inl e ↦ (l, rw (split, e, backspace) refl, (front, back, text, at))
      | inr ((kept, c), e) ↦
          let whole = unsnoc_lem front kept c e in
          let size = byte_len-snoc kept c in
          let less : byte_len kept ≡ l.caret - len_utf8 c =
            omega (arith, size, ap byte_len whole) in
          (
            record { input = kept ++ back; caret = l.caret - len_utf8 c },
            rw (split, e, backspace) refl,
            (kept, back, refl, less),
          )
    ]

pub delete_at-total : (l : Line) → IsPlaced l → (l' : Line) × (delete_at l ≡ some l') × IsPlaced l'
unfolding delete_at IsBoundary byte_len
delete_at-total l (front, [], text, at) =
    let done : byte_len l.input ≡ l.caret = ap byte_len (text ∙ append-nil front) ∙ at in
    (l, ground (arith, split-boundary l front [] text at, done), (front, [], text, at))
delete_at-total l (front, c ∷ back, text, at) =
    let split = split-boundary l front (c ∷ back) text at in
    let size = byte_len-append front (c ∷ back) in
    let pos = len_utf8_pos c in
    let more : l.caret < byte_len l.input = omega (arith, size, ap byte_len text) in
    (record l { input = front ++ back }, ground (arith, split, more), (front, back, refl, at))

pub go_left-total : (l : Line) → IsPlaced l → (l' : Line) × (go_left l ≡ some l') × IsPlaced l'
unfolding go_left IsBoundary
go_left-total l (front, back, text, at) =
    let split = split-boundary l front back text at in
    elim (Option-cases (unsnoc front)) [
      | inl e ↦ (l, rw (split, e, go_left) refl, (front, back, text, at))
      | inr ((kept, c), e) ↦
          let whole = unsnoc_lem front kept c e in
          (
            record l { caret = byte_len kept },
            rw (split, e, go_left) refl,
            (
              kept,
              c ∷ back,
              text ∙ ap (λ x. x ++ back) whole ∙ append_assoc kept (c ∷ []) back,
              refl,
            ),
          )
    ]

pub go_right-total : (l : Line) → IsPlaced l → (l' : Line) × (go_right l ≡ some l') × IsPlaced l'
unfolding go_right IsBoundary
go_right-total l (front, [], text, at) =
    (l, rw (split-boundary l front [] text at, go_right) refl, (front, [], text, at))
go_right-total l (front, c ∷ back, text, at) = (
  record l { caret = l.caret + len_utf8 c },
  rw (split-boundary l front (c ∷ back) text at, go_right) refl,
  (
    front ++ c ∷ [],
    back,
    text ∙ sym (append_assoc front (c ∷ []) back),
    byte_len-snoc front c ∙ ap (λ n. n + len_utf8 c) at,
  ),
)

column_from_lem :
    (w : ℕ → ℕ) (column width at : ℕ) (cs : Chars)
    → (front : Chars) × (back : Chars) × (cs ≡ front ++ back)
      × (column_from w column width at cs ≡ at + byte_len front)
unfolding column_from byte_len
column_from_lem w column width at [] = ([], [], refl, omega arith)
column_from_lem w column width at (c ∷ cs) =
    let (front, back, text, sum) = column_from_lem w column (width + w c) (at + len_utf8 c) cs in
    elim (Bool-cases (leb column width)) [
      | inl e ↦ ([], c ∷ cs, refl, rw (e) (omega arith))
      | inr e ↦ (c ∷ front, back, ap (◌∷◌ c) text, rw (e) (omega (arith, sum)))
    ]

-- a click puts the caret between two characters
pub byte_at_column-IsBoundary :
    (w : ℕ → ℕ) (text : Chars) (column : ℕ) → IsBoundary text (byte_at_column w text column)
unfolding byte_at_column IsBoundary
byte_at_column-IsBoundary w text column =
    let (front, back, parts, sum) = column_from_lem w column 0 0 text in
    (front, back, parts, omega (arith, sum))

-- typing a character and then erasing it leaves the line as it was
pub insert_char-backspace :
    (c : ℕ) (l : Line)
    → IsPlaced l
    → (l' : Line) × (insert_char c l ≡ some l') × (backspace l' ≡ some l)
unfolding insert_char IsBoundary backspace
insert_char-backspace c l (front, back, text, at) =
    let l' : Line = record { input = front ++ c ∷ back; caret = l.caret + len_utf8 c } in
    let sum = byte_len-snoc front c ∙ ap (λ n. n + len_utf8 c) at in
    let split =
      split-boundary l' (front ++ c ∷ []) back (sym (append_assoc front (c ∷ []) back)) sum in
    let back_at : l'.caret - len_utf8 c ≡ l.caret = omega arith in
    (
      l',
      rw (split-boundary l front back text at, insert_char) refl,
      rw (split, unsnoc-append front c, backspace) (ground (arith, back_at, text)),
    )
