-- ===== src/Ui/Wrap/Ink.antt =====
-- crates/wicara/src/ui.rs: the characters of a text that are to be seen, through `wrap`.
use wicara.Prelude.{
  ℕ, ◌+◌, max, ◌≡◌, refl, sym, ◌∙◌, ap, subst, Bool, true, false, not, ◌&&◌, List, [], ◌∷◌, ◌++◌,
  append_assoc, append-nil, ℕ_discrete, nat_eq, ltb, filter, filter-append, Bool-cases, inl, inr,
  arith,
}
use wicara.Ui.{Chars}
use wicara.Ui.Text.{is_whitespace}
use wicara.Ui.Wrap.{
  Widths, lines_of, words_from, words_of, is_empty, split_word, add_word, break_line, fit_word,
  put_word, put_words, join_first, wrap_lines, wrap,
}

-- all but the white space, in order
unfoldable pub ink : Chars → Chars
ink = filter (λ c. not (is_whitespace c))

unfoldable pub ink_all : List Chars → Chars
ink_all [] = []
ink_all (l ∷ ls) = ink l ++ ink_all ls

ink-append : (xs ys : Chars) → ink (xs ++ ys) ≡ ink xs ++ ink ys
unfolding ink
ink-append xs ys = filter-append (λ c. not (is_whitespace c)) xs ys

ink_all-append : (xs ys : List Chars) → ink_all (xs ++ ys) ≡ ink_all xs ++ ink_all ys
unfolding ink_all
ink_all-append [] ys = refl
ink_all-append (x ∷ xs) ys =
    ap (λ t. ink x ++ t) (ink_all-append xs ys)
    ∙ sym (append_assoc (ink x) (ink_all xs) (ink_all ys))

ink_all-last : (xs : List Chars) (l : Chars) → ink_all (xs ++ l ∷ []) ≡ ink_all xs ++ ink l
unfolding ink_all
ink_all-last xs l = ink_all-append xs (l ∷ []) ∙ ap (λ t. ink_all xs ++ t) (append-nil (ink l))

ink_all-join_first :
    (c : ℕ) (ls : List Chars) → ink_all (join_first c ls) ≡ ink (c ∷ []) ++ ink_all ls
unfolding ink_all join_first
ink_all-join_first c [] = refl
ink_all-join_first c (l ∷ ls) =
    ap (λ t. t ++ ink_all ls) (ink-append (c ∷ []) l)
    ∙ append_assoc (ink (c ∷ [])) (ink l) (ink_all ls)

ink_space : (c : ℕ) (cs : Chars) → is_whitespace c ≡ true → ink (c ∷ cs) ≡ ink cs
unfolding ink
ink_space c cs e = rw (e) refl

ink_cons : (c : ℕ) (cs : Chars) → ink (c ∷ cs) ≡ ink (c ∷ []) ++ ink cs
ink_cons c cs = ink-append (c ∷ []) cs

-- a character that is joined to what follows it
ink_joined :
    (c : ℕ) (cs : Chars) (ls : List Chars)
    → ink_all ls ≡ ink cs
    → ink_all (join_first c ls) ≡ ink (c ∷ cs)
ink_joined c cs ls e = ink_all-join_first c ls ∙ ap (λ t. ink (c ∷ []) ++ t) e ∙ sym (ink_cons c cs)

ink_all-lines_of : (cs : Chars) → ink_all (lines_of cs) ≡ ink cs
unfolding ink_all ink lines_of is_whitespace
ink_all-lines_of [] = refl
ink_all-lines_of (c ∷ cs) =
    let rest = ink_all-lines_of cs in
    elim (ℕ_discrete c 10) [
      | yes q ↦
          let step : lines_of (c ∷ cs) ≡ [] ∷ lines_of cs = ground (arith, q) in
          let white : is_whitespace c ≡ true = subst (λ x. is_whitespace x ≡ true) (sym q) refl in
          ap ink_all step ∙ rest ∙ sym (ink_space c cs white)
      | no q ↦
          let step : lines_of (c ∷ cs) ≡ join_first c (lines_of cs) = ground (arith, q) in
          ap ink_all step ∙ ink_joined c cs (lines_of cs) rest
    ]

ink_all-words_from : (cs : Chars) → ink_all (words_from cs).0 ≡ ink cs
unfolding ink_all words_from ink
ink_all-words_from [] = refl
ink_all-words_from (c ∷ cs) =
    let rest = ink_all-words_from cs in
    let words = (words_from cs).0 in
    elim (Bool-cases (is_whitespace c)) [
      | inl e ↦
          let step : (words_from (c ∷ cs)).0 ≡ words = ground (arith, e) in
          ap ink_all step ∙ rest ∙ sym (ink_space c cs e)
      | inr e ↦ elim (Bool-cases (words_from cs).1) [
        | inl d ↦
            let step : (words_from (c ∷ cs)).0 ≡ join_first c words = ground (arith, e, d) in
            ap ink_all step ∙ ink_joined c cs words rest
        | inr d ↦
            let step : (words_from (c ∷ cs)).0 ≡ (c ∷ []) ∷ words = ground (arith, e, d) in
            ap ink_all step ∙ ap (λ t. ink (c ∷ []) ++ t) rest ∙ sym (ink_cons c cs)
      ]
    ]

ink-add_word : (line word : Chars) → ink (add_word line word) ≡ ink line ++ ink word
unfolding add_word ink is_whitespace ℕ_discrete
ink-add_word [] word = refl
ink-add_word (d ∷ ds) word = ink-append (d ∷ ds) (32 ∷ word)

module _ (w : Widths) (width : ℕ) where
  -- what stands on the finished lines and on the open one
  abbrev written : List Chars × Chars → Chars
  written (out, line) = ink_all out ++ ink line

  written-split_word :
      (out : List Chars) (line word : Chars)
      → written (split_word w width out line word) ≡ (ink_all out ++ ink line) ++ ink word
  unfolding split_word ink
  written-split_word out line [] = sym (append-nil (ink_all out ++ ink line))
  written-split_word out line (c ∷ cs) =
      let whole =
        append_assoc (ink_all out ++ ink line) (ink (c ∷ [])) (ink cs)
        ∙ ap (λ t. (ink_all out ++ ink line) ++ t) (sym (ink_cons c cs)) in
      elim (Bool-cases (not (is_empty line) && ltb width (w.of_text line + w.of_char c))) [
        | inl e ↦
            let step : split_word w width out line (c ∷ cs)
                ≡ split_word w width (out ++ line ∷ []) (c ∷ []) cs =
              ground (arith, e) in
            ap written step
            ∙ written-split_word (out ++ line ∷ []) (c ∷ []) cs
            ∙ ap (λ t. (t ++ ink (c ∷ [])) ++ ink cs) (ink_all-last out line)
            ∙ whole
        | inr e ↦
            let step : split_word w width out line (c ∷ cs)
                ≡ split_word w width out (line ++ c ∷ []) cs =
              ground (arith, e) in
            ap written step
            ∙ written-split_word out (line ++ c ∷ []) cs
            ∙ ap (λ t. (ink_all out ++ t) ++ ink cs) (ink-append line (c ∷ []))
            ∙ ap (λ t. t ++ ink cs) (sym (append_assoc (ink_all out) (ink line) (ink (c ∷ []))))
            ∙ whole
      ]

  written-break_line :
      (b : Bool) (out : List Chars) (line : Chars)
      → written (break_line w width b out line) ≡ ink_all out ++ ink line
  unfolding break_line ink
  written-break_line true out line = append-nil (ink_all (out ++ line ∷ [])) ∙ ink_all-last out line
  written-break_line false out line = refl

  written-fit_word :
      (out : List Chars) (line word : Chars)
      → written (fit_word w width (out, line) word) ≡ (ink_all out ++ ink line) ++ ink word
  unfolding fit_word ink is_empty
  written-fit_word out line word = elim (Bool-cases (ltb width (w.of_text word))) [
    | inl e ↦
        let step : fit_word w width (out, line) word ≡ split_word w width out line word =
          ground (arith, e) in
        ap written step ∙ written-split_word out line word
    | inr e ↦
        let step : fit_word w width (out, line) word ≡ (out, add_word line word) =
          ground (arith, e) in
        ap written step
        ∙ ap (λ t. ink_all out ++ t) (ink-add_word line word)
        ∙ sym (append_assoc (ink_all out) (ink line) (ink word))
  ]

  written-put_word :
      (out : List Chars) (line word : Chars)
      → written (put_word w width out line word) ≡ (ink_all out ++ ink line) ++ ink word
  unfolding put_word
  written-put_word out line word =
      let full = not (is_empty line) && ltb width (w.of_text line + 1 + w.of_text word) in
      let broken = break_line w width full out line in
      written-fit_word broken.0 broken.1 word
      ∙ ap (λ t. t ++ ink word) (written-break_line full out line)

  ink_all-put_words :
      (out : List Chars) (line : Chars) (words : List Chars)
      → ink_all (put_words w width out line words) ≡ (ink_all out ++ ink line) ++ ink_all words
  unfolding put_words ink_all
  ink_all-put_words out line [] = ink_all-last out line ∙ sym (append-nil (ink_all out ++ ink line))
  ink_all-put_words out line (word ∷ words) =
      ink_all-put_words (put_word w width out line word).0 (put_word w width out line word).1 words
      ∙ ap (λ t. t ++ ink_all words) (written-put_word out line word)
      ∙ append_assoc (ink_all out ++ ink line) (ink word) (ink_all words)

  ink_all-wrap_lines :
      (out paras : List Chars)
      → ink_all (wrap_lines w width out paras) ≡ ink_all out ++ ink_all paras
  unfolding wrap_lines ink_all words_of ink
  ink_all-wrap_lines out [] = sym (append-nil (ink_all out))
  ink_all-wrap_lines out (para ∷ paras) =
      ink_all-wrap_lines (put_words w width out [] (words_of para)) paras
      ∙ ap (λ t. t ++ ink_all paras)
          (ink_all-put_words out [] (words_of para)
            ∙ ap (λ t. t ++ ink_all (words_of para)) (append-nil (ink_all out))
            ∙ ap (λ t. ink_all out ++ t) (ink_all-words_from para))
      ∙ append_assoc (ink_all out) (ink para) (ink_all paras)

-- Wrapping a text loses nothing that is to be seen: whatever the widths of the characters and of the
-- pane, the lines hold the characters of the text that are no white space, in their order.
pub wrap_keeps_ink :
    (w : Widths) (text : Chars) (width : ℕ) → ink_all (wrap w text width) ≡ ink text
unfolding wrap ink_all
wrap_keeps_ink w text width =
    ink_all-wrap_lines w (max width 1) [] (lines_of text) ∙ ink_all-lines_of text
