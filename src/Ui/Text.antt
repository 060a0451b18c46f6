-- ===== src/Ui/Text.antt =====
-- What crates/wicara/src/ui.rs uses of `str` and `char`: texts by their characters, offsets in bytes
-- of UTF-8.
use wicara.Prelude.{
  ℕ, suc, ◌+◌, ◌-◌, ◌≤◌, ◌≡◌, refl, Option-cases, inl, inr, Bool, ◌&&◌, ◌||◌, Option, none, some,
  [], ◌∷◌, ◌++◌, nat_eq, ◌==◌, ltb, leb, if◌then◌else◌, arith,
}
use wicara.Ui.{Chars}

-- `char::is_whitespace`: the code points with the property White_Space
unfoldable pub is_whitespace : ℕ → Bool
is_whitespace c =
    (leb 9 c && leb c 13)
    || (c == 32
        || (c == 133
            || (c == 160
                || (c == 5760
                    || ((leb 8192 c && leb c 8202)
                        || (c == 8232
                            || (c == 8233 || (c == 8239 || (c == 8287 || c == 12288)))))))))

unfoldable pub trim_start : Chars → Chars
trim_start [] = []
trim_start (c ∷ cs) = if is_whitespace c then trim_start cs else c ∷ cs

unfoldable pub trim_end : Chars → Chars
trim_end [] = []
trim_end (c ∷ cs) = elim (trim_end cs) [
  | [] ↦ if is_whitespace c then [] else c ∷ []
  | d ∷ ds ↦ c ∷ d ∷ ds
]

unfoldable pub trim : Chars → Chars
trim cs = trim_start (trim_end cs)

-- `split_once(' ').unwrap_or((text, ""))`
unfoldable pub split_once : Chars → Chars × Chars
split_once [] = ([], [])
split_once (c ∷ cs) =
    let (front, back) = split_once cs in if c == 32 then ([], cs) else (c ∷ front, back)

-- `char::len_utf8`, and the length of a text in bytes
unfoldable pub len_utf8 : ℕ → ℕ
len_utf8 c = if ltb c 128 then 1 else if ltb c 2048 then 2 else if ltb c 65536 then 3 else 4

unfoldable pub byte_len : Chars → ℕ
byte_len [] = 0
byte_len (c ∷ cs) = len_utf8 c + byte_len cs

-- the text before a byte offset and the text from it; `none`, a panic, if it is inside a character
-- or past the end
unfoldable pub split_at_byte : ℕ → Chars → Option (Chars × Chars)
split_at_byte ℕ.zero cs = some ([], cs)
split_at_byte (suc n) [] = none
split_at_byte (suc n) (c ∷ cs) =
    let rest = split_at_byte (suc n - len_utf8 c) cs in
    if leb (len_utf8 c) (suc n)
    then elim rest [ none ↦ none | some (front, back) ↦ some (c ∷ front, back) ]
    else none

-- `char_indices().next_back()`: all but the last character, and the last
unfoldable pub unsnoc : Chars → Option (Chars × ℕ)
unsnoc [] = none
unsnoc (c ∷ cs) = elim (unsnoc cs) [
  | none ↦ some ([], c)
  | some (front, last) ↦ some (c ∷ front, last)
]

pub len_utf8_pos : (c : ℕ) → 1 ≤ len_utf8 c
unfolding len_utf8
len_utf8_pos c = ground arith

pub byte_len-append : (xs ys : Chars) → byte_len (xs ++ ys) ≡ byte_len xs + byte_len ys
unfolding byte_len
byte_len-append [] ys = omega arith
byte_len-append (c ∷ xs) ys = omega (arith, byte_len-append xs ys)

-- an offset where a text was put together is one where it splits
pub split_at_byte-append :
    (n : ℕ) (xs ys : Chars) → byte_len xs ≡ n → split_at_byte n (xs ++ ys) ≡ some (xs, ys)
unfolding split_at_byte byte_len
split_at_byte-append ℕ.zero [] ys h = refl
split_at_byte-append (suc n) [] ys h = absurd (omega arith)
split_at_byte-append ℕ.zero (c ∷ xs) ys h = absurd (omega (arith, len_utf8_pos c))
split_at_byte-append (suc n) (c ∷ xs) ys h =
    let pos = len_utf8_pos c in
    let rest = split_at_byte-append (suc n - len_utf8 c) xs ys (omega arith) in
    ground (arith, rest, pos, h)

unsnoc-none : (cs : Chars) → unsnoc cs ≡ none → cs ≡ []
unfolding unsnoc
unsnoc-none [] h = refl
unsnoc-none (c ∷ cs) h = elim (Option-cases (unsnoc cs)) [
  | inl e ↦ ground (arith, e)
  | inr (x, e) ↦ ground (arith, e)
]

-- the last character of a text that has one
pub unsnoc_lem : (cs front : Chars) (c : ℕ) → unsnoc cs ≡ some (front, c) → cs ≡ front ++ c ∷ []
unfolding unsnoc
unsnoc_lem [] front c h = cc
unsnoc_lem (x ∷ cs) front c h = elim (Option-cases (unsnoc cs)) [
  | inl e ↦ let q = unsnoc-none cs e in ground (arith, e, q)
  | inr ((f, d), e) ↦ let q = unsnoc_lem cs f d e in ground (arith, e, q)
]

pub unsnoc-append : (cs : Chars) (c : ℕ) → unsnoc (cs ++ c ∷ []) ≡ some (cs, c)
unfolding unsnoc
unsnoc-append [] c = refl
unsnoc-append (x ∷ cs) c = rw (unsnoc-append cs c) refl
