-- ===== src/Files/Names/Safe.antt =====
-- crates/wicara/src/files.rs: what `safe_name` leaves of a name.
use wicara.Prelude.{
  ℕ, ◌≡◌, refl, sym, ◌∙◌, ap, Bool, true, false, ◌||◌, List, [], ◌∷◌, map, ℕ_discrete, nat_eq, ◌==◌,
  any, codes, arith, Bool-cases, inl, inr,
}
use wicara.Files.Names.{
  is_kept, clean, is_dot_or_space, trim_front, trim_back, or_attachment, base_name, safe_name,
}

unfoldable pub contains : ℕ → List ℕ → Bool
contains d = any (λ c. c == d)

unfoldable pub first_is_dot_or_space : List ℕ → Bool
first_is_dot_or_space [] = false
first_is_dot_or_space (c ∷ cs) = is_dot_or_space c

unfoldable pub is_empty : List ℕ → Bool
is_empty [] = true
is_empty (c ∷ cs) = false

clean-is_kept :
    (alphanumeric : ℕ → Bool) (c : ℕ) → is_kept alphanumeric (clean alphanumeric c) ≡ true
unfolding clean is_kept
clean-is_kept alphanumeric c = elim (Bool-cases (is_kept alphanumeric c)) [
  | inl e ↦
      let same : clean alphanumeric c ≡ c = ground (arith, e) in ap (is_kept alphanumeric) same ∙ e
  | inr e ↦
      let same : clean alphanumeric c ≡ 95 = ground (arith, e) in
      ap (is_kept alphanumeric) same ∙ ground arith
]

contains-clean :
    (alphanumeric : ℕ → Bool) (d : ℕ) (cs : List ℕ)
    → is_kept alphanumeric d ≡ false
    → contains d (map (clean alphanumeric) cs) ≡ false
unfolding contains
contains-clean alphanumeric d [] bad = refl
contains-clean alphanumeric d (c ∷ cs) bad =
    let rest = contains-clean alphanumeric d cs bad in
    let good = clean-is_kept alphanumeric c in
    elim (ℕ_discrete (clean alphanumeric c) d) [
      | yes q ↦
          let clash : ◌≡◌ {A = Bool} true false = sym good ∙ ap (is_kept alphanumeric) q ∙ bad in
          absurd (cc)
      | no q ↦ ground (arith, q, rest)
    ]

contains-trim_front :
    (d : ℕ) (cs : List ℕ) → contains d cs ≡ false → contains d (trim_front cs) ≡ false
unfolding contains trim_front
contains-trim_front d [] h = refl
contains-trim_front d (c ∷ cs) h =
    let t : contains d cs ≡ false = ground (arith, h) in
    ground (arith, h, contains-trim_front d cs t)

contains-trim_back :
    (d : ℕ) (cs : List ℕ) → contains d cs ≡ false → contains d (trim_back cs) ≡ false
unfolding contains trim_back
contains-trim_back d [] h = refl
contains-trim_back d (c ∷ cs) h =
    let t : contains d cs ≡ false = ground (arith, h) in
    ground (arith, h, contains-trim_back d cs t)

trim_front-first : (cs : List ℕ) → first_is_dot_or_space (trim_front cs) ≡ false
unfolding first_is_dot_or_space trim_front
trim_front-first [] = refl
trim_front-first (c ∷ cs) = ground (arith, trim_front-first cs)

trim_back-first :
    (cs : List ℕ) → first_is_dot_or_space cs ≡ false → first_is_dot_or_space (trim_back cs) ≡ false
unfolding first_is_dot_or_space trim_back
trim_back-first [] h = refl
trim_back-first (c ∷ cs) h = ground (arith, h)

is_kept-hostile :
    (alphanumeric : ℕ → Bool) (d : ℕ)
    → alphanumeric d ≡ false
    → (d == 32 || (d == 46 || (d == 95 || d == 45))) ≡ false
    → is_kept alphanumeric d ≡ false
unfolding is_kept
is_kept-hostile alphanumeric d foreign other = ground (arith, foreign, other)

or_attachment-contains :
    (d : ℕ) (cs : List ℕ)
    → contains d cs ≡ false
    → contains d (codes "attachment") ≡ false
    → contains d (or_attachment cs) ≡ false
unfolding or_attachment
or_attachment-contains d [] h other = other
or_attachment-contains d (c ∷ cs) h other = h

safe_name-contains :
    (alphanumeric : ℕ → Bool) (name : List ℕ) (d : ℕ)
    → is_kept alphanumeric d ≡ false
    → contains d (codes "attachment") ≡ false
    → contains d (safe_name alphanumeric name) ≡ false
unfolding safe_name
safe_name-contains alphanumeric name d bad other =
    let cleaned = map (clean alphanumeric) (base_name name) in
    or_attachment-contains d (trim_back (trim_front cleaned))
      (contains-trim_back d (trim_front cleaned)
        (contains-trim_front d cleaned (contains-clean alphanumeric d (base_name name) bad)))
      other

or_attachment-first :
    (cs : List ℕ)
    → first_is_dot_or_space cs ≡ false
    → (is_empty (or_attachment cs) ≡ false) × (first_is_dot_or_space (or_attachment cs) ≡ false)
unfolding or_attachment is_empty first_is_dot_or_space is_dot_or_space ℕ_discrete
or_attachment-first [] h = (refl, refl)
or_attachment-first (c ∷ cs) h = (refl, h)

-- Whatever name a peer sends, the name of its file is not empty, has no slash, no backslash and no NUL in it, and
-- begins with neither a dot nor a space, as long as none of these characters counts as alphanumeric.
pub safe_name_stays_inside :
    (alphanumeric : ℕ → Bool) (name : List ℕ)
    → alphanumeric 47 ≡ false
    → alphanumeric 92 ≡ false
    → alphanumeric 0 ≡ false
    → let safe = safe_name alphanumeric name in
      (is_empty safe ≡ false)
      × (contains 47 safe ≡ false)
      × (contains 92 safe ≡ false)
      × (contains 0 safe ≡ false)
      × (first_is_dot_or_space safe ≡ false)
unfolding safe_name contains ℕ_discrete
safe_name_stays_inside alphanumeric name slash backslash nul =
    let cleaned = map (clean alphanumeric) (base_name name) in
    let (full, first) =
      or_attachment-first (trim_back (trim_front cleaned))
        (trim_back-first (trim_front cleaned) (trim_front-first cleaned)) in
    (
      full,
      safe_name-contains alphanumeric name 47 (is_kept-hostile alphanumeric 47 slash refl) refl,
      safe_name-contains alphanumeric name 92 (is_kept-hostile alphanumeric 92 backslash refl) refl,
      safe_name-contains alphanumeric name 0 (is_kept-hostile alphanumeric 0 nul refl) refl,
      first,
    )
