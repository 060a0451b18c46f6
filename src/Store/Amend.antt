-- ===== src/Store/Amend.antt =====
-- Where crates/wicara/src/store.rs finds the message that an operation targets: the `HashMap` of places,
-- and the same said without it.
use wicara.Prelude.{
  ℕ, suc, ◌≡◌, refl, Bool, Option, none, some, List, [], ◌∷◌, ◌++◌, Bytes, bytes_eq, nat_eq, ◌==◌,
  if◌then◌else◌, length, filter, update_at, Option-cases, Bool-cases, inl, inr, arith,
}
use wicara.Wire.{MessageId, message_id_eq}
use wicara.Store.History.{Message, Fold, place_of}

abbrev pub by : Bytes → Message → Bool
by author m = m.id.sender == author

abbrev has : MessageId → Message → Bool
has t m = m.id == t

-- the place of the last message with an id
unfoldable pub find_last : MessageId → List Message → Option ℕ
find_last t [] = none
find_last t (m ∷ ms) = elim (find_last t ms) [
  | some i ↦ some (suc i)
  | none ↦ if m.id == t then some 0 else none
]

pub find_last-snoc :
    (t : MessageId) (ms : List Message) (m : Message)
    → find_last t (ms ++ m ∷ []) ≡ (if m.id == t then some (length ms) else find_last t ms)
unfolding find_last
find_last-snoc t [] m = ground arith
find_last-snoc t (x ∷ ms) m = ground (arith, find_last-snoc t ms m)

-- the last message with an id, changed
unfoldable pub amend : MessageId → (Message → Message) → List Message → List Message
amend t g ms = elim (find_last t ms) [ none ↦ ms | some i ↦ update_at i g ms ]

-- the places in the map are those of the messages
abbrev pub IsPlaced : Fold → Type 0
IsPlaced f = (t : MessageId) → place_of t f.places ≡ find_last t f.messages

pub find_last-update_at :
    (t : MessageId) (g : Message → Message) (i : ℕ) (ms : List Message)
    → ((m : Message) → (g m).id ≡ m.id)
    → find_last t (update_at i g ms) ≡ find_last t ms
unfolding find_last
find_last-update_at t g i [] kept = refl
find_last-update_at t g ℕ.zero (m ∷ ms) kept = let same = kept m in ground (arith, same)
find_last-update_at t g (suc i) (m ∷ ms) kept =
    let rest = find_last-update_at t g i ms kept in ground (arith, rest)

pub still_none :
    (t : MessageId) (author : Bytes) (ms : List Message)
    → find_last t ms ≡ none
    → find_last t (filter (by author) ms) ≡ none
unfolding find_last
still_none t author [] h = refl
still_none t author (m ∷ ms) h = elim (Option-cases (find_last t ms)) [
  | inl e ↦ ground (arith, e, still_none t author ms e)
  | inr (i, e) ↦ ground (arith, e)
]

pub still_some :
    (t : MessageId) (author : Bytes) (i : ℕ) (ms : List Message)
    → t.sender ≡ author
    → find_last t ms ≡ some i
    → (j : ℕ) × (find_last t (filter (by author) ms) ≡ some j)
unfolding find_last
still_some t author i [] own h = ground arith
still_some t author i (m ∷ ms) own h = elim (Option-cases (find_last t ms)) [
  | inl e ↦ let none' = still_none t author ms e in (0, ground (arith, e, none'))
  | inr (k, e) ↦
      let (j, e') = still_some t author k ms own e in
      ((if by author m then suc j else j), ground (arith, e, e'))
]

pub filter-amend :
    (t : MessageId) (author : Bytes) (g : Message → Message) (ms : List Message)
    → ((m : Message) → (g m).id ≡ m.id)
    → filter (by author) (amend t g ms)
      ≡ (if t.sender == author then amend t g (filter (by author) ms) else filter (by author) ms)
unfolding find_last amend
filter-amend t author g [] kept = ground arith
filter-amend t author g (m ∷ ms) kept =
    let rest = filter-amend t author g ms kept in
    let same = kept m in
    elim (Option-cases (find_last t ms)) [
      | inl e ↦ let none' = still_none t author ms e in ground (arith, e, none', same)
      | inr (i, e) ↦ elim (Bool-cases (t.sender == author)) [
        | inl own ↦
            let (j, e') = still_some t author i ms (ground arith) e in
            ground (arith, e, e', rest, own)
        | inr other ↦ ground (arith, e, rest, other)
      ]
    ]
