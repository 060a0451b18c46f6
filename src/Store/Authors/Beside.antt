-- ===== src/Store/Authors/Beside.antt =====
-- One step of the loop of `history` (crates/wicara/src/store.rs) over all operations, beside the same loop
-- over one author's.
use wicara.Prelude.{
  ◌≡◌, ◌≢◌, refl, Option, [], ◌∷◌, Bytes, Text, bytes_eq, nat_eq, ◌==◌, if◌then◌else◌, filter,
  append-nil, filter-append, Option-cases, Bool-cases, inl, inr, arith,
}
use wicara.Wire.{
  MessageId, message_id_eq, Frame, hello, chat, edit, delete, react, in_room, file, room_updated,
}
use wicara.Store.History.{Message, Fold, place_of, push_message, change, apply_frame}
use wicara.Store.Amend.{by, find_last-snoc, amend, IsPlaced, find_last-update_at, filter-amend}

-- a fold over all rows, beside one over the rows of one author
pub record IsBeside (author : Bytes) (f h : Fold) : Type 0 where
  pub placed : IsPlaced f
  pub placed' : IsPlaced h
  pub same : filter (by author) f.messages ≡ h.messages

IsPlaced-push_message : (m : Message) (f : Fold) → IsPlaced f → IsPlaced (push_message m f)
unfolding push_message place_of
IsPlaced-push_message m f p t =
    let old = p t in let new = find_last-snoc t f.messages m in ground (arith, old, new)

change-amend :
    (t : MessageId) (g : Message → Message) (f : Fold)
    → IsPlaced f
    → (change t g f).messages ≡ amend t g f.messages
unfolding change amend
change-amend t g f p = let q = p t in ground (arith, q)

IsPlaced-change :
    (t : MessageId) (g : Message → Message) (f : Fold)
    → ((m : Message) → (g m).id ≡ m.id)
    → IsPlaced f
    → IsPlaced (change t g f)
unfolding change
IsPlaced-change t g f kept p u = elim (Option-cases (place_of t f.places)) [
  | inl e ↦ let q = p u in ground (arith, e, q)
  | inr (i, e) ↦
      let q = p u in
      let moved = find_last-update_at u g i f.messages kept in ground (arith, e, q, moved)
]

push_own :
    (author : Bytes) (m : Message) (f h : Fold)
    → m.id.sender ≡ author
    → IsBeside author f h
    → IsBeside author (push_message m f) (push_message m h)
unfolding push_message
push_own author m f h own b =
    let e = b.same in
    let q = filter-append (by author) f.messages (m ∷ []) in
    record {
      placed = IsPlaced-push_message m f b.placed;
      placed' = IsPlaced-push_message m h b.placed';
      same = ground (arith, e, q, own);
    }

push_other :
    (author : Bytes) (m : Message) (f h : Fold)
    → m.id.sender ≢ author
    → IsBeside author f h
    → IsBeside author (push_message m f) h
unfolding push_message
push_other author m f h other b =
    let e = b.same in
    let q = filter-append (by author) f.messages (m ∷ []) in
    let r = append-nil (filter (by author) f.messages) in
    record {
      placed = IsPlaced-push_message m f b.placed;
      placed' = b.placed';
      same = ground (arith, e, q, r, other);
    }

change_own :
    (author : Bytes) (t : MessageId) (g : Message → Message) (f h : Fold)
    → ((m : Message) → (g m).id ≡ m.id)
    → t.sender ≡ author
    → IsBeside author f h
    → IsBeside author (change t g f) (change t g h)
change_own author t g f h kept own b =
    let l = change-amend t g f b.placed in
    let r = change-amend t g h b.placed' in
    let q = filter-amend t author g f.messages kept in
    let e = b.same in
    record {
      placed = IsPlaced-change t g f kept b.placed;
      placed' = IsPlaced-change t g h kept b.placed';
      same = ground (arith, l, r, q, e, own);
    }

change_other :
    (author : Bytes) (t : MessageId) (g : Message → Message) (f h : Fold)
    → ((m : Message) → (g m).id ≡ m.id)
    → t.sender ≢ author
    → IsBeside author f h
    → IsBeside author (change t g f) h
change_other author t g f h kept other b =
    let l = change-amend t g f b.placed in
    let q = filter-amend t author g f.messages kept in
    let e = b.same in
    record {
      placed = IsPlaced-change t g f kept b.placed;
      placed' = b.placed';
      same = ground (arith, l, q, e, other);
    }

reacted :
    (author : Bytes) (f h f' h' : Fold)
    → f'.messages ≡ f.messages
    → f'.places ≡ f.places
    → h'.messages ≡ h.messages
    → h'.places ≡ h.places
    → IsBeside author f h
    → IsBeside author f' h'
reacted author f h f' h' p q p' q' b = record {
  placed = λ t. let k = b.placed t in rw (p, q) k;
  placed' = λ t. let k = b.placed' t in rw (p', q') k;
  same = rw (p, p') b.same;
}

guarded_own :
    (author by_whom : Bytes) (t : MessageId) (g : Message → Message) (f h : Fold)
    → ((m : Message) → (g m).id ≡ m.id)
    → by_whom ≡ author
    → IsBeside author f h
    → IsBeside author
        (if t.sender == by_whom then change t g f else f)
        (if t.sender == by_whom then change t g h else h)
guarded_own author by_whom t g f h kept own b = elim (Bool-cases (t.sender == by_whom)) [
  | inl e ↦ rw e (change_own author t g f h kept (ground (arith, e, own)) b)
  | inr e ↦ rw e b
]

guarded_other :
    (author by_whom : Bytes) (t : MessageId) (g : Message → Message) (f h : Fold)
    → ((m : Message) → (g m).id ≡ m.id)
    → by_whom ≢ author
    → IsBeside author f h
    → IsBeside author (if t.sender == by_whom then change t g f else f) h
guarded_other author by_whom t g f h kept other b = elim (Bool-cases (t.sender == by_whom)) [
  | inl e ↦ rw e (change_other author t g f h kept (ground (arith, e, other)) b)
  | inr e ↦ rw e b
]

-- an operation of the author changes both folds alike
pub apply_own :
    (author me : Bytes) (id : MessageId) (x : Frame) (path : Option Text) (f h : Fold)
    → id.sender ≡ author
    → IsBeside author f h
    → IsBeside author (apply_frame me id x path f) (apply_frame me id x path h)
unfolding apply_frame
apply_own author me id (hello n) path f h own b = b
apply_own author me id (in_room r op) path f h own b = b
apply_own author me id (room_updated r l) path f h own b = b
apply_own author me id (chat _ body reply_to) path f h own b = push_own author _ f h own b
apply_own author me id (file _ name size hash) path f h own b = push_own author _ f h own b
apply_own author me id (react _ t emoji on) path f h own b =
    reacted author f h _ _ refl refl refl refl b
apply_own author me id (edit _ t body) path f h own b =
    guarded_own author id.sender t _ f h (λ m. refl) own b
apply_own author me id (delete _ t) path f h own b =
    guarded_own author id.sender t _ f h (λ m. refl) own b

-- an operation of anyone else changes nothing beside the author's own
pub apply_other :
    (author me : Bytes) (id : MessageId) (x : Frame) (path : Option Text) (f h : Fold)
    → id.sender ≢ author
    → IsBeside author f h
    → IsBeside author (apply_frame me id x path f) h
unfolding apply_frame
apply_other author me id (hello n) path f h other b = b
apply_other author me id (in_room r op) path f h other b = b
apply_other author me id (room_updated r l) path f h other b = b
apply_other author me id (chat _ body reply_to) path f h other b = push_other author _ f h other b
apply_other author me id (file _ name size hash) path f h other b = push_other author _ f h other b
apply_other author me id (react _ t emoji on) path f h other b =
    reacted author f h _ h refl refl refl refl b
apply_other author me id (edit _ t body) path f h other b =
    guarded_other author id.sender t _ f h (λ m. refl) other b
apply_other author me id (delete _ t) path f h other b =
    guarded_other author id.sender t _ f h (λ m. refl) other b
