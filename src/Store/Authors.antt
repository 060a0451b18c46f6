-- ===== src/Store/Authors.antt =====
-- crates/wicara/src/store.rs: `history` and the authors of messages.
mod Beside
use wicara.Prelude.{
  ℕ, suc, ◌+◌, ◌≡◌, ◌≢◌, refl, sym, ap, ◌∙◌, Bool, true, false, not, ◌||◌, ◌&&◌, Option, none, some,
  List, [], ◌∷◌, ◌++◌, map, Bytes, Text, bytes_eq, Bytes-discrete, subst, ok-injective, nat_eq,
  ◌==◌, ==-refl, if◌then◌else◌, length, filter, any, update_at, append-nil, filter-append, Result,
  ok, err, ◌>>=◌, >>=-eq-ok, Result-cases, Option-cases, Bool-cases, inl, inr, arith,
}
use wicara.Crypto.{Crypto, Codec}
use wicara.Vault.{open_blob}
use wicara.Wire.{
  MessageId, message_id_eq, Frame, hello, chat, edit, delete, react, in_room, file, room_updated,
}
use wicara.Store.Tables.{OpRow, Store, StoreError, file_key, setting}
use wicara.Store.History.{
  Message, Fold, nothing_yet, place_of, push_message, change, apply_frame, with_path, load_row,
  fold_row, fold_rows,
}
use wicara.Store.Amend.{
  by, find_last, find_last-snoc, amend, IsPlaced, find_last-update_at, filter-amend,
}
use wicara.Store.Authors.Beside.{IsBeside, apply_own, apply_other}

module _ (c : Crypto) (frames : Codec Frame) where
  with_path_keeps :
      (s : Store) (id id' : MessageId) (x x' : Frame) (path : Option Text)
      → with_path c frames s id x ≡ ok (id', x', path)
      → id' ≡ id
  unfolding with_path
  with_path_keeps s id id' (file own name size hash) x' path h =
      elim (Result-cases (setting c s (file_key id))) [
        | inl (q, e) ↦ ground (arith, e)
        | inr (why, e) ↦ ground (arith, e)
      ]
  with_path_keeps s id id' other x' path h = ground arith

  loaded_by :
      (s : Store) (o : OpRow) (id : MessageId) (x : Frame) (path : Option Text)
      → load_row c frames s o ≡ ok (id, x, path)
      → id.sender ≡ o.sender
  unfolding load_row
  loaded_by s o id x path h = elim (Result-cases (open_blob c s.vault o.payload)) [
    | inr (why, e) ↦ ground (arith, e)
    | inl (bytes, e) ↦ elim (Option-cases (frames.from_bytes bytes)) [
      | inl q ↦ ground (arith, e, q)
      | inr (frame, q) ↦
          let own : MessageId = record { sender = o.sender; seq = o.seq; ts_ms = o.ts_ms } in
          let last : with_path c frames s own frame ≡ ok (id, x, path) = ground (arith, e, q) in
          ap (λ (i : MessageId). i.sender) (with_path_keeps s own id frame x path last)
    ]
  ]

  abbrev sent_by : Bytes → OpRow → Bool
  sent_by author o = o.sender == author

  fold_rows-IsBeside :
      (author : Bytes) (s : Store) (os : List OpRow) (f h f' : Fold)
      → IsBeside author f h
      → fold_rows c frames s os f ≡ ok f'
      → (h' : Fold) × (fold_rows c frames s (filter (sent_by author) os) h ≡ ok h')
        × IsBeside author f' h'
  unfolding fold_rows fold_row
  fold_rows-IsBeside author s [] f h f' b p =
      (h, refl, subst (λ (k : Fold). IsBeside author k h) (ok-injective p) b)
  fold_rows-IsBeside author s (o ∷ os) f h f' b p = elim (Result-cases (load_row c frames s o)) [
    | inr (why, e) ↦ ground (arith, e)
    | inl ((id, x, path), e) ↦
        let from = loaded_by s o id x path e in
        let more : fold_rows c frames s os (apply_frame s.me id x path f) ≡ ok f' =
          ground (arith, e) in
        elim (Bytes-discrete o.sender author) [
          | yes q ↦
              let (h', r, b') =
                fold_rows-IsBeside author s os (apply_frame s.me id x path f)
                  (apply_frame s.me id x path h) f'
                  (apply_own author s.me id x path f h (from ∙ q) b) more in
              (h', ground (arith, e, q, r), b')
          | no q ↦
              let (h', r, b') =
                fold_rows-IsBeside author s os (apply_frame s.me id x path f) h f'
                  (apply_other author s.me id x path f h (λ k. q (sym from ∙ k)) b) more in
              (h', ground (arith, q, r), b')
        ]
  ]

  -- The messages of an author, with what has become of them, are what they would be if nobody else
  -- had sent anything: no operation of another sender adds, edits or deletes one of them. This is
  -- said of the loop of `history`, before reactions are counted.
  pub only_the_author :
      (author : Bytes) (s : Store) (os : List OpRow) (f : Fold)
      → fold_rows c frames s os nothing_yet ≡ ok f
      → (h : Fold) × (fold_rows c frames s
            (filter (λ (o : OpRow). o.sender == author) os)
            nothing_yet
          ≡ ok h)
        × (filter (λ (m : Message). m.id.sender == author) f.messages ≡ h.messages)
  unfolding find_last place_of
  only_the_author author s os f p =
      let (h, r, b) =
        fold_rows-IsBeside author s os nothing_yet nothing_yet f
          (record { placed = λ t. refl; placed' = λ t. refl; same = refl }) p in
      (h, r, b.same)
