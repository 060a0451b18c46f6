-- ===== src/Store/Replay.antt =====
-- crates/wicara/src/store.rs: `record` on an operation that arrives twice, ids after `open`, `clear` and
-- `forget`.
use wicara.Prelude.{
  ℕ, ◌+◌, ◌-◌, ◌%◌, ◌^◌, ◌<◌, ◌≤◌, ◌≡◌, refl, ap, Bool, true, false, not, Option, List, [], ◌∷◌,
  ◌++◌, Bytes, Text, bytes_eq, nat_eq, ◌==◌, ==-refl, any, drop, filter, sort_by, All, ok,
  Result-cases, subst, Option-cases, Bool-cases, inl, inr, arith,
}
use wicara.Crypto.{Crypto, Codec}
use wicara.Vault.{seal}
use wicara.Wire.{MessageId, Frame, mint, new_counter, frame_id}
use wicara.Store.Tables.{
  OpRow, LogRow, SettingRow, Store, signed, add_contact, max_seq, resume, is_key, insert_op,
  next_id, open_store, record_op,
}
use wicara.Store.History.{Message, earlier, ops_of, fold_rows, settle, newest, tally, history}
use wicara.Store.Erase.{other_than, whole, forget, clear}

pub any-last :
    {A : Type 0} (p : A → Bool) (xs : List A) (x : A) → p x ≡ true → any p (xs ++ x ∷ []) ≡ true
any-last p [] x h = ground (arith, h)
any-last p (y ∷ ys) x h = ground (arith, any-last p ys x h)

contacts_settle :
    (peer : Bytes) (cs : List Bytes) → add_contact peer (add_contact peer cs) ≡ add_contact peer cs
unfolding add_contact
contacts_settle peer cs = elim (Bool-cases (any (◌==◌ peer) cs)) [
  | inl e ↦ rw (e, e) refl
  | inr e ↦ rw (e, any-last (◌==◌ peer) cs peer (==-refl peer)) refl
]

ops_settle :
    (id : MessageId) (peer p q : Bytes) (os : List OpRow)
    → insert_op id peer q (insert_op id peer p os).0 ≡ ((insert_op id peer p os).0, false)
unfolding insert_op is_key
ops_settle id peer p q os =
    let row : OpRow = record {
      sender = id.sender;
      seq = id.seq;
      ts_ms = id.ts_ms;
      peer = peer;
      payload = p;
    } in
    let own : is_key id row ≡ true =
      rw (==-refl id.sender, ==-refl id.seq, ==-refl id.ts_ms) refl in
    elim (Bool-cases (any (is_key id) os)) [
      | inl e ↦ rw (e, e) refl
      | inr e ↦ rw (e, any-last (is_key id) os row own) refl
    ]

filter-filtered :
    {A : Type 0} (p : A → Bool) (xs : List A) → filter p (filter (λ x. not (p x)) xs) ≡ []
filter-filtered p [] = refl
filter-filtered p (x ∷ xs) = ground (arith, filter-filtered p xs)

pub any-filtered :
    {A : Type 0} (p : A → Bool) (xs : List A) → any p (filter (λ x. not (p x)) xs) ≡ false
any-filtered p [] = refl
any-filtered p (x ∷ xs) = ground (arith, any-filtered p xs)

abbrev IsSmall : OpRow → Type 0
IsSmall o = o.seq < 2 ^ 63 - 1

resume_small : (me : Bytes) (os : List OpRow) → All IsSmall os → resume me os < 2 ^ 63 - 1
unfolding resume max_seq
resume_small me [] small = omega arith
resume_small me (o ∷ os) small =
    let rest = resume_small me os small.1 in
    elim (Option-cases (max_seq me os)) [
      | inl e ↦ ground (arith, e, small.0, rest)
      | inr (k, e) ↦ ground (arith, e, small.0, rest)
    ]

above_resume :
    (me : Bytes) (m : ℕ) (id : MessageId) (os : List OpRow)
    → All IsSmall os
    → id.sender ≡ me
    → resume me os ≤ m
    → m < id.seq
    → any (is_key id) os ≡ false
unfolding resume max_seq is_key signed
above_resume me m id [] small own top h = refl
above_resume me m id (o ∷ os) small own top h =
    let small' = resume_small me os small.1 in
    elim (Option-cases (max_seq me os)) [
      | inl e ↦
          let lower : resume me os ≤ m = ground (arith, e) in
          ground (arith, e, small.0, above_resume me m id os small.1 own lower h)
      | inr (k, e) ↦
          let lower : resume me os ≤ m = ground (arith, e, small.0, small', top) in
          ground (arith, e, small.0, small', top, above_resume me m id os small.1 own lower h)
    ]

drop-nil : {A : Type 0} (n : ℕ) → drop {A = A} n [] ≡ []
drop-nil ℕ.zero = refl
drop-nil (ℕ.suc n) = refl

module _ (c : Crypto) (frames : Codec Frame) where
  -- Recording a frame that has just been recorded, as when it arrives both live and by the mailbox,
  -- changes nothing and reports that it was already stored.
  pub record_op-again :
      (s t u : Store) (peer : Bytes) (frame : Frame) (n n' : Option Bytes) (new new' : Bool)
      → record_op c frames s peer frame n ≡ ok (t, new)
      → record_op c frames t peer frame n' ≡ ok (u, new')
      → (u ≡ t) × (new' ≡ false)
  unfolding record_op
  record_op-again s t u peer frame n n' new new' h h' = elim (Option-cases (frame_id frame)) [
    | inl e ↦ ground (arith, e)
    | inr (id, e) ↦ elim (Option-cases (frames.to_stdvec frame)) [
      | inl e' ↦ ground (arith, e, e')
      | inr (bytes, e') ↦ elim (Result-cases (seal c s.vault bytes n)) [
        | inr (why, p) ↦ ground (arith, e, e', p)
        | inl (p, sealed) ↦ elim (Result-cases (seal c s.vault bytes n')) [
          | inr (why, p') ↦ ground (arith, e, e', sealed, p')
          | inl (p', sealed') ↦
              let known = contacts_settle peer s.contacts in
              let kept = ops_settle id peer p p' s.ops in
              ground (arith, e, e', sealed, sealed', known, kept)
        ]
      ]
    ]
  ]

  none_left :
      (peer : Bytes) (os : List OpRow)
      → ops_of peer (filter (λ (o : OpRow). other_than peer o.peer) os) ≡ []
  unfolding ops_of
  none_left peer os = ap (sort_by earlier) (filter-filtered (λ (o : OpRow). o.peer == peer) os)

  empty_history :
      (s : Store) (peer : Bytes) (limit : ℕ)
      → ops_of peer s.ops ≡ []
      → history c frames s peer limit ≡ ok []
  unfolding history fold_rows newest settle tally
  empty_history s peer limit h = rw (h, drop-nil {A = Message} (0 - limit)) refl

  -- After `/clear` the conversation has no message, whatever it held, and the contacts and the room
  -- logs are what they were.
  pub clear_empties :
      (s t : Store) (peer : Bytes) (files : List Text) (limit : ℕ)
      → clear c frames s peer ≡ ok (t, files)
      → (history c frames t peer limit ≡ ok []) × (t.contacts ≡ s.contacts) × (t.logs ≡ s.logs)
  unfolding clear
  clear_empties s t peer files limit h = elim (Result-cases (whole c frames s peer)) [
    | inl (msgs, e) ↦
        let same = none_left peer s.ops in
        let gone : ops_of peer t.ops ≡ [] = ground (arith, e, same) in
        ground (arith, e, empty_history t peer limit gone)
    | inr (why, e) ↦ ground (arith, e)
  ]

  -- After `/forget` the conversation has no message, its peer is no contact and its room has no log.
  pub forget_removes :
      (s t : Store) (peer : Bytes) (names files : List Text) (limit : ℕ)
      → forget c frames s peer names ≡ ok (t, files)
      → (history c frames t peer limit ≡ ok [])
        × (any (λ (k : Bytes). k == peer) t.contacts ≡ false)
        × (any (λ (r : LogRow). r.id == peer) t.logs ≡ false)
  unfolding forget
  forget_removes s t peer names files limit h = elim (Result-cases (whole c frames s peer)) [
    | inl (msgs, e) ↦
        let known = any-filtered (λ (k : Bytes). k == peer) s.contacts in
        let rooms = any-filtered (λ (r : LogRow). r.id == peer) s.logs in
        let same = none_left peer s.ops in
        let gone : ops_of peer t.ops ≡ [] = ground (arith, e, same) in
        ground (arith, e, empty_history t peer limit gone, known, rooms)
    | inr (why, e) ↦ ground (arith, e)
  ]

module _ (c : Crypto) where
  -- An id that is minted right after a store is opened belongs to no operation in it, as long as no
  -- sequence number in it has reached the top of an `i64`.
  pub minted_is_new :
      (ops : List OpRow) (logs : List LogRow) (settings : List SettingRow) (contacts : List Bytes)
      (vault me : Bytes) (s : Store) (now : ℕ)
      → open_store c ops logs settings contacts vault me ≡ ok s
      → All (λ (o : OpRow). o.seq < 2 ^ 63 - 1) ops
      → any (is_key (next_id s now).1) s.ops ≡ false
  unfolding open_store next_id mint new_counter
  minted_is_new ops logs settings contacts vault me s now h small =
      let top : resume me ops < 2 ^ 63 - 1 = resume_small me ops small in
      let held : s.ops ≡ ops = ground arith in
      let by : s.counter.sender ≡ me = ground arith in
      let at : s.counter.seq ≡ resume me ops = ground arith in
      let next : s.counter.seq < (s.counter.seq + 1) % 2 ^ 64 = rw at (omega (arith, top)) in
      rw held (
        above_resume me (resume me ops) (next_id s now).1 ops small by (omega arith)
          (subst (λ n. n < (s.counter.seq + 1) % 2 ^ 64) at next))
