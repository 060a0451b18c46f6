-- ===== src/Room/Honest.antt =====
-- `RoomEntry::new` and `verify_log` of crates/wicara-core/src/room.rs together: the entries that an
-- honest founder or member writes.
use wicara.Prelude.{
  ℕ, ◌+◌, ◌≡◌, ◌≢◌, refl, true, not, ◌==◌, ◌&&◌, ◌||◌, ◌∙◌, ap, bytes_eq, List, [], ◌∷◌, ◌++◌,
  Bytes, ok, Result-cases, inl, inr, arith,
}
use wicara.Crypto.{Crypto, Codec, SignatureLaws}
use wicara.Room.{
  RoomOp, invite, kick, leave, RoomEntry, Room, transcript, new_entry, entry_hash, verify_signature,
  apply_op, step, replay, verify_log, is_admin,
}
use wicara.Room.Members.{KeySet, contains, insert, remove, contains-insert, contains-remove}
use wicara.Room.Chain.Logs.{verify_log-extend}

module _ (c : Crypto) (ops : Codec RoomOp) (laws : SignatureLaws c) where
  -- what a new entry holds, and that it verifies
  pub record Fresh (k prev : Bytes) (ts : ℕ) (op : RoomOp) (e : RoomEntry) : Type 0 where
    pub prev-eq : e.prev ≡ prev
    pub author-eq : e.author ≡ c.verifying_key k
    pub op-eq : e.op ≡ op
    pub digest : Bytes
    pub hashed : entry_hash c ops e ≡ ok digest
    pub verified : verify_signature c ops e ≡ ok tt

  pub new_entry-Fresh :
      (k prev : Bytes) (ts : ℕ) (op : RoomOp) (e : RoomEntry)
      → new_entry c ops k prev ts op ≡ ok e
      → Fresh k prev ts op e
  unfolding new_entry entry_hash verify_signature
  new_entry-Fresh k prev ts op e h =
      elim (Result-cases (transcript c ops prev (c.verifying_key k) ts op)) [
        | inl (t, p) ↦
            let sizes = laws.signature_length k t in
            let key = laws.valid_key k in
            let good = laws.verify_signed k t in
            record {
              prev-eq = ground (arith, p);
              author-eq = ground (arith, p);
              op-eq = ground (arith, p);
              digest = c.hash (t ++ c.sign k t);
              hashed = ground (arith, p);
              verified = ground (arith, p, sizes, key, good);
            }
        | inr (x, p) ↦ ground (arith, p)
      ]

  -- Whoever is allowed an op at the head of an accepted log can append it: the entry that
  -- `RoomEntry::new` makes is accepted, with the members that the op gives.
  pub new_entry_is_accepted :
      (es : List RoomEntry) (r : Room) (k : Bytes) (ts : ℕ) (op : RoomOp) (e : RoomEntry)
      (ms : KeySet)
      → verify_log c ops es ≡ ok r
      → new_entry c ops k r.head ts op ≡ ok e
      → apply_op r (c.verifying_key k) op ≡ ok ms
      → (s : Room) × (verify_log c ops (es ++ e ∷ []) ≡ ok s)
        × (s.members ≡ ms)
        × (s.founder ≡ r.founder)
  unfolding replay step
  new_entry_is_accepted es r k ts op e ms h n a =
      let f = new_entry-Fresh k r.head ts op e n in
      (
        record r { members = ms; head = f.digest; length = r.length + 1 },
        verify_log-extend c ops es (e ∷ []) h (ground arith),
        refl,
        refl,
      )

  -- An invitation that the founder writes at the head of an accepted log is accepted, and adds
  -- exactly the key that it names.
  pub founder_invites :
      (es : List RoomEntry) (r : Room) (k : Bytes) (ts : ℕ) (m : Bytes) (e : RoomEntry)
      → verify_log c ops es ≡ ok r
      → new_entry c ops k r.head ts (invite m) ≡ ok e
      → c.verifying_key k ≡ r.founder
      → (s : Room) × (verify_log c ops (es ++ e ∷ []) ≡ ok s)
        × ((x : Bytes) → contains x s.members ≡ (x == m || contains x r.members))
  unfolding apply_op is_admin
  founder_invites es r k ts m e h n admin =
      let (s, p, q, _) =
        new_entry_is_accepted es r k ts (invite m) e (insert m r.members) h n (ground arith) in
      (s, p, λ x. ap (contains x) q ∙ contains-insert x m r.members)

  -- A kick that the founder writes of anyone else is accepted, and removes exactly that key.
  pub founder_kicks :
      (es : List RoomEntry) (r : Room) (k : Bytes) (ts : ℕ) (m : Bytes) (e : RoomEntry)
      → verify_log c ops es ≡ ok r
      → new_entry c ops k r.head ts (kick m) ≡ ok e
      → c.verifying_key k ≡ r.founder
      → m ≢ r.founder
      → (s : Room) × (verify_log c ops (es ++ e ∷ []) ≡ ok s)
        × ((x : Bytes) → contains x s.members ≡ (not (x == m) && contains x r.members))
  unfolding apply_op is_admin
  founder_kicks es r k ts m e h n admin other =
      let (s, p, q, _) =
        new_entry_is_accepted es r k ts (kick m) e (remove m r.members) h n (ground arith) in
      (s, p, λ x. ap (contains x) q ∙ contains-remove x m r.members)

  -- A member who is not the founder can sign themselves out, without the founder, and the entry
  -- removes exactly them.
  pub member_leaves :
      (es : List RoomEntry) (r : Room) (k : Bytes) (ts : ℕ) (e : RoomEntry)
      → verify_log c ops es ≡ ok r
      → new_entry c ops k r.head ts leave ≡ ok e
      → contains (c.verifying_key k) r.members ≡ true
      → c.verifying_key k ≢ r.founder
      → (s : Room) × (verify_log c ops (es ++ e ∷ []) ≡ ok s)
        × ((x : Bytes)
            → contains x s.members ≡ (not (x == c.verifying_key k) && contains x r.members))
  unfolding apply_op is_admin
  member_leaves es r k ts e h n member other =
      let (s, p, q, _) =
        new_entry_is_accepted es r k ts leave e (remove (c.verifying_key k) r.members) h n
          (ground arith) in
      (s, p, λ x. ap (contains x) q ∙ contains-remove x (c.verifying_key k) r.members)
