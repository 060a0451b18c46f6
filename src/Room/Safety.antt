-- ===== src/Room/Safety.antt =====
-- What the loop of `verify_log` (crates/wicara-core/src/room.rs) does to a room's identity, founder and
-- members over a whole log.
use wicara.Prelude.{
  ◌≤◌, ◌≡◌, sym, >>=-eq-ok, ◌∙◌, ◌⊎◌, inl, inr, true, List, [], ◌∷◌, ◌++◌, Bytes, ok, length,
  length-append, bytes_eq, arith,
}
use wicara.Crypto.{Crypto, Codec}
use wicara.Room.Members.{KeySet, contains, contains-insert, contains-remove}
use wicara.Room.{
  RoomOp, create, invite, kick, leave, RoomEntry, Room, verify_signature, verify_log, replay,
  entry_hash, step, found,
}
use wicara.Room.Chain.{Chain, start, extend, Authorised, Stepped, Founded, IsSigned}
use wicara.Room.Chain.Steps.{IsSigned-verify_signature, step-Stepped, found-Founded}
use wicara.Room.Chain.Logs.{verify_log-Chain, verify_log-append}

-- some entry of the log is such
abbrev pub Some : (RoomEntry → Type 0) → List RoomEntry → Type 0
Some P [] = ⊥
Some P (e ∷ es) = P e ⊎ Some P es

Some-append : (P : RoomEntry → Type 0) (es fs : List RoomEntry) → Some P es → Some P (es ++ fs)
Some-append P [] fs h = absurd h
Some-append P (e ∷ es) fs (inl h) = inl h
Some-append P (e ∷ es) fs (inr h) = inr (Some-append P es fs h)

Some-last :
    (P : RoomEntry → Type 0) (es : List RoomEntry) (e : RoomEntry) → P e → Some P (es ++ e ∷ [])
Some-last P [] e h = inl h
Some-last P (x ∷ es) e h = inr (Some-last P es e h)

Authorised-founder :
    (r : Room) (a : Bytes) (op : RoomOp) (ms : KeySet)
    → Authorised r a op ms
    → contains r.founder r.members ≡ true
    → contains r.founder ms ≡ true
Authorised-founder r a (create n) ms h m = absurd h
Authorised-founder r a (invite k) ms h m = rw (h.1, contains-insert) (ground arith)
Authorised-founder r a (kick k) ms h m = rw (h.2, contains-remove) (ground arith)
Authorised-founder r a leave ms h m = rw (h.2, contains-remove) (ground arith)

-- Entries move the membership as their op says, and only of the key that the op names.
pub Authorised-others :
    (r : Room) (a : Bytes) (op : RoomOp) (ms : KeySet) (x : Bytes)
    → Authorised r a op ms
    → contains x ms ≡ true
    → (contains x r.members ≡ true) ⊎ ((op ≡ invite x) × (a ≡ r.founder))
Authorised-others r a (create n) ms x h m = absurd h
Authorised-others r a (invite k) ms x h m = ground (arith, contains-insert x k r.members)
Authorised-others r a (kick k) ms x h m = ground (arith, contains-remove x k r.members)
Authorised-others r a leave ms x h m = ground (arith, contains-remove x a r.members)

module _ (c : Crypto) (ops : Codec RoomOp) where
  Chain-founder :
      {es : List RoomEntry} {r : Room} → Chain c ops es r → contains r.founder r.members ≡ true
  unfolding contains
  Chain-founder (start e p f) = rw (f.members, f.founder) (ground arith)
  Chain-founder {r = s} (extend {r = r} e h p st) =
      rw (st.founder) (Authorised-founder r e.author e.op s.members st.allowed (Chain-founder h))

  -- Of an accepted log, the founder is a member.
  pub founder_stays :
      (es : List RoomEntry) (r : Room)
      → verify_log c ops es ≡ ok r
      → contains r.founder r.members ≡ true
  founder_stays es r h = Chain-founder (verify_log-Chain c ops es r h)

  -- an invitation of `x` by the founder, with a signature that verifies
  pub record Invites (r : Room) (x : Bytes) (e : RoomEntry) : Type 0 where
    pub op : e.op ≡ invite x
    pub by_founder : e.author ≡ r.founder
    pub signed : verify_signature c ops e ≡ ok tt

  Invites-move :
      {r s : Room} {x : Bytes} {e : RoomEntry}
      → s.founder ≡ r.founder
      → Invites r x e
      → Invites s x e
  Invites-move p i = record { op = i.op; by_founder = i.by_founder ∙ sym p; signed = i.signed }

  Some-map :
      {P Q : RoomEntry → Type 0} (es : List RoomEntry)
      → ((e : RoomEntry) → P e → Q e)
      → Some P es
      → Some Q es
  Some-map [] f h = absurd h
  Some-map (e ∷ es) f (inl h) = inl (f e h)
  Some-map (e ∷ es) f (inr h) = inr (Some-map es f h)

  Chain-invited :
      {es : List RoomEntry} {r : Room} (x : Bytes)
      → Chain c ops es r
      → contains x r.members ≡ true
      → (x ≡ r.founder) ⊎ Some (Invites r x) es
  unfolding contains
  Chain-invited x (start e p f) m = inl (ground arith)
  Chain-invited {r = s} x (extend {es = es} {r = r} e h p st) m =
      rw p (split (Chain-invited x h) (Authorised-others r e.author e.op s.members x st.allowed m))
    where
      earlier :
          (x ≡ r.founder) ⊎ Some (Invites r x) es
          → (x ≡ s.founder) ⊎ Some (Invites s x) (es ++ e ∷ [])
      earlier (inl q) = inl (q ∙ sym st.founder)
      earlier (inr q) =
          inr (Some-append (Invites s x) es (e ∷ []) (Some-map es (λ d. Invites-move st.founder) q))

      split :
          (contains x r.members ≡ true → (x ≡ r.founder) ⊎ Some (Invites r x) es)
          → (contains x r.members ≡ true) ⊎ ((e.op ≡ invite x) × (e.author ≡ r.founder))
          → (x ≡ s.founder) ⊎ Some (Invites s x) (es ++ e ∷ [])
      split ih (inl q) = earlier (ih q)
      split ih (inr (q, a)) = inr (
          Some-last (Invites s x) es e (record {
            op = q;
            by_founder = a ∙ sym st.founder;
            signed = IsSigned-verify_signature c ops st.signed;
          }))

  -- Of a log that `verify_log` accepts, every member is the founder, or the log holds an invitation
  -- of them that names the founder as author and carries a signature that verifies.
  pub members_were_invited :
      (es : List RoomEntry) (r : Room) (x : Bytes)
      → verify_log c ops es ≡ ok r
      → contains x r.members ≡ true
      → (x ≡ r.founder) ⊎ Some (Invites r x) es
  members_were_invited es r x h = Chain-invited x (verify_log-Chain c ops es r h)

  Chain-length : {es : List RoomEntry} {r : Room} → Chain c ops es r → r.length ≡ length es
  Chain-length (start e p f) = rw p f.length
  Chain-length (extend {es = es} e h p st) =
      rw (p, st.length, Chain-length h) (omega (arith, length-append es (e ∷ [])))

  -- the parts of a room that no later entry may change
  pub record SameRoom (r s : Room) : Type 0 where
    pub id : s.id ≡ r.id
    pub name : s.name ≡ r.name
    pub founder : s.founder ≡ r.founder
    pub grows : r.length ≤ s.length

  replay-SameRoom : (r s : Room) (es : List RoomEntry) → replay c ops r es ≡ ok s → SameRoom r s
  unfolding replay
  replay-SameRoom r s [] h = ground arith
  replay-SameRoom r s (e ∷ es) h =
      let (t, q, k) = >>=-eq-ok (step c ops r e) (λ t. replay c ops t es) h in
      let st : Stepped c ops r e t = step-Stepped c ops r e t q in
      let rest : SameRoom t s = replay-SameRoom t s es k in
      record {
        id = rest.id ∙ st.id;
        name = rest.name ∙ st.name;
        founder = rest.founder ∙ st.founder;
        grows = omega arith;
      }

  -- If a log is accepted, so is every nonempty front of it, and the room of the front has the same
  -- id, name and founder and is no longer: whoever withholds entries can only hold the room back.
  pub fronts_verify :
      (e : RoomEntry) (es fs : List RoomEntry) (s : Room)
      → verify_log c ops ((e ∷ es) ++ fs) ≡ ok s
      → (r : Room) × (verify_log c ops (e ∷ es) ≡ ok r) × SameRoom r s
  fronts_verify e es fs s h =
      let (r, p, k) =
        >>=-eq-ok (verify_log c ops (e ∷ es)) (λ r. replay c ops r fs)
          (sym (verify_log-append c ops e es fs) ∙ h) in
      (r, p, replay-SameRoom r s fs k)

  -- An accepted log has the length that its room records, and the room's id is the hash of its
  -- first entry, which creates the room and names the founder as author.
  pub room_is_its_first_entry :
      (e : RoomEntry) (es : List RoomEntry) (r : Room)
      → verify_log c ops (e ∷ es) ≡ ok r
      → (r.length ≡ length (e ∷ es))
        × (entry_hash c ops e ≡ ok r.id)
        × (e.op ≡ create r.name)
        × (e.author ≡ r.founder)
  unfolding verify_log
  room_is_its_first_entry e es r h =
      let (t, q, k) = >>=-eq-ok (found c ops e) (λ t. replay c ops t es) h in
      let f : Founded c ops e t = found-Founded c ops e t q in
      let same : SameRoom t r = replay-SameRoom t r es k in
      (
        Chain-length (verify_log-Chain c ops (e ∷ es) r h),
        rw same.id f.hashed,
        rw same.name f.names,
        sym f.founder ∙ sym same.founder,
      )

  pub first_is_signed :
      (e : RoomEntry) (es : List RoomEntry) (r : Room)
      → verify_log c ops (e ∷ es) ≡ ok r
      → IsSigned c ops e
  unfolding verify_log
  first_is_signed e es r h =
      let (t, q, k) = >>=-eq-ok (found c ops e) (λ t. replay c ops t es) h in
      (found-Founded c ops e t q).signed
