-- ===== src/Room/Heads.antt =====
-- The hash chain of crates/wicara-core/src/room.rs: what a transcript and a hash cover. The hash is not
-- assumed to be injective: where two inputs have one hash, that is the other outcome.
use wicara.Prelude.{
  ℕ, ◌+◌, ◌^◌, ◌<◌, ◌≡◌, ◌≢◌, refl, sym, ◌∙◌, ap, ◌⊎◌, inl, inr, List, [], ◌∷◌, ◌++◌, Bytes,
  bytes_eq, Bytes-discrete, length, length-append, append-cancel, Option-cases, subst, ap₂,
  All-last, Text, All, to_le_bytes, length-to_le_bytes, to_le_bytes_inj, ok, ok-injective,
  >>=-eq-ok, some, arith,
}
use wicara.Crypto.{Crypto, Codec, CodecLaws}
use wicara.Room.Chain.{Chain, start, extend, Authorised, IsSigned}
use wicara.Room.Chain.Logs.{verify_log-Chain}
use wicara.Room.Members.{KeySet}
use wicara.Room.Safety.{room_is_its_first_entry, first_is_signed}
use wicara.Room.{RoomOp, create, RoomEntry, Room, transcript, entry_hash, verify_log, entry_context}

-- Two inputs with one hash.
pub record Collision (c : Crypto) : Type 0 where
  pub left : Bytes
  pub right : Bytes
  pub differ : left ≢ right
  pub same : c.hash left ≡ c.hash right

-- The fields have the sizes of their Rust types: `[u8; 32]`, `[u8; 32]` and `u64`.
pub record IsSized (e : RoomEntry) : Type 0 where
  pub prev : length e.prev ≡ 32
  pub author : length e.author ≡ 32
  pub ts_ms : e.ts_ms < 256 ^ 8

not_create :
    (r : Room) (a : Bytes) (op : RoomOp) (ms : KeySet) {n : Text}
    → Authorised r a op ms
    → op ≡ create n
    → ⊥
not_create r a op ms h p = ground arith

module _ (c : Crypto) (ops : Codec RoomOp) (laws : CodecLaws ops) where
  encoded_op :
      (p a : Bytes) (n : ℕ) (op : RoomOp) (t : Bytes)
      → transcript c ops p a n op ≡ ok t
      → (b : Bytes) × (ops.to_stdvec op ≡ some b)
        × (t ≡ entry_context ++ (p ++ (a ++ (to_le_bytes 8 n ++ b))))
  unfolding transcript
  encoded_op p a n op t h = elim (Option-cases (ops.to_stdvec op)) [
    | inl e ↦ ground (arith, e)
    | inr (b, e) ↦ (b, e, ground (arith, e))
  ]

  -- A transcript determines the entry's previous hash, author, time and op.
  pub transcript_inj :
      (d e : RoomEntry) (t : Bytes)
      → IsSized d
      → IsSized e
      → transcript c ops d.prev d.author d.ts_ms d.op ≡ ok t
      → transcript c ops e.prev e.author e.ts_ms e.op ≡ ok t
      → (d.prev ≡ e.prev) × (d.author ≡ e.author) × (d.ts_ms ≡ e.ts_ms) × (d.op ≡ e.op)
  transcript_inj d e t sd se hd he =
      let (b, pb, qb) = encoded_op d.prev d.author d.ts_ms d.op t hd in
      let (b', pb', qb') = encoded_op e.prev e.author e.ts_ms e.op t he in
      let r0 = append-cancel entry_context entry_context refl (sym qb ∙ qb') in
      let r1 = append-cancel d.prev e.prev (omega arith) r0.1 in
      let r2 = append-cancel d.author e.author (omega arith) r1.1 in
      let r3 =
        append-cancel (to_le_bytes 8 d.ts_ms) (to_le_bytes 8 e.ts_ms)
          (length-to_le_bytes 8 d.ts_ms ∙ sym (length-to_le_bytes 8 e.ts_ms)) r2.1 in
      (
        r1.0,
        r2.0,
        to_le_bytes_inj 8 d.ts_ms e.ts_ms sd.ts_ms se.ts_ms r3.0,
        cc (laws.decode_encoded d.op b pb, laws.decode_encoded e.op b' pb', r3.1),
      )

  -- Equal hashes of two entries whose signatures have 64 bytes make the entries equal, or collide.
  pub entry_hash_inj :
      (d e : RoomEntry) (h : Bytes)
      → IsSized d
      → IsSized e
      → length d.signature ≡ 64
      → length e.signature ≡ 64
      → entry_hash c ops d ≡ ok h
      → entry_hash c ops e ≡ ok h
      → (d ≡ e) ⊎ Collision c
  unfolding entry_hash
  entry_hash_inj d e h sd se ld le hd he =
      let (t, p, q) =
        >>=-eq-ok (transcript c ops d.prev d.author d.ts_ms d.op)
          (λ t. ok (c.hash (t ++ d.signature))) hd in
      let (u, p', q') =
        >>=-eq-ok (transcript c ops e.prev e.author e.ts_ms e.op)
          (λ t. ok (c.hash (t ++ e.signature))) he in
      elim (Bytes-discrete (t ++ d.signature) (u ++ e.signature)) [
        | no differ ↦ inr (record {
          left = t ++ d.signature;
          right = u ++ e.signature;
          differ = differ;
          same = ok-injective (q ∙ sym q');
        })
        | yes same ↦
            let sizes : length t + length d.signature ≡ length u + length e.signature =
              sym (length-append t d.signature) ∙ ap length same ∙ length-append u e.signature in
            let (tu, signatures) = append-cancel t u (omega arith) same in
            let fields = transcript_inj d e t sd se p (p' ∙ ap ok (sym tu)) in
            inl (ground (arith, fields, signatures))
      ]

  -- entries with the hash that is a room's head are one entry, or the hash collides
  lasts :
      (d e : RoomEntry) (r s : Room)
      → IsSized d
      → IsSized e
      → IsSigned c ops d
      → IsSigned c ops e
      → entry_hash c ops d ≡ ok r.head
      → entry_hash c ops e ≡ ok s.head
      → r.head ≡ s.head
      → (d ≡ e) ⊎ Collision c
  lasts d e r s zd ze fd fe hd he h =
      entry_hash_inj d e r.head zd ze fd.sixty_four fe.sixty_four hd (he ∙ ap ok (sym h))

  -- Two chains of sized entries with one head are one chain, or the hash collides.
  same_head :
      {es fs : List RoomEntry} {r s : Room}
      → Chain c ops es r
      → Chain c ops fs s
      → All IsSized es
      → All IsSized fs
      → r.head ≡ s.head
      → (es ≡ fs) ⊎ Collision c
  same_head {r = r} {s = s} (start d p f) (start e q g) zd ze h =
      elim (lasts d e r s (subst (All IsSized) p zd).0 (subst (All IsSized) q ze).0 f.signed
        g.signed (rw f.head f.hashed) (rw g.head g.hashed) h) [
          | inl same ↦ inl (cc)
          | inr hit ↦ inr hit
        ]
  same_head {r = r} {s = s} (start d p f) (extend {es = front} {r = s'} e k q st) zd ze h =
      elim (lasts d e r s (subst (All IsSized) p zd).0
        (All-last IsSized front e (subst (All IsSized) q ze)).1 f.signed st.signed
        (rw f.head f.hashed) st.hashed h) [
          | inl same ↦ absurd (
              not_create s' e.author e.op s.members st.allowed
                (ap (λ (x : RoomEntry). x.op) (sym same) ∙ f.names))
          | inr hit ↦ inr hit
        ]
  same_head {r = r} {s = s} (extend {es = front} {r = r'} d k p st) (start e q g) zd ze h =
      elim (lasts d e r s (All-last IsSized front d (subst (All IsSized) p zd)).1
        (subst (All IsSized) q ze).0 st.signed g.signed st.hashed (rw g.head g.hashed) h) [
          | inl same ↦ absurd (
              not_create r' d.author d.op r.members st.allowed
                (ap (λ (x : RoomEntry). x.op) same ∙ g.names))
          | inr hit ↦ inr hit
        ]
  same_head {r = r} {s = s} (extend {es = xs} d k p st) (extend {es = ys} e k' q st') zd ze h =
      let sd = All-last IsSized xs d (subst (All IsSized) p zd) in
      let se = All-last IsSized ys e (subst (All IsSized) q ze) in
      elim (lasts d e r s sd.1 se.1 st.signed st'.signed st.hashed st'.hashed h) [
        | inl same ↦
            elim (same_head k k' sd.0 se.0
              (sym st.follows ∙ ap (λ (x : RoomEntry). x.prev) same ∙ st'.follows)) [
                | inl fronts ↦ inl (
                    p
                    ∙ ap₂ (λ (xs : List RoomEntry) (x : RoomEntry). xs ++ x ∷ []) fronts same
                    ∙ sym q)
                | inr hit ↦ inr hit
              ]
        | inr hit ↦ inr hit
      ]

  -- Two accepted logs of sized entries whose rooms have one head are the same log, or two
  -- different inputs with the same hash are found.
  pub head_determines_log :
      (es fs : List RoomEntry) (r s : Room)
      → All IsSized es
      → All IsSized fs
      → verify_log c ops es ≡ ok r
      → verify_log c ops fs ≡ ok s
      → r.head ≡ s.head
      → (es ≡ fs) ⊎ Collision c
  head_determines_log es fs r s zd ze p q h =
      same_head (verify_log-Chain c ops es r p) (verify_log-Chain c ops fs s q) zd ze h

  -- Two accepted logs for one room id begin with the same entry, so they agree on the name and the
  -- founder; or two different inputs with the same hash are found.
  pub id_determines_founder :
      (d e : RoomEntry) (es fs : List RoomEntry) (r s : Room)
      → IsSized d
      → IsSized e
      → verify_log c ops (d ∷ es) ≡ ok r
      → verify_log c ops (e ∷ fs) ≡ ok s
      → r.id ≡ s.id
      → ((d ≡ e) × (r.name ≡ s.name) × (r.founder ≡ s.founder)) ⊎ Collision c
  id_determines_founder d e es fs r s zd ze p q h =
      let (_, hd, nd, ad) = room_is_its_first_entry c ops d es r p in
      let (_, he, ne, ae) = room_is_its_first_entry c ops e fs s q in
      elim (entry_hash_inj d e r.id zd ze (first_is_signed c ops d es r p).sixty_four
        (first_is_signed c ops e fs s q).sixty_four hd (he ∙ ap ok (sym h))) [
          | inl same ↦ inl (same, ground (arith, nd, ne, same), cc)
          | inr hit ↦ inr hit
        ]
