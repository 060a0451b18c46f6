-- ===== src/E2e/Transcripts.antt =====
-- The texts that are signed: the transcripts of crates/wicara-core/src/e2e.rs and room.rs.
use wicara.Prelude.{
  ℕ, ◌^◌, ◌<◌, ◌≡◌, ◌≢◌, refl, Bytes, length, length-append, append-cancel, to_le_bytes_inj, ok,
  Option-cases, inl, inr, arith,
}
use wicara.Crypto.{Crypto, Codec}
use wicara.Room.{RoomOp, transcript}
use wicara.E2e.{
  Envelope, prekey_context, envelope_context, prekey_transcript, binding, envelope_transcript,
  auth_transcript,
}

-- The fields of an envelope that have a fixed size in Rust have that size.
pub record IsSized (e : Envelope) : Type 0 where
  pub sender : length e.sender ≡ 32
  pub recipient : length e.recipient ≡ 32
  pub ephemeral : length e.ephemeral ≡ 32
  pub prekey : length e.prekey ≡ 32
  pub nonce : length e.nonce ≡ 24

abbrev pub signed_text : Envelope → Bytes
signed_text e =
    envelope_transcript (binding e.sender e.recipient e.ephemeral e.prekey) e.nonce e.ciphertext

bound_length :
    (d e : Envelope)
    → IsSized d
    → IsSized e
    → length (binding d.sender d.recipient d.ephemeral d.prekey)
      ≡ length (binding e.sender e.recipient e.ephemeral e.prekey)
unfolding binding
bound_length d e zd ze = omega (arith, length-append {0})

-- The text that an envelope's sender signs determines everything in it but the signature: two
-- envelopes whose fields have their sizes and whose signed texts are the same agree in sender,
-- recipient, both keys, nonce and ciphertext.
pub signed_text_inj :
    (d e : Envelope)
    → IsSized d
    → IsSized e
    → signed_text d ≡ signed_text e
    → (d.sender ≡ e.sender)
      × (d.recipient ≡ e.recipient)
      × (d.ephemeral ≡ e.ephemeral)
      × (d.prekey ≡ e.prekey)
      × (d.nonce ≡ e.nonce)
      × (d.ciphertext ≡ e.ciphertext)
unfolding envelope_transcript binding
signed_text_inj d e zd ze h =
    let r0 = append-cancel envelope_context envelope_context refl h in
    let r1 =
      append-cancel (binding d.sender d.recipient d.ephemeral d.prekey)
        (binding e.sender e.recipient e.ephemeral e.prekey) (bound_length d e zd ze) r0.1 in
    let r2 = append-cancel d.sender e.sender (omega arith) r1.0 in
    let r3 = append-cancel d.recipient e.recipient (omega arith) r2.1 in
    let r4 = append-cancel d.ephemeral e.ephemeral (omega arith) r3.1 in
    let r5 = append-cancel d.nonce e.nonce (omega arith) r1.1 in
    (r2.0, r3.0, r4.0, r4.1, r5.0, r5.1)

-- So does the text that a prekey's owner signs.
pub prekey_transcript_inj :
    (o p o' p' : Bytes) (n n' : ℕ)
    → length o ≡ length o'
    → length p ≡ length p'
    → n < 256 ^ 8
    → n' < 256 ^ 8
    → prekey_transcript o p n ≡ prekey_transcript o' p' n'
    → (o ≡ o') × (p ≡ p') × (n ≡ n')
unfolding prekey_transcript
prekey_transcript_inj o p o' p' n n' lo lp hn hn' h =
    let r0 = append-cancel prekey_context prekey_context refl h in
    let r1 = append-cancel o o' lo r0.1 in
    let r2 = append-cancel p p' lp r1.1 in (r1.0, r2.0, to_le_bytes_inj 8 n n' hn hn' r2.1)

module _ (c : Crypto) (ops : Codec RoomOp) where
  -- No text is signed for two purposes: a prekey's, an envelope's, a mailbox request's and a room
  -- entry's transcripts are never equal, whatever their parts.
  pub transcripts_disjoint :
      (o p bound n ct k prev author : Bytes) (created ts at : ℕ) (op : RoomOp) (t : Bytes)
      → transcript c ops prev author at op ≡ ok t
      → (prekey_transcript o p created ≢ envelope_transcript bound n ct)
        × (prekey_transcript o p created ≢ auth_transcript k ts)
        × (envelope_transcript bound n ct ≢ auth_transcript k ts)
        × (t ≢ prekey_transcript o p created)
        × (t ≢ envelope_transcript bound n ct)
        × (t ≢ auth_transcript k ts)
  unfolding prekey_transcript envelope_transcript auth_transcript transcript
  transcripts_disjoint o p bound n ct k prev author created ts at op t h =
      elim (Option-cases (ops.to_stdvec op)) [
        | inl e ↦ ground (arith, e)
        | inr (b, e) ↦ ground (arith, e)
      ]
