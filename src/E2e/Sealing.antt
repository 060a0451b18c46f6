-- ===== src/E2e/Sealing.antt =====
-- A prekey and an envelope of crates/wicara-core/src/e2e.rs from end to end.
use wicara.Prelude.{
  ℕ, ◌≡◌, ◌==◌, bytes_eq, if◌then◌else◌, ◌↔◌, true, Option, none, some, Bytes, length, ok, err,
  Result-cases, inl, inr, sym, ==-refl, arith,
}
use wicara.Crypto.{Crypto, SignatureLaws, ExchangeLaws, CipherLaws}
use wicara.E2e.{
  SignedPrekey, VerifiedPrekey, Envelope, E2eError, prekey_transcript, binding, envelope_transcript,
  envelope_key, new_prekey, verify, seal, verify_envelope_signature, open_envelope,
}

module _ (c : Crypto) where
  -- A prekey verifies for an owner exactly when it names that owner and carries a signature of 64
  -- bytes by that owner, a valid key, over the owner, the prekey and its date; what comes out is
  -- that owner and that prekey.
  pub verify_exact :
      (p : SignedPrekey) (owner : Bytes) (v : VerifiedPrekey)
      → (verify c p owner ≡ ok v) ↔ (
          (p.owner ≡ owner)
          × (length p.signature ≡ 64)
          × (c.is_verifying_key owner ≡ true)
          × (c.verify_strict owner (prekey_transcript owner p.prekey p.created_ms) p.signature
              ≡ true)
          × (v ≡ record { owner = owner; key = p.prekey }))
  unfolding verify
  verify_exact p owner v = ground arith

  -- An envelope opens exactly when it is addressed to this endpoint and to the prekey that it
  -- holds, carries the signature of the sender that it names, the exchange is contributory, and
  -- the ciphertext decrypts under the key and the binding of these very parties; the sender that
  -- is returned is the one whose signature was checked.
  pub open_exact :
      (e : Envelope) (my_prekey me plaintext sender : Bytes)
      → (open_envelope c e my_prekey me ≡ ok (plaintext, sender)) ↔ (
          (e.recipient ≡ me)
          × (e.prekey ≡ c.public_key my_prekey)
          × (verify_envelope_signature c e ≡ ok tt)
          × (c.was_contributory (c.diffie_hellman my_prekey e.ephemeral) ≡ true)
          × (c.decrypt
                (envelope_key c
                  (c.diffie_hellman my_prekey e.ephemeral)
                  (binding e.sender e.recipient e.ephemeral e.prekey))
                e.nonce
                (binding e.sender e.recipient e.ephemeral e.prekey)
                e.ciphertext
              ≡ some plaintext)
          × (sender ≡ e.sender))
  unfolding open_envelope
  open_exact e k me plaintext sender = elim (Result-cases (verify_envelope_signature c e)) [
    | inl (_, p) ↦ ground (arith, p)
    | inr (x, p) ↦ ground (arith, p)
  ]

  -- A prekey that its owner signed verifies for that owner, and for nobody else.
  pub verify-new_prekey :
      (signatures : SignatureLaws c) (identity secret : Bytes) (created_ms : ℕ) (owner : Bytes)
      → verify c (new_prekey c identity secret created_ms) owner ≡ (
          if owner == c.verifying_key identity
          then ok (record { owner = owner; key = c.public_key secret })
          else err E2eError.different_owner)
  unfolding new_prekey verify
  verify-new_prekey signatures identity secret created_ms owner =
      let t = prekey_transcript (c.verifying_key identity) (c.public_key secret) created_ms in
      let good = signatures.verify_signed identity t in
      let key = signatures.valid_key identity in
      let size = signatures.signature_length identity t in ground (arith, good, key, size)

  module _ (signatures : SignatureLaws c) (exchange : ExchangeLaws c) (cipher : CipherLaws c) where
    -- the parts of a sealed envelope
    pub sealed :
        (k : Bytes) (v : VerifiedPrekey) (m x : Bytes) (nonce : Option Bytes) (e : Envelope)
        → seal c k v m x nonce ≡ ok e
        → let bound = binding (c.verifying_key k) v.owner (c.public_key x) v.key in
          let shared = c.diffie_hellman x v.key in
          (c.was_contributory shared ≡ true)
          × (c.encrypt (envelope_key c shared bound) e.nonce bound m ≡ some e.ciphertext)
          × (e.sender ≡ c.verifying_key k)
          × (e.recipient ≡ v.owner)
          × (e.ephemeral ≡ c.public_key x)
          × (e.prekey ≡ v.key)
          × (e.signature ≡ c.sign k (envelope_transcript bound e.nonce e.ciphertext))
    unfolding seal
    sealed k v m x none e h = ground arith
    sealed k v m x (some n) e h = ground arith

    -- a sealed envelope passes the check of its signature
    pub verify_envelope_signature-seal :
        (k : Bytes) (v : VerifiedPrekey) (m x : Bytes) (nonce : Option Bytes) (e : Envelope)
        → seal c k v m x nonce ≡ ok e
        → verify_envelope_signature c e ≡ ok tt
    unfolding verify_envelope_signature
    verify_envelope_signature-seal k v m x nonce e h =
        let (con, enc, p1, p2, p3, p4, p5) = sealed k v m x nonce e h in
        let t =
          envelope_transcript (binding (c.verifying_key k) v.owner (c.public_key x) v.key) e.nonce
            e.ciphertext in
        let good = signatures.verify_signed k t in
        let key = signatures.valid_key k in
        let size = signatures.signature_length k t in
        rw (p1, p2, p3, p4, p5, size, key, good, ==-refl {A = ℕ} 64)

    -- What is sealed to a prekey that its owner published opens with that owner's secret, and gives
    -- the plaintext and the sender's key.
    pub open-seal :
        (sender_id owner_id secret : Bytes) (created_ms : ℕ) (v : VerifiedPrekey)
        (plaintext ephemeral : Bytes) (nonce : Option Bytes) (e : Envelope)
        → verify c (new_prekey c owner_id secret created_ms) (c.verifying_key owner_id) ≡ ok v
        → seal c sender_id v plaintext ephemeral nonce ≡ ok e
        → open_envelope c e secret (c.verifying_key owner_id)
          ≡ ok (plaintext, c.verifying_key sender_id)
    unfolding new_prekey verify
    open-seal sender_id owner_id secret created_ms v plaintext ephemeral nonce e hv hs =
        let (con, enc, p1, p2, p3, p4, p5) = sealed sender_id v plaintext ephemeral nonce e hs in
        let signed = verify_envelope_signature-seal sender_id v plaintext ephemeral nonce e hs in
        let dec = cipher.decrypt_encrypted _ _ _ _ _ enc in
        let same = exchange.agree ephemeral secret in
        let key : v ≡ record { owner = c.verifying_key owner_id; key = c.public_key secret } =
          ground arith in
        (open_exact e secret (c.verifying_key owner_id) plaintext (c.verifying_key sender_id)).1
          (ground arith, ground arith, signed, ground arith, ground (arith, dec), sym p1)
