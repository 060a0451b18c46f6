-- ===== src/App/Delivered.antt =====
-- A message for an endpoint that is away, from `Hub::mail` in crates/wicara/src/hub.rs over `post_mail` in
-- crates/wicara-hub/src/main.rs to `open` in crates/wicara-core/src/e2e.rs.
use wicara.Prelude.{
  ℕ, ◌+◌, ◌≤◌, ◌<◌, ◌≡◌, refl, true, sym, ◌∙◌, ap, subst, some, [], ◌∷◌, ◌++◌, Option, Option-cases,
  Bytes, Text, bytes_eq, ◌==◌, ==-refl, if◌then◌else◌, length, Result-cases, ok, inl, inr, arith,
}
use wicara.Crypto.{Crypto, CodecLaws, SignatureLaws, ExchangeLaws, CipherLaws}
use wicara.E2e.{Envelope, VerifiedPrekey, new_prekey, verify, seal, open_envelope}
use wicara.E2e.Sealing.{sealed, verify_envelope_signature-seal, open-seal}
use wicara.Hub.Tables.{HubStore, mail_for, pending_from, pending_for, last_id}
use wicara.Hub.{
  Formats, max_envelope, quota_per_sender, quota_per_recipient, parse_endpoint, admit_mail,
  handle_post_mail,
}
use wicara.Hub.Admission.{admit_mail_exact}
use wicara.Hub.Mailbox.{posted_mail_waits}
use wicara.App.Mail.{mail_body}

module _ (c : Crypto) (f : Formats) (signatures : SignatureLaws c) (exchange : ExchangeLaws c)
    (cipher : CipherLaws c) (codec : CodecLaws f.envelopes) (to_hex : Bytes → Text) where
  -- what `Hub::mail` sends is the encoding of an envelope that was sealed
  mail_body-ok :
      (sender_id : Bytes) (v : VerifiedPrekey) (plaintext ephemeral : Bytes) (nonce : Option Bytes)
      (body : Bytes)
      → mail_body c f to_hex sender_id v plaintext ephemeral nonce ≡ ok body
      → (e : Envelope) × (seal c sender_id v plaintext ephemeral nonce ≡ ok e)
        × (f.envelopes.from_bytes body ≡ some e)
  unfolding mail_body
  mail_body-ok sender_id v plaintext ephemeral nonce body h =
      elim (Result-cases (seal c sender_id v plaintext ephemeral nonce)) [
        | inr (x, p) ↦ ground (arith, p, h)
        | inl (e, p) ↦ elim (Option-cases (f.envelopes.to_stdvec e)) [
          | inl q ↦ ground (arith, p, q, h)
          | inr (b, q) ↦
              let same : b ≡ body = ground (arith, p, q, h) in
              (
                e,
                p,
                subst (λ x. f.envelopes.from_bytes x ≡ some e) same (codec.decode_encoded e b q),
              )
        ]
      ]

  verify-owner :
      (owner_id secret : Bytes) (created_ms : ℕ) (v : VerifiedPrekey)
      → verify c (new_prekey c owner_id secret created_ms) (c.verifying_key owner_id) ≡ ok v
      → v.owner ≡ c.verifying_key owner_id
  unfolding verify new_prekey
  verify-owner owner_id secret created_ms v h = ground arith

  -- Mail reaches an endpoint that is away: what is sealed to a prekey that its owner published is accepted by
  -- `post_mail`, as long as the body keeps to the limit, the path names the owner and neither quota is used up; it is then the last
  -- message in the owner's mailbox, and opens with the owner's secret to the plaintext and the sender's key.
  pub mail_reaches_owner :
      (s : HubStore) (path : Text) (now : ℕ) (sender_id owner_id secret : Bytes) (created_ms : ℕ)
      (v : VerifiedPrekey) (plaintext ephemeral : Bytes) (nonce : Option Bytes) (body : Bytes)
      → verify c (new_prekey c owner_id secret created_ms) (c.verifying_key owner_id) ≡ ok v
      → mail_body c f to_hex sender_id v plaintext ephemeral nonce ≡ ok body
      → length body ≤ max_envelope
      → parse_endpoint c f path ≡ ok (c.verifying_key owner_id)
      → pending_from s (c.verifying_key sender_id) (c.verifying_key owner_id) < quota_per_sender
      → pending_for s (c.verifying_key owner_id) < quota_per_recipient
      → let (answer, s') = handle_post_mail c f s path body now in
        (e : Envelope) × (answer ≡ ok tt)
        × (mail_for f.envelopes s' (c.verifying_key owner_id)
            ≡ mail_for f.envelopes s (c.verifying_key owner_id) ++ (last_id s.mail + 1, e) ∷ [])
        × (open_envelope c e secret (c.verifying_key owner_id)
            ≡ ok (plaintext, c.verifying_key sender_id))
  unfolding handle_post_mail
  mail_reaches_owner s path now sender_id owner_id secret created_ms v plaintext ephemeral nonce
        body hv hb fits at sent room =
      let owner = c.verifying_key owner_id in
      let (e, made, decodes) = mail_body-ok sender_id v plaintext ephemeral nonce body hb in
      let (_, _, from, to, _, _, _) =
        sealed c signatures exchange cipher sender_id v plaintext ephemeral nonce e made in
      let opens =
        open-seal c signatures exchange cipher sender_id owner_id secret created_ms v plaintext
          ephemeral nonce e hv made in
      let signed =
        verify_envelope_signature-seal c signatures exchange cipher sender_id v plaintext ephemeral
          nonce e made in
      let mine : e.recipient ≡ owner = to ∙ verify-owner owner_id secret created_ms v hv in
      let admitted : admit_mail c f s path body ≡ ok e = (admit_mail_exact c f s path body e).1 (
        fits,
        at ∙ ap ok (sym mine),
        decodes,
        signed,
        subst (λ x. pending_from s x e.recipient < quota_per_sender) (sym from)
            (subst (λ x. pending_from s (c.verifying_key sender_id) x < quota_per_sender) (sym mine)
              sent),
        subst (λ x. pending_for s x < quota_per_recipient) (sym mine) room,
      ) in
      let answered : (handle_post_mail c f s path body now).0 ≡ ok tt =
        rw (admitted, handle_post_mail) refl in
      let (e', decodes', waits, _, _) = posted_mail_waits c f s path body now owner answered in
      let same : e' ≡ e = cc in
      let there : (e'.recipient == owner) ≡ true =
        subst (λ x. (x == owner) ≡ true) (sym (ap (λ (x : Envelope). x.recipient) same ∙ mine))
          (==-refl owner) in
      let before = mail_for f.envelopes s owner in
      let chosen =
        ap (λ b. if b then before ++ (last_id s.mail + 1, e') ∷ [] else before) there
        ∙ ap (λ x. before ++ (last_id s.mail + 1, x) ∷ []) same in
      (e, answered, waits ∙ chosen, opens)
