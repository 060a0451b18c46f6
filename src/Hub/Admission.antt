-- ===== src/Hub/Admission.antt =====
-- What the hub's handlers check before they write (crates/wicara-hub/src/main.rs).
use wicara.Prelude.{
  ℕ, ◌≤◌, ◌<◌, ◌≡◌, ◌↔◌, ◌∙◌, ap, subst, some, List, Bytes, Text, length, ok, Result-cases,
  Option-cases, inl, inr, arith,
}
use wicara.Crypto.{Crypto}
use wicara.E2e.{Envelope, SignedPrekey, VerifiedPrekey, verify, verify_envelope_signature}
use wicara.Room.{Room, RoomEntry, verify_log}
use wicara.Hub.Tables.{HubStore, pending_from, pending_for}
use wicara.Hub.{
  Formats, max_envelope, quota_per_sender, quota_per_recipient, parse_endpoint, admit_mail,
  admit_log, admit_prekey,
}

module _ (c : Crypto) (f : Formats) where
  -- `post_mail` accepts a body exactly when it has 64 KiB at most, decodes to an envelope for the
  -- endpoint in the path, whose signature is by the sender it names, and neither that sender's
  -- backlog there nor the mailbox has reached its quota.
  pub admit_mail_exact :
      (s : HubStore) (path : Text) (body : Bytes) (e : Envelope)
      → (admit_mail c f s path body ≡ ok e) ↔ (
          (length body ≤ max_envelope)
          × (parse_endpoint c f path ≡ ok e.recipient)
          × (f.envelopes.from_bytes body ≡ some e)
          × (verify_envelope_signature c e ≡ ok tt)
          × (pending_from s e.sender e.recipient < quota_per_sender)
          × (pending_for s e.recipient < quota_per_recipient))
  unfolding admit_mail
  admit_mail_exact s path body e = elim (Result-cases (parse_endpoint c f path)) [
    | inr (x, p) ↦ ground (arith, p)
    | inl (r, p) ↦ elim (Option-cases (f.envelopes.from_bytes body)) [
      | inl q ↦ ground (arith, p, q)
      | inr (d, q) ↦ elim (Result-cases (verify_envelope_signature c d)) [
        | inl (_, v) ↦ ground (arith, p, q, v)
        | inr (x, v) ↦ ground (arith, p, q, v)
      ]
    ]
  ]

  -- `put_room` accepts a body exactly when it decodes to a log that verifies, for the room whose id
  -- is in the path; what it stores is filed under that id and the number of entries.
  pub admit_log_exact :
      (path : Text) (body id : Bytes) (n : ℕ)
      → (admit_log c f path body ≡ ok (id, n)) ↔ (
          (parse_endpoint c f path ≡ ok id)
          × ((es : List RoomEntry) × (r : Room) × (f.logs.from_bytes body ≡ some es)
              × (verify_log c f.ops es ≡ ok r)
              × (r.id ≡ id)
              × (length es ≡ n)))
  unfolding admit_log
  admit_log_exact path body id n = (made, λ (p, (es, r, d, v, i, l)). ground arith)
    where
      made :
          admit_log c f path body ≡ ok (id, n)
          → (parse_endpoint c f path ≡ ok id)
            × ((es : List RoomEntry) × (r : Room) × (f.logs.from_bytes body ≡ some es)
                × (verify_log c f.ops es ≡ ok r)
                × (r.id ≡ id)
                × (length es ≡ n))
      made h = elim (Result-cases (parse_endpoint c f path)) [
        | inr (x, p) ↦ ground (arith, p)
        | inl (j, p) ↦ elim (Option-cases (f.logs.from_bytes body)) [
          | inl q ↦ ground (arith, p, q)
          | inr (es, q) ↦ elim (Result-cases (verify_log c f.ops es)) [
            | inr (x, v) ↦ ground (arith, p, q, v)
            | inl (r, v) ↦ (
              ground (arith, p, q, v),
              (es, r, q, v, ground (arith, p, q, v), ground (arith, p, q, v)),
            )
          ]
        ]
      ]

  -- `put_prekey` accepts a body exactly when it decodes to a prekey that verifies for the owner that
  -- it names itself.
  pub admit_prekey_exact :
      (body : Bytes) (p : SignedPrekey)
      → (admit_prekey c f body ≡ ok p) ↔ (
          (f.prekeys.from_bytes body ≡ some p)
          × ((v : VerifiedPrekey) × (verify c p p.owner ≡ ok v)))
  unfolding admit_prekey
  admit_prekey_exact body p = (made, λ (d, (v, h)). ground arith)
    where
      made :
          admit_prekey c f body ≡ ok p
          → (f.prekeys.from_bytes body ≡ some p)
            × ((v : VerifiedPrekey) × (verify c p p.owner ≡ ok v))
      made h = elim (Option-cases (f.prekeys.from_bytes body)) [
        | inl q ↦ ground (arith, q)
        | inr (d, q) ↦ elim (Result-cases (verify c d d.owner)) [
          | inr (x, v) ↦ ground (arith, q, v)
          | inl (w, v) ↦
              let same : d ≡ p = ground (arith, q, v) in
              (
                q ∙ ap some same,
                (w, subst (λ (x : SignedPrekey). verify c x x.owner ≡ ok w) same v),
              )
        ]
      ]
