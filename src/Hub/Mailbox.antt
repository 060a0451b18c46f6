-- ===== src/Hub/Mailbox.antt =====
-- The mailboxes of the hub (crates/wicara-hub/src/store.rs and main.rs): posting and deleting.
pub mod Rows
use wicara.Prelude.{
  ℕ, ◌+◌, ◌<◌, ◌≡◌, ◌≢◌, refl, ◌∙◌, ap, Bool, not, ◌&&◌, some, List, [], ◌∷◌, ◌++◌, append-nil,
  Bytes, Text, bytes_eq, nat_eq, ◌==◌, if◌then◌else◌, filter, filter-append, any, ok, err,
  Result-cases, Option-cases, inl, inr, ◌⊎◌, ==-refl, Bool-cases, arith,
}
use wicara.Crypto.{Crypto, Codec}
use wicara.E2e.{Envelope}
use wicara.Hub.Tables.{
  HubStore, MailRow, put_mail, decoded, mail_for, keeps_row, delete_rows, delete_mail, last_id,
}
use wicara.Hub.{
  Formats, Headers, HubError, authenticate, admit_mail, admit_delete, handle_post_mail,
  handle_delete_mail,
}
use wicara.Hub.Admission.{admit_mail_exact}
use wicara.Hub.Mailbox.Rows.{mine, mail_for-put_mail, left_over, delete_rows_lem, delete_newest}

-- Ids are given out again: a message takes the id of the newest one before it, if that has been
-- deleted. So a deletion that names an id which was fetched earlier deletes a message that arrived
-- since, and leaves the hub as if that had never been sent.
pub late_delete_loses_mail :
    (s : HubStore) (b : Bytes) (a m a' m' : Bytes) (t t' : ℕ)
    → let id = last_id s.mail + 1 in
      let fetched = put_mail s a b m t in
      let cleared = (delete_mail fetched b (id ∷ [])).0 in
      let arrived = put_mail cleared a' b m' t' in (delete_mail arrived b (id ∷ [])).0 ≡ s
late_delete_loses_mail s b a m a' m' t t' =
    let id = last_id s.mail + 1 in
    ap (λ (x : HubStore). (delete_mail (put_mail x a' b m' t') b (id ∷ [])).0)
      (delete_newest s a b m t)
    ∙ delete_newest s a' b m' t'

module _ (c : Crypto) (f : Formats) where
  handle_post_mail-ok :
      (s : HubStore) (path : Text) (body : Bytes) (now : ℕ) (e : Envelope)
      → admit_mail c f s path body ≡ ok e
      → handle_post_mail c f s path body now ≡ (ok tt, put_mail s e.sender e.recipient body now)
  unfolding handle_post_mail
  handle_post_mail-ok s path body now e p = rw (p, handle_post_mail)

  handle_post_mail-err :
      (s : HubStore) (path : Text) (body : Bytes) (now : ℕ) (x : HubError)
      → admit_mail c f s path body ≡ err x
      → handle_post_mail c f s path body now ≡ (err x, s)
  unfolding handle_post_mail
  handle_post_mail-err s path body now x p = rw (p, handle_post_mail)

  handle_delete_mail-ok :
      (s : HubStore) (hs : Headers) (body : Bytes) (now : ℕ) (me : Bytes) (ids : List ℕ)
      → admit_delete c f hs body now ≡ ok (me, ids)
      → handle_delete_mail c f s hs body now ≡ (ok tt, (delete_mail s me ids).0)
  unfolding handle_delete_mail
  handle_delete_mail-ok s hs body now me ids p = rw (p, handle_delete_mail)

  handle_delete_mail-err :
      (s : HubStore) (hs : Headers) (body : Bytes) (now : ℕ) (x : HubError)
      → admit_delete c f hs body now ≡ err x
      → handle_delete_mail c f s hs body now ≡ (err x, s)
  unfolding handle_delete_mail
  handle_delete_mail-err s hs body now x p = rw (p, handle_delete_mail)

  admit_delete-authenticates :
      (hs : Headers) (body : Bytes) (now : ℕ) (me : Bytes) (ids : List ℕ)
      → admit_delete c f hs body now ≡ ok (me, ids)
      → (authenticate c f hs now ≡ ok me) × (f.ids.from_bytes body ≡ some ids)
  unfolding admit_delete
  admit_delete-authenticates hs body now me ids h = elim (Result-cases (authenticate c f hs now)) [
    | inr (x, p) ↦ ground (arith, p)
    | inl (k, p) ↦ elim (Option-cases (f.ids.from_bytes body)) [
      | inl q ↦ ground (arith, p, q)
      | inr (js, q) ↦ (ground (arith, p, q), ground (arith, p, q))
    ]
  ]

  -- An envelope that `post_mail` accepts is from then on the last message in its recipient's
  -- mailbox; nobody else's mail, and neither of the other tables, has changed.
  pub posted_mail_waits :
      (s : HubStore) (path : Text) (body : Bytes) (now : ℕ) (y : Bytes)
      → (handle_post_mail c f s path body now).0 ≡ ok tt
      → let s' = (handle_post_mail c f s path body now).1 in
        (e : Envelope) × (f.envelopes.from_bytes body ≡ some e)
        × (mail_for f.envelopes s' y ≡ (
            if e.recipient == y
            then mail_for f.envelopes s y ++ (last_id s.mail + 1, e) ∷ []
            else mail_for f.envelopes s y))
        × (s'.prekeys ≡ s.prekeys)
        × (s'.rooms ≡ s.rooms)
  posted_mail_waits s path body now y h = elim (Result-cases (admit_mail c f s path body)) [
    | inr (x, p) ↦ ground (arith, handle_post_mail-err s path body now x p)
    | inl (e, p) ↦
        let (_, _, d, _, _, _) = (admit_mail_exact c f s path body e).0 p in
        let done = handle_post_mail-ok s path body now e p in
        let waits = mail_for-put_mail f.envelopes s e.sender e.recipient body now e in
        (
          e,
          d,
          rw done (waits y d),
          rw done (unfold put_mail in refl),
          rw done (unfold put_mail in refl),
        )
  ]

  -- A deletion that the hub carries out was authenticated: of the mail of the endpoint that signed
  -- the request exactly the rows go whose ids the body of the request lists, everybody else's mail stays as it is, and
  -- so do the other tables. A refused one changes nothing.
  pub deletion_is_scoped :
      (s : HubStore) (hs : Headers) (body : Bytes) (now : ℕ) (y : Bytes)
      → let (r, s') = handle_delete_mail c f s hs body now in
        ((me : Bytes) × (ids : List ℕ) × (authenticate c f hs now ≡ ok me)
          × (f.ids.from_bytes body ≡ some ids)
          × (r ≡ ok tt)
          × (filter (mine y) s'.mail
              ≡ (if y == me then filter (left_over me ids) s.mail else filter (mine y) s.mail))
          × (s'.prekeys ≡ s.prekeys)
          × (s'.rooms ≡ s.rooms))
        ⊎ ((r ≢ ok tt) × (s' ≡ s))
  deletion_is_scoped s hs body now y = elim (Result-cases (admit_delete c f hs body now)) [
    | inr (x, p) ↦ inr (
      ground (arith, handle_delete_mail-err s hs body now x p),
      ground (arith, handle_delete_mail-err s hs body now x p),
    )
    | inl ((me, ids), p) ↦
        let done = handle_delete_mail-ok s hs body now me ids p in
        inl (
          me,
          ids,
          (admit_delete-authenticates hs body now me ids p).0,
          (admit_delete-authenticates hs body now me ids p).1,
          rw done,
          rw done (unfold delete_mail in delete_rows_lem me y ids s.mail),
          rw done (unfold delete_mail in refl),
          rw done (unfold delete_mail in refl),
        )
  ]
