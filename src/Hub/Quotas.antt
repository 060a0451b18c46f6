-- ===== src/Hub/Quotas.antt =====
-- The quotas of `post_mail` (crates/wicara-hub/src/main.rs) over sequences of events.
use wicara.Prelude.{
  ℕ, ◌+◌, ◌-◌, ◌≤◌, ◌<◌, ◌≡◌, Bool, not, ◌&&◌, List, [], ◌∷◌, ◌++◌, Bytes, bytes_eq, nat_eq, ◌==◌,
  ltb, if◌then◌else◌, length, filter, Result-cases, inl, inr, arith,
}
use wicara.Crypto.{Crypto}
use wicara.Hub.Tables.{
  HubStore, MailRow, put_prekey, put_mail, pending_from, pending_for, keeps_row, delete_rows,
  delete_mail, put_room, as_i64, sweep,
}
use wicara.Hub.Admission.{admit_mail_exact}
use wicara.Hub.{
  Formats, Headers, quota_per_sender, quota_per_recipient, ttl, admit_mail, admit_prekey,
  admit_delete, admit_log, handle_put_prekey, handle_post_mail, handle_delete_mail, handle_put_room,
  Event, put_prekey_request, post_mail_request, delete_mail_request, put_room_request, sweep_round,
  serve, serve_all,
}

-- For every recipient at most 2000 messages wait, and at most 200 of them from any one sender.
pub record IsWithinQuota (s : HubStore) : Type 0 where
  pub from : (sender recipient : Bytes) → pending_from s sender recipient ≤ quota_per_sender
  pub for : (recipient : Bytes) → pending_for s recipient ≤ quota_per_recipient

module _ {ℓ} {A : Type ℓ} where
  pub length-filter-snoc :
      (p : A → Bool) (xs : List A) (x : A)
      → length (filter p (xs ++ x ∷ [])) ≡ length (filter p xs) + (if p x then 1 else 0)
  length-filter-snoc p [] x = ground arith
  length-filter-snoc p (y ∷ ys) x = ground (arith, length-filter-snoc p ys x)

  pub length-filter-filter :
      (p q : A → Bool) (xs : List A) → length (filter p (filter q xs)) ≤ length (filter p xs)
  length-filter-filter p q [] = omega arith
  length-filter-filter p q (y ∷ ys) = ground (arith, length-filter-filter p q ys)

delete_rows-shrinks :
    (p : MailRow → Bool) (r : Bytes) (ids : List ℕ) (ms : List MailRow)
    → length (filter p (delete_rows r ids ms)) ≤ length (filter p ms)
unfolding delete_rows
delete_rows-shrinks p r [] ms = omega arith
delete_rows-shrinks p r (id ∷ ids) ms = omega (
  arith,
  delete_rows-shrinks p r ids (filter (keeps_row r id) ms),
  length-filter-filter p (keeps_row r id) ms,
)

-- One more message counts for its sender and its recipient, and for nobody else.
pub pending_from-put_mail :
    (s : HubStore) (a b blob : Bytes) (now : ℕ) (x y : Bytes)
    → pending_from (put_mail s a b blob now) x y
      ≡ pending_from s x y + (if a == x && b == y then 1 else 0)
unfolding put_mail pending_from
pending_from-put_mail s a b blob now x y = rw length-filter-snoc

pub pending_for-put_mail :
    (s : HubStore) (a b blob : Bytes) (now : ℕ) (y : Bytes)
    → pending_for (put_mail s a b blob now) y ≡ pending_for s y + (if b == y then 1 else 0)
unfolding put_mail pending_for
pending_for-put_mail s a b blob now y = rw length-filter-snoc

put_mail-IsWithinQuota :
    (s : HubStore) (sender recipient blob : Bytes) (now : ℕ)
    → IsWithinQuota s
    → pending_from s sender recipient < quota_per_sender
    → pending_for s recipient < quota_per_recipient
    → IsWithinQuota (put_mail s sender recipient blob now)
put_mail-IsWithinQuota s sender recipient blob now q hf hr = record {
  from = λ x y. ground (arith, pending_from-put_mail s sender recipient blob now x y, q.from x y);
  for = λ y. ground (arith, pending_for-put_mail s sender recipient blob now y, q.for y);
}

delete_mail-IsWithinQuota :
    (s : HubStore) (me : Bytes) (ids : List ℕ)
    → IsWithinQuota s
    → IsWithinQuota (delete_mail s me ids).0
unfolding delete_mail pending_from pending_for
delete_mail-IsWithinQuota s me ids q = record {
  from = λ x y. omega (
    arith,
    q.from x y,
    delete_rows-shrinks (λ (m : MailRow). m.sender == x && m.recipient == y) me ids s.mail,
  );
  for = λ y.
      omega (arith, q.for y, delete_rows-shrinks (λ (m : MailRow). m.recipient == y) me ids s.mail);
}

sweep-IsWithinQuota : (s : HubStore) (t now : ℕ) → IsWithinQuota s → IsWithinQuota (sweep s t now).0
unfolding sweep pending_from pending_for
sweep-IsWithinQuota s t now q = record {
  from = λ x y. omega (
    arith,
    q.from x y,
    length-filter-filter (λ (m : MailRow). m.sender == x && m.recipient == y)
        (λ (m : MailRow). not (ltb (as_i64 m.received_ms) (as_i64 (now - t)))) s.mail,
  );
  for = λ y. omega (
    arith,
    q.for y,
    length-filter-filter (λ (m : MailRow). m.recipient == y)
        (λ (m : MailRow). not (ltb (as_i64 m.received_ms) (as_i64 (now - t)))) s.mail,
  );
}

-- only the table of mail matters
same_mail : {s t : HubStore} → t.mail ≡ s.mail → IsWithinQuota s → IsWithinQuota t
unfolding pending_from pending_for
same_mail p q = record { from = λ x y. rw p (q.from x y); for = λ y. rw p (q.for y) }

module _ (c : Crypto) (f : Formats) where
  post-IsWithinQuota :
      (s : HubStore) (path body : Bytes) (now : ℕ)
      → IsWithinQuota s
      → IsWithinQuota (handle_post_mail c f s path body now).1
  unfolding handle_post_mail
  post-IsWithinQuota s path body now q = elim (Result-cases (admit_mail c f s path body)) [
    | inl (e, p) ↦
        let (_, _, _, _, sender_room, mailbox_room) = (admit_mail_exact c f s path body e).0 p in
        rw (p, handle_post_mail)
          (put_mail-IsWithinQuota s e.sender e.recipient body now q sender_room mailbox_room)
    | inr (x, p) ↦ rw (p, handle_post_mail) q
  ]

  delete-IsWithinQuota :
      (s : HubStore) (h : Headers) (body : Bytes) (now : ℕ)
      → IsWithinQuota s
      → IsWithinQuota (handle_delete_mail c f s h body now).1
  unfolding handle_delete_mail
  delete-IsWithinQuota s h body now q = elim (Result-cases (admit_delete c f h body now)) [
    | inl ((me, ids), p) ↦ rw (p, handle_delete_mail) (delete_mail-IsWithinQuota s me ids q)
    | inr (x, p) ↦ rw (p, handle_delete_mail) q
  ]

  mail-put_prekey : (s : HubStore) (body : Bytes) → (handle_put_prekey c f s body).1.mail ≡ s.mail
  unfolding handle_put_prekey put_prekey
  mail-put_prekey s body = elim (Result-cases (admit_prekey c f body)) [
    | inl (p, h) ↦ rw (h, handle_put_prekey)
    | inr (x, h) ↦ rw (h, handle_put_prekey)
  ]

  mail-put_room :
      (s : HubStore) (path body : Bytes) → (handle_put_room c f s path body).1.mail ≡ s.mail
  unfolding handle_put_room put_room
  mail-put_room s path body = elim (Result-cases (admit_log c f path body)) [
    | inl ((id, n), h) ↦ rw (h, handle_put_room)
    | inr (x, h) ↦ rw (h, handle_put_room)
  ]

  serve-IsWithinQuota : (s : HubStore) (e : Event) → IsWithinQuota s → IsWithinQuota (serve c f s e)
  unfolding serve
  serve-IsWithinQuota s (put_prekey_request body) q = same_mail (mail-put_prekey s body) q
  serve-IsWithinQuota s (post_mail_request path body now) q = post-IsWithinQuota s path body now q
  serve-IsWithinQuota s (delete_mail_request h body now) q = delete-IsWithinQuota s h body now q
  serve-IsWithinQuota s (put_room_request path body) q = same_mail (mail-put_room s path body) q
  serve-IsWithinQuota s (sweep_round now) q = sweep-IsWithinQuota s ttl now q

  -- Whatever requests and sweeps the hub has handled, one after another, no sender has more than
  -- 200 messages waiting for one recipient and no mailbox holds more than 2000, if that was so
  -- at the start.
  pub serve_all-IsWithinQuota :
      (s : HubStore) (es : List Event) → IsWithinQuota s → IsWithinQuota (serve_all c f s es)
  unfolding serve_all
  serve_all-IsWithinQuota s [] q = q
  serve_all-IsWithinQuota s (e ∷ es) q =
      serve_all-IsWithinQuota (serve c f s e) es (serve-IsWithinQuota s e q)
