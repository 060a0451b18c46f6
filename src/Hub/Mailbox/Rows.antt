-- ===== src/Hub/Mailbox/Rows.antt =====
-- Rows of the table of mail (crates/wicara-hub/src/store.rs) as they are added, read and deleted.
use wicara.Prelude.{
  ℕ, ◌+◌, ◌<◌, ◌≡◌, ◌≢◌, refl, ◌∙◌, Bool, not, ◌&&◌, some, List, [], ◌∷◌, ◌++◌, append-nil, Bytes,
  bytes_eq, Bytes-discrete, nat_eq, ◌==◌, if◌then◌else◌, filter, filter-append, any, inl, inr,
  ==-refl, Bool-cases, arith,
}
use wicara.Crypto.{Codec}
use wicara.E2e.{Envelope}
use wicara.Hub.Tables.{
  HubStore, MailRow, put_mail, decoded, mail_for, keeps_row, delete_rows, delete_mail, last_id,
}

abbrev pub mine : Bytes → MailRow → Bool
mine y m = m.recipient == y

pub decoded-append :
    (p : Codec Envelope) (xs ys : List MailRow)
    → decoded p (xs ++ ys) ≡ decoded p xs ++ decoded p ys
unfolding decoded
decoded-append p [] ys = refl
decoded-append p (x ∷ xs) ys = ground (arith, decoded-append p xs ys)

pub filter_snoc {ℓ} :
    {A : Type ℓ} (p : A → Bool) (xs : List A) (x : A)
    → filter p (xs ++ x ∷ []) ≡ (if p x then filter p xs ++ x ∷ [] else filter p xs)
filter_snoc p xs x = rw filter-append (ground (arith, append-nil (filter p xs)))

-- What is stored for a recipient is last in its mail, and nobody else's mail changes.
pub mail_for-put_mail :
    (p : Codec Envelope) (s : HubStore) (a b blob : Bytes) (now : ℕ) (e : Envelope) (y : Bytes)
    → p.from_bytes blob ≡ some e
    → mail_for p (put_mail s a b blob now) y
      ≡ (if b == y then mail_for p s y ++ (last_id s.mail + 1, e) ∷ [] else mail_for p s y)
unfolding mail_for put_mail decoded
mail_for-put_mail p s a b blob now e y h =
    let row : MailRow = record {
      id = last_id s.mail + 1;
      recipient = b;
      sender = a;
      received_ms = now;
      blob = blob;
    } in
    let parts = decoded-append p (filter (mine y) s.mail) (row ∷ []) in
    elim (Bool-cases (b == y)) [
      | inl same ↦ rw (filter_snoc, same, parts) (ground (arith, h))
      | inr other ↦ rw (filter_snoc, other)
    ]

pub filter-keeps_others :
    (me y : Bytes) (id : ℕ) (ms : List MailRow)
    → y ≢ me
    → filter (mine y) (filter (keeps_row me id) ms) ≡ filter (mine y) ms
filter-keeps_others me y id [] h = refl
filter-keeps_others me y id (m ∷ ms) h = ground (arith, filter-keeps_others me y id ms h)

pub delete_rows-others :
    (me y : Bytes) (ids : List ℕ) (ms : List MailRow)
    → y ≢ me
    → filter (mine y) (delete_rows me ids ms) ≡ filter (mine y) ms
unfolding delete_rows
delete_rows-others me y [] ms h = refl
delete_rows-others me y (id ∷ ids) ms h =
    delete_rows-others me y ids (filter (keeps_row me id) ms) h ∙ filter-keeps_others me y id ms h

-- the recipient's rows whose ids are not listed
abbrev pub left_over : Bytes → List ℕ → MailRow → Bool
left_over me ids m = mine me m && not (any (λ i. m.id == i) ids)

pub left_over-filter :
    (me : Bytes) (id : ℕ) (ids : List ℕ) (ms : List MailRow)
    → filter (left_over me ids) (filter (keeps_row me id) ms) ≡ filter (left_over me (id ∷ ids)) ms
left_over-filter me id ids [] = refl
left_over-filter me id ids (m ∷ ms) = ground (arith, left_over-filter me id ids ms)

pub left_over-none :
    (me : Bytes) (ms : List MailRow) → filter (mine me) ms ≡ filter (left_over me []) ms
left_over-none me [] = refl
left_over-none me (m ∷ ms) = ground (arith, left_over-none me ms)

pub delete_rows-own :
    (me : Bytes) (ids : List ℕ) (ms : List MailRow)
    → filter (mine me) (delete_rows me ids ms) ≡ filter (left_over me ids) ms
unfolding delete_rows
delete_rows-own me [] ms = left_over-none me ms
delete_rows-own me (id ∷ ids) ms =
    delete_rows-own me ids (filter (keeps_row me id) ms) ∙ left_over-filter me id ids ms

-- what a deletion leaves of anyone's rows
pub delete_rows_lem :
    (me y : Bytes) (ids : List ℕ) (ms : List MailRow)
    → filter (mine y) (delete_rows me ids ms)
      ≡ (if y == me then filter (left_over me ids) ms else filter (mine y) ms)
delete_rows_lem me y ids ms = elim (Bytes-discrete y me) [
  | yes same ↦ rw (same, ==-refl me) (delete_rows-own me ids ms)
  | no other ↦ let kept = delete_rows-others me y ids ms other in ground (arith, kept, other)
]

-- an id that no row has reached deletes nothing
pub keeps_older :
    (b : Bytes) (id : ℕ) (ms : List MailRow) → last_id ms < id → filter (keeps_row b id) ms ≡ ms
unfolding last_id
keeps_older b id [] h = refl
keeps_older b id (m ∷ ms) h = ground (arith, keeps_older b id ms)

pub delete_newest :
    (s : HubStore) (a b m : Bytes) (t : ℕ)
    → (delete_mail (put_mail s a b m t) b ((last_id s.mail + 1) ∷ [])).0 ≡ s
unfolding delete_mail delete_rows put_mail
delete_newest s a b m t =
    let old = keeps_older b (last_id s.mail + 1) s.mail (omega arith) in
    rw (filter-append, old, ==-refl (last_id s.mail + 1), ==-refl b, append-nil)
