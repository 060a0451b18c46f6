-- ===== src/App/Mail.antt =====
-- The client's mail: what crates/wicara/src/hub.rs sends to the hub and does with its answers, and a round
-- of `mailbox_loop` and `mail_to` of crates/wicara/src/main.rs. The requests themselves are arguments:
-- what the hub answered. `to_hex` is `HEXLOWER.encode`.
use wicara.Prelude.{
  ℕ, ◌*◌, Bool, not, ◌&&◌, Option, none, some, List, [], ◌∷◌, Bytes, Text, bytes_eq, nat_eq, ◌==◌,
  ltb, leb, if◌then◌else◌, length, Result, ok, err, ◌>>=◌, ◌>>◌, ensure, ok_or, map_err,
}
use wicara.Crypto.{Crypto}
use wicara.E2e.{Envelope, VerifiedPrekey, new_prekey, verify, seal, sign_auth}
use wicara.Wire.{Frame, decimal}
use wicara.Hub.{Formats, Headers}
use wicara.App.{
  App, AppError, Answer, no_hub_configured, failed, answered, Codecs, envelope_failed, no_hub,
  unreachable, no_prekey, refused, reply_too_large, reply_not_decoded, not_encoded, absorb,
}

abbrev pub max_prekey_reply : ℕ
max_prekey_reply = 4 * 1024

abbrev pub max_mail_reply : ℕ
max_mail_reply = 32 * 1024 * 1024

unfoldable pub is_success : ℕ → Bool
is_success status = leb 200 status && ltb status 300

-- `limited`, on the body that the hub sends
unfoldable pub limited : Bytes → ℕ → Result AppError Bytes
limited body cap = if leb (length body) cap then ok body else err reply_too_large

-- the end of a request whose answer has no body of interest
unfoldable pub settled : Answer → Result AppError (Unit {0})
settled no_hub_configured = err no_hub
settled failed = err unreachable
settled (answered status body) = ensure (is_success status) refused

module _ (c : Crypto) (f : Formats) (to_hex : Bytes → Text) where
  -- `Hub::auth`
  unfoldable pub auth : Bytes → ℕ → Headers
  auth identity now = record {
    endpoint = some (to_hex (c.verifying_key identity));
    timestamp = some (decimal 20 now);
    signature = some (to_hex (sign_auth c identity now));
  }

  -- the body that `Hub::publish_prekey` sends
  unfoldable pub prekey_body : Bytes → Bytes → ℕ → Result AppError Bytes
  prekey_body identity secret now =
      ok_or (f.prekeys.to_stdvec (new_prekey c identity secret now)) not_encoded

  -- `Hub::prekey_for`
  unfoldable pub prekey_for : Answer → Bytes → Result AppError VerifiedPrekey
  prekey_for no_hub_configured owner = err no_hub
  prekey_for failed owner = err unreachable
  prekey_for (answered status body) owner = do
    ensure (not (status == 404)) no_prekey
    ensure (is_success status) refused
    reply ← limited body max_prekey_reply
    signed ← ok_or (f.prekeys.from_bytes reply) reply_not_decoded
    map_err (verify c signed owner) envelope_failed

  -- the body that `Hub::mail` sends
  unfoldable pub mail_body :
      Bytes → VerifiedPrekey → Bytes → Bytes → Option Bytes → Result AppError Bytes
  mail_body identity to plaintext ephemeral nonce = do
    e ← map_err (seal c identity to plaintext ephemeral nonce) envelope_failed
    ok_or (f.envelopes.to_stdvec e) not_encoded

  -- `Hub::fetch_mail`
  unfoldable pub fetch_mail : Answer → Result AppError (List (ℕ × Envelope))
  fetch_mail no_hub_configured = err no_hub
  fetch_mail failed = err unreachable
  fetch_mail (answered status body) = do
    ensure (is_success status) refused
    reply ← limited body max_mail_reply
    ok_or (f.mail.from_bytes reply) reply_not_decoded

  -- `Hub::delete_mail`: the body that it sends, if it sends one
  unfoldable pub delete_body : List ℕ → Result AppError (Option Bytes)
  delete_body [] = ok none
  delete_body (row ∷ rows) = do
    body ← ok_or (f.ids.to_stdvec (row ∷ rows)) not_encoded
    ok (some body)

  unfoldable pub find_prekey_of : Bytes → List (Bytes × VerifiedPrekey) → Option VerifiedPrekey
  find_prekey_of peer [] = none
  find_prekey_of peer (x ∷ xs) = if x.0 == peer then some x.1 else find_prekey_of peer xs

  -- `mail_to`, up to the request: the body, and the prekeys that are held afterwards
  unfoldable pub mail_to :
      Codecs
      → Bytes
      → List (Bytes × VerifiedPrekey)
      → Answer
      → Bytes
      → Frame
      → Bytes
      → Option Bytes
      → Result AppError Bytes × List (Bytes × VerifiedPrekey)
  mail_to k identity prekeys answer peer frame ephemeral nonce =
      let body = λ (to : VerifiedPrekey).
        ok_or (k.frames.to_stdvec frame) not_encoded >>= λ plaintext.
        mail_body identity to plaintext ephemeral nonce in
      elim (find_prekey_of peer prekeys) [
        | some to ↦ (body to, prekeys)
        | none ↦ elim (prekey_for answer peer) [
          | err e ↦ (err e, prekeys)
          | ok to ↦ (body to, (peer, to) ∷ prekeys)
        ]
      ]

-- one round over the fetched mail: the state, and the rows to delete, which are those that were
-- accepted; each row has its own answers and nonces
module _ (c : Crypto) (k : Codecs) where
  unfoldable pub drain :
      (ℕ → Answer)
      → (ℕ → Option Bytes × Option Bytes)
      → Bytes
      → App
      → List (ℕ × Envelope)
      → App × List ℕ
  drain answers nonces secret a [] = (a, [])
  drain answers nonces secret a ((row, e) ∷ mail) =
      let (r, a') = absorb c k a (answers row) secret e (nonces row).0 (nonces row).1 in
      let (a'', collected) = drain answers nonces secret a' mail in
      (a'', elim r [ ok _ ↦ row ∷ collected | err _ ↦ collected ])
