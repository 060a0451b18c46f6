-- ===== src/Hub.antt =====
-- crates/wicara-hub/src/main.rs: the hub's handlers over its tables. A handler takes the store and
-- the request and gives the response and the store. Paths, headers and bodies arrive as bytes; the
-- hexadecimal decoder, the parser of a header's number and postcard are parameters.
pub mod Tables
pub mod Admission
pub mod Quotas
pub mod Mailbox
pub mod Registry
use wicara.Prelude.{
  ℕ, ◌*◌, Option, List, [], ◌∷◌, Bytes, Text, bytes_eq, nat_eq, ◌==◌, ltb, leb, if◌then◌else◌,
  Result, ok, err, ◌>>=◌, ◌>>◌, ensure, ok_or, map_err, length,
}
use wicara.Crypto.{Crypto, Codec}
use wicara.E2e.{Envelope, SignedPrekey, E2eError, verify, verify_envelope_signature, verify_auth}
use wicara.Room.{RoomOp, RoomEntry, RoomError, verify_log}
use wicara.Hub.Tables.{
  HubStore, put_prekey, prekey, put_mail, pending_from, pending_for, mail_for, delete_mail,
  put_room, room, sweep,
}

abbrev pub max_envelope : ℕ
max_envelope = 64 * 1024

abbrev pub quota_per_sender : ℕ
quota_per_sender = 200

abbrev pub quota_per_recipient : ℕ
quota_per_recipient = 2000

-- in milliseconds, as `sweep` uses it
abbrev pub ttl : ℕ
ttl = 7 * 24 * 60 * 60 * 1000

-- `Error(StatusCode, String)`, by what the string says; `status` gives the code
pub data HubError : Type 0 where
  bad_prekey bad_envelope unauthorized : E2eError → HubError
  bad_log : RoomError → HubError
  not_hex not_32_bytes malformed_body other_recipient other_room : HubError
  missing_header bad_timestamp signature_not_hex : HubError
  no_prekey no_room envelope_too_large sender_quota mailbox_full log_not_longer not_encoded :
      HubError

unfoldable pub status : HubError → ℕ
status (bad_prekey e) = 400
status (bad_envelope e) = 400
status (unauthorized e) = 401
status (bad_log e) = 400
status not_hex = 400
status not_32_bytes = 400
status malformed_body = 400
status other_recipient = 400
status other_room = 400
status missing_header = 401
status bad_timestamp = 401
status signature_not_hex = 401
status no_prekey = 404
status no_room = 404
status envelope_too_large = 413
status sender_quota = 429
status mailbox_full = 429
status log_not_longer = 409
status not_encoded = 500

-- the three headers that `authenticate` reads; `none` if a header is missing or not text
pub record Headers : Type 0 where
  pub endpoint : Option Text
  pub timestamp : Option Text
  pub signature : Option Text

-- what the handlers call and the crate does not implement
pub record Formats : Type 0 where
  pub prekeys : Codec SignedPrekey
  pub envelopes : Codec Envelope
  pub logs : Codec (List RoomEntry)
  pub ids : Codec (List ℕ)
  pub mail : Codec (List (ℕ × Envelope))
  pub ops : Codec RoomOp
  -- `str::trim`, `HEXLOWER_PERMISSIVE.decode`, `str::parse::<u64>`
  pub trim : Text → Text
  pub from_hex : Text → Option Bytes
  pub parse_number : Text → Option ℕ

-- what happens to the hub, one event at a time: a request, or a round of the sweeper
pub data Event : Type 0 where
  put_prekey_request : Bytes → Event
  post_mail_request : Text → Bytes → ℕ → Event
  delete_mail_request : Headers → Bytes → ℕ → Event
  put_room_request : Text → Bytes → Event
  sweep_round : ℕ → Event

module _ (c : Crypto) (f : Formats) where
  unfoldable pub parse_endpoint : Text → Result HubError Bytes
  parse_endpoint hex = do
    bytes ← ok_or (f.from_hex (f.trim hex)) not_hex
    if length bytes == 32 then ok bytes else err not_32_bytes

  unfoldable pub authenticate : Headers → ℕ → Result HubError Bytes
  authenticate h now = do
    endpoint_text ← ok_or h.endpoint missing_header
    endpoint ← parse_endpoint endpoint_text
    ts_text ← ok_or h.timestamp missing_header
    ts ← ok_or (f.parse_number ts_text) bad_timestamp
    signature_text ← ok_or h.signature missing_header
    signature ← ok_or (f.from_hex signature_text) signature_not_hex
    map_err (verify_auth c endpoint ts signature now) unauthorized
    ok endpoint

  -- the checks of `put_prekey`
  unfoldable pub admit_prekey : Bytes → Result HubError SignedPrekey
  admit_prekey body = do
    p ← ok_or (f.prekeys.from_bytes body) malformed_body
    v ← map_err (verify c p p.owner) bad_prekey
    ok p

  -- `put_prekey`: 204, or the error
  unfoldable pub handle_put_prekey : HubStore → Bytes → Result HubError (Unit {0}) × HubStore
  handle_put_prekey s body = elim (admit_prekey body) [
    | err e ↦ (err e, s)
    | ok p ↦ (ok tt, put_prekey s p body)
  ]

  unfoldable pub handle_get_prekey : HubStore → Text → Result HubError Bytes
  handle_get_prekey s endpoint = do
    owner ← parse_endpoint endpoint
    ok_or (prekey s owner) no_prekey

  -- the checks of `post_mail`, in their order: what is to be stored for whom
  unfoldable pub admit_mail : HubStore → Text → Bytes → Result HubError Envelope
  admit_mail s path body = do
    ensure (leb (length body) max_envelope) envelope_too_large
    recipient ← parse_endpoint path
    e ← ok_or (f.envelopes.from_bytes body) malformed_body
    ensure (e.recipient == recipient) other_recipient
    map_err (verify_envelope_signature c e) bad_envelope
    ensure (ltb (pending_from s e.sender recipient) quota_per_sender) sender_quota
    ensure (ltb (pending_for s recipient) quota_per_recipient) mailbox_full
    ok e

  -- `post_mail`: 202, or the error
  unfoldable pub handle_post_mail :
      HubStore → Text → Bytes → ℕ → Result HubError (Unit {0}) × HubStore
  handle_post_mail s path body now = elim (admit_mail s path body) [
    | err e ↦ (err e, s)
    | ok e ↦ (ok tt, put_mail s e.sender e.recipient body now)
  ]

  unfoldable pub handle_get_mail : HubStore → Headers → ℕ → Result HubError Bytes
  handle_get_mail s h now = do
    me ← authenticate h now
    ok_or (f.mail.to_stdvec (mail_for f.envelopes s me)) not_encoded

  -- the checks of `delete_mail`: whose mail, and which rows; row ids are positive, so the negative
  -- numbers of an `i64` are left out
  unfoldable pub admit_delete : Headers → Bytes → ℕ → Result HubError (Bytes × List ℕ)
  admit_delete h body now = do
    me ← authenticate h now
    ids ← ok_or (f.ids.from_bytes body) malformed_body
    ok (me, ids)

  unfoldable pub handle_delete_mail :
      HubStore → Headers → Bytes → ℕ → Result HubError (Unit {0}) × HubStore
  handle_delete_mail s h body now = elim (admit_delete h body now) [
    | err e ↦ (err e, s)
    | ok (me, ids) ↦ (ok tt, (delete_mail s me ids).0)
  ]

  -- the checks of `put_room`: the id and the length of the log
  unfoldable pub admit_log : Text → Bytes → Result HubError (Bytes × ℕ)
  admit_log path body = do
    id ← parse_endpoint path
    entries ← ok_or (f.logs.from_bytes body) malformed_body
    r ← map_err (verify_log c f.ops entries) bad_log
    ensure (r.id == id) other_room
    ok (id, length entries)

  -- `put_room`: 204, or the error
  unfoldable pub handle_put_room : HubStore → Text → Bytes → Result HubError (Unit {0}) × HubStore
  handle_put_room s path body = elim (admit_log path body) [
    | err e ↦ (err e, s)
    | ok (id, len) ↦
        let (s', changed) = put_room s id len body in
        (if changed then ok tt else err log_not_longer, s')
  ]

  unfoldable pub handle_get_room : HubStore → Text → Result HubError Bytes
  handle_get_room s path = do id ← parse_endpoint path; ok_or (room s id) no_room

  unfoldable pub serve : HubStore → Event → HubStore
  serve s (put_prekey_request body) = (handle_put_prekey s body).1
  serve s (post_mail_request path body now) = (handle_post_mail s path body now).1
  serve s (delete_mail_request h body now) = (handle_delete_mail s h body now).1
  serve s (put_room_request path body) = (handle_put_room s path body).1
  serve s (sweep_round now) = (sweep s ttl now).0

  unfoldable pub serve_all : HubStore → List Event → HubStore
  serve_all s [] = s
  serve_all s (e ∷ es) = serve_all (serve s e) es

-- `HubStore::open` on a new file
abbrev pub empty_store : HubStore
empty_store = record { prekeys = []; mail = []; rooms = [] }
