-- ===== src/Examples/Hub.antt =====
-- A hub that takes a prekey, a letter and a room's log, and hands them out.
use wicara.Prelude.{
  ℕ, ◌≤◌, ◌≡◌, ◌≢◌, refl, ◌⊎◌, some, List, [], ◌∷◌, Bytes, bytes_eq, nat_eq, ◌==◌, if◌then◌else◌,
  filter, ok, Bytes-discrete, ℕ_discrete, to_le_bytes, arith,
}
use wicara.Crypto.{Codec}
use wicara.Room.{
  is_admin, apply_op, transcript, new_entry, entry_hash, verify_signature, step, replay, found,
  verify_log,
}
use wicara.Room.Members.{contains, insert, remove}
use wicara.E2e.{
  prekey_transcript, binding, envelope_transcript, envelope_key, new_prekey, verify, seal,
  verify_envelope_signature, auth_transcript, abs_diff, sign_auth, verify_auth,
}
use wicara.Hub.Tables.{
  HubStore, RoomRow, upsert_prekey, put_prekey, find_prekey, prekey, last_id, put_mail,
  pending_from, pending_for, delete_rows, delete_mail, upsert_room, put_room, find_room, room,
  sweep,
}
use wicara.Hub.{
  Formats, Headers, Event, put_prekey_request, post_mail_request, delete_mail_request,
  put_room_request, sweep_round, parse_endpoint, authenticate, admit_prekey, admit_mail, admit_log,
  admit_delete, handle_put_prekey, handle_get_prekey, handle_post_mail, handle_delete_mail,
  handle_put_room, handle_get_room, serve, serve_all, empty_store,
}
use wicara.Hub.Quotas.{IsWithinQuota, serve_all-IsWithinQuota}
use wicara.Hub.Mailbox.Rows.{mine, left_over}
use wicara.Hub.Mailbox.{deletion_is_scoped, late_delete_loses_mail}
use wicara.Hub.Registry.{
  IsLogOf, IsVerified, serve_all-IsVerified, IsVerified-empty_store, room_answers_verify,
  rooms_never_shrink,
}
use wicara.Examples.Toy.{first, toy, toy_ops}
use wicara.Examples.Rooms.{log, den}
use wicara.Examples.Sealing.{alice, bob, bob_seed, bob_prekey, letter}

-- formats in which every body is the one value of its kind
abbrev always : {A : Type 0} → A → Codec A
always a = record { to_stdvec = λ _. some (0 ∷ []); from_bytes = λ _. some a }

abbrev pub formats : Formats
formats = record {
  prekeys = always bob_prekey;
  envelopes = always letter;
  logs = always log;
  ids = record { to_stdvec = some; from_bytes = some };
  mail = always [];
  ops = toy_ops;
  trim = λ text. text;
  from_hex = some;
  parse_number = λ text. some (first text);
}

abbrev body : Bytes
body = 0 ∷ []

abbrev headers : Headers
headers = record {
  endpoint = some bob;
  timestamp = some (1000 ∷ []);
  signature = some (sign_auth toy bob_seed 1000);
}

abbrev events : List Event
events =
    put_prekey_request body
    ∷ post_mail_request bob body 3
    ∷ put_room_request den.id body
    ∷ delete_mail_request headers (1 ∷ []) 2000
    ∷ sweep_round 4
    ∷ []

abbrev den_row : RoomRow
den_row = record { id = den.id; length = 2; blob = body }

runs :
    ((handle_post_mail toy formats empty_store bob body 3).0 ≡ ok tt)
    × (parse_endpoint toy formats bob ≡ ok bob)
    × (parse_endpoint toy formats den.id ≡ ok den.id)
    × (handle_get_room toy formats (serve_all toy formats empty_store events) den.id ≡ ok body)
    × (handle_get_prekey toy formats (serve_all toy formats empty_store events) bob ≡ ok body)
    × (find_room den.id (serve_all toy formats empty_store events).rooms ≡ some den_row)
unfolding is_admin apply_op transcript new_entry entry_hash verify_signature step replay found
    verify_log contains insert remove prekey_transcript binding envelope_transcript envelope_key
    new_prekey verify seal verify_envelope_signature auth_transcript abs_diff sign_auth verify_auth
    upsert_prekey put_prekey find_prekey prekey last_id put_mail pending_from pending_for
    delete_rows delete_mail upsert_room put_room find_room room sweep parse_endpoint authenticate
    admit_prekey admit_mail admit_log admit_delete handle_put_prekey handle_get_prekey
    handle_post_mail handle_delete_mail handle_put_room handle_get_room serve serve_all
    Bytes-discrete ℕ_discrete to_le_bytes
runs = (refl, refl, refl, refl, refl, refl)

within : IsWithinQuota empty_store
unfolding pending_from pending_for
within = record { from = λ x y. omega arith; for = λ y. omega arith }

serve_all-IsWithinQuota_example : IsWithinQuota (serve_all toy formats empty_store events)
serve_all-IsWithinQuota_example = serve_all-IsWithinQuota toy formats empty_store events within

abbrev waiting : HubStore
waiting = (handle_post_mail toy formats empty_store bob body 3).1

deletion_is_scoped_example :
    let (r, s') = handle_delete_mail toy formats waiting headers (1 ∷ []) 2000 in
    ((me : Bytes) × (ids : List ℕ) × (authenticate toy formats headers 2000 ≡ ok me)
      × (formats.ids.from_bytes (1 ∷ []) ≡ some ids)
      × (r ≡ ok tt)
      × (filter (mine bob) s'.mail ≡ (
          if bob == me
          then filter (left_over me ids) waiting.mail
          else filter (mine bob) waiting.mail))
      × (s'.prekeys ≡ waiting.prekeys)
      × (s'.rooms ≡ waiting.rooms))
    ⊎ ((r ≢ ok tt) × (s' ≡ waiting))
deletion_is_scoped_example = deletion_is_scoped toy formats waiting headers (1 ∷ []) 2000 bob

late_delete_loses_mail_example :
    (delete_mail
      (put_mail
        (delete_mail (put_mail empty_store alice bob body 3) bob (1 ∷ [])).0
        alice
        bob
        body
        4)
      bob
      (1 ∷ [])).0
    ≡ empty_store
unfolding last_id
late_delete_loses_mail_example = late_delete_loses_mail empty_store bob alice body alice body 3 4

serve_all-IsVerified_example : IsVerified toy formats (serve_all toy formats empty_store events)
serve_all-IsVerified_example =
    serve_all-IsVerified toy formats empty_store events (IsVerified-empty_store toy formats)

room_answers_verify_example : (n : ℕ) × IsLogOf toy formats den.id body n
room_answers_verify_example =
    room_answers_verify toy formats events den.id den.id body runs.2 runs.3

rooms_never_shrink_example :
    let s = serve_all toy formats empty_store events in
    (r : RoomRow) × (find_room den.id (serve_all toy formats s events).rooms ≡ some r)
    × (2 ≤ r.length)
rooms_never_shrink_example =
    rooms_never_shrink toy formats (serve_all toy formats empty_store events) events den.id den_row
      runs.5
