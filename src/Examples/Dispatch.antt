-- ===== src/Examples/Dispatch.antt =====
-- A client that writes to one peer, gives another a name, and forgets a conversation; and a letter that waits
-- for an endpoint that is away.
use wicara.Prelude.{
  ◌+◌, ◌≤◌, ◌<◌, ◌≡◌, refl, ◌⊎◌, true, false, some, none, List, [], ◌∷◌, ◌++◌, Bytes, codes,
  bytes_eq, nat_eq, any, All, length, take, drop, take-append, drop-append, replicate, ok,
  Bytes-discrete, ℕ_discrete, to_le_bytes, arith,
}
use wicara.Crypto.{Codec, CodecLaws}
use wicara.E2e.{Envelope, open_envelope, seal, envelope_key, binding, envelope_transcript}
use wicara.Vault
use wicara.Wire.{in_room, Frame, mint, MessageId-discrete, new_counter, frame_id, display}
use wicara.Store.Tables.{
  Store, signed, add_contact, find_setting, upsert_setting, file_key, setting, set_setting, next_id,
  record_op, insert_op, is_key,
}
use wicara.Store.History.{
  Message, earlier, ops_of, place_of, push_message, tally, sort_reactions, apply_frame, with_path,
  load_row, fold_row, fold_rows, settle, newest, history,
}
use wicara.Store.Erase.{delete_setting, delete_settings, paths, whole}
use wicara.Store.Erase
use wicara.Hub.Tables.{mail_for, pending_from, pending_for, last_id}
use wicara.Hub.{
  Formats, max_envelope, quota_per_sender, quota_per_recipient, handle_post_mail, empty_store,
  parse_endpoint,
}
use wicara.Ui.{UiCommand}
use wicara.App.{App, Codecs, find_known}
use wicara.App.Mail.{mail_body}
use wicara.App.Names.{
  nick_key, alias_key, names_of, remember_nick, name_peer, nick_keeps_alias, alias_goes_by_prefix,
}
use wicara.App.Sending.{Send, deliver_to, deliver}
use wicara.App.Dispatch.{
  Client, unlink_all, close, message_frame, dispatch_frame, dispatch_message, forget_peer,
}
use wicara.App.Dispatch.Recorded.{sent_is_recorded}
use wicara.App.Dispatch.Forgotten.{IsForgotten, forget_peer-IsForgotten}
use wicara.App.Delivered.{mail_reaches_owner}
use wicara.Examples.Toy.{value, toy, toy_ops, toy_signatures, toy_exchange, toy_cipher}
use wicara.Examples.Sealing.{alice, bob, bob_seed, bob_verified, letter, nonce}
use wicara.Examples.Sealing
use wicara.Examples.Hub.{formats}
use wicara.Examples.Client.{empty, one_frame, greeting}

-- a key that agrees with bob's in all but the last byte
abbrev impostor : Bytes
impostor = 8 ∷ (replicate 30 0 ++ 1 ∷ [])

nick_keeps_alias_example :
    (names_of toy (remember_nick toy empty bob (codes "bo") (some nonce)) impostor).1
    ≡ (names_of toy empty impostor).1
nick_keeps_alias_example = nick_keeps_alias toy empty bob impostor (codes "bo") (some nonce)

abbrev with_name : Store
with_name = value empty (name_peer toy empty bob (some (codes "bo")) (some nonce))

abbrev codecs : Codecs
codecs = record {
  frames = one_frame;
  logs = record { to_stdvec = λ _. some (0 ∷ []); from_bytes = λ _. none };
  ops = toy_ops;
}

abbrev client : Client
client = record {
  app = record { me = alice; identity = 7 ∷ []; store = empty; rooms = [] };
  live = bob ∷ [];
  prekeys = (bob, bob_verified) ∷ [];
  disk = (codes "f", 1 ∷ []) ∷ [];
}

abbrev command : UiCommand
command = UiCommand.send bob (codes "hi") none

abbrev said : Send
said = deliver_to (λ _. true) true bob (Frame.chat (next_id empty 5).1 (codes "hi") none)

abbrev written : App
written = record client.app {
  store =
      (value (empty, false)
        (record_op toy one_frame (next_id empty 5).0 bob
          (Frame.chat (next_id empty 5).1 (codes "hi") none) (some nonce))).0;
}

abbrev stored : Store
stored = (value (empty, false) (record_op toy one_frame empty bob greeting (some nonce))).0

abbrev talking : Client
talking = record client { app = record client.app { store = stored } }

abbrev after : Client
after = (forget_peer toy codecs (λ _. true) talking bob).0

runs :
    (name_peer toy empty bob (some (codes "bo")) (some nonce) ≡ ok with_name)
    × (dispatch_message toy codecs (λ x. x) client.app (λ _. true) true command 5 (some nonce)
        ≡ some (written, said ∷ []))
    × (forget_peer toy codecs (λ _. true) talking bob ≡ (after, ok 0))
unfolding Vault.seal Vault.open_blob name_peer set_setting upsert_setting alias_key nick_key
    message_frame dispatch_frame dispatch_message forget_peer close unlink_all deliver deliver_to
    MessageId-discrete frame_id new_counter display signed add_contact is_key insert_op find_setting
    file_key setting record_op next_id earlier ops_of place_of push_message tally sort_reactions
    apply_frame with_path load_row fold_row fold_rows settle newest history delete_setting
    delete_settings paths whole Erase.forget find_known mint Bytes-discrete ℕ_discrete
runs = (refl, refl, refl)

alias_goes_by_prefix_example : (names_of toy with_name impostor).1 ≡ some (codes "bo")
alias_goes_by_prefix_example =
    alias_goes_by_prefix toy empty with_name bob impostor 98 (codes "o") nonce toy_cipher refl refl
      runs.0

forget_peer-IsForgotten_example :
    (msgs : List Message) × IsForgotten toy codecs (λ _. true) bob msgs talking after
forget_peer-IsForgotten_example =
    forget_peer-IsForgotten toy codecs (λ _. true) talking after bob 0 runs.2

sent_is_recorded_example :
    let id = (next_id empty 5).1 in
    (peer : Bytes) × (frame : Frame) × (message_frame (λ x. x) command id ≡ some (peer, frame))
    × (frame_id frame ≡ some id)
    × All (λ (s : Send). (s.frame ≡ frame) ⊎ (s.frame ≡ in_room peer frame)) (said ∷ [])
    × (any (is_key id) written.store.ops ≡ true)
sent_is_recorded_example =
    sent_is_recorded toy codecs (λ x. x) client.app written (λ _. true) true command 5 (some nonce)
      said [] runs.1

-- a field in front of what follows it, with its length
abbrev field : Bytes → Bytes → Bytes
field x rest = length x ∷ (x ++ rest)

abbrev field_of : Bytes → Bytes × Bytes
field_of [] = ([], [])
field_of (n ∷ bytes) = (take n bytes, drop n bytes)

abbrev fields : Codec Envelope
fields = record {
  to_stdvec = λ e. some (
      field e.sender (
        field e.recipient (
          field e.ephemeral
            (field e.prekey (field e.nonce (field e.ciphertext (field e.signature [])))))));
  from_bytes = λ bytes.
      let sender = field_of bytes in
      let recipient = field_of sender.1 in
      let ephemeral = field_of recipient.1 in
      let prekey = field_of ephemeral.1 in
      let nonce = field_of prekey.1 in
      let ciphertext = field_of nonce.1 in
      let signature = field_of ciphertext.1 in
      some (record {
        sender = sender.0;
        recipient = recipient.0;
        ephemeral = ephemeral.0;
        prekey = prekey.0;
        nonce = nonce.0;
        ciphertext = ciphertext.0;
        signature = signature.0;
      });
}

fields_laws : CodecLaws fields
fields_laws = record {
  decode_encoded = λ e bytes h.
      let back : fields.from_bytes (
            field e.sender (
              field e.recipient (
                field e.ephemeral
                  (field e.prekey (field e.nonce (field e.ciphertext (field e.signature [])))))))
          ≡ some e =
        simp (take-append, drop-append) in
      cc;
}

abbrev post : Formats
post = record formats { envelopes = fields }

abbrev body : Bytes
body =
    value [] (mail_body toy post (λ x. x) (7 ∷ []) bob_verified (codes "hi") (33 ∷ []) (some nonce))

posted :
    (mail_body toy post (λ x. x) (7 ∷ []) bob_verified (codes "hi") (33 ∷ []) (some nonce)
      ≡ ok body)
    × (length body ≤ max_envelope)
    × (parse_endpoint toy post bob ≡ ok bob)
    × (pending_from empty_store alice bob < quota_per_sender)
    × (pending_for empty_store bob < quota_per_recipient)
unfolding mail_body seal envelope_key binding envelope_transcript parse_endpoint pending_from
    pending_for to_le_bytes Bytes-discrete ℕ_discrete
posted = (refl, omega arith, refl, omega arith, omega arith)

mail_reaches_owner_example :
    let (answer, s') = handle_post_mail toy post empty_store bob body 9 in
    (e : Envelope) × (answer ≡ ok tt)
    × (mail_for post.envelopes s' bob
        ≡ mail_for post.envelopes empty_store bob ++ (last_id empty_store.mail + 1, e) ∷ [])
    × (open_envelope toy e (21 ∷ []) bob ≡ ok (codes "hi", alice))
mail_reaches_owner_example =
    mail_reaches_owner toy post toy_signatures toy_exchange toy_cipher fields_laws (λ x. x)
      empty_store bob 9 (7 ∷ []) bob_seed (21 ∷ []) 5 bob_verified (codes "hi") (33 ∷ [])
      (some nonce) body Sealing.runs.0 posted.0 posted.1 posted.2 posted.3 posted.4
