-- ===== src/Examples/Client.antt =====
-- A client's store with one message in it.
use wicara.Prelude.{
  ◌-◌, ◌^◌, ◌<◌, ◌≡◌, refl, true, false, none, some, [], ◌∷◌, bytes_eq, nat_eq, ◌==◌, codes, any,
  filter, All, ok, Bytes-discrete, ℕ_discrete, arith,
}
use wicara.Crypto.{Codec}
use wicara.Vault.{seal, open_blob}
use wicara.Wire.{MessageId, MessageId-discrete, Frame, chat, new_counter, frame_id, display}
use wicara.Store.Tables.{
  OpRow, Store, signed, add_contact, add_peers, add_rooms, max_seq, resume, first_sealed, is_key,
  insert_op, find_setting, file_key, next_id, check_belongs_here, open_store, setting, record_op,
}
use wicara.Store.History.{
  Message, Fold, nothing_yet, earlier, ops_of, place_of, push_message, tally, sort_reactions,
  apply_frame, with_path, load_row, fold_row, fold_rows, settle, newest, history,
}
use wicara.Store.Erase.{delete_setting, delete_settings, paths, whole, forget, clear}
use wicara.Store.Replay.{record_op-again, minted_is_new}
use wicara.Store.Authors.{only_the_author}
use wicara.Examples.Toy.{value, toy}
use wicara.Examples.Sealing.{alice, bob, nonce}

abbrev pub first_id : MessageId
first_id = record { sender = alice; seq = 1; ts_ms = 5 }

abbrev pub greeting : Frame
greeting = chat first_id (codes "hi") none

-- a format in which every payload is the one frame
abbrev pub one_frame : Codec Frame
one_frame = record { to_stdvec = λ _. some (0 ∷ []); from_bytes = λ _. some greeting }

abbrev pub empty : Store
empty = record {
  ops = [];
  logs = [];
  settings = [];
  contacts = [];
  vault = 4 ∷ [];
  counter = record { sender = alice; seq = 0 };
  me = alice;
}

abbrev stored : Store
stored = (value (empty, false) (record_op toy one_frame empty bob greeting (some nonce))).0

abbrev cleared : Store
cleared = (value (empty, []) (clear toy one_frame stored bob)).0

abbrev forgotten : Store
forgotten = (value (empty, []) (forget toy one_frame stored bob [])).0

abbrev folded : Fold
folded = value nothing_yet (fold_rows toy one_frame stored stored.ops nothing_yet)

runs :
    (record_op toy one_frame empty bob greeting (some nonce) ≡ ok (stored, true))
    × (record_op toy one_frame stored bob greeting (some nonce) ≡ ok (stored, false))
    × (clear toy one_frame stored bob ≡ ok (cleared, []))
    × (forget toy one_frame stored bob [] ≡ ok (forgotten, []))
    × (fold_rows toy one_frame stored stored.ops nothing_yet ≡ ok folded)
    × (open_store toy stored.ops [] [] (bob ∷ []) (4 ∷ []) alice
        ≡ ok (record stored { counter = record { sender = alice; seq = 1 } }))
unfolding seal open_blob frame_id new_counter display MessageId-discrete signed add_contact
    add_peers add_rooms max_seq resume first_sealed is_key insert_op find_setting file_key
    check_belongs_here open_store setting record_op earlier ops_of place_of push_message tally
    sort_reactions apply_frame with_path load_row fold_row fold_rows settle newest history
    delete_setting delete_settings paths whole forget clear Bytes-discrete ℕ_discrete
runs = (refl, refl, refl, refl, refl, refl)

record_op-again_example : (stored ≡ stored) × (false ≡ false)
record_op-again_example =
    record_op-again toy one_frame empty stored stored bob greeting (some nonce) (some nonce) true
      false runs.0 runs.1

small : All (λ (o : OpRow). o.seq < 2 ^ 63 - 1) stored.ops
unfolding record_op seal frame_id insert_op
small = (omega arith, tt)

minted_is_new_example :
    let s : Store = record stored { counter = record { sender = alice; seq = 1 } } in
    any (is_key (next_id s 9).1) s.ops ≡ false
minted_is_new_example =
    minted_is_new toy stored.ops [] [] (bob ∷ []) (4 ∷ []) alice
      (record stored { counter = record { sender = alice; seq = 1 } }) 9 runs.5 small

only_the_author_example :
    (h : Fold) × (fold_rows toy one_frame stored
        (filter (λ (o : OpRow). o.sender == alice) stored.ops)
        nothing_yet
      ≡ ok h)
    × (filter (λ (m : Message). m.id.sender == alice) folded.messages ≡ h.messages)
only_the_author_example = only_the_author toy one_frame alice stored stored.ops folded runs.4
