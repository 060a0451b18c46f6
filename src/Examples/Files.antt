-- ===== src/Examples/Files.antt =====
-- An attachment of three bytes, and an identity that is made and opened again.
use wicara.Prelude.{
  ℕ, ◌≤◌, ◌≡◌, refl, true, false, Bool, Result, Option, none, some, List, [], ◌∷◌, ◌&&◌, ◌||◌,
  Bytes, bytes_eq, nat_eq, leb, replicate, codes, length, ok, Bytes-discrete, ℕ_discrete,
}
use wicara.Crypto.{Codec}
use wicara.Vault.{seal, open_blob, derive}
use wicara.Wire.{MessageId, Frame, MessageId-discrete, frame_id, display}
use wicara.Wire
use wicara.Store.Tables.{
  is_key, insert_op, add_contact, record_op, set_file_path, set_setting, upsert_setting, file_key,
  setting, find_setting,
}
use wicara.Store.History.{
  earlier, ops_of, place_of, push_message, tally, sort_reactions, apply_frame, with_path, load_row,
  fold_row, fold_rows, settle, newest, history,
}
use wicara.Files.Names.{
  safe_name, or_attachment, trim_back, trim_front, base_name, file_name, last_component,
  is_dot_or_space, clean, is_kept,
}
use wicara.Files.Names
use wicara.Files.Names.Safe.{contains, first_is_dot_or_space, is_empty, safe_name_stays_inside}
use wicara.Files.Paths.{Disk, file_at, remove_file, create_file, append_file}
use wicara.Files.{
  max_file, Read, chunk, Local, Header, admit_file, take_chunks, finish, save, file_path, show_log,
  note_file, note_path, receive,
}
use wicara.Files.Saving.{IsSaved, save-IsSaved}
use wicara.Files.Arrivals.{sent_chunks, joined, arrives, save-sent, receive_keeps_announced}
use wicara.Identity.{
  Identity, Session, char_count, trim_line, ask, load_or_create, fresh_identity, create,
}
use wicara.Identity.Reopening.{load-create}
use wicara.Examples.Toy.{value, block, toy, toy_cipher}
use wicara.Examples.Sealing.{alice, nonce}
use wicara.Examples.Client.{empty, first_id}

abbrev letter_or_digit : ℕ → Bool
letter_or_digit c = leb 97 c && leb c 122 || leb 48 c && leb c 57

safe_name_stays_inside_example :
    let safe = safe_name letter_or_digit (codes "a/../.b c/..x\\y") in
    (is_empty safe ≡ false)
    × (contains 47 safe ≡ false)
    × (contains 92 safe ≡ false)
    × (contains 0 safe ≡ false)
    × (first_is_dot_or_space safe ≡ false)
safe_name_stays_inside_example =
    safe_name_stays_inside letter_or_digit (codes "a/../.b c/..x\\y") refl refl refl

abbrev header : Header
header = record { id = first_id; name = codes "a.txt"; size = 3; hash = toy.hash (1 ∷ 2 ∷ 3 ∷ []) }

abbrev announced : Frame
announced = Wire.file first_id (codes "a.txt") 3 (toy.hash (1 ∷ 2 ∷ 3 ∷ []))

abbrev fine : Local
fine = record { creates = true; flushes = true; removes = true }

-- one byte too many
abbrev too_long : List Read
too_long = chunk (1 ∷ 2 ∷ []) true ∷ chunk (3 ∷ 4 ∷ []) true ∷ []

save-IsSaved_example :
    let done = save toy (codes "f") header fine too_long [] in
    IsSaved toy (codes "f") header true done.0 done.1
unfolding file_at
save-IsSaved_example = save-IsSaved toy (codes "f") header fine too_long [] refl

abbrev read_pieces : List Bytes
read_pieces = (1 ∷ 2 ∷ []) ∷ (3 ∷ []) ∷ [] ∷ []

-- the same bytes, cut elsewhere
abbrev cut : List Bytes
cut = (1 ∷ []) ∷ (2 ∷ 3 ∷ []) ∷ []

save-sent_example :
    (disk' : Disk) × (save toy (codes "f") header fine (arrives (sent_chunks cut)) []
      ≡ (disk', ok 3))
    × (file_at (codes "f") disk' ≡ some (joined (sent_chunks read_pieces)))
unfolding joined sent_chunks
save-sent_example = save-sent toy true (codes "f") header read_pieces cut [] refl refl refl

abbrev one_header : Codec Frame
one_header = record { to_stdvec = λ _. some (0 ∷ []); from_bytes = λ _. some announced }

abbrev all_of_it : List Read
all_of_it = chunk (1 ∷ 2 ∷ 3 ∷ []) true ∷ []

arrived :
    (receive toy one_header
      (codes "h")
      (λ x. x)
      (λ x. x)
      letter_or_digit
      alice
      (ok (some announced))
      (some nonce)
      (some nonce)
      fine
      all_of_it
      empty
      []).1
    ≡ ok 3
unfolding seal open_blob display MessageId-discrete frame_id is_key insert_op add_contact record_op
    set_file_path set_setting upsert_setting file_key setting find_setting earlier ops_of place_of
    push_message tally sort_reactions apply_frame with_path load_row fold_row fold_rows settle
    newest history remove_file create_file append_file admit_file take_chunks finish save file_path
    show_log note_file note_path receive safe_name or_attachment trim_back trim_front base_name
    file_name last_component Names.pieces is_dot_or_space clean is_kept Bytes-discrete ℕ_discrete
arrived = refl

receive_keeps_announced_example :
    (h : Header) × (bytes : Bytes) × (◌≡◌ {A = Result Wire.WireError (Option Frame)}
      (ok (some announced))
      (ok (some (Wire.file h.id h.name h.size h.hash))))
    × (h.id.sender ≡ alice)
    × (h.size ≤ max_file)
    × (file_at
          (file_path toy one_header (codes "h") (λ x. x) (λ x. x) letter_or_digit h)
          (receive toy one_header
            (codes "h")
            (λ x. x)
            (λ x. x)
            letter_or_digit
            alice
            (ok (some announced))
            (some nonce)
            (some nonce)
            fine
            all_of_it
            empty
            []).0.1
        ≡ some bytes)
    × (length bytes ≡ h.size)
    × (toy.hash bytes ≡ h.hash)
receive_keeps_announced_example =
    receive_keeps_announced toy one_header (codes "h") (λ x. x) (λ x. x) letter_or_digit alice
      (ok (some announced)) (some nonce) (some nonce) fine all_of_it empty [] 3 arrived

abbrev line : Bytes
line = codes "long enough\n"

abbrev salt : Bytes
salt = 5 ∷ replicate 15 0

abbrev secret : Bytes
secret = block 9

abbrev session : Session
session = record {
  first = some line;
  second = some line;
  salt = some salt;
  secret = some secret;
  nonce = some nonce;
  writes = true;
  part = none;
  restricts = true;
}

abbrev identity : Identity
identity = value (record { secret = []; vault = [] }) (create toy session).1

made : (create toy session).1 ≡ ok identity
unfolding create fresh_identity ask trim_line char_count derive seal Bytes-discrete ℕ_discrete
made = refl

load-create_example :
    load_or_create toy (create toy session).0 session ≡ ((create toy session).0, ok identity)
load-create_example =
    load-create toy toy_cipher session identity salt secret nonce refl refl refl refl refl refl made
