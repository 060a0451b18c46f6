-- ===== src/Files.antt =====
-- crates/wicara/src/files.rs: an attachment on its own stream. A `Read` is what one turn of the receiver's loop
-- meets; the disk is an association of paths and contents. The random nonces are arguments.
pub mod Names
pub mod Paths
pub mod Saving
pub mod Arrivals
use wicara.Prelude.{
  ℕ, ◌+◌, ◌*◌, ◌^◌, Bool, true, false, not, ◌||◌, Option, none, some, List, [], ◌∷◌, ◌++◌, Bytes,
  Text, codes, bytes_eq, nat_eq, ◌==◌, ltb, leb, if◌then◌else◌, length, Result, ok, err, ◌>>=◌,
  ◌>>◌, ensure, map_err,
}
use wicara.Crypto.{Crypto, Codec}
use wicara.Wire.{MessageId, Frame, file, WireError, display}
use wicara.Store.Tables.{Store, StoreError, record_op, set_file_path}
use wicara.Store.History.{history}
use wicara.App.{history_on_start}
use wicara.Files.Names.{safe_name}
use wicara.Files.Paths.{Disk, create_file, append_file, try_remove}

abbrev pub max_file : ℕ
max_file = 256 * 1024 * 1024

pub data FileError : Type 0 where
  no_header wrong_sender over_limit more_than_announced mismatch stream_broke disk_failed :
      FileError
  bad_frame : WireError → FileError
  store_failed : StoreError → FileError

-- bytes, and whether writing them succeeds; or an error of the stream
pub data Read : Type 0 where
  chunk : Bytes → Bool → Read
  broke : Read

-- whether the file can be created, flushed, and removed again
pub record Local : Type 0 where
  pub creates : Bool
  pub flushes : Bool
  pub removes : Bool

pub record Header : Type 0 where
  pub id : MessageId
  pub name : Text
  pub size : ℕ
  pub hash : Bytes

-- what the first frame of the stream must be
unfoldable pub admit_file : Bytes → Result WireError (Option Frame) → Result FileError Header
admit_file peer (err e) = err (bad_frame e)
admit_file peer (ok (some (file id name size hash))) = do
  ensure (id.sender == peer) wrong_sender
  ensure (leb size max_file) over_limit
  ok (record { id = id; name = name; size = size; hash = hash })
admit_file peer (ok _) = err no_header

-- the loop: how many bytes came, and what the hasher was fed
unfoldable pub take_chunks :
    Bool → Text → ℕ → List Read → ℕ → Bytes → Disk → Disk × Result FileError (ℕ × Bytes)
take_chunks removes path size [] got fed disk = (disk, ok (got, fed))
take_chunks removes path size (broke ∷ reads) got fed disk = (disk, err stream_broke)
take_chunks removes path size (chunk [] written ∷ reads) got fed disk = (disk, ok (got, fed))
take_chunks removes path size (chunk (b ∷ bs) written ∷ reads) got fed disk =
    let got' = got + length (b ∷ bs) in
    let rest =
      take_chunks removes path size reads got' (fed ++ b ∷ bs) (append_file path (b ∷ bs) disk) in
    if ltb size got'
    then (try_remove removes path disk, err more_than_announced)
    else if written
    then rest
    else (disk, err disk_failed)

module _ (c : Crypto) where
  unfoldable pub finish :
      Text → Header → Local → Disk × Result FileError (ℕ × Bytes) → Disk × Result FileError ℕ
  finish path h local (disk, err e) = (disk, err e)
  finish path h local (disk, ok (got, fed)) =
      if not local.flushes
      then (disk, err disk_failed)
      else if not (got == h.size) || not (c.hash fed == h.hash)
      then (try_remove local.removes path disk, err mismatch)
      else (disk, ok got)

  -- from `File::create` to the comparison of the hashes
  unfoldable pub save : Text → Header → Local → List Read → Disk → Disk × Result FileError ℕ
  save path h local reads disk =
      if local.creates
      then finish path h local
          (take_chunks local.removes path h.size reads 0 [] (create_file path disk))
      else (disk, err disk_failed)

  -- `chars` and `utf8` are between a `str` and its characters, `alphanumeric` is the method of `char`
  module _ (frames : Codec Frame) (home : Text) (chars utf8 : List ℕ → List ℕ)
      (alphanumeric : ℕ → Bool) where
    unfoldable pub file_path : Header → Text
    file_path h =
        home
        ++ (codes "/files/"
            ++ (display h.id ++ (codes "-" ++ utf8 (safe_name alphanumeric (chars h.name)))))

    -- `send_log`, for what it can fail at
    unfoldable pub show_log : Store → Bytes → Result FileError Unit
    show_log s peer = map_err (history c frames s peer history_on_start) store_failed >>= λ _. ok tt

    unfoldable pub note_file : Store → Bytes → Header → Option Bytes → Store × Result FileError Unit
    note_file s peer h nonce =
        elim (record_op c frames s peer (file h.id h.name h.size h.hash) nonce) [
          | err e ↦ (s, err (store_failed e))
          | ok (s', _) ↦ (s', show_log s' peer)
        ]

    unfoldable pub note_path :
        Store → Bytes → Header → Option Bytes → ℕ → Store × Result FileError ℕ
    note_path s peer h nonce got = elim (set_file_path c s h.id (file_path h) nonce) [
      | err e ↦ (s, err (store_failed e))
      | ok s' ↦ (s', show_log s' peer >>= λ _. ok got)
    ]

    -- `receive`
    unfoldable pub receive :
        Bytes
        → Result WireError (Option Frame)
        → Option Bytes
        → Option Bytes
        → Local
        → List Read
        → Store
        → Disk
        → (Store × Disk) × Result FileError ℕ
    receive peer opening nonce nonce' local reads s disk = elim (admit_file peer opening) [
      | err e ↦ ((s, disk), err e)
      | ok h ↦
          let (noted, shown) = note_file s peer h nonce in
          elim shown [
            | err e ↦ ((noted, disk), err e)
            | ok _ ↦
                let (kept, saved) = save (file_path h) h local reads disk in
                elim saved [
                  | err e ↦ ((noted, kept), err e)
                  | ok got ↦
                      let (last, done) = note_path noted peer h nonce' got in ((last, kept), done)
                ]
          ]
    ]
