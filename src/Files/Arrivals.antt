-- ===== src/Files/Arrivals.antt =====
-- crates/wicara/src/files.rs: `send` and `receive` together, and what `receive` keeps.
use wicara.Prelude.{
  ℕ, ◌+◌, ◌≤◌, ◌≡◌, refl, sym, ◌∙◌, ap, subst, Bool, true, false, Option, some, List, [], ◌∷◌, ◌++◌,
  append_assoc, append-nil, Bytes, Text, Bytes-discrete, bytes_eq, nat_eq, ==-refl, ltb, leb,
  length, length-append, Result, ok, err, Bool-cases, Result-cases, inl, inr, arith,
}
use wicara.Crypto.{Crypto, Codec}
use wicara.Wire.{Frame, file, WireError}
use wicara.Store.Tables.{Store}
use wicara.Files.Paths.{
  Disk, file_at, append_file, create_file, file_at-append_file, file_at-create_file,
}
use wicara.Files.{
  max_file, FileError, Read, chunk, Local, Header, admit_file, take_chunks, finish, save, file_path,
  note_file, receive,
}
use wicara.Files.Saving.{save-ok}

-- what `send` writes: the pieces that `read` gives of the file, up to an empty one
unfoldable pub sent_chunks : List Bytes → List Bytes
sent_chunks [] = []
sent_chunks ([] ∷ pieces) = []
sent_chunks ((b ∷ bs) ∷ pieces) = (b ∷ bs) ∷ sent_chunks pieces

unfoldable pub joined : List Bytes → Bytes
joined [] = []
joined (p ∷ ps) = p ++ joined ps

-- each piece as the receiver reads it, and has room for
unfoldable pub arrives : List Bytes → List Read
arrives [] = []
arrives (p ∷ ps) = chunk p true ∷ arrives ps

take_chunks-done :
    (path : Text) (got total : ℕ) (fed whole : Bytes) (disk : Disk)
    → file_at path disk ≡ some fed
    → got + 0 ≡ total
    → fed ++ [] ≡ whole
    → (disk' : Disk) × (◌≡◌ {A = Disk × Result FileError (ℕ × Bytes)}
        (disk, ok (got, fed))
        (disk', ok (total, whole)))
      × (file_at path disk' ≡ some whole)
take_chunks-done path got total fed whole disk h sum all =
    let same : fed ≡ whole = sym (append-nil fed) ∙ all in
    let count : got ≡ total = omega arith in (disk, cc, h ∙ ap some same)

take_chunks-arrives :
    (removes : Bool) (path : Text) (size : ℕ) (pieces : List Bytes) (got total : ℕ)
    (fed whole : Bytes) (disk : Disk)
    → file_at path disk ≡ some fed
    → got + length (joined (sent_chunks pieces)) ≡ total
    → fed ++ joined (sent_chunks pieces) ≡ whole
    → total ≤ size
    → (disk' : Disk) × (take_chunks removes path size (arrives (sent_chunks pieces)) got fed disk
        ≡ (disk', ok (total, whole)))
      × (file_at path disk' ≡ some whole)
unfolding take_chunks arrives joined sent_chunks
take_chunks-arrives removes path size [] got total fed whole disk h sum all fits =
    take_chunks-done path got total fed whole disk h sum all
take_chunks-arrives removes path size ([] ∷ pieces) got total fed whole disk h sum all fits =
    take_chunks-done path got total fed whole disk h sum all
take_chunks-arrives removes path size ((b ∷ bs) ∷ pieces) got total fed whole disk h sum all fits =
    let rest = joined (sent_chunks pieces) in
    let longer = length-append (b ∷ bs) rest in
    let here = file_at-append_file path path (b ∷ bs) fed disk h in
    let same : file_at path (append_file path (b ∷ bs) disk) ≡ some (fed ++ b ∷ bs) =
      ground (arith, here, ==-refl path) in
    let (disk', got', at) =
      take_chunks-arrives removes path size pieces (got + length (b ∷ bs)) total (fed ++ b ∷ bs)
        whole (append_file path (b ∷ bs) disk) same (omega arith)
        (append_assoc fed (b ∷ bs) rest ∙ all) fits in
    let fit : ltb size (got + length (b ∷ bs)) ≡ false = ground (arith, longer, sum, fits) in
    (disk', rw (fit) got', at)

save-arrives :
    (c : Crypto) (removes : Bool) (path : Text) (h : Header) (pieces : List Bytes) (disk : Disk)
    → length (joined (sent_chunks pieces)) ≡ h.size
    → c.hash (joined (sent_chunks pieces)) ≡ h.hash
    → (disk' : Disk) × (save c path h
          (record { creates = true; flushes = true; removes = removes })
          (arrives (sent_chunks pieces))
          disk
        ≡ (disk', ok h.size))
      × (file_at path disk' ≡ some (joined (sent_chunks pieces)))
unfolding save finish
save-arrives c removes path h pieces disk size hash =
    let made = file_at-create_file path path disk in
    let empty : file_at path (create_file path disk) ≡ some [] =
      ground (arith, made, ==-refl path) in
    let (disk', taken, at) =
      take_chunks-arrives removes path h.size pieces 0 h.size [] (joined (sent_chunks pieces))
        (create_file path disk) empty (omega arith) refl (omega arith) in
    let local : Local = record { creates = true; flushes = true; removes = removes } in
    let ends : finish c path h local (disk', ok (h.size, joined (sent_chunks pieces)))
        ≡ (disk', ok h.size) =
      ground (arith, hash, ==-refl h.size, ==-refl h.hash) in
    (disk', ap (finish c path h local) taken ∙ ends, at)

-- An attachment that is sent whole arrives whole, however the stream cuts it: if the pieces that the
-- sender reads make up the size and the hash it announced, the pieces that the receiver reads make up the
-- same bytes, and its disk takes them, the receiver ends with a file of those bytes.
pub save-sent :
    (c : Crypto) (removes : Bool) (path : Text) (h : Header) (pieces cut : List Bytes) (disk : Disk)
    → length (joined (sent_chunks pieces)) ≡ h.size
    → c.hash (joined (sent_chunks pieces)) ≡ h.hash
    → joined (sent_chunks cut) ≡ joined (sent_chunks pieces)
    → (disk' : Disk) × (save c path h
          (record { creates = true; flushes = true; removes = removes })
          (arrives (sent_chunks cut))
          disk
        ≡ (disk', ok h.size))
      × (file_at path disk' ≡ some (joined (sent_chunks pieces)))
save-sent c removes path h pieces cut disk size hash same =
    let (disk', saved, at) =
      save-arrives c removes path h cut disk (ap length same ∙ size) (ap c.hash same ∙ hash) in
    (disk', saved, at ∙ ap some same)

module _ (c : Crypto) (frames : Codec Frame) (home : Text) (chars utf8 : List ℕ → List ℕ)
    (alphanumeric : ℕ → Bool) where
  admit_file-ok :
      (peer : Bytes) (opening : Result WireError (Option Frame)) (h : Header)
      → admit_file peer opening ≡ ok h
      → (opening ≡ ok (some (file h.id h.name h.size h.hash)))
        × (h.id.sender ≡ peer)
        × (h.size ≤ max_file)
  unfolding admit_file
  admit_file-ok peer (err e) h got = cc
  admit_file-ok peer (ok (some (file id name size hash))) h got =
      elim (Bytes-discrete id.sender peer) [
        | no q ↦ ground (arith, q, got)
        | yes q ↦ elim (Bool-cases (leb size max_file)) [
          | inr r ↦ ground (arith, q, r, got, ==-refl peer)
          | inl r ↦
              let made : record { id = id; name = name; size = size; hash = hash } ≡ h =
                ground (arith, q, r, got, ==-refl peer) in
              subst
                (λ (x : Header).
                  (◌≡◌ {A = Result WireError (Option Frame)} (ok (some (file id name size hash)))
                    (ok (some (file x.id x.name x.size x.hash))))
                  × (x.id.sender ≡ peer)
                  × (x.size ≤ max_file))
                made (refl, q, ground (arith, r))
        ]
      ]
  admit_file-ok peer (ok other) h got = cc

  -- What `receive` keeps is what was announced: if it ends without an error, the stream began with the header
  -- of an attachment minted by the peer itself and no larger than the limit, and at the path made of its id and its cleaned
  -- name there is a file of just the announced size and hash.
  pub receive_keeps_announced :
      (peer : Bytes) (opening : Result WireError (Option Frame)) (nonce nonce' : Option Bytes)
      (local : Local) (reads : List Read) (s : Store) (disk : Disk) (got : ℕ)
      → let done =
          receive c frames home chars utf8 alphanumeric peer opening nonce nonce' local reads s
            disk in
        done.1 ≡ ok got
        → (h : Header) × (bytes : Bytes) × (opening ≡ ok (some (file h.id h.name h.size h.hash)))
          × (h.id.sender ≡ peer)
          × (h.size ≤ max_file)
          × (file_at (file_path c frames home chars utf8 alphanumeric h) done.0.1 ≡ some bytes)
          × (length bytes ≡ h.size)
          × (c.hash bytes ≡ h.hash)
  unfolding receive
  receive_keeps_announced peer opening nonce nonce' local reads s disk got done =
      elim (Result-cases (admit_file peer opening)) [
        | inr (e, a) ↦ ground (arith, a, done)
        | inl (h, a) ↦
            let (began, own, small) = admit_file-ok peer opening h a in
            let noted = note_file c frames home chars utf8 alphanumeric s peer h nonce in
            let path = file_path c frames home chars utf8 alphanumeric h in
            let saved = save c path h local reads disk in
            elim (Result-cases noted.1) [
              | inr (e, b) ↦ ground (arith, a, b, done)
              | inl (x, b) ↦ elim (Result-cases saved.1) [
                | inr (e, d) ↦ ground (arith, a, b, d, done)
                | inl (n, d) ↦
                    let split : saved ≡ (saved.0, ok n) = ap (λ r. (saved.0, r)) d in
                    let (bytes, at, size, hash, _) =
                      save-ok c path h local reads disk saved.0 n split in
                    let kept : (receive c frames home chars utf8 alphanumeric peer opening nonce
                          nonce' local reads s disk).0.1
                        ≡ saved.0 =
                      ground (arith, a, b, d) in
                    (h, bytes, began, own, small, ap (file_at path) kept ∙ at, size, hash)
              ]
            ]
      ]
