-- ===== src/Files/Saving.antt =====
-- crates/wicara/src/files.rs: what the receiver's loop leaves on the disk.
use wicara.Prelude.{
  ℕ, ◌+◌, ◌≤◌, ◌≡◌, refl, sym, ◌∙◌, ap, subst, Bool, true, false, Option, none, some, List, [], ◌∷◌,
  ◌++◌, Bytes, Text, Bytes-discrete, ℕ_discrete, bytes_eq, nat_eq, ◌==◌, ==-refl, ltb,
  if◌then◌else◌, length, length-append, Result, ok, err, Bool-cases, inl, inr, arith,
}
use wicara.Crypto.{Crypto}
use wicara.Files.Paths.{
  Disk, file_at, try_remove, append_file, create_file, file_at-remove_file, file_at-try_remove,
  file_at-append_file, file_at-create_file,
}
use wicara.Files.{
  FileError, mismatch, more_than_announced, disk_failed, stream_broke, Read, chunk, broke, Local,
  Header, take_chunks, finish, save,
}

-- there is no file, or one of no more than `size` bytes
unfoldable pub IsWithin : ℕ → Option Bytes → Type 0
IsWithin size none = Unit
IsWithin size (some bytes) = length bytes ≤ size

-- there is no file, if removing it succeeded
unfoldable pub IsDiscarded : Bool → ℕ → Option Bytes → Type 0
IsDiscarded true size found = found ≡ none
IsDiscarded false size found = IsWithin size found

-- what an error leaves at the path
unfoldable pub IsLeft : Bool → ℕ → FileError → Option Bytes → Type 0
IsLeft removes size more_than_announced found = IsDiscarded removes size found
IsLeft removes size mismatch found = IsDiscarded removes size found
IsLeft removes size _ found = IsWithin size found

-- `try_remove` discards a file that is small enough
try_remove-IsDiscarded :
    (removes : Bool) (path : Text) (size : ℕ) (disk : Disk)
    → IsWithin size (file_at path disk)
    → IsDiscarded removes size (file_at path (try_remove removes path disk))
unfolding IsDiscarded try_remove
try_remove-IsDiscarded true path size disk small =
    ground (arith, file_at-remove_file path path disk, ==-refl path)
try_remove-IsDiscarded false path size disk small = small

-- what the loop made of a path: after an end without error the file holds what the hasher was fed, and see IsLeft after
-- an error
unfoldable pub IsTaken : Bool → Text → ℕ → Disk → Result FileError (ℕ × Bytes) → Type 0
IsTaken removes path size disk (err e) = IsLeft removes size e (file_at path disk)
IsTaken removes path size disk (ok (got, fed)) =
    (file_at path disk ≡ some fed) × (length fed ≡ got) × (got ≤ size)

if-IsTaken :
    (removes : Bool) (path : Text) (size : ℕ) (b : Bool) (x y : Disk × Result FileError (ℕ × Bytes))
    → (b ≡ true → IsTaken removes path size x.0 x.1)
    → (b ≡ false → IsTaken removes path size y.0 y.1)
    → let z = if b then x else y in IsTaken removes path size z.0 z.1
if-IsTaken removes path size true x y hx hy = hx refl
if-IsTaken removes path size false x y hx hy = hy refl

pub take_chunks-IsTaken :
    (removes : Bool) (path : Text) (size : ℕ) (reads : List Read) (got : ℕ) (fed : Bytes)
    (disk : Disk)
    → file_at path disk ≡ some fed
    → length fed ≡ got
    → got ≤ size
    → let taken = take_chunks removes path size reads got fed disk in
      IsTaken removes path size taken.0 taken.1
unfolding take_chunks IsTaken IsLeft IsWithin
take_chunks-IsTaken removes path size [] got fed disk h long fits = (h, long, fits)
take_chunks-IsTaken removes path size (broke ∷ reads) got fed disk h long fits =
    rw (h, IsWithin) (omega arith)
take_chunks-IsTaken removes path size (chunk [] written ∷ reads) got fed disk h long fits =
    (h, long, fits)
take_chunks-IsTaken removes path size (chunk (b ∷ bs) written ∷ reads) got fed disk h long fits =
    let got' = got + length (b ∷ bs) in
    let disk' = append_file path (b ∷ bs) disk in
    let here = file_at-append_file path path (b ∷ bs) fed disk h in
    let same : file_at path disk' ≡ some (fed ++ b ∷ bs) = ground (arith, here, ==-refl path) in
    let longer : length (fed ++ b ∷ bs) ≡ got' = omega (arith, length-append fed (b ∷ bs)) in
    let full : IsWithin size (file_at path disk) = rw (h, IsWithin) (omega arith) in
    if-IsTaken removes path size (ltb size got')
      (try_remove removes path disk, err more_than_announced) _
      (λ e. try_remove-IsDiscarded removes path size disk full)
      (λ e.
        if-IsTaken removes path size written
          (take_chunks removes path size reads got' (fed ++ b ∷ bs) disk') (disk, err disk_failed)
          (λ w.
            take_chunks-IsTaken removes path size reads got' (fed ++ b ∷ bs) disk' same longer
              (ground (arith, e)))
          (λ w. full))

pub take_chunks-others :
    (removes : Bool) (path other : Text) (size : ℕ) (reads : List Read) (got : ℕ) (fed : Bytes)
    (disk : Disk)
    → file_at path disk ≡ some fed
    → (path == other) ≡ false
    → file_at other (take_chunks removes path size reads got fed disk).0 ≡ file_at other disk
unfolding take_chunks
take_chunks-others removes path other size [] got fed disk h apart = refl
take_chunks-others removes path other size (broke ∷ reads) got fed disk h apart = refl
take_chunks-others removes path other size (chunk [] written ∷ reads) got fed disk h apart = refl
take_chunks-others removes path other size (chunk (b ∷ bs) written ∷ reads) got fed disk h apart =
    let removed = file_at-try_remove removes path other disk in
    let appended = file_at-append_file path other (b ∷ bs) fed disk h in
    let here = file_at-append_file path path (b ∷ bs) fed disk h in
    let same : file_at path (append_file path (b ∷ bs) disk) ≡ some (fed ++ b ∷ bs) =
      ground (arith, here, ==-refl path) in
    let rest =
      take_chunks-others removes path other size reads (got + length (b ∷ bs)) (fed ++ b ∷ bs)
        (append_file path (b ∷ bs) disk) same apart in
    elim (Bool-cases (ltb size (got + length (b ∷ bs)))) [
      | inl e ↦ ground (arith, e, removed, apart)
      | inr e ↦ elim (Bool-cases written) [
        | inl w ↦ ground (arith, e, w, rest, appended, apart)
        | inr w ↦ ground (arith, e, w)
      ]
    ]

-- what saving made of a path: a file of the size and the hash that were announced, or see IsLeft
unfoldable pub IsSaved : Crypto → Text → Header → Bool → Disk → Result FileError ℕ → Type 0
IsSaved c path h removes disk (err e) = IsLeft removes h.size e (file_at path disk)
IsSaved c path h removes disk (ok got) =
    (bytes : Bytes) × (file_at path disk ≡ some bytes)
    × (length bytes ≡ h.size)
    × (c.hash bytes ≡ h.hash)
    × (got ≡ h.size)

module _ (c : Crypto) (path : Text) (h : Header) (local : Local) where
  finish-IsSaved :
      (disk : Disk) (r : Result FileError (ℕ × Bytes))
      → IsTaken local.removes path h.size disk r
      → let done = finish c path h local (disk, r) in IsSaved c path h local.removes done.0 done.1
  unfolding finish IsSaved IsTaken IsLeft IsWithin
  finish-IsSaved disk (err e) taken = taken
  finish-IsSaved disk (ok (got, fed)) (there, long, fits) =
      let fits' : IsWithin h.size (file_at path disk) = rw (there, IsWithin) (omega arith) in
      let gone = try_remove-IsDiscarded local.removes path h.size disk fits' in
      let outcome : Disk × Result FileError ℕ → Type 0 =
        λ x. IsSaved c path h local.removes x.0 x.1 in
      let done = finish c path h local (disk, ok (got, fed)) in
      elim (Bool-cases local.flushes) [
        | inr f ↦
            let step : done ≡ (disk, err disk_failed) = ground (arith, f) in
            subst outcome (sym step) fits'
        | inl f ↦ elim (ℕ_discrete got h.size) [
          | no g ↦
              let step : done ≡ (try_remove local.removes path disk, err mismatch) =
                ground (arith, f, g) in
              subst outcome (sym step) gone
          | yes g ↦ elim (Bytes-discrete (c.hash fed) h.hash) [
            | no k ↦
                let step : done ≡ (try_remove local.removes path disk, err mismatch) =
                  ground (arith, f, g, k) in
                subst outcome (sym step) gone
            | yes k ↦
                let step : done ≡ (disk, ok got) =
                  ground (arith, f, g, k, ==-refl h.size, ==-refl h.hash) in
                subst outcome (sym step) (fed, there, long ∙ g, k, g)
          ]
        ]
      ]

  save-created :
      (reads : List Read) (disk : Disk)
      → local.creates ≡ true
      → let done = save c path h local reads disk in IsSaved c path h local.removes done.0 done.1
  unfolding save
  save-created reads disk e =
      let made = file_at-create_file path path disk in
      let empty : file_at path (create_file path disk) ≡ some [] =
        ground (arith, made, ==-refl path) in
      let taken = take_chunks local.removes path h.size reads 0 [] (create_file path disk) in
      let step : save c path h local reads disk ≡ finish c path h local taken = ground (arith, e) in
      subst (λ (x : Disk × Result FileError ℕ). IsSaved c path h local.removes x.0 x.1) (sym step)
        (finish-IsSaved taken.0 taken.1 (
          take_chunks-IsTaken local.removes path h.size reads 0 [] (create_file path disk) empty
            refl (omega arith)))

  -- If there was no file at the attachment's path, then whatever comes on the stream, what saving
  -- leaves there is no longer than was announced. It ends without an error only with a file of the
  -- announced size and hash there, and if it ends because more came than was announced, or because
  -- the size or the hash is another, there is no file, unless removing it failed.
  pub save-IsSaved :
      (reads : List Read) (disk : Disk)
      → file_at path disk ≡ none
      → let done = save c path h local reads disk in IsSaved c path h local.removes done.0 done.1
  unfolding save IsSaved IsLeft IsWithin
  save-IsSaved reads disk new = elim (Bool-cases local.creates) [
    | inl e ↦ save-created reads disk e
    | inr e ↦
        let step : save c path h local reads disk ≡ (disk, err disk_failed) = ground (arith, e) in
        let nothing : IsWithin h.size (file_at path disk) = rw (new, IsWithin) tt in
        subst (λ (x : Disk × Result FileError ℕ). IsSaved c path h local.removes x.0 x.1) (sym step)
          nothing
  ]

  pub save-ok :
      (reads : List Read) (disk disk' : Disk) (got : ℕ)
      → save c path h local reads disk ≡ (disk', ok got)
      → (bytes : Bytes) × (file_at path disk' ≡ some bytes)
        × (length bytes ≡ h.size)
        × (c.hash bytes ≡ h.hash)
        × (got ≡ h.size)
  unfolding save IsSaved
  save-ok reads disk disk' got done = elim (Bool-cases local.creates) [
    | inl e ↦
        subst (λ (x : Disk × Result FileError ℕ). IsSaved c path h local.removes x.0 x.1) done
          (save-created reads disk e)
    | inr e ↦
        let step : save c path h local reads disk ≡ (disk, err disk_failed) = ground (arith, e) in
        let clash : ◌≡◌ {A = Disk × Result FileError ℕ} (disk, err disk_failed) (disk', ok got) =
          sym step ∙ done in
        cc
  ]

  finish-others :
      (other : Text) (disk : Disk) (r : Result FileError (ℕ × Bytes))
      → (path == other) ≡ false
      → file_at other (finish c path h local (disk, r)).0 ≡ file_at other disk
  unfolding finish
  finish-others other disk (err e) apart = refl
  finish-others other disk (ok (got, fed)) apart =
      ground (arith, file_at-try_remove local.removes path other disk, apart)

  -- Saving an attachment touches no file but its own.
  pub save-others :
      (other : Text) (reads : List Read) (disk : Disk)
      → (path == other) ≡ false
      → file_at other (save c path h local reads disk).0 ≡ file_at other disk
  unfolding save finish
  save-others other reads disk apart =
      let made = file_at-create_file path other disk in
      let here = file_at-create_file path path disk in
      let empty : file_at path (create_file path disk) ≡ some [] =
        ground (arith, here, ==-refl path) in
      let taken = take_chunks local.removes path h.size reads 0 [] (create_file path disk) in
      let looped =
        take_chunks-others local.removes path other h.size reads 0 [] (create_file path disk) empty
          apart in
      let finished = finish-others other taken.0 taken.1 apart in
      let step : local.creates ≡ true
          → save c path h local reads disk ≡ finish c path h local taken =
        λ e. ground (arith, e) in
      let fresh : file_at other (create_file path disk) ≡ file_at other disk =
        ground (arith, made, apart) in
      elim (Bool-cases local.creates) [
        | inl e ↦
            ap (λ (x : Disk × Result FileError ℕ). file_at other x.0) (step e)
            ∙ finished
            ∙ looped
            ∙ fresh
        | inr e ↦ ground (arith, e)
      ]

-- A stream that breaks leaves its part of the attachment on the disk, under the name that the whole would have
-- had: if some bytes came, no more than were announced, and then the stream broke, the file holds just these.
pub broken_stream_leaves_part :
    (c : Crypto) (path : Text) (h : Header) (b : ℕ) (bs : Bytes) (reads : List Read) (disk : Disk)
    (removes : Bool)
    → length (b ∷ bs) ≤ h.size
    → let done =
        save c path h
          (record { creates = true; flushes = true; removes = removes })
          (chunk (b ∷ bs) true ∷ broke ∷ reads)
          disk in
      (done.1 ≡ err stream_broke) × (file_at path done.0 ≡ some (b ∷ bs))
unfolding save finish take_chunks
broken_stream_leaves_part c path h b bs reads disk removes fits =
    let made = file_at-create_file path path disk in
    let empty : file_at path (create_file path disk) ≡ some [] =
      ground (arith, made, ==-refl path) in
    let held = file_at-append_file path path (b ∷ bs) [] (create_file path disk) empty in
    let fit : ltb h.size (0 + length (b ∷ bs)) ≡ false = ground (arith, fits) in
    (rw (fit) refl, rw (fit) (ground (arith, held, ==-refl path)))
