-- ===== src/Files/Paths.antt =====
-- The files of the receiver, for crates/wicara/src/files.rs.
use wicara.Prelude.{
  ◌≡◌, sym, ◌∙◌, subst, true, false, Bool, not, ◌&&◌, Option, none, some, List, [], ◌∷◌, ◌++◌,
  Bytes, Text, Bytes-discrete, bytes_eq, ◌==◌, ==-refl, if◌then◌else◌, filter, arith,
}

abbrev pub Disk : Type 0
Disk = List (Text × Bytes)

unfoldable pub file_at : Text → Disk → Option Bytes
file_at path [] = none
file_at path (x ∷ xs) = if x.0 == path then some x.1 else file_at path xs

unfoldable pub remove_file : Text → Disk → Disk
remove_file path = filter (λ (x : Text × Bytes). not (x.0 == path))

-- `remove_file`, whose failure is ignored: whether it succeeds
unfoldable pub try_remove : Bool → Text → Disk → Disk
try_remove removes path disk = if removes then remove_file path disk else disk

-- a file that is there is emptied
unfoldable pub create_file : Text → Disk → Disk
create_file path disk = (path, []) ∷ remove_file path disk

unfoldable pub append_file : Text → Bytes → Disk → Disk
append_file path bytes [] = []
append_file path bytes (x ∷ xs) =
    if x.0 == path then (x.0, x.1 ++ bytes) ∷ xs else x ∷ append_file path bytes xs

pub file_at-remove_file :
    (path other : Text) (disk : Disk)
    → file_at other (remove_file path disk) ≡ (if path == other then none else file_at other disk)
unfolding file_at remove_file
file_at-remove_file path other [] = ground arith
file_at-remove_file path other (x ∷ xs) =
    let rest = file_at-remove_file path other xs in
    elim (Bytes-discrete x.0 path) [
      | yes p ↦ elim (Bytes-discrete path other) [
        | yes q ↦ ground (arith, p, q, rest, ==-refl other)
        | no q ↦ ground (arith, p, q, rest, ==-refl path)
      ]
      | no p ↦ elim (Bytes-discrete path other) [
        | yes q ↦
            let apart : (x.0 == other) ≡ false = elim (Bytes-discrete x.0 other) [
              | yes r ↦ absurd (p (cc))
              | no r ↦ ground (arith, r)
            ] in
            ground (arith, p, q, rest, apart)
        | no q ↦ ground (arith, p, q, rest)
      ]
    ]

pub file_at-try_remove :
    (removes : Bool) (path other : Text) (disk : Disk)
    → file_at other (try_remove removes path disk)
      ≡ (if removes && path == other then none else file_at other disk)
unfolding try_remove
file_at-try_remove true path other disk = file_at-remove_file path other disk
file_at-try_remove false path other disk = ground arith

pub file_at-create_file :
    (path other : Text) (disk : Disk)
    → file_at other (create_file path disk)
      ≡ (if path == other then some [] else file_at other disk)
unfolding file_at create_file
file_at-create_file path other disk = ground (arith, file_at-remove_file path other disk)

pub file_at-append_file :
    (path other : Text) (bytes before : Bytes) (disk : Disk)
    → file_at path disk ≡ some before
    → file_at other (append_file path bytes disk)
      ≡ (if path == other then some (before ++ bytes) else file_at other disk)
unfolding file_at append_file
file_at-append_file path other bytes before [] h = cc
file_at-append_file path other bytes before (x ∷ xs) h = elim (Bytes-discrete x.0 path) [
  | yes p ↦
      let first : x.1 ≡ before = ground (arith, p, h, ==-refl path) in
      elim (Bytes-discrete path other) [
        | yes q ↦
            let here : (x.0 == other) ≡ true =
              subst (λ y. (y == other) ≡ true) (sym (p ∙ q)) (==-refl other) in
            ground (arith, p, q, first, here)
        | no q ↦ ground (arith, p, q, first)
      ]
  | no p ↦
      let there : file_at path xs ≡ some before = ground (arith, p, h) in
      let rest = file_at-append_file path other bytes before xs there in
      elim (Bytes-discrete path other) [
        | yes q ↦
            let apart : (x.0 == other) ≡ false = elim (Bytes-discrete x.0 other) [
              | yes r ↦ absurd (p (r ∙ sym q))
              | no r ↦ ground (arith, r)
            ] in
            ground (arith, p, q, rest, apart)
        | no q ↦ ground (arith, p, q, rest)
      ]
]
