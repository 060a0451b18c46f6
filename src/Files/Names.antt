-- ===== src/Files/Names.antt =====
-- crates/wicara/src/files.rs: `safe_name`, on the characters of a name. `char::is_alphanumeric` is an
-- argument.
pub mod Safe
use wicara.Prelude.{
  ℕ, ◌≡◌, refl, Bool, true, false, not, ◌&&◌, ◌||◌, Option, none, some, List, [], ◌∷◌, ◌++◌, map,
  bytes_eq, nat_eq, ◌==◌, if◌then◌else◌, any, codes, arith, Bool-cases, inl, inr,
}

-- the pieces between the slashes
unfoldable pub pieces : List ℕ → List (List ℕ)
pieces [] = [] ∷ []
pieces (c ∷ cs) =
    let rest = pieces cs in
    if c == 47 then [] ∷ rest else elim rest [ [] ↦ (c ∷ []) ∷ [] | p ∷ ps ↦ (c ∷ p) ∷ ps ]

-- the last component of a path: an empty piece and `.` are none
unfoldable pub last_component : List (List ℕ) → Option (List ℕ)
last_component [] = none
last_component (p ∷ ps) = elim (last_component ps) [
  | some q ↦ some q
  | none ↦ if p == [] || p == codes "." then none else some p
]

-- `Path::file_name`
unfoldable pub file_name : List ℕ → Option (List ℕ)
file_name name = elim (last_component (pieces name)) [
  | none ↦ none
  | some p ↦ if p == codes ".." then none else some p
]

unfoldable pub is_kept : (ℕ → Bool) → ℕ → Bool
is_kept alphanumeric c = alphanumeric c || (c == 32 || (c == 46 || (c == 95 || c == 45)))

unfoldable pub clean : (ℕ → Bool) → ℕ → ℕ
clean alphanumeric c = if is_kept alphanumeric c then c else 95

unfoldable pub is_dot_or_space : ℕ → Bool
is_dot_or_space c = c == 46 || c == 32

-- `trim_matches(['.', ' '])`
unfoldable pub trim_front : List ℕ → List ℕ
trim_front [] = []
trim_front (c ∷ cs) = if is_dot_or_space c then trim_front cs else c ∷ cs

unfoldable pub trim_back : List ℕ → List ℕ
trim_back [] = []
trim_back (c ∷ cs) = elim (trim_back cs) [
  | [] ↦ if is_dot_or_space c then [] else c ∷ []
  | d ∷ ds ↦ c ∷ d ∷ ds
]

unfoldable pub or_attachment : List ℕ → List ℕ
or_attachment [] = codes "attachment"
or_attachment (c ∷ cs) = c ∷ cs

unfoldable pub base_name : List ℕ → List ℕ
base_name name = elim (file_name name) [ none ↦ [] | some p ↦ p ]

-- `safe_name`
unfoldable pub safe_name : (ℕ → Bool) → List ℕ → List ℕ
safe_name alphanumeric name =
    or_attachment (trim_back (trim_front (map (clean alphanumeric) (base_name name))))
