-- ===== src/Ui/Events/Index.antt =====
-- crates/wicara/src/ui.rs: what `peer_mut` and `apply` rely on about `index` and `peers`.
use wicara.Prelude.{
  ℕ, suc, ◌+◌, ◌-◌, ◌≤◌, ◌≡◌, refl, ap, Bool, false, ◌||◌, Option, none, some, List, [], ◌∷◌, ◌++◌,
  Bytes, Bytes-discrete, bytes_eq, ◌==◌, ==-refl, if◌then◌else◌, length, get_elem?, any, filter,
  update_at, Option-cases, Bool-cases, All, subst, inl, inr, arith,
}
use wicara.Ui.{Peer}
use wicara.Ui.Events.{find_index, reindex}

unfoldable pub has_key : Bytes → List Peer → Bool
has_key k = any (λ (p : Peer). p.key == k)

-- where the peer of a key is, counted from `n`
unfoldable pub position : Bytes → ℕ → List Peer → Option ℕ
position k n [] = none
position k n (p ∷ ps) = let rest = position k (n + 1) ps in if p.key == k then some n else rest

-- no two peers have one key
unfoldable pub Differ : List Peer → Type 0
Differ [] = Unit
Differ (p ∷ ps) = (has_key p.key ps ≡ false) × Differ ps

pub position-none :
    (k : Bytes) (n : ℕ) (ps : List Peer) → has_key k ps ≡ false → position k n ps ≡ none
unfolding position has_key
position-none k n [] h = refl
position-none k n (p ∷ ps) h = elim (Bytes-discrete p.key k) [
  | yes q ↦ ground (arith, q, ==-refl k, h)
  | no q ↦
      let t : has_key k ps ≡ false = ground (arith, q, h) in
      ground (arith, q, position-none k (n + 1) ps t)
]

pub has_key-position :
    (k : Bytes) (n : ℕ) (ps : List Peer) → position k n ps ≡ none → has_key k ps ≡ false
unfolding position has_key
has_key-position k n [] h = refl
has_key-position k n (p ∷ ps) h = elim (Bytes-discrete p.key k) [
  | yes q ↦ ground (arith, q, ==-refl k, h)
  | no q ↦
      let t : position k (n + 1) ps ≡ none = ground (arith, q, h) in
      ground (arith, q, has_key-position k (n + 1) ps t)
]

-- there is a peer at a position, and it has the key
pub position-some :
    (k : Bytes) (n i : ℕ) (ps : List Peer)
    → position k n ps ≡ some i
    → (p : Peer) × (get_elem? ps (i - n) ≡ some p) × (p.key ≡ k) × (n ≤ i)
unfolding position
position-some k n i [] h = cc
position-some k n i (p ∷ ps) h = elim (Bytes-discrete p.key k) [
  | yes q ↦
      let same : i ≡ n = ground (arith, q, ==-refl k, h) in
      let start : i - n ≡ 0 = omega arith in (p, rw (start) refl, q, omega arith)
  | no q ↦
      let t : position k (n + 1) ps ≡ some i = ground (arith, q, h) in
      let (r, at, same, le) = position-some k (n + 1) i ps t in
      let step : i - n ≡ suc (i - (n + 1)) = omega arith in (r, rw (step) at, same, omega arith)
]

pub position-append :
    (k : Bytes) (n : ℕ) (ps : List Peer) (p : Peer)
    → position k n (ps ++ p ∷ []) ≡ elim (position k n ps) as (λ _. Option ℕ) [
      | some i ↦ some i
      | none ↦ if p.key == k then some (n + length ps) else none
    ]
unfolding position
position-append k n [] p = ground arith
position-append k n (q ∷ ps) p =
    let rest = position-append k (n + 1) ps p in
    let sum : n + 1 + length ps ≡ n + suc (length ps) = omega arith in
    elim (Option-cases (position k (n + 1) ps)) [
      | inl e ↦ ground (arith, e, rest, sum)
      | inr (i, e) ↦ ground (arith, e, rest, sum)
    ]

pub has_key-append :
    (k : Bytes) (ps : List Peer) (p : Peer)
    → has_key k (ps ++ p ∷ []) ≡ has_key k ps || (p.key == k)
unfolding has_key
has_key-append k [] p = ground arith
has_key-append k (q ∷ ps) p = ground (arith, has_key-append k ps p)

pub append-Differ :
    (ps : List Peer) (p : Peer) → Differ ps → has_key p.key ps ≡ false → Differ (ps ++ p ∷ [])
unfolding Differ has_key
append-Differ [] p d h = (refl, tt)
append-Differ (q ∷ ps) p d h = elim (Bytes-discrete q.key p.key) [
  | yes e ↦ ground (arith, e, ==-refl p.key, h)
  | no e ↦
      let t : has_key p.key ps ≡ false = ground (arith, e, h) in
      let other : (p.key == q.key) ≡ false = elim (Bytes-discrete p.key q.key) [
        | yes x ↦ absurd (e (cc))
        | no x ↦ ground (arith, x)
      ] in
      let both = has_key-append q.key ps p in
      (ground (arith, both, other, d.0), append-Differ ps p d.1 t)
]

pub has_key-filter :
    (k : Bytes) (f : Peer → Bool) (ps : List Peer)
    → has_key k ps ≡ false
    → has_key k (filter f ps) ≡ false
unfolding has_key
has_key-filter k f [] h = refl
has_key-filter k f (p ∷ ps) h =
    let t : has_key k ps ≡ false = ground (arith, h) in ground (arith, h, has_key-filter k f ps t)

pub filter-Differ : (f : Peer → Bool) (ps : List Peer) → Differ ps → Differ (filter f ps)
unfolding Differ
filter-Differ f [] d = tt
filter-Differ f (p ∷ ps) d = elim (Bool-cases (f p)) [
  | inl e ↦ rw (e) (has_key-filter p.key f ps d.0, filter-Differ f ps d.1)
  | inr e ↦ rw (e) (filter-Differ f ps d.1)
]

-- an index rebuilt over another finds the peers first
pub find_index-reindex :
    (k : Bytes) (n : ℕ) (ps : List Peer) (index : List (Bytes × ℕ))
    → Differ ps
    → find_index k (reindex n ps index)
      ≡ elim (position k n ps) as (λ _. Option ℕ) [ some i ↦ some i | none ↦ find_index k index ]
unfolding reindex position find_index Differ
find_index-reindex k n [] index d = refl
find_index-reindex k n (p ∷ ps) index d =
    let rest = find_index-reindex k (n + 1) ps ((p.key, n) ∷ index) d.1 in
    elim (Bytes-discrete p.key k) [
      | yes q ↦
          let gone : has_key k ps ≡ false = subst (λ x. has_key x ps ≡ false) q d.0 in
          let away = position-none k (n + 1) ps gone in ground (arith, rest, q, away, ==-refl k)
      | no q ↦ elim (Option-cases (position k (n + 1) ps)) [
        | inl e ↦ ground (arith, rest, q, e)
        | inr (i, e) ↦ ground (arith, rest, q, e)
      ]
    ]

-- an update that leaves the keys as they are leaves the index as it was
module _ (f : Peer → Peer) (keeps : (p : Peer) → (f p).key ≡ p.key) where
  pub has_key-update_at :
      (k : Bytes) (i : ℕ) (ps : List Peer) → has_key k (update_at i f ps) ≡ has_key k ps
  unfolding has_key
  has_key-update_at k i [] = refl
  has_key-update_at k ℕ.zero (p ∷ ps) = rw (keeps p) refl
  has_key-update_at k (suc i) (p ∷ ps) = rw (has_key-update_at k i ps) refl

  pub position-update_at :
      (k : Bytes) (n i : ℕ) (ps : List Peer) → position k n (update_at i f ps) ≡ position k n ps
  unfolding position
  position-update_at k n i [] = refl
  position-update_at k n ℕ.zero (p ∷ ps) = rw (keeps p) refl
  position-update_at k n (suc i) (p ∷ ps) = rw (position-update_at k (n + 1) i ps) refl

  pub update_at-Differ : (i : ℕ) (ps : List Peer) → Differ ps → Differ (update_at i f ps)
  unfolding Differ
  update_at-Differ i [] d = tt
  update_at-Differ ℕ.zero (p ∷ ps) d = (rw (keeps p) d.0, d.1)
  update_at-Differ (suc i) (p ∷ ps) d =
      (rw (has_key-update_at p.key i ps) d.0, update_at-Differ i ps d.1)

pub length-update_at :
    {A : Type 0} (i : ℕ) (f : A → A) (xs : List A) → length (update_at i f xs) ≡ length xs
length-update_at i f [] = refl
length-update_at ℕ.zero f (x ∷ xs) = refl
length-update_at (suc i) f (x ∷ xs) = ap suc (length-update_at i f xs)

pub All-update_at :
    {A : Type 0} (P : A → Type 0) (i : ℕ) (f : A → A) (xs : List A)
    → ((x : A) → P x → P (f x))
    → All P xs
    → All P (update_at i f xs)
All-update_at P i f [] step h = tt
All-update_at P ℕ.zero f (x ∷ xs) step h = (step x h.0, h.1)
All-update_at P (suc i) f (x ∷ xs) step h = (h.0, All-update_at P i f xs step h.1)

pub All-filter :
    {A : Type 0} (P : A → Type 0) (f : A → Bool) (xs : List A) → All P xs → All P (filter f xs)
All-filter P f [] h = tt
All-filter P f (x ∷ xs) h = elim (Bool-cases (f x)) [
  | inl e ↦ rw (e) (h.0, All-filter P f xs h.1)
  | inr e ↦ rw (e) (All-filter P f xs h.1)
]

pub get_elem?-last :
    {A : Type 0} (xs : List A) (x : A) → get_elem? (xs ++ x ∷ []) (length xs) ≡ some x
get_elem?-last [] x = refl
get_elem?-last (y ∷ xs) x = get_elem?-last xs x
