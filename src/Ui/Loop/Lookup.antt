-- ===== src/Ui/Loop/Lookup.antt =====
-- crates/wicara/src/ui.rs: `peers` and `index` as a map from keys to peers.
use wicara.Prelude.{
  ℕ, suc, ◌+◌, ◌-◌, ◌≡◌, refl, sym, ◌∙◌, ap, subst, false, not, Option, none, some, List, [], ◌∷◌,
  ◌++◌, Bytes, Bytes-discrete, bytes_eq, ◌==◌, ==-refl, if◌then◌else◌, length, get_elem?, filter,
  update_at, Option-cases, inl, inr, arith,
}
use wicara.Ui.{Peer, Ui}
use wicara.Ui.Events.{find_index, fresh_peer, place}
use wicara.Ui.Events.Index.{position, position-some, position-append}
use wicara.Ui.Loop.Sound.{IsIndexed, add-IsIndexed}

-- the peer of a key, as `index` and `peers` give it
unfoldable pub lookup : Bytes → Ui → Option Peer
lookup k u = elim (find_index k u.index) [ none ↦ none | some i ↦ get_elem? u.peers i ]

-- the same, by a search of `peers`
unfoldable pub find_peer : Bytes → List Peer → Option Peer
find_peer k [] = none
find_peer k (p ∷ ps) = let rest = find_peer k ps in if p.key == k then some p else rest

unfoldable pub or_fresh : Bytes → Option Peer → Peer
or_fresh k none = fresh_peer k
or_fresh k (some p) = p

pub find_peer-position :
    (k : Bytes) (n i : ℕ) (ps : List Peer)
    → position k n ps ≡ some i
    → find_peer k ps ≡ get_elem? ps (i - n)
unfolding position find_peer
find_peer-position k n i [] h = cc
find_peer-position k n i (p ∷ ps) h = elim (Bytes-discrete p.key k) [
  | yes q ↦
      let same : i ≡ n = ground (arith, q, ==-refl k, h) in
      let start : i - n ≡ 0 = omega arith in
      let found : find_peer k (p ∷ ps) ≡ some p = ground (arith, q, ==-refl k) in
      found ∙ sym (ap (get_elem? (p ∷ ps)) start)
  | no q ↦
      let t : position k (n + 1) ps ≡ some i = ground (arith, q, h) in
      let (r, at, same, le) = position-some k (n + 1) i ps t in
      let step : i - n ≡ suc (i - (n + 1)) = omega arith in
      let on : find_peer k (p ∷ ps) ≡ find_peer k ps = ground (arith, q) in
      on ∙ find_peer-position k (n + 1) i ps t ∙ sym (ap (get_elem? (p ∷ ps)) step)
]

find_peer-none :
    (k : Bytes) (n : ℕ) (ps : List Peer) → position k n ps ≡ none → find_peer k ps ≡ none
unfolding position find_peer
find_peer-none k n [] h = refl
find_peer-none k n (p ∷ ps) h = elim (Bytes-discrete p.key k) [
  | yes q ↦ ground (arith, q, ==-refl k, h)
  | no q ↦
      let t : position k (n + 1) ps ≡ none = ground (arith, q, h) in
      ground (arith, q, find_peer-none k (n + 1) ps t)
]

pub lookup-find_peer :
    (k : Bytes) (u : Ui) → IsIndexed u.peers u.index → lookup k u ≡ find_peer k u.peers
unfolding lookup IsIndexed
lookup-find_peer k u (differ, agree) = elim (Option-cases (position k 0 u.peers)) [
  | inl e ↦ rw (agree k ∙ e, lookup) (sym (find_peer-none k 0 u.peers e))
  | inr (i, e) ↦
      let start : i - 0 ≡ i = omega arith in
      rw (agree k ∙ e, lookup)
        (sym (find_peer-position k 0 i u.peers e ∙ ap (get_elem? u.peers) start))
]

find_peer-append :
    (k : Bytes) (ps : List Peer) (p : Peer)
    → find_peer k (ps ++ p ∷ []) ≡ elim (find_peer k ps) as (λ _. Option Peer) [
      | some q ↦ some q
      | none ↦ if p.key == k then some p else none
    ]
unfolding find_peer
find_peer-append k [] p = ground arith
find_peer-append k (q ∷ ps) p = ground (arith, find_peer-append k ps p)

pub find_peer-filter :
    (k away : Bytes) (ps : List Peer)
    → find_peer k (filter (λ (p : Peer). not (p.key == away)) ps)
      ≡ (if away == k then none else find_peer k ps)
unfolding find_peer
find_peer-filter k away [] = ground arith
find_peer-filter k away (p ∷ ps) =
    let rest = find_peer-filter k away ps in
    elim (Bytes-discrete p.key away) [
      | yes q ↦ elim (Bytes-discrete away k) [
        | yes r ↦ ground (arith, q, r, rest, ==-refl k)
        | no r ↦ ground (arith, q, r, rest, ==-refl away)
      ]
      | no q ↦ elim (Bytes-discrete away k) [
        | yes r ↦
            let different : (p.key == k) ≡ false = elim (Bytes-discrete p.key k) [
              | yes x ↦ absurd (q (cc))
              | no x ↦ ground (arith, x)
            ] in
            ground (arith, q, r, rest, different)
        | no r ↦ ground (arith, q, r, rest)
      ]
    ]

-- an update of the peer at the first place of a key
module _ (f : Peer → Peer) (keeps : (p : Peer) → (f p).key ≡ p.key) (k away : Bytes) where
  pub find_peer-update_at :
      (n j : ℕ) (p : Peer) (ps : List Peer)
      → find_peer k ps ≡ some p
      → position k n ps ≡ some (n + j)
      → find_peer away (update_at j f ps) ≡ (if k == away then some (f p) else find_peer away ps)
  unfolding find_peer position
  find_peer-update_at n j p [] h at = cc
  find_peer-update_at n ℕ.zero p (q ∷ ps) h at = elim (Bytes-discrete q.key k) [
    | yes e ↦
        let first : p ≡ q = ground (arith, e, h, ==-refl k) in
        let updated = keeps q in
        elim (Bytes-discrete k away) [
          | yes r ↦
              let moved : (f q).key ≡ away = updated ∙ e ∙ r in
              ground (arith, r, moved, first, ==-refl away)
          | no r ↦ let kept : (f q).key ≡ k = updated ∙ e in ground (arith, r, kept, e, first)
        ]
    | no e ↦
        let t : position k (n + 1) ps ≡ some (n + 0) = ground (arith, e, at) in
        let (_, _, _, le) = position-some k (n + 1) (n + 0) ps t in absurd (omega arith)
  ]
  find_peer-update_at n (suc j) p (q ∷ ps) h at = elim (Bytes-discrete q.key k) [
    | yes e ↦ let same : n ≡ n + suc j = ground (arith, e, at, ==-refl k) in absurd (omega arith)
    | no e ↦
        let shift : n + suc j ≡ n + 1 + j = omega arith in
        let t : position k (n + 1) ps ≡ some (n + suc j) = ground (arith, e, at) in
        let t' : position k (n + 1) ps ≡ some (n + 1 + j) = t ∙ ap some shift in
        let h' : find_peer k ps ≡ some p = ground (arith, e, h) in
        let rest = find_peer-update_at (n + 1) j p ps h' t' in
        elim (Bytes-discrete k away) [
          | yes r ↦
              let e' : (q.key == away) ≡ false = ground (arith, ap (λ x. q.key == x) r, e) in
              ground (arith, r, rest, e')
          | no r ↦ ground (arith, r, rest)
        ]
  ]

-- what `place` leaves: the peer is where it says, and no other peer has changed
pub record Placed (key : Bytes) (u v : Ui) (i : ℕ) : Type 0 where
  pub got : place key u ≡ (v, i)
  pub indexed : IsIndexed v.peers v.index
  pub at : position key 0 v.peers ≡ some i
  pub found : find_peer key v.peers ≡ some (or_fresh key (lookup key u))
  pub others : (k : Bytes) → (key == k) ≡ false → find_peer k v.peers ≡ find_peer k u.peers

pub place-Placed :
    (key : Bytes) (u : Ui) → IsIndexed u.peers u.index → (v : Ui) × (i : ℕ) × Placed key u v i
unfolding place or_fresh IsIndexed
place-Placed key u (differ, agree) =
    let there = lookup-find_peer key u (differ, agree) in
    elim (Option-cases (find_index key u.index)) [
      | inr (i, e) ↦
          let at = sym (agree key) ∙ e in
          let (p, got, _, _) = position-some key 0 i u.peers at in
          let start : i - 0 ≡ i = omega arith in
          let got' = subst (λ n. get_elem? u.peers n ≡ some p) start got in
          let found = find_peer-position key 0 i u.peers at ∙ ap (get_elem? u.peers) start ∙ got' in
          (
            u,
            i,
            record {
              got = rw (e, place) refl;
              indexed = (differ, agree);
              at = at;
              found = found ∙ ap (λ o. some (or_fresh key o)) (sym (there ∙ found));
              others = λ k h. refl;
            },
          )
      | inl e ↦
          let away = sym (agree key) ∙ e in
          let gone = find_peer-none key 0 u.peers away in
          let placed = position-append key 0 u.peers (fresh_peer key) in
          let found = find_peer-append key u.peers (fresh_peer key) in
          (
            record u {
              peers = u.peers ++ fresh_peer key ∷ [];
              index = (key, length u.peers) ∷ u.index;
            },
            length u.peers,
            record {
              got = rw (e, place) refl;
              indexed = add-IsIndexed key u.peers u.index (differ, agree) e;
              at = ground (arith, placed, away, ==-refl key);
              found = ground (arith, found, gone, there, ==-refl key);
              others = λ k h.
                  let both = find_peer-append k u.peers (fresh_peer key) in
                  elim (Option-cases (find_peer k u.peers)) [
                    | inl x ↦ ground (arith, both, h, x)
                    | inr (y, x) ↦ ground (arith, both, h, x)
                  ];
            },
          )
    ]
