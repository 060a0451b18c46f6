-- ===== src/Ui/Loop/Peers.antt =====
-- crates/wicara/src/ui.rs: what `peer_mut` and `/forget` do to the map from keys to peers.
use wicara.Prelude.{
  ℕ, ◌+◌, ◌-◌, true, false, get_elem?, ◌≡◌, refl, sym, ◌∙◌, ap, Bool, not, Option, none, some, List,
  Bytes, bytes_eq, ◌==◌, if◌then◌else◌, filter, update_at, arith,
}
use wicara.Ui.{Peer, Ui}
use wicara.Ui.Events.{peer_at, peer_mut, forget_peer}
use wicara.Ui.Events.Index.{position-update_at, update_at-Differ, filter-Differ}
use wicara.Ui.Loop.Sound.{IsIndexed, IsSound, reindex-IsIndexed, peer_at-some}
use wicara.Ui.Loop.Lookup.{
  lookup, or_fresh, lookup-find_peer, find_peer, find_peer-update_at, find_peer-filter,
  place-Placed, Placed, find_peer-position,
}

update-IsIndexed :
    (f : Peer → Peer) (keeps : (p : Peer) → (f p).key ≡ p.key) (i : ℕ) (ps : List Peer)
    (index : List (Bytes × ℕ))
    → IsIndexed ps index
    → IsIndexed (update_at i f ps) index
unfolding IsIndexed
update-IsIndexed f keeps i ps index (differ, agree) =
    (update_at-Differ f keeps i ps differ, λ k. agree k ∙ sym (position-update_at f keeps k 0 i ps))

other_peer :
    (key : Bytes) (u v : Ui) (i : ℕ)
    → Placed key u v i
    → (k : Bytes) (found : Option Peer) (b : Bool) → (key == k) ≡ b
    → IsIndexed u.peers u.index
    → (if b then found else find_peer k v.peers) ≡ (if b then found else lookup k u)
other_peer key u v i placed k found true e indexed = refl
other_peer key u v i placed k found false e indexed =
    placed.others k e ∙ sym (lookup-find_peer k u indexed)

-- The index and the vector of peers are a map from keys to peers: in a state that is sound, `peer_mut`
-- panics for no key and puts the changed peer, or a changed new one, under that key; every other key
-- finds what it found before.
pub peer_mut_is_map_update :
    (key k : Bytes) (f : Peer → Peer) (u : Ui)
    → ((p : Peer) → (f p).key ≡ p.key)
    → IsSound u
    → (v : Ui) × (peer_mut key f u ≡ some v)
      × (lookup k v ≡ (if key == k then some (f (or_fresh key (lookup key u))) else lookup k u))
unfolding peer_mut IsSound
peer_mut_is_map_update key k f u keeps (indexed, _, _, _) =
    let (v, i, placed) = place-Placed key u indexed in
    let p = or_fresh key (lookup key u) in
    let w : Ui = record v { peers = update_at i f v.peers } in
    let known = update-IsIndexed f keeps i v.peers v.index placed.indexed in
    let start : i - 0 ≡ i = omega arith in
    let shift : i ≡ 0 + i = omega arith in
    let at =
      sym (ap (get_elem? v.peers) start)
      ∙ sym (find_peer-position key 0 i v.peers placed.at)
      ∙ placed.found in
    (
      w,
      ap (peer_at f) placed.got ∙ peer_at-some f v i p at,
      let step =
            find_peer-update_at f keeps key k 0 i p v.peers placed.found
              (placed.at ∙ ap some shift) in
          lookup-find_peer k w known
          ∙ step
          ∙ other_peer key u v i placed k (some (f p)) (key == k) refl indexed,
    )

-- After `/forget` nothing is found under the key, and every other key finds what it found before.
pub forget_is_map_removal :
    (key k : Bytes) (u : Ui)
    → IsSound u
    → lookup k (forget_peer key u) ≡ (if key == k then none else lookup k u)
unfolding forget_peer IsSound IsIndexed
forget_is_map_removal key k u (indexed, _, _, _) =
    let left = filter (λ (p : Peer). not (p.key == key)) u.peers in
    let known =
      reindex-IsIndexed left (filter-Differ (λ p. not (p.key == key)) u.peers indexed.0) in
    lookup-find_peer k (forget_peer key u) known
    ∙ find_peer-filter k key u.peers
    ∙ sym (ap (λ o. if key == k then none else o) (lookup-find_peer k u indexed))
