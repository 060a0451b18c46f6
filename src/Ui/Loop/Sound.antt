-- ===== src/Ui/Loop/Sound.antt =====
-- crates/wicara/src/ui.rs: what holds of the interface's state, and what `apply` does to it.
use wicara.Prelude.{
  ℕ, ◌-◌, ◌≤◌, ◌≡◌, refl, sym, ◌∙◌, ap, Bool, true, false, not, Option, none, some, List, [], ◌∷◌,
  ◌++◌, Bytes, Bytes-discrete, bytes_eq, ◌==◌, ==-refl, leb, if◌then◌else◌, length, length-append,
  get_elem?, filter, update_at, All, All-append, subst, Option-cases, inl, inr, arith,
}
use wicara.Ui.{
  Entry, Link, UiEvent, known, connected, path, disconnected, log, delivery, transfer, note,
  forgotten, wiped, room, status, Peer, Ui,
}
use wicara.Ui.Events.{
  find_index, fresh_peer, place, peer_at, peer_mut, take_log, take_path, is_selected, reindex,
  forget_peer, apply,
}
use wicara.Ui.Events.Index.{
  position, Differ, position-some, position-append, has_key-position, get_elem?-last, append-Differ,
  filter-Differ, find_index-reindex, position-update_at, update_at-Differ, length-update_at,
  All-update_at, All-filter,
}
use wicara.Ui.Editing.Caret.{IsBoundary}

-- the index says where each peer is, and no two have one key
unfoldable pub IsIndexed : List Peer → List (Bytes × ℕ) → Type 0
IsIndexed ps index = Differ ps × ((k : Bytes) → find_index k index ≡ position k 0 ps)

-- the cursor is on a message, or the conversation is empty
unfoldable pub IsOnMessage : Peer → Type 0
IsOnMessage p = p.cursor ≤ length p.log - 1

unfoldable pub IsSound : Ui → Type 0
IsSound u =
    IsIndexed u.peers u.index
    × (u.sel ≤ length u.peers - 1)
    × All IsOnMessage u.peers
    × IsBoundary u.input u.caret

pub if-IsSound : (b : Bool) (u v : Ui) → IsSound u → IsSound v → IsSound (if b then u else v)
if-IsSound true u v hu hv = hu
if-IsSound false u v hu hv = hv

-- what an event does to one peer
pub record Change (f : Peer → Peer) : Type 0 where
  pub keeps : (p : Peer) → (f p).key ≡ p.key
  pub stays : (p : Peer) → IsOnMessage p → IsOnMessage (f p)

fresh-IsOnMessage : (key : Bytes) → IsOnMessage (fresh_peer key)
unfolding IsOnMessage
fresh-IsOnMessage key = omega arith

pub add-IsIndexed :
    (key : Bytes) (ps : List Peer) (index : List (Bytes × ℕ))
    → IsIndexed ps index
    → find_index key index ≡ none
    → IsIndexed (ps ++ fresh_peer key ∷ []) ((key, length ps) ∷ index)
unfolding IsIndexed find_index
add-IsIndexed key ps index (differ, agree) new =
    let away : position key 0 ps ≡ none = sym (agree key) ∙ new in
    (
      append-Differ ps (fresh_peer key) differ (has_key-position key 0 ps away),
      λ k.
          let rest = position-append k 0 ps (fresh_peer key) in
          let old = agree k in
          elim (Bytes-discrete key k) [
            | yes q ↦
                let gone : position k 0 ps ≡ none = subst (λ x. position x 0 ps ≡ none) q away in
                ground (arith, rest, old, q, gone, ==-refl k)
            | no q ↦ elim (Option-cases (position k 0 ps)) [
              | inl e ↦ ground (arith, rest, old, q, e)
              | inr (i, e) ↦ ground (arith, rest, old, q, e)
            ]
          ],
    )

pub place-IsSound :
    (key : Bytes) (u : Ui)
    → IsSound u
    → (v : Ui) × (i : ℕ) × (place key u ≡ (v, i))
      × IsSound v
      × (p : Peer) × (get_elem? v.peers i ≡ some p)
      × (p.key ≡ key)
unfolding place IsSound IsIndexed
place-IsSound key u (indexed, sel, cursors, caret) = elim (Option-cases (find_index key u.index)) [
  | inr (i, e) ↦
      let (p, at, same, _) = position-some key 0 i u.peers (sym (indexed.1 key) ∙ e) in
      let start : i - 0 ≡ i = omega arith in
      (
        u,
        i,
        rw (e, place) refl,
        (indexed, sel, cursors, caret),
        p,
        subst (λ n. get_elem? u.peers n ≡ some p) start at,
        same,
      )
  | inl e ↦ (
    record u { peers = u.peers ++ fresh_peer key ∷ []; index = (key, length u.peers) ∷ u.index },
    length u.peers,
    rw (e, place) refl,
    (
      add-IsIndexed key u.peers u.index indexed e,
      omega (arith, length-append u.peers (fresh_peer key ∷ [])),
      All-append IsOnMessage u.peers (fresh_peer key ∷ []) cursors (fresh-IsOnMessage key, tt),
      caret,
    ),
    fresh_peer key,
    get_elem?-last u.peers (fresh_peer key),
    refl,
  )
]

pub update-IsSound :
    (f : Peer → Peer) (i : ℕ) (u : Ui)
    → Change f
    → IsSound u
    → IsSound (record u { peers = update_at i f u.peers })
unfolding IsSound IsIndexed
update-IsSound f i u change (indexed, sel, cursors, caret) = (
  (
    update_at-Differ f change.keeps i u.peers indexed.0,
    λ k. indexed.1 k ∙ sym (position-update_at f change.keeps k 0 i u.peers),
  ),
  rw (length-update_at i f u.peers) sel,
  All-update_at IsOnMessage i f u.peers change.stays cursors,
  caret,
)

pub peer_at-some :
    (f : Peer → Peer) (v : Ui) (i : ℕ) (p : Peer)
    → get_elem? v.peers i ≡ some p
    → peer_at f (v, i) ≡ some (record v { peers = update_at i f v.peers })
unfolding peer_at
peer_at-some f v i p at = rw (at, peer_at) refl

peer_mut-IsSound :
    (key : Bytes) (f : Peer → Peer) (u : Ui)
    → Change f
    → IsSound u
    → (v : Ui) × (peer_mut key f u ≡ some v) × IsSound v
unfolding peer_mut
peer_mut-IsSound key f u change sound =
    let (v, i, got, there, p, at, same) = place-IsSound key u sound in
    (
      record v { peers = update_at i f v.peers },
      ap (peer_at f) got ∙ peer_at-some f v i p at,
      update-IsSound f i v change there,
    )

take_log-Change : (selected : Bool) (entries : List Entry) → Change (take_log selected entries)
unfolding take_log IsOnMessage
take_log-Change selected entries = record { keeps = λ p. ground arith; stays = λ p h. ground arith }

take_path-Change : (link : Option Link) → Change (take_path link)
unfolding take_path IsOnMessage
take_path-Change none = record { keeps = λ p. refl; stays = λ p h. h }
take_path-Change (some l) = record { keeps = λ p. refl; stays = λ p h. h }

pub reindex-IsIndexed : (ps : List Peer) → Differ ps → IsIndexed ps (reindex 0 ps [])
unfolding IsIndexed find_index
reindex-IsIndexed ps differ = (
  differ,
  λ k.
      let found = find_index-reindex k 0 ps [] differ in
      elim (Option-cases (position k 0 ps)) [
        | inl e ↦ ground (arith, found, e)
        | inr (i, e) ↦ ground (arith, found, e)
      ],
)

forget_peer-IsSound : (key : Bytes) (u : Ui) → IsSound u → IsSound (forget_peer key u)
unfolding forget_peer IsSound IsIndexed
forget_peer-IsSound key u (indexed, sel, cursors, caret) =
    let left = filter (λ (p : Peer). not (p.key == key)) u.peers in
    (
      reindex-IsIndexed left (filter-Differ (λ p. not (p.key == key)) u.peers indexed.0),
      omega arith,
      All-filter IsOnMessage (λ p. not (p.key == key)) u.peers cursors,
      caret,
    )

-- an event finds the peer that it is about, and what is sound stays so
pub apply-IsSound :
    (now : ℕ) (ev : UiEvent) (u : Ui) → IsSound u → (v : Ui) × (apply now ev u ≡ some v) × IsSound v
unfolding apply IsSound IsOnMessage reindex Differ
apply-IsSound now (known key nick alias) u s =
    peer_mut-IsSound key _ u (record { keeps = λ p. refl; stays = λ p h. h }) s
apply-IsSound now (connected key nick) u s =
    peer_mut-IsSound key _ u (record { keeps = λ p. refl; stays = λ p h. h }) s
apply-IsSound now (path key link) u s = peer_mut-IsSound key _ u (take_path-Change link) s
apply-IsSound now (disconnected key) u s =
    peer_mut-IsSound key _ u (record { keeps = λ p. refl; stays = λ p h. h }) s
apply-IsSound now (log key entries) u s =
    peer_mut-IsSound key _ _ (take_log-Change (is_selected u key) entries)
      (if-IsSound (is_selected u key) _ u s s)
apply-IsSound now (delivery id state) u s = (_, refl, s)
apply-IsSound now (transfer id done total) u s = (_, refl, if-IsSound (leb total done) _ _ s s)
apply-IsSound now (note key text) u s =
    peer_mut-IsSound key _ u (record { keeps = λ p. refl; stays = λ p h. h }) s
apply-IsSound now (forgotten key) u s = (forget_peer key u, refl, forget_peer-IsSound key u s)
apply-IsSound now wiped u (indexed, sel, cursors, caret) =
    (_, refl, (reindex-IsIndexed [] tt, omega arith, tt, caret))
apply-IsSound now (room key view) u s =
    peer_mut-IsSound key _ u (record { keeps = λ p. refl; stays = λ p h. h }) s
apply-IsSound now (status text bad) u s = (_, refl, s)
