-- ===== src/Ui/Events.antt =====
-- crates/wicara/src/ui.rs: `peer_mut` and `apply`. `none` is a panic of the code; the clock is an
-- argument.
pub mod Index
use wicara.Prelude.{
  ℕ, suc, ◌+◌, ◌-◌, min, Bool, true, false, not, Option, none, some, List, [], ◌∷◌, ◌++◌, Bytes,
  bytes_eq, nat_eq, ◌==◌, ltb, leb, if◌then◌else◌, length, get_elem?, filter, drop, update_at,
}
use wicara.Wire.{MessageId, message_id_eq}
use wicara.Ui.{
  Chars, Entry, Link, Delivery, worse, UiEvent, known, connected, path, disconnected, log, delivery,
  transfer, note, forgotten, wiped, room, status, Peer, Ui,
}

unfoldable pub find_index : Bytes → List (Bytes × ℕ) → Option ℕ
find_index k [] = none
find_index k (x ∷ xs) = if x.0 == k then some x.1 else find_index k xs

abbrev pub fresh_peer : Bytes → Peer
fresh_peer key = record {
  key = key;
  nick = none;
  alias = none;
  online = false;
  link = none;
  rtt = [];
  log = [];
  unread = 0;
  cursor = 0;
  unread_from = none;
  notes = [];
  room = none;
}

-- `index.entry(key).or_insert_with(…)`: the state, and the peer's place
unfoldable pub place : Bytes → Ui → Ui × ℕ
place key u = elim (find_index key u.index) [
  | some i ↦ (u, i)
  | none ↦ (
    record u { peers = u.peers ++ fresh_peer key ∷ []; index = (key, length u.peers) ∷ u.index },
    length u.peers,
  )
]

-- `&mut self.peers[idx]`, with what is done to the peer
unfoldable pub peer_at : (Peer → Peer) → Ui × ℕ → Option Ui
peer_at f (v, i) = elim (get_elem? v.peers i) [
  | none ↦ none
  | some p ↦ some (record v { peers = update_at i f v.peers })
]

-- `peer_mut`
unfoldable pub peer_mut : Bytes → (Peer → Peer) → Ui → Option Ui
peer_mut key f u = peer_at f (place key u)

-- a list that keeps its last elements
unfoldable pub push_capped : {A : Type 0} → ℕ → A → List A → List A
push_capped cap x xs = let ys = xs ++ x ∷ [] in if ltb cap (length ys) then drop 1 ys else ys

unfoldable pub selected_key : Ui → Option Bytes
selected_key u = elim (get_elem? u.peers u.sel) [ none ↦ none | some p ↦ some p.key ]

unfoldable pub is_selected : Ui → Bytes → Bool
is_selected u key = elim (selected_key u) [ none ↦ false | some k ↦ k == key ]

-- what a refolded conversation does to its peer
unfoldable pub take_log : Bool → List Entry → Peer → Peer
take_log selected entries p =
    let before = length p.log in
    let last = length entries - 1 in
    let at_end = leb before (p.cursor + 1) in
    let cursor = min (if at_end then last else p.cursor) last in
    let unseen = ltb before (length entries) in
    if selected
    then record p { log = entries; cursor = cursor }
    else if unseen
    then record p {
      log = entries;
      cursor = cursor;
      unread = p.unread + 1;
      unread_from = elim p.unread_from [ none ↦ some before | some n ↦ some n ];
    }
    else record p { log = entries; cursor = cursor }

unfoldable pub take_path : Option Link → Peer → Peer
take_path none p = record p { link = none }
take_path (some l) p = record p { link = some l; rtt = push_capped 16 l.rtt_ms p.rtt }

unfoldable pub set_delivery :
    MessageId → Delivery → List (MessageId × Delivery) → List (MessageId × Delivery)
set_delivery id state [] = (id, state) ∷ []
set_delivery id state (x ∷ xs) =
    if x.0 == id then (id, worse x.1 state) ∷ xs else x ∷ set_delivery id state xs

unfoldable pub remove_transfer : MessageId → List (MessageId × (ℕ × ℕ)) → List (MessageId × (ℕ × ℕ))
remove_transfer id = filter (λ (x : MessageId × (ℕ × ℕ)). not (x.0 == id))

-- `self.index` rebuilt from the peers in order
unfoldable pub reindex : ℕ → List Peer → List (Bytes × ℕ) → List (Bytes × ℕ)
reindex n [] index = index
reindex n (p ∷ ps) index = reindex (n + 1) ps ((p.key, n) ∷ index)

unfoldable pub forget_peer : Bytes → Ui → Ui
forget_peer key u =
    let left = filter (λ (p : Peer). not (p.key == key)) u.peers in
    record u {
      peers = left;
      index = reindex 0 left [];
      sel = min u.sel (length left - 1);
      scroll = 0;
      delivery = [];
    }

-- `Ui::apply`
unfoldable pub apply : ℕ → UiEvent → Ui → Option Ui
apply now (known peer nick alias) u =
    peer_mut peer (λ (p : Peer). record p { nick = nick; alias = alias }) u
apply now (connected peer nick) u =
    peer_mut peer (λ (p : Peer). record p { nick = some nick; online = true }) u
apply now (path peer link) u = peer_mut peer (take_path link) u
apply now (disconnected peer) u =
    peer_mut peer (λ (p : Peer). record p { online = false; link = none }) u
apply now (log peer entries) u =
    let selected = is_selected u peer in
    peer_mut peer (take_log selected entries) (if selected then record u { scroll = 0 } else u)
apply now (delivery id state) u = some (record u { delivery = set_delivery id state u.delivery })
apply now (transfer id done total) u = some (
    if leb total done
    then record u { transfers = remove_transfer id u.transfers }
    else record u { transfers = (id, (done, total)) ∷ remove_transfer id u.transfers })
apply now (note peer text) u =
    peer_mut peer (λ (p : Peer). record p { notes = push_capped 50 (now, text) p.notes }) u
apply now (forgotten peer) u = some (forget_peer peer u)
apply now wiped u =
    some (record u { peers = []; index = []; delivery = []; transfers = []; sel = 0; scroll = 0 })
apply now (room id view) u = peer_mut id (λ (p : Peer). record p { room = some view }) u
apply now (status text bad) u = some (record u { status = text; status_bad = bad })
