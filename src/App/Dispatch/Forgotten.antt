-- ===== src/App/Dispatch/Forgotten.antt =====
-- crates/wicara/src/main.rs: what `forget` leaves.
use wicara.Prelude.{
  ℕ, ◌≡◌, refl, sym, ◌∙◌, ap, subst, Bool, false, not, ◌&&◌, ◌||◌, none, List, [], ◌∷◌, map, Bytes,
  Text, Bytes-discrete, bytes_eq, nat_eq, ◌==◌, ==-refl, if◌then◌else◌, filter, any, ok,
  Result-cases, inl, inr, arith,
}
use wicara.Crypto.{Crypto}
use wicara.E2e.{VerifiedPrekey}
use wicara.Room.{Room}
use wicara.Store.Tables.{Store, LogRow, SettingRow, find_setting, setting}
use wicara.Store.History.{Message, history}
use wicara.Store.Erase.{delete_setting, delete_settings, file_key_of, whole, paths}
use wicara.Store.Erase
use wicara.Store.Replay.{any-filtered, forget_removes}
use wicara.Files.Paths.{Disk, file_at, try_remove, file_at-try_remove}
use wicara.App.{Codecs, find_known, history_on_start}
use wicara.App.Names.{nick_key, alias_key, names_of, present, flatten}
use wicara.App.Dispatch.{Client, unlink_all, close, forget_peer}

file_at-unlink_all :
    (removes : Text → Bool) (q : Text) (ps : List Text) (disk : Disk)
    → file_at q (unlink_all removes ps disk).0
      ≡ (if removes q && any (λ p. p == q) ps then none else file_at q disk)
unfolding unlink_all
file_at-unlink_all removes q [] disk = ground arith
file_at-unlink_all removes q (p ∷ ps) disk =
    let removed = file_at-try_remove (removes p) p q disk in
    let rest = file_at-unlink_all removes q ps (try_remove (removes p) p disk) in
    elim (Bytes-discrete p q) [
      | yes same ↦ ground (arith, removed, rest, same, ==-refl q)
      | no other ↦ ground (arith, removed, rest, other)
    ]

find_setting-deleted :
    (key other : Text) (rows : List SettingRow)
    → find_setting key (delete_setting other rows)
      ≡ (if other == key then none else find_setting key rows)
unfolding find_setting delete_setting
find_setting-deleted key other [] = ground arith
find_setting-deleted key other (x ∷ xs) =
    let rest = find_setting-deleted key other xs in
    elim (Bytes-discrete x.key other) [
      | yes p ↦ elim (Bytes-discrete other key) [
        | yes q ↦ ground (arith, p, q, rest, ==-refl key)
        | no q ↦ ground (arith, p, q, rest, ==-refl other)
      ]
      | no p ↦ elim (Bytes-discrete other key) [
        | yes q ↦
            let apart : (x.key == key) ≡ false = elim (Bytes-discrete x.key key) [
              | yes r ↦ absurd (p (r ∙ sym q))
              | no r ↦ ground (arith, r)
            ] in
            ground (arith, p, q, rest, apart)
        | no q ↦ ground (arith, p, q, rest)
      ]
    ]

find_known-closed :
    (peer : Bytes) (rooms : List (Bytes × Room))
    → find_known peer (filter (λ (r : Bytes × Room). not (r.0 == peer)) rooms) ≡ none
unfolding find_known
find_known-closed peer [] = refl
find_known-closed peer (r ∷ rs) = ground (arith, find_known-closed peer rs)

find_setting-delete_settings :
    (key : Text) (keys : List Text) (rows : List SettingRow)
    → find_setting key (delete_settings keys rows)
      ≡ (if any (λ k. k == key) keys then none else find_setting key rows)
unfolding delete_settings
find_setting-delete_settings key [] rows = refl
find_setting-delete_settings key (k ∷ ks) rows =
    let first = find_setting-deleted key k rows in
    let rest = find_setting-delete_settings key ks (delete_setting k rows) in
    ground (arith, first, rest)

module _ (c : Crypto) (k : Codecs) where
  names_of-none :
      (s : Store) (peer : Bytes)
      → find_setting (nick_key peer) s.settings ≡ none
      → find_setting (alias_key peer) s.settings ≡ none
      → names_of c s peer ≡ (none, none)
  unfolding names_of setting present flatten
  names_of-none s peer nick alias =
      let first : setting c s (nick_key peer) ≡ ok none = rw (nick, setting) refl in
      let second : setting c s (alias_key peer) ≡ ok none = rw (alias, setting) refl in
      ap (λ o. (flatten o, present (flatten (setting c s (alias_key peer))))) first
      ∙ ap (λ o. (flatten (ok none), present (flatten o))) second

  abbrev names : Bytes → List Text
  names peer = nick_key peer ∷ alias_key peer ∷ []

  -- what `Store::forget` makes of the settings, and the files that it names
  forget-settings :
      (s t : Store) (peer : Bytes) (files : List Text)
      → Erase.forget c k.frames s peer (names peer) ≡ ok (t, files)
      → (msgs : List Message) × (whole c k.frames s peer ≡ ok msgs)
        × (t.settings
            ≡ delete_settings (names peer) (delete_settings (map file_key_of msgs) s.settings))
        × (files ≡ paths msgs)
  unfolding Erase.forget
  forget-settings s t peer files h = elim (Result-cases (whole c k.frames s peer)) [
    | inr (why, e) ↦ ground (arith, e, h)
    | inl (msgs, e) ↦ (msgs, e, ground (arith, e, h), ground (arith, e, h))
  ]

  -- What is left of a conversation: it was `msgs` before, in `x`, and is forgotten in `y`.
  pub record IsForgotten (removes : Text → Bool) (peer : Bytes) (msgs : List Message) (x y : Client)
      : Type 0 where
    pub before : whole c k.frames x.app.store peer ≡ ok msgs
    pub closed : any (λ (p : Bytes). p == peer) y.live ≡ false
    pub no_room : find_known peer y.app.rooms ≡ none
    pub no_prekey : any (λ (p : Bytes × VerifiedPrekey). p.0 == peer) y.prekeys ≡ false
    pub no_message : history c k.frames y.app.store peer history_on_start ≡ ok []
    pub no_contact : any (λ (p : Bytes). p == peer) y.app.store.contacts ≡ false
    pub no_log : any (λ (r : LogRow). r.id == peer) y.app.store.logs ≡ false
    pub no_name : names_of c y.app.store peer ≡ (none, none)
    pub settings :
        (key : Text)
        → find_setting key y.app.store.settings ≡ (
            if any (λ n. n == key) (names peer) || any (λ n. n == key) (map file_key_of msgs)
            then none
            else find_setting key x.app.store.settings)
    pub files :
        (path : Text)
        → file_at path y.disk ≡ (
            if removes path && any (λ p. p == path) (paths msgs) then none else file_at path x.disk)

  -- What `/forget yes` leaves of a conversation, if it ends without an error: the connection, the room
  -- and the prekey of the peer are let go; in the store the conversation has no message and its room no
  -- log, the peer is no contact and has neither the name it gave itself nor an alias, and of the settings
  -- just its names and the paths of its attachments are gone; on the disk just the attachments
  -- that had a path are gone, as far as the system lets them be removed.
  pub forget_peer-IsForgotten :
      (removes : Text → Bool) (x y : Client) (peer : Bytes) (n : ℕ)
      → forget_peer c k removes x peer ≡ (y, ok n)
      → (msgs : List Message) × IsForgotten removes peer msgs x y
  unfolding forget_peer close
  forget_peer-IsForgotten removes x y peer n h =
      elim (Result-cases (Erase.forget c k.frames x.app.store peer (names peer))) [
        | inr (why, e) ↦ ground (arith, e, h)
        | inl ((s, files), e) ↦
            let closed = close peer x in
            let left : Client = record closed {
              app = record closed.app { store = s };
              disk = (unlink_all removes files x.disk).0;
            } in
            let done : left ≡ y = ground (arith, e, h) in
            let (msgs, before, settled, same) = forget-settings x.app.store s peer files e in
            let (emptied, stranger, unlogged) =
              forget_removes c k.frames x.app.store s peer (names peer) files history_on_start e in
            let old = x.app.store.settings in
            let kept = delete_settings (map file_key_of msgs) old in
            let found : (key : Text)
                → find_setting key s.settings ≡ (
                    if any (λ n. n == key) (names peer)
                      || any (λ n. n == key) (map file_key_of msgs)
                    then none
                    else find_setting key old) =
              λ key.
                let outer = find_setting-delete_settings key (names peer) kept in
                let inner = find_setting-delete_settings key (map file_key_of msgs) old in
                rw settled (ground (arith, outer, inner)) in
            let nick : find_setting (nick_key peer) s.settings ≡ none =
              ground (arith, found (nick_key peer), ==-refl (nick_key peer)) in
            let alias : find_setting (alias_key peer) s.settings ≡ none =
              ground (arith, found (alias_key peer), ==-refl (alias_key peer)) in
            let gone = λ (path : Text). file_at-unlink_all removes path files x.disk in
            (
              msgs,
              subst (λ (z : Client). IsForgotten removes peer msgs x z) done
                  (record {
                    before = before;
                    closed = any-filtered (λ (p : Bytes). p == peer) x.live;
                    no_room = find_known-closed peer x.app.rooms;
                    no_prekey =
                        any-filtered (λ (p : Bytes × VerifiedPrekey). p.0 == peer) x.prekeys;
                    no_message = emptied;
                    no_contact = stranger;
                    no_log = unlogged;
                    no_name = names_of-none s peer nick alias;
                    settings = found;
                    files = λ path.
                        gone path
                        ∙ ap
                            (λ ps.
                              if removes path && any (λ p. p == path) ps
                              then none
                              else file_at path x.disk)
                            same;
                  }),
            )
      ]
