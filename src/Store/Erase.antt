-- ===== src/Store/Erase.antt =====
-- crates/wicara/src/store.rs: who is known, what `/forget`, `/clear` and `/wipe` would take, and what
-- they take. Each of them is one transaction.
use wicara.Prelude.{
  ℕ, ◌+◌, ◌-◌, ◌^◌, Bool, not, Option, none, some, List, [], ◌∷◌, ◌++◌, map, Bytes, Text, codes,
  bytes_eq, nat_eq, ◌==◌, ltb, leb, if◌then◌else◌, length, filter, sort_by, Result, ok, ◌>>=◌, ◌>>◌,
  ensure,
}
use wicara.Crypto.{Crypto, Codec}
use wicara.Wire.{Frame}
use wicara.Store.Tables.{
  OpRow, LogRow, SettingRow, Store, StoreError, malformed_key, signed, file_key,
}
use wicara.Store.History.{Message, history}

-- `COALESCE(MAX(o.ts_ms), 0)`, in the order of `signed`
unfoldable pub latest : Bytes → List OpRow → Option ℕ
latest peer [] = none
latest peer (o ∷ os) =
    let rest = latest peer os in
    if o.peer == peer
    then elim rest [
      | none ↦ some (signed o.ts_ms)
      | some n ↦ if ltb n (signed o.ts_ms) then some (signed o.ts_ms) else some n
    ]
    else rest

unfoldable pub busy : List OpRow → Bytes → ℕ
busy ops peer = elim (latest peer ops) [ none ↦ signed 0 | some n ↦ n ]

unfoldable pub checked_keys : List Bytes → Result StoreError (List Bytes)
checked_keys [] = ok []
checked_keys (k ∷ ks) =
    ensure (length k == 32) malformed_key >> checked_keys ks >>= λ rest. ok (k ∷ rest)

-- `Store::peers`
unfoldable pub peers : Store → Result StoreError (List Bytes)
peers s = checked_keys (sort_by (λ x y. leb (busy s.ops y) (busy s.ops x)) s.contacts)

-- `DELETE FROM settings WHERE key = ?1` for the attachment of each message, and for each name
unfoldable pub delete_setting : Text → List SettingRow → List SettingRow
delete_setting key = filter (λ (x : SettingRow). not (x.key == key))

unfoldable pub delete_settings : List Text → List SettingRow → List SettingRow
delete_settings [] settings = settings
delete_settings (k ∷ ks) settings = delete_settings ks (delete_setting k settings)

abbrev pub file_key_of : Message → Text
file_key_of m = file_key m.id

abbrev pub other_than : Bytes → Bytes → Bool
other_than peer other = not (other == peer)

-- the paths of the attachments that landed on this machine
unfoldable pub paths : List Message → List Text
paths [] = []
paths (m ∷ ms) =
    let rest = paths ms in
    elim m.attachment [
      | none ↦ rest
      | some a ↦ elim a.path [ none ↦ rest | some path ↦ path ∷ rest ]
    ]

module _ (c : Crypto) (frames : Codec Frame) where
  -- `self.history(peer, usize::MAX)`
  unfoldable pub whole : Store → Bytes → Result StoreError (List Message)
  whole s peer = history c frames s peer (2 ^ 64 - 1)

  unfoldable pub forget_preview : Store → Bytes → Result StoreError (ℕ × ℕ)
  forget_preview s peer = do msgs ← whole s peer; ok (length msgs, length (paths msgs))

  -- `Store::forget`: the store, and the paths of the files to remove
  unfoldable pub forget : Store → Bytes → List Text → Result StoreError (Store × List Text)
  forget s peer names = do
    msgs ← whole s peer
    ok (
      record s {
        settings = delete_settings names (delete_settings (map file_key_of msgs) s.settings);
        ops = filter (λ (o : OpRow). other_than peer o.peer) s.ops;
        logs = filter (λ (r : LogRow). other_than peer r.id) s.logs;
        contacts = filter (other_than peer) s.contacts;
      },
      paths msgs,
    )

  unfoldable pub clear : Store → Bytes → Result StoreError (Store × List Text)
  clear s peer = do
    msgs ← whole s peer
    ok (
      record s {
        settings = delete_settings (map file_key_of msgs) s.settings;
        ops = filter (λ (o : OpRow). other_than peer o.peer) s.ops;
      },
      paths msgs,
    )

  unfoldable pub all_paths : Store → List Bytes → Result StoreError (List Text)
  all_paths s [] = ok []
  all_paths s (p ∷ ps) = do msgs ← whole s p; rest ← all_paths s ps; ok (paths msgs ++ rest)

  unfoldable pub wipe : Store → Result StoreError (Store × List Text)
  wipe s = do
    known ← peers s
    files ← all_paths s known
    ok (
      record s {
        ops = [];
        logs = [];
        contacts = [];
        settings = filter (λ (x : SettingRow). x.key == codes "prekey") s.settings;
      },
      files,
    )

  unfoldable pub preview_all : Store → List Bytes → Result StoreError (ℕ × ℕ)
  preview_all s [] = ok (0, 0)
  preview_all s (p ∷ ps) = do
    (m, f) ← forget_preview s p
    (ms, fs) ← preview_all s ps
    ok (m + ms, f + fs)

  unfoldable pub wipe_preview : Store → Result StoreError (ℕ × ℕ × ℕ)
  wipe_preview s = do
    known ← peers s
    (msgs, files) ← preview_all s known
    ok (length known, msgs, files)
