-- ===== src/Store/Tables.antt =====
-- crates/wicara/src/store.rs: the client's four tables as lists of rows in the order of their
-- insertion, opening a store, and recording operations, rooms and settings. A `u64` that sqlite keeps
-- as an `i64` keeps its 64 bits here; where a statement compares such columns, it compares `signed`.
-- That sqlite itself fails is left out. A text is its UTF-8, so `as_bytes` and, on what was written,
-- `from_utf8_lossy` are the identity. The random nonce of a sealing and the clock are arguments.
use wicara.Prelude.{
  ℕ, ◌+◌, ◌%◌, ◌^◌, Bool, true, false, ◌&&◌, Option, none, some, List, [], ◌∷◌, ◌++◌, Bytes, Text,
  codes, nat_eq, bytes_eq, ◌==◌, ltb, if◌then◌else◌, length, any, Result, ok, err, ◌>>=◌, ◌>>◌,
  ensure, ok_or, map_err,
}
use wicara.Crypto.{Crypto, Codec}
use wicara.Room.{RoomEntry}
use wicara.Vault.{VaultError, seal, open_blob}
use wicara.Wire.{MessageId, Counter, Frame, new_counter, mint, frame_id, display}

pub record OpRow : Type 0 where
  pub sender : Bytes
  pub seq : ℕ
  pub ts_ms : ℕ
  pub peer : Bytes
  pub payload : Bytes

pub record SettingRow : Type 0 where
  pub key : Text
  pub value : Bytes

pub record LogRow : Type 0 where
  pub id : Bytes
  pub log : Bytes

pub record Store : Type 0 where
  pub ops : List OpRow
  pub logs : List LogRow
  pub settings : List SettingRow
  pub contacts : List Bytes
  pub vault : Bytes
  pub counter : Counter
  pub me : Bytes

pub data StoreError : Type 0 where
  vault_failed : VaultError → StoreError
  not_encoded not_decoded malformed_key other_identity : StoreError

-- the order of 64 bits as an `i64`
unfoldable pub signed : ℕ → ℕ
signed n = (n + 2 ^ 63) % 2 ^ 64

-- `INSERT OR IGNORE INTO contacts`
unfoldable pub add_contact : Bytes → List Bytes → List Bytes
add_contact peer contacts = if any (◌==◌ peer) contacts then contacts else contacts ++ peer ∷ []

unfoldable pub add_peers : List OpRow → List Bytes → List Bytes
add_peers [] contacts = contacts
add_peers (o ∷ os) contacts = add_peers os (add_contact o.peer contacts)

unfoldable pub add_rooms : List LogRow → List Bytes → List Bytes
add_rooms [] contacts = contacts
add_rooms (r ∷ rs) contacts = add_rooms rs (add_contact r.id contacts)

-- `SELECT MAX(seq) FROM ops WHERE sender = ?1`, and 0 where there is no such row
unfoldable pub max_seq : Bytes → List OpRow → Option ℕ
max_seq me [] = none
max_seq me (o ∷ os) =
    let rest = max_seq me os in
    if o.sender == me
    then elim rest [
      | none ↦ some o.seq
      | some n ↦ if ltb (signed n) (signed o.seq) then some o.seq else some n
    ]
    else rest

unfoldable pub resume : Bytes → List OpRow → ℕ
resume me ops = elim (max_seq me ops) [ none ↦ 0 | some n ↦ n ]

-- what `check_belongs_here` tries to open: the first setting, or else the first operation
unfoldable pub first_sealed : Store → Option Bytes
first_sealed s = elim s.settings [
  | [] ↦ elim s.ops [ [] ↦ none | o ∷ os ↦ some o.payload ]
  | x ∷ xs ↦ some x.value
]

-- `INSERT OR IGNORE INTO ops`, by the primary key (sender, seq, ts_ms); whether a row was inserted
unfoldable pub is_key : MessageId → OpRow → Bool
is_key id o = o.sender == id.sender && (o.seq == id.seq && o.ts_ms == id.ts_ms)

unfoldable pub insert_op : MessageId → Bytes → Bytes → List OpRow → List OpRow × Bool
insert_op id peer payload ops = if any (is_key id) ops then (ops, false) else (
  ops
      ++ record {
        sender = id.sender;
        seq = id.seq;
        ts_ms = id.ts_ms;
        peer = peer;
        payload = payload;
      }
        ∷ [],
  true,
)

-- `INSERT … ON CONFLICT DO UPDATE` on settings and rooms
unfoldable pub upsert_setting : SettingRow → List SettingRow → List SettingRow
upsert_setting r [] = r ∷ []
upsert_setting r (x ∷ xs) = if x.key == r.key then r ∷ xs else x ∷ upsert_setting r xs

unfoldable pub find_setting : Text → List SettingRow → Option Bytes
find_setting key [] = none
find_setting key (x ∷ xs) = if x.key == key then some x.value else find_setting key xs

unfoldable pub upsert_log : LogRow → List LogRow → List LogRow
upsert_log r [] = r ∷ []
upsert_log r (x ∷ xs) = if x.id == r.id then r ∷ xs else x ∷ upsert_log r xs

-- `file_key`
unfoldable pub file_key : MessageId → Text
file_key id = codes "file:" ++ display id

-- `Store::next_id`
unfoldable pub next_id : Store → ℕ → Store × MessageId
next_id s now = let (counter, id) = mint s.counter now in (record s { counter = counter }, id)

module _ (c : Crypto) where
  unfoldable pub check_belongs_here : Store → Result StoreError Unit
  check_belongs_here s = elim (first_sealed s) [
    | none ↦ ok tt
    | some sealed ↦ elim (open_blob c s.vault sealed) [ ok _ ↦ ok tt | err _ ↦ err other_identity ]
  ]

  -- `Store::open`, on what the file holds
  unfoldable pub open_store :
      List OpRow
      → List LogRow
      → List SettingRow
      → List Bytes
      → Bytes
      → Bytes
      → Result StoreError Store
  open_store ops logs settings contacts vault me =
      let s : Store = record {
        ops = ops;
        logs = logs;
        settings = settings;
        contacts = add_rooms logs (add_peers ops contacts);
        vault = vault;
        counter = new_counter me (resume me ops);
        me = me;
      } in
      check_belongs_here s >> ok s

  -- `Store::setting`, `Store::set_setting`, `Store::set_file_path`
  unfoldable pub setting : Store → Text → Result StoreError (Option Text)
  setting s key = elim (find_setting key s.settings) [
    | none ↦ ok none
    | some sealed ↦ (do value ← map_err (open_blob c s.vault sealed) vault_failed; ok (some value))
  ]

  unfoldable pub set_setting : Store → Text → Text → Option Bytes → Result StoreError Store
  set_setting s key value random_nonce = do
    sealed ← map_err (seal c s.vault value random_nonce) vault_failed
    ok (record s { settings = upsert_setting (record { key = key; value = sealed }) s.settings })

  unfoldable pub set_file_path : Store → MessageId → Text → Option Bytes → Result StoreError Store
  set_file_path s id path random_nonce = set_setting s (file_key id) path random_nonce

  -- `Store::record`: the store, and whether the operation was new
  unfoldable pub record_op :
      Codec Frame → Store → Bytes → Frame → Option Bytes → Result StoreError (Store × Bool)
  record_op frames s peer frame random_nonce = elim (frame_id frame) [
    | none ↦ ok (s, false)
    | some id ↦ (do
      bytes ← ok_or (frames.to_stdvec frame) not_encoded
      payload ← map_err (seal c s.vault bytes random_nonce) vault_failed
      let (ops, inserted) = insert_op id peer payload s.ops
      ok (record s { ops = ops; contacts = add_contact peer s.contacts }, inserted))
  ]

  unfoldable pub sealed_log :
      Codec (List RoomEntry) → Bytes → List RoomEntry → Option Bytes → Result StoreError Bytes
  sealed_log entries vault log random_nonce = do
    bytes ← ok_or (entries.to_stdvec log) not_encoded
    map_err (seal c vault bytes random_nonce) vault_failed

  -- `Store::save_room`, which adds the contact before it seals, and `Store::rooms`
  unfoldable pub save_room :
      Codec (List RoomEntry)
      → Store
      → Bytes
      → List RoomEntry
      → Option Bytes
      → Store × Result StoreError Unit
  save_room entries s id log random_nonce =
      let s' = record s { contacts = add_contact id s.contacts } in
      elim (sealed_log entries s.vault log random_nonce) [
        | err e ↦ (s', err e)
        | ok sealed ↦
            (record s' { logs = upsert_log (record { id = id; log = sealed }) s.logs }, ok tt)
      ]

  unfoldable pub opened_logs :
      Codec (List RoomEntry)
      → Bytes
      → List LogRow
      → Result StoreError (List (Bytes × List RoomEntry))
  opened_logs entries vault [] = ok []
  opened_logs entries vault (r ∷ rs) = do
    ensure (length r.id == 32) malformed_key
    bytes ← map_err (open_blob c vault r.log) vault_failed
    log ← ok_or (entries.from_bytes bytes) not_decoded
    rest ← opened_logs entries vault rs
    ok ((r.id, log) ∷ rest)

  unfoldable pub rooms :
      Codec (List RoomEntry) → Store → Result StoreError (List (Bytes × List RoomEntry))
  rooms entries s = opened_logs entries s.vault s.logs
