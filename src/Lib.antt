-- ===== src/Lib.antt =====
-- wicara: a peer-to-peer messenger with rooms, whose offline mail waits sealed on an untrusted
-- hub.
--
-- The core crate holds what both sides agree on: frames and their ids (wire.rs), the signed and
-- chained log of a room (room.rs), sealed envelopes and signed prekeys (e2e.rs), and sealing at
-- rest (vault.rs). The hub keeps prekeys, mail and room logs, and hands them out (hub main.rs,
-- store.rs). The client keeps a log of operations and folds it into conversations (store.rs); its
-- main.rs takes operations and room logs from peers and from the hub, and sends its own. An
-- attachment comes on a stream of its own (files.rs), the identity and the key of the store are in
-- a file sealed by a passphrase (identity.rs), and the terminal interface (ui.rs) takes events
-- from the client and sends it commands.
--
--   Prelude      shared types: results, tests, lists and bytes over the native numbers
--   Crypto       ed25519-dalek, x25519-dalek, blake3, chacha20poly1305, argon2 and postcard, as
--                records of operations and of the laws that their documentation states
--   Room         crates/wicara-core/src/room.rs: `new_entry`, `entry_hash`, `verify_log` and its parts;
--                Room.Members its sets of keys, Room.Chain what a chain is without the loop,
--                Room.Safety, Room.Heads and Room.Honest the properties
--   E2e          crates/wicara-core/src/e2e.rs: `new_prekey`, `verify`, `seal`, `open_envelope` (`open`),
--                `sign_auth` and `verify_auth` (`mailbox_auth`)
--   Vault        crates/wicara-core/src/vault.rs
--   Wire         crates/wicara-core/src/wire.rs
--   Hub          crates/wicara-hub/src/main.rs: a handler `h` is `handle_h`, its checks `admit_...`;
--                Hub.Tables crates/wicara-hub/src/store.rs
--   Store        crates/wicara/src/store.rs: Store.Tables the rows, `open`, `record` and the settings,
--                Store.History the fold, Store.Erase `peers`, `forget`, `clear` and `wipe`
--   App          crates/wicara/src/main.rs: `accept`, `absorb_room` and `fetch_room`, and `Hub::room` of
--                crates/wicara/src/hub.rs; App.Sending `deliver`, `append` and `load_rooms`; App.Mail the rest
--                of hub.rs, `mail_to` and a round of `mailbox_loop`; App.Names the names of a peer and the
--                prekey; App.Dispatch the arms of `dispatch` that change what is kept, and `forget`;
--                App.Delivered a letter from the sender over the hub to its owner
--   Files        crates/wicara/src/files.rs: `receive`, `safe_name` (Files.Names) and what `send` writes
--                (Files.Arrivals), on a disk (Files.Paths)
--   Identity     crates/wicara/src/identity.rs: `load_or_create`, `load`, `create`, `ask`
--   Ui           crates/wicara/src/ui.rs: the state; Ui.Events `apply` and `peer_mut`, Ui.Editing the input
--                line, Ui.Commands `submit` and `slash`, Ui.Keys `on_key` and `chat_action`, Ui.Mouse
--                `on_mouse`, Ui.Wrap `wrap`, Ui.Drawing the scrolled window, `mention_spans` and `Canvas`,
--                Ui.Loop `event_loop`
--   Examples     toy primitives that satisfy the laws, and concrete runs
--
-- How the code is read. A function that can fail gives a `Result` with one constructor of errors
-- for each message of the source. An operation that changes state and can fail later gives both
-- its result and the state, so nothing that was done before an error is lost. Only `open_store`
-- gives no store with its error; the contacts that it adds before the check are added again by
-- every opening. A table of sqlite is the list of its rows in the order of their insertion, and
-- each statement is a function on it; where the order of a query is not determined by the
-- statement, rows that tie keep the order of insertion. Unsigned numbers are natural numbers, with
-- the wrap of a counter written out, and columns that sqlite compares as `i64` are compared in
-- that order. Keys, hashes, texts and blobs are lists of bytes; where a property needs the sizes
-- that Rust's types give, it states them. Random nonces, secrets and the clock are arguments. In
-- the interface a text is the list of its characters, the caret counts the bytes of their UTF-8,
-- and an indexing or slicing that would panic gives `none`; what was drawn last, the widths of
-- characters and the decoding of hex are arguments. The disk is a list of paths and contents;
-- creating, writing, flushing and removing a file can each fail, and a failed write leaves it as
-- it was.
--
-- Fuel. `read_all` calls `read_frame` until a stream ends, as its callers do, on fuel: each read
-- takes four bytes at least, so the fuel is one round more than the stream has bytes. `decimal`
-- prints a `u64` with twenty digits at most. `mention_spans` takes a mention off its text in every
-- round, so one round more than the text has characters is enough. All other loops are structural.
--
-- The hash is not assumed to be injective: a theorem that needs two different inputs to have
-- different hashes gives such a pair as its other outcome. Nothing is assumed of who can forge a
-- signature; theorems speak of signatures that verify.
--
-- Not modelled: sqlite's own failures, concurrent requests to the hub (a sequence of events is
-- handled one after another), the hub's server and its limit on bodies, connections and sessions,
-- what `send` of files.rs does before it writes to the stream, passwords typed at a terminal, and
-- of the interface the widgets of ratatui, colours, dates, the sparkline, the progress bar and the
-- clipboard: input, output and looks. The sum of an area's corner and size is a natural number,
-- since ratatui lays out areas within a screen of 16 bits. Of panics while a frame is drawn
-- nothing is said.
pub mod App
pub mod Crypto
pub mod E2e
pub mod Examples
pub mod Files
pub mod Hub
pub mod Identity
pub mod Prelude
pub mod Room
pub mod Store
pub mod Ui
pub mod Vault
pub mod Wire
