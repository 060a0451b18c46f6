-- ===== src/Wire.antt =====
-- crates/wicara-core/src/wire.rs: message ids, the counter that mints them, frames, and the framing
-- of a byte stream. The clock and postcard are arguments.
pub mod Framing
use wicara.Prelude.{
  ℕ, ◌+◌, ◌*◌, ◌%◌, ◌/◌, ◌^◌, Bool, Option, none, some, List, [], ◌∷◌, ◌++◌, Bytes, Text, codes,
  ltb, leb, if◌then◌else◌, DecEq, ℕ_discrete, Bytes-discrete, length, take, drop, to_le_bytes,
  from_le_bytes, Result, ok, err, ◌>>=◌, ◌>>◌, ensure, ok_or,
}
use wicara.Crypto.{Codec}
use wicara.Room.{RoomEntry}

abbrev pub max_frame : ℕ
max_frame = 2 ^ 20

pub record MessageId : Type 0 where
  pub sender : Bytes
  pub seq : ℕ
  pub ts_ms : ℕ

unfoldable pub MessageId-discrete : Discrete MessageId
MessageId-discrete = hlevel ℕ_discrete

instance abbrev pub message_id_eq : DecEq MessageId
message_id_eq = record { dec = MessageId-discrete }

-- `MessageId::sort_key`
unfoldable pub sort_key : MessageId → ℕ × ℕ × Bytes
sort_key id = (id.ts_ms, id.seq, id.sender)

-- `{b:02x}`
abbrev pub hex_digit : ℕ → ℕ
hex_digit n = if ltb n 10 then 48 + n else 87 + n

abbrev pub hex : Bytes → Text
hex [] = []
hex (b ∷ bs) = hex_digit (b / 16) ∷ hex_digit (b % 16) ∷ hex bs

-- `{}` of an integer, with as many digits at most as the fuel says; a `u64` has at most twenty
abbrev pub decimal : ℕ → ℕ → Text
decimal ℕ.zero n = []
decimal (ℕ.suc fuel) n =
    let front = decimal fuel (n / 10) in
    if ltb n 10 then (48 + n) ∷ [] else front ++ (48 + n % 10) ∷ []

-- `Display for MessageId`
unfoldable pub display : MessageId → Text
display id = hex (take 4 id.sender) ++ (codes "-" ++ decimal 20 id.seq)

pub record Counter : Type 0 where
  pub sender : Bytes
  pub seq : ℕ

-- `Counter::new`, `Counter::mint`; the sequence is a `u64`
unfoldable pub new_counter : Bytes → ℕ → Counter
new_counter sender resume_from = record { sender = sender; seq = resume_from }

unfoldable pub mint : Counter → ℕ → Counter × MessageId
mint k now =
    let seq = (k.seq + 1) % 2 ^ 64 in
    (record k { seq = seq }, record { sender = k.sender; seq = seq; ts_ms = now })

pub data Frame : Type 0 where
  hello : Text → Frame
  chat : MessageId → Text → Option MessageId → Frame
  edit : MessageId → MessageId → Text → Frame
  delete : MessageId → MessageId → Frame
  react : MessageId → MessageId → Text → Bool → Frame
  in_room : Bytes → Frame → Frame
  file : MessageId → Text → ℕ → Bytes → Frame
  room_updated : Bytes → List RoomEntry → Frame

-- `Frame::id`
unfoldable pub frame_id : Frame → Option MessageId
frame_id (hello nickname) = none
frame_id (room_updated room log) = none
frame_id (chat id body reply_to) = some id
frame_id (edit id target body) = some id
frame_id (delete id target) = some id
frame_id (react id target emoji on) = some id
frame_id (file id name size hash) = some id
frame_id (in_room room op) = frame_id op

unfoldable pub conversation : Frame → Bytes → Bytes
conversation (in_room room op) peer = room
conversation _ peer = peer

unfoldable pub unwrap_room : Frame → Frame
unwrap_room (in_room room op) = op
unwrap_room other = other

pub data WireError : Type 0 where
  not_encoded frame_too_large announced_too_large unexpected_eof not_decoded : WireError

module _ (frames : Codec Frame) where
  -- `encode`: a little-endian `u32` length, then the frame
  unfoldable pub encode : Frame → Result WireError Bytes
  encode frame = do
    payload ← ok_or (frames.to_stdvec frame) not_encoded
    ensure (leb (length payload) max_frame) frame_too_large
    ok (to_le_bytes 4 (length payload) ++ payload)

  unfoldable pub decode : Bytes → Result WireError Frame
  decode payload = ok_or (frames.from_bytes payload) not_decoded

  -- `read_frame` from a stream that holds these bytes and then ends: the frame and the bytes left,
  -- `none` at the end of the stream. An end inside the prefix counts as the end of the stream.
  unfoldable pub read_frame : Bytes → Result WireError (Option (Frame × Bytes))
  read_frame stream =
      if ltb (length stream) 4
      then ok none
      else let len = from_le_bytes (take 4 stream) in
        let rest = drop 4 stream in
        if ltb max_frame len
        then err announced_too_large
        else if ltb (length rest) len
        then err unexpected_eof
        else (do frame ← decode (take len rest); ok (some (frame, drop len rest)))

  -- what `write_frame` puts on a stream for each frame in turn
  unfoldable pub encode_all : List Frame → Result WireError Bytes
  encode_all [] = ok []
  encode_all (x ∷ xs) = do front ← encode x; rest ← encode_all xs; ok (front ++ rest)

  -- reading frames until the stream ends; each read takes four bytes at least, so the length of the
  -- stream and one more are rounds enough
  unfoldable pub read_all : ℕ → Bytes → Option (Result WireError (List Frame))
  read_all ℕ.zero stream = none
  read_all (ℕ.suc fuel) stream = elim (read_frame stream) [
    | err e ↦ some (err e)
    | ok none ↦ some (ok [])
    | ok (some (frame, rest)) ↦ elim (read_all fuel rest) [
      | none ↦ none
      | some (err e) ↦ some (err e)
      | some (ok frames) ↦ some (ok (frame ∷ frames))
    ]
  ]
