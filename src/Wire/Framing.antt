-- ===== src/Wire/Framing.antt =====
-- The framing of crates/wicara-core/src/wire.rs: writing frames on a stream and reading them back.
use wicara.Prelude.{
  ℕ, ◌≤◌, ◌<◌, ◌≡◌, refl, some, List, [], ◌∷◌, ◌++◌, append_assoc, Bytes, length, take-append,
  drop-append, length-append, to_le_bytes, length-to_le_bytes, from_le_bytes-to_le_bytes, ok, ltb,
  false, Option-cases, Result-cases, inl, inr, arith,
}
use wicara.Crypto.{Codec, CodecLaws}
use wicara.Wire.{Frame, max_frame, encode, decode, read_frame, encode_all, read_all}

module _ (frames : Codec Frame) (laws : CodecLaws frames) where
  -- the parts of an encoded frame
  encoded :
      (x : Frame) (b : Bytes)
      → encode frames x ≡ ok b
      → (p : Bytes) × (frames.from_bytes p ≡ some x)
        × (length p ≤ max_frame)
        × (b ≡ to_le_bytes 4 (length p) ++ p)
  unfolding encode
  encoded x b h = elim (Option-cases (frames.to_stdvec x)) [
    | inl e ↦ ground (arith, e)
    | inr (p, e) ↦ (p, laws.decode_encoded x p e, ground (arith, e), ground (arith, e))
  ]

  -- What was written for a frame, with anything behind it, is read as that frame, and what was
  -- behind it is left on the stream.
  pub read_frame-encode :
      (x : Frame) (b rest : Bytes)
      → encode frames x ≡ ok b
      → read_frame frames (b ++ rest) ≡ ok (some (x, rest))
  unfolding read_frame decode
  read_frame-encode x b rest h =
      let (p, d, size, e) = encoded x b h in
      let width = length-to_le_bytes 4 (length p) in
      let value = from_le_bytes-to_le_bytes 4 (length p) (omega arith) in
      let prefix = to_le_bytes 4 (length p) in
      let front = take-append prefix (p ++ rest) 4 width in
      let back = drop-append prefix (p ++ rest) 4 width in
      let body = take-append p rest (length p) refl in
      let left = drop-append p rest (length p) refl in
      let long = length-append prefix (p ++ rest) in
      let long' = length-append p rest in
      let t1 : ltb (length (prefix ++ (p ++ rest))) 4 ≡ false = ground (arith, long, width) in
      let t2 : ltb max_frame (length p) ≡ false = ground (arith, size) in
      let t3 : ltb (length (p ++ rest)) (length p) ≡ false = ground (arith, long') in
      rw (e, append_assoc prefix p rest, front, back, value, t1, t2, t3, body, left, d) refl

  -- what was written, with anything behind it, is at least the prefix
  long_enough : (x : Frame) (b : Bytes) → encode frames x ≡ ok b → 4 ≤ length b
  long_enough x b h =
      let (p, d, size, e) = encoded x b h in
      let width = length-to_le_bytes 4 (length p) in
      let long = length-append (to_le_bytes 4 (length p)) p in rw (e, long, width) (omega arith)

  read_all-end : (fuel : ℕ) → read_all frames (ℕ.suc fuel) [] ≡ some (ok [])
  unfolding read_all read_frame
  read_all-end fuel = refl

  -- Frames that were written back to back on a stream are read back as they were, in order, until
  -- the stream ends, when the reader is given one round more than the stream has bytes.
  pub read_all-encode_all :
      (xs : List Frame) (stream : Bytes) (fuel : ℕ)
      → encode_all frames xs ≡ ok stream
      → length stream < fuel
      → read_all frames fuel stream ≡ some (ok xs)
  unfolding encode_all read_all
  read_all-encode_all xs stream ℕ.zero h enough = absurd (omega arith)
  read_all-encode_all [] stream (ℕ.suc fuel) h enough =
      let same : [] ≡ stream = ground arith in rw (← same) (read_all-end fuel)
  read_all-encode_all (x ∷ xs) stream (ℕ.suc fuel) h enough =
      elim (Result-cases (encode frames x)) [
        | inl (b, e) ↦ elim (Result-cases (encode_all frames xs)) [
          | inl (rest, e') ↦
              let same : b ++ rest ≡ stream = ground (arith, e, e') in
              let long = length-append b rest in
              let min = long_enough x b e in
              let first = read_frame-encode x b rest e in
              let fits : length rest < fuel = ground (arith, same, long, min) in
              let more = read_all-encode_all xs rest fuel e' fits in
              rw (← same, first, more, read_all) refl
          | inr (why, e') ↦ ground (arith, e, e')
        ]
        | inr (why, e) ↦ ground (arith, e)
      ]
