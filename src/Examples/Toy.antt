-- ===== src/Examples/Toy.antt =====
-- Toy primitives that satisfy what is documented of the real ones and hide nothing, and toy formats.
use wicara.Prelude.{
  ℕ, ◌+◌, ◌-◌, ◌*◌, ◌≡◌, refl, ap, not, none, some, [], ◌∷◌, ◌++◌, Bytes, bytes_eq, nat_eq, ◌==◌,
  ==-refl, if◌then◌else◌, length, take, drop, replicate, length-append, take-append, drop-append,
  Result, ok, err, arith,
}
use wicara.Crypto.{Crypto, SignatureLaws, ExchangeLaws, CipherLaws, Codec, CodecLaws}
use wicara.Room.{RoomOp, create, invite, kick, leave}
use wicara.Wire.{Frame, hello}

abbrev pub value : {E A : Type 0} → A → Result E A → A
value a (ok x) = x
value a (err e) = a

abbrev pub digest : Bytes → ℕ
digest [] = 0
digest (b ∷ bs) = b + 256 * digest bs

abbrev pub block : ℕ → Bytes
block n = n ∷ replicate 31 0

abbrev pub first : Bytes → ℕ
first [] = 0
first (b ∷ bs) = b

abbrev signature : ℕ → Bytes → Bytes
signature k m = k ∷ digest m ∷ replicate 62 0

abbrev tag : Bytes → Bytes → Bytes → Bytes
tag k n aad = (digest k + (digest n + digest aad)) ∷ replicate 15 0

abbrev pub toy : Crypto
toy = record {
  verifying_key = λ k. block (digest k);
  sign = λ k m. signature (digest k) m;
  is_verifying_key = λ k. length k == 32;
  verify_strict = λ k m s. s == signature (first k) m;
  public_key = λ k. block (digest k);
  diffie_hellman = λ a p. block (digest a + first p);
  was_contributory = λ s. not (s == replicate 32 0);
  hash = λ m. block (digest m);
  derive_key = λ context m. block (digest (context ++ m));
  encrypt = λ k n aad m. some (m ++ tag k n aad);
  decrypt = λ k n aad ct.
      if drop (length ct - 16) ct == tag k n aad then some (take (length ct - 16) ct) else none;
  argon2 = λ passphrase salt. some (block (digest (passphrase ++ salt)));
}

pub toy_signatures : SignatureLaws toy
toy_signatures = record {
  valid_key = λ k. ==-refl {A = ℕ} 32;
  key_length = λ k. refl;
  signature_length = λ k m. refl;
  verify_signed = λ k m. ==-refl (signature (digest k) m);
}

pub toy_exchange : ExchangeLaws toy
toy_exchange = record { agree = λ a b. ap block (omega arith) }

pub toy_cipher : CipherLaws toy
toy_cipher = record {
  decrypt_encrypted = λ k n aad m ct h.
      let t = tag k n aad in
      let long = length-append m t in
      let size : length m ≡ length (m ++ t) - 16 = omega (arith, long) in
      let same : m ++ t ≡ ct = ground arith in
      let front = take-append m t (length (m ++ t) - 16) size in
      let back = drop-append m t (length (m ++ t) - 16) size in
      rw (← same, front, back, ==-refl t) refl;
  tagged = λ k n aad m ct h.
      let long = length-append m (tag k n aad) in
      let same : m ++ tag k n aad ≡ ct = ground arith in rw (← same, long) refl;
}

abbrev pub toy_ops : Codec RoomOp
toy_ops = record {
  to_stdvec = λ op. elim op [
    | create name ↦ some (0 ∷ name)
    | invite member ↦ some (1 ∷ member)
    | kick member ↦ some (2 ∷ member)
    | leave ↦ some (3 ∷ [])
  ];
  from_bytes = λ bytes. elim bytes [
    | [] ↦ none
    | b ∷ bs ↦
        if b == 0
        then some (create bs)
        else if b == 1
        then some (invite bs)
        else if b == 2
        then some (kick bs)
        else some leave
  ];
}

pub toy_ops_laws : CodecLaws toy_ops
toy_ops_laws = record { decode_encoded = decodes }
  where
    decodes :
        (op : RoomOp) (b : Bytes) → toy_ops.to_stdvec op ≡ some b → toy_ops.from_bytes b ≡ some op
    decodes (create name) b h = ground arith
    decodes (invite member) b h = ground arith
    decodes (kick member) b h = ground arith
    decodes leave b h = ground arith

abbrev pub toy_frames : Codec Frame
toy_frames = record {
  to_stdvec = λ frame. elim frame [ hello name ↦ some name | other ↦ none ];
  from_bytes = λ bytes. some (hello bytes);
}

pub toy_frames_laws : CodecLaws toy_frames
toy_frames_laws = record { decode_encoded = decodes }
  where
    decodes :
        (x : Frame) (b : Bytes) → toy_frames.to_stdvec x ≡ some b → toy_frames.from_bytes b ≡ some x
    decodes (hello name) b h = ground arith
    decodes other b h = ground arith
