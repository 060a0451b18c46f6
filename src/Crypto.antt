-- ===== src/Crypto.antt =====
-- The libraries that the crates call: ed25519-dalek, x25519-dalek, blake3, chacha20poly1305, argon2
-- and postcard. Their operations are fields of records that the modules take as parameters; what
-- the crates document of them is stated in records of laws.

use wicara.Prelude.{◌+◌, ◌≡◌, Bool, true, Option, some, Bytes, length}

pub record Crypto : Type 0 where
  -- `SigningKey::verifying_key`, `SigningKey::sign`; a signing key is its 32 bytes
  pub verifying_key : Bytes → Bytes
  pub sign : Bytes → Bytes → Bytes
  -- `VerifyingKey::from_bytes` succeeds, and `verify_strict key message signature` succeeds
  pub is_verifying_key : Bytes → Bool
  pub verify_strict : Bytes → Bytes → Bytes → Bool
  -- `x25519_dalek`: the public half of a secret, the shared secret, `was_contributory`
  pub public_key : Bytes → Bytes
  pub diffie_hellman : Bytes → Bytes → Bytes
  pub was_contributory : Bytes → Bool
  -- `blake3::Hasher` over what it was fed, and `blake3::derive_key context material`
  pub hash : Bytes → Bytes
  pub derive_key : Bytes → Bytes → Bytes
  -- `XChaCha20Poly1305`: key, nonce, associated data, message
  pub encrypt : Bytes → Bytes → Bytes → Bytes → Option Bytes
  pub decrypt : Bytes → Bytes → Bytes → Bytes → Option Bytes
  -- `Argon2::hash_password_into` on the bytes of a passphrase and a salt
  pub argon2 : Bytes → Bytes → Option Bytes

-- A signature made with a key verifies under its public half, which is a valid key of 32 bytes;
-- a signature has 64 bytes and a hash 32.
pub record SignatureLaws (c : Crypto) : Type 0 where
  pub valid_key : (k : Bytes) → c.is_verifying_key (c.verifying_key k) ≡ true
  pub key_length : (k : Bytes) → length (c.verifying_key k) ≡ 32
  pub signature_length : (k m : Bytes) → length (c.sign k m) ≡ 64
  pub verify_signed : (k m : Bytes) → c.verify_strict (c.verifying_key k) m (c.sign k m) ≡ true

-- Both ends of an exchange compute the same secret.
pub record ExchangeLaws (c : Crypto) : Type 0 where
  pub agree :
      (a b : Bytes) → c.diffie_hellman a (c.public_key b) ≡ c.diffie_hellman b (c.public_key a)

-- What was encrypted decrypts, under the same key, nonce and associated data; a ciphertext is the
-- message and a tag of 16 bytes.
pub record CipherLaws (c : Crypto) : Type 0 where
  pub decrypt_encrypted :
      (k n aad msg ct : Bytes) → c.encrypt k n aad msg ≡ some ct → c.decrypt k n aad ct ≡ some msg
  pub tagged :
      (k n aad msg ct : Bytes) → c.encrypt k n aad msg ≡ some ct → length ct ≡ length msg + 16

-- `postcard::to_stdvec` and `postcard::from_bytes` at one type
pub record Codec (A : Type 0) : Type 0 where
  pub to_stdvec : A → Option Bytes
  pub from_bytes : Bytes → Option A

pub record CodecLaws {A : Type 0} (p : Codec A) : Type 0 where
  pub decode_encoded : (a : A) (b : Bytes) → p.to_stdvec a ≡ some b → p.from_bytes b ≡ some a
