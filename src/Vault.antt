-- ===== src/Vault.antt =====
-- crates/wicara-core/src/vault.rs: sealing at rest under a key that is derived from a passphrase. The
-- random nonce is an argument, `none` where the system's generator fails.
use wicara.Prelude.{
  ℕ, ◌+◌, ◌≡◌, refl, Option, some, [], ◌++◌, Bytes, length, take, drop, take-append, drop-append,
  length-append, true, leb, Result, ok, ◌>>=◌, ◌>>◌, ensure, ok_or, Option-cases, inl, inr, arith,
}
use wicara.Crypto.{Crypto, CipherLaws}

abbrev pub salt_len : ℕ
salt_len = 16

abbrev pub nonce_len : ℕ
nonce_len = 24

abbrev pub tag_len : ℕ
tag_len = 16

pub data VaultError : Type 0 where
  rng_unavailable argon2_failed encryption_failed truncated wrong_passphrase : VaultError

module _ (c : Crypto) where
  -- `VaultKey::derive`, on the bytes of the passphrase
  unfoldable pub derive : Bytes → Bytes → Result VaultError Bytes
  derive passphrase salt = ok_or (c.argon2 passphrase salt) argon2_failed

  -- `VaultKey::seal`: nonce || ciphertext || tag
  unfoldable pub seal : Bytes → Bytes → Option Bytes → Result VaultError Bytes
  seal key plaintext random_nonce = do
    nonce ← ok_or random_nonce rng_unavailable
    ct ← ok_or (c.encrypt key nonce [] plaintext) encryption_failed
    ok (nonce ++ ct)

  -- `VaultKey::open`
  unfoldable pub open_blob : Bytes → Bytes → Result VaultError Bytes
  open_blob key blob = do
    ensure (leb (nonce_len + tag_len) (length blob)) truncated
    ok_or (c.decrypt key (take nonce_len blob) [] (drop nonce_len blob)) wrong_passphrase

  -- the key, the nonce and the ciphertext that `open_blob` hands to the cipher
  opened :
      (n : ℕ) (key nonce ct plaintext : Bytes)
      → length nonce ≡ n
      → c.decrypt key nonce [] ct ≡ some plaintext
      → ok_or (c.decrypt key (take n (nonce ++ ct)) [] (drop n (nonce ++ ct))) wrong_passphrase
        ≡ ok plaintext
  opened n key nonce ct plaintext size d =
      rw (take-append nonce ct n size, drop-append nonce ct n size, d) refl

  -- A blob that was sealed under a key opens under it to what was sealed.
  pub open_blob-seal :
      (key plaintext nonce blob : Bytes)
      → CipherLaws c
      → length nonce ≡ nonce_len
      → seal key plaintext (some nonce) ≡ ok blob
      → open_blob key blob ≡ ok plaintext
  unfolding seal open_blob
  open_blob-seal key plaintext nonce blob laws size h =
      elim (Option-cases (c.encrypt key nonce [] plaintext)) [
        | inl e ↦ ground (arith, e)
        | inr (ct, e) ↦
            let d = laws.decrypt_encrypted key nonce [] plaintext ct e in
            let tag = laws.tagged key nonce [] plaintext ct e in
            let long = length-append nonce ct in
            let same : nonce ++ ct ≡ blob = ground (arith, e) in
            let fits : leb (nonce_len + tag_len) (length (nonce ++ ct)) ≡ true =
              ground (arith, long) in
            rw (← same, fits) (opened nonce_len key nonce ct plaintext size d)
      ]
