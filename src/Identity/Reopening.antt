-- ===== src/Identity/Reopening.antt =====
-- crates/wicara/src/identity.rs: an identity that was created, opened again.
use wicara.Prelude.{
  ◌≤◌, ◌≡◌, refl, sym, ◌∙◌, ap, subst, true, some, ◌++◌, Bytes, bytes_eq, nat_eq, ==-refl, ltb, leb,
  length, length-append, take, drop, take-append, drop-append, ok, Bool-cases, Option-cases,
  Result-cases, inl, inr, arith, ok-injective, Bytes-discrete,
}
use wicara.Crypto.{Crypto, CipherLaws}
use wicara.Vault.{salt_len, nonce_len, derive, seal, open_blob, open_blob-seal}
use wicara.Identity.{
  Identity, Session, char_count, min_passphrase, ask, load, fresh_identity, create, load_or_create,
}

-- what went into an identity that was made
record Made (c : Crypto) (io : Session) (blob : Bytes) (id : Identity) : Type 0 where
  passphrase : Bytes
  salt : Bytes
  sealed : Bytes
  asked : ask io.first ≡ ok passphrase
  long : min_passphrase ≤ char_count passphrase
  again : ask io.second ≡ ok passphrase
  salted : io.salt ≡ some salt
  random : io.secret ≡ some id.secret
  derived : derive c passphrase salt ≡ ok id.vault
  sealing : seal c id.vault id.secret io.nonce ≡ ok sealed
  whole : salt ++ sealed ≡ blob

fresh_identity-Made :
    (c : Crypto) (io : Session) (blob : Bytes) (id : Identity)
    → fresh_identity c io ≡ ok (blob, id)
    → Made c io blob id
unfolding fresh_identity
fresh_identity-Made c io blob id h = elim (Result-cases (ask io.first)) [
  | inr (e, a) ↦ ground (arith, a, h)
  | inl (passphrase, a) ↦ elim (Bool-cases (leb min_passphrase (char_count passphrase))) [
    | inr l ↦ ground (arith, a, l, h)
    | inl l ↦ elim (Result-cases (ask io.second)) [
      | inr (e, b) ↦ ground (arith, a, l, b, h)
      | inl (again, b) ↦ elim (Bytes-discrete again passphrase) [
        | no q ↦ ground (arith, a, l, b, q, h)
        | yes q ↦ elim (Option-cases io.salt) [
          | inl s ↦ ground (arith, a, l, b, q, s, h, ==-refl passphrase)
          | inr (salt, s) ↦ elim (Result-cases (derive c passphrase salt)) [
            | inr (e, d) ↦ ground (arith, a, l, b, q, s, d, h, ==-refl passphrase)
            | inl (vault, d) ↦ elim (Option-cases io.secret) [
              | inl r ↦ ground (arith, a, l, b, q, s, d, r, h, ==-refl passphrase)
              | inr (secret, r) ↦ elim (Result-cases (seal c vault secret io.nonce)) [
                | inr (e, x) ↦ ground (arith, a, l, b, q, s, d, r, x, h, ==-refl passphrase)
                | inl (sealed, x) ↦
                    let made : fresh_identity c io
                        ≡ ok (salt ++ sealed, record { secret = secret; vault = vault }) =
                      ground (arith, a, l, b, q, s, d, r, x, ==-refl passphrase) in
                    let pair : (salt ++ sealed, record { secret = secret; vault = vault })
                        ≡ (blob, id) =
                      ok-injective (sym made ∙ h) in
                    subst (λ (y : Bytes × Identity). Made c io y.0 y.1) pair
                      (record {
                        passphrase = passphrase;
                        salt = salt;
                        sealed = sealed;
                        asked = a;
                        long = ground (arith, l);
                        again = b ∙ ap ok q;
                        salted = s;
                        random = r;
                        derived = d;
                        sealing = x;
                        whole = refl;
                      })
              ]
            ]
          ]
        ]
      ]
    ]
  ]
]

module _ (c : Crypto) (laws : CipherLaws c) where
  open_blob_long : (key blob plain : Bytes) → open_blob c key blob ≡ ok plain → 40 ≤ length blob
  unfolding open_blob
  open_blob_long key blob plain h = ground (arith, h)

  load-Made :
      (io : Session) (blob : Bytes) (id : Identity) (salt nonce : Bytes)
      → io.salt ≡ some salt
      → length salt ≡ salt_len
      → io.nonce ≡ some nonce
      → length nonce ≡ nonce_len
      → length id.secret ≡ 32
      → Made c io blob id
      → load c blob io.first ≡ ok id
  unfolding load
  load-Made io blob id salt nonce drawn wide drawn' wide' long made =
      let same : made.salt ≡ salt = cc in
      let split = ap (λ x. x ++ made.sealed) (sym same) ∙ made.whole in
      let front = ap (take salt_len) (sym split) ∙ take-append salt made.sealed salt_len wide in
      let back = ap (drop salt_len) (sym split) ∙ drop-append salt made.sealed salt_len wide in
      let sealing = ap (seal c id.vault id.secret) (sym drawn') ∙ made.sealing in
      let opens = open_blob-seal c id.vault id.secret nonce made.sealed laws wide' sealing in
      let derives = ap (derive c made.passphrase) (sym same) ∙ made.derived in
      let much = open_blob_long id.vault made.sealed id.secret opens in
      let count = length-append salt made.sealed in
      let full : ltb salt_len (length blob) ≡ true =
        ground (arith, wide, much, count, ap length split) in
      let derives' : derive c made.passphrase (take salt_len blob) ≡ ok id.vault =
        ap (derive c made.passphrase) front ∙ derives in
      let opens' : open_blob c id.vault (drop salt_len blob) ≡ ok id.secret =
        ap (open_blob c id.vault) back ∙ opens in
      ground (arith, full, made.asked, derives', opens', long)

  -- An identity that was created is the one that is loaded from then on: if `create` gives an
  -- identity, and what was random had its size, the file that it leaves loads, with the same line
  -- for the passphrase, as the same secret and the same vault key.
  pub load-create :
      (io : Session) (id : Identity) (salt secret nonce : Bytes)
      → io.salt ≡ some salt
      → length salt ≡ salt_len
      → io.secret ≡ some secret
      → length secret ≡ 32
      → io.nonce ≡ some nonce
      → length nonce ≡ nonce_len
      → (create c io).1 ≡ ok id
      → load_or_create c (create c io).0 io ≡ ((create c io).0, ok id)
  unfolding create load_or_create
  load-create io id salt secret nonce drawn wide picked size drawn' wide' h =
      elim (Result-cases (fresh_identity c io)) [
        | inr (e, f) ↦ ground (arith, f, h)
        | inl ((blob, made), f) ↦ elim (Bool-cases io.writes) [
          | inr w ↦ ground (arith, f, w, h)
          | inl w ↦ elim (Bool-cases io.restricts) [
            | inr r ↦ ground (arith, f, w, r, h)
            | inl r ↦
                let whole : create c io ≡ (some blob, ok made) = ground (arith, f, w, r) in
                let same : made ≡ id = ground (arith, f, w, r, h) in
                let parts = fresh_identity-Made c io blob made f in
                let long : length made.secret ≡ 32 = ground (arith, parts.random, picked, size) in
                let loads = load-Made io blob made salt nonce drawn wide drawn' wide' long parts in
                ap (λ x. load_or_create c x io) (ap (λ x. x.0) whole)
                ∙ ap (λ x. (some blob, x)) (loads ∙ ap ok same)
                ∙ ap (λ x. (x.0, ok id)) (sym whole)
          ]
        ]
      ]
