-- ===== src/E2e.antt =====
-- crates/wicara-core/src/e2e.rs: signed prekeys, sealed envelopes and the proof of identity to the
-- hub. The random ephemeral secret and nonce of `seal` are arguments; `none` for the nonce is the
-- failure of the system's generator.
pub mod Sealing
pub mod Transcripts
pub mod Auth
use wicara.Prelude.{
  ℕ, ◌+◌, ◌-◌, ◌*◌, Option, ◌++◌, Bytes, codes, bytes_eq, nat_eq, ◌==◌, leb, if◌then◌else◌, Result,
  ok, err, ◌>>=◌, ◌>>◌, ensure, ok_or, to_le_bytes, length,
}
use wicara.Crypto.{Crypto}

abbrev pub prekey_context : Bytes
prekey_context = codes "wicara prekey signature v1"

abbrev pub envelope_context : Bytes
envelope_context = codes "wicara envelope signature v1"

abbrev pub kdf_context : Bytes
kdf_context = codes "wicara envelope key v1"

pub record SignedPrekey : Type 0 where
  pub owner : Bytes
  pub prekey : Bytes
  pub created_ms : ℕ
  pub signature : Bytes

pub record VerifiedPrekey : Type 0 where
  pub owner : Bytes
  pub key : Bytes

pub record Envelope : Type 0 where
  pub sender : Bytes
  pub recipient : Bytes
  pub ephemeral : Bytes
  pub prekey : Bytes
  pub nonce : Bytes
  pub ciphertext : Bytes
  pub signature : Bytes

-- the messages of e2e.rs
pub data E2eError : Type 0 where
  different_owner prekey_signature_not_64_bytes owner_not_a_key prekey_not_signed : E2eError
  prekey_small_order rng_unavailable sealing_failed : E2eError
  envelope_signature_not_64_bytes sender_not_a_key envelope_not_signed : E2eError
  addressed_elsewhere prekey_not_held ephemeral_small_order not_decrypted : E2eError
  outside_window auth_signature_not_64_bytes endpoint_not_a_key auth_not_signed : E2eError

unfoldable pub prekey_transcript : Bytes → Bytes → ℕ → Bytes
prekey_transcript owner prekey created_ms =
    prekey_context ++ (owner ++ (prekey ++ to_le_bytes 8 created_ms))

unfoldable pub binding : Bytes → Bytes → Bytes → Bytes → Bytes
binding sender recipient ephemeral prekey = sender ++ (recipient ++ (ephemeral ++ prekey))

unfoldable pub envelope_transcript : Bytes → Bytes → Bytes → Bytes
envelope_transcript bound nonce ciphertext = envelope_context ++ (bound ++ (nonce ++ ciphertext))

module _ (c : Crypto) where
  -- `SignedPrekey::new`
  unfoldable pub new_prekey : Bytes → Bytes → ℕ → SignedPrekey
  new_prekey identity secret created_ms =
      let owner = c.verifying_key identity in
      let prekey = c.public_key secret in
      record {
        owner = owner;
        prekey = prekey;
        created_ms = created_ms;
        signature = c.sign identity (prekey_transcript owner prekey created_ms);
      }

  -- `SignedPrekey::verify`
  unfoldable pub verify : SignedPrekey → Bytes → Result E2eError VerifiedPrekey
  verify p expected_owner = do
    ensure (p.owner == expected_owner) different_owner
    ensure (length p.signature == 64) prekey_signature_not_64_bytes
    ensure (c.is_verifying_key expected_owner) owner_not_a_key
    ensure
        (c.verify_strict expected_owner (prekey_transcript expected_owner p.prekey p.created_ms)
          p.signature)
        prekey_not_signed
    ok (record { owner = expected_owner; key = p.prekey })

  unfoldable pub envelope_key : Bytes → Bytes → Bytes
  envelope_key shared bound = c.derive_key kdf_context (shared ++ bound)

  unfoldable pub seal :
      Bytes → VerifiedPrekey → Bytes → Bytes → Option Bytes → Result E2eError Envelope
  seal identity to plaintext ephemeral_secret random_nonce = do
    let sender = c.verifying_key identity
    let ephemeral = c.public_key ephemeral_secret
    let prekey = to.key
    let shared = c.diffie_hellman ephemeral_secret to.key
    ensure (c.was_contributory shared) prekey_small_order
    let bound = binding sender to.owner ephemeral prekey
    nonce ← ok_or random_nonce rng_unavailable
    ciphertext ← ok_or (c.encrypt (envelope_key shared bound) nonce bound plaintext) sealing_failed
    ok (record {
      sender = sender;
      recipient = to.owner;
      ephemeral = ephemeral;
      prekey = prekey;
      nonce = nonce;
      ciphertext = ciphertext;
      signature = c.sign identity (envelope_transcript bound nonce ciphertext);
    })

  unfoldable pub verify_envelope_signature : Envelope → Result E2eError (Unit {0})
  verify_envelope_signature e = do
    let bound = binding e.sender e.recipient e.ephemeral e.prekey
    ensure (length e.signature == 64) envelope_signature_not_64_bytes
    ensure (c.is_verifying_key e.sender) sender_not_a_key
    ensure (c.verify_strict e.sender (envelope_transcript bound e.nonce e.ciphertext) e.signature)
        envelope_not_signed

  -- `open`
  unfoldable pub open_envelope : Envelope → Bytes → Bytes → Result E2eError (Bytes × Bytes)
  open_envelope e my_prekey me = do
    ensure (e.recipient == me) addressed_elsewhere
    ensure (e.prekey == c.public_key my_prekey) prekey_not_held
    verify_envelope_signature e
    let bound = binding e.sender e.recipient e.ephemeral e.prekey
    let shared = c.diffie_hellman my_prekey e.ephemeral
    ensure (c.was_contributory shared) ephemeral_small_order
    plaintext ←
        ok_or (c.decrypt (envelope_key shared bound) e.nonce bound e.ciphertext) not_decrypted
    ok (plaintext, e.sender)

-- `pub mod mailbox_auth`
abbrev pub auth_context : Bytes
auth_context = codes "wicara mailbox auth v1"

abbrev pub window_ms : ℕ
window_ms = 5 * 60 * 1000

unfoldable pub auth_transcript : Bytes → ℕ → Bytes
auth_transcript endpoint ts_ms = auth_context ++ (endpoint ++ to_le_bytes 8 ts_ms)

-- `u64::abs_diff`
unfoldable pub abs_diff : ℕ → ℕ → ℕ
abs_diff a b = if leb b a then a - b else b - a

module _ (c : Crypto) where
  -- `mailbox_auth::sign`
  unfoldable pub sign_auth : Bytes → ℕ → Bytes
  sign_auth identity ts_ms = c.sign identity (auth_transcript (c.verifying_key identity) ts_ms)

  -- `mailbox_auth::verify`
  unfoldable pub verify_auth : Bytes → ℕ → Bytes → ℕ → Result E2eError (Unit {0})
  verify_auth endpoint ts_ms signature now_ms = do
    ensure (leb (abs_diff now_ms ts_ms) window_ms) outside_window
    ensure (length signature == 64) auth_signature_not_64_bytes
    ensure (c.is_verifying_key endpoint) endpoint_not_a_key
    ensure (c.verify_strict endpoint (auth_transcript endpoint ts_ms) signature) auth_not_signed
