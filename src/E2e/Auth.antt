-- ===== src/E2e/Auth.antt =====
-- Requests to the mailbox: `mailbox_auth` of crates/wicara-core/src/e2e.rs.
use wicara.Prelude.{ℕ, ◌+◌, ◌*◌, ◌≤◌, ◌≡◌, ◌↔◌, true, Bytes, length, ok, nat_eq, arith}
use wicara.Crypto.{Crypto, SignatureLaws}
use wicara.E2e.{window_ms, abs_diff, auth_transcript, sign_auth, verify_auth}

module _ (c : Crypto) where
  -- A request is accepted exactly when its time is within the window before or after the hub's,
  -- and its signature has 64 bytes and is by the endpoint, a valid key, over its own id and time.
  pub verify_auth_exact :
      (endpoint signature : Bytes) (ts now : ℕ)
      → (verify_auth c endpoint ts signature now ≡ ok tt) ↔ (
          (now ≤ ts + window_ms)
          × (ts ≤ now + window_ms)
          × (length signature ≡ 64)
          × (c.is_verifying_key endpoint ≡ true)
          × (c.verify_strict endpoint (auth_transcript endpoint ts) signature ≡ true))
  unfolding verify_auth abs_diff
  verify_auth_exact endpoint signature ts now = ground arith

  -- A header that the hub accepts at two times was replayed over ten minutes at most.
  pub replay_is_bounded :
      (endpoint signature : Bytes) (ts now later : ℕ)
      → verify_auth c endpoint ts signature now ≡ ok tt
      → verify_auth c endpoint ts signature later ≡ ok tt
      → later ≤ now + 2 * window_ms
  replay_is_bounded endpoint signature ts now later h k = omega (
    arith,
    (verify_auth_exact endpoint signature ts now).0 h,
    (verify_auth_exact endpoint signature ts later).0 k,
  )

  -- A request that an endpoint signs is accepted, if the two clocks differ by the window at most.
  pub verify-sign_auth :
      (identity : Bytes) (ts now : ℕ)
      → SignatureLaws c
      → now ≤ ts + window_ms
      → ts ≤ now + window_ms
      → verify_auth c (c.verifying_key identity) ts (sign_auth c identity ts) now ≡ ok tt
  unfolding sign_auth
  verify-sign_auth identity ts now laws h k =
      let t = auth_transcript (c.verifying_key identity) ts in
      (verify_auth_exact (c.verifying_key identity) (c.sign identity t) ts now).1 (
        h,
        k,
        laws.signature_length identity t,
        laws.valid_key identity,
        laws.verify_signed identity t,
      )
