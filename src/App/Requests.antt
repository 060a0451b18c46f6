-- ===== src/App/Requests.antt =====
-- The two ends of a signed request: `Hub::auth` of crates/wicara/src/hub.rs and `authenticate` of
-- crates/wicara-hub/src/main.rs.
use wicara.Prelude.{ℕ, ◌+◌, ◌≤◌, ◌<◌, ◌^◌, ◌≡◌, refl, some, Bytes, Text, nat_eq, ==-refl, ok}
use wicara.Crypto.{Crypto, SignatureLaws}
use wicara.E2e.{window_ms, sign_auth}
use wicara.E2e.Auth.{verify-sign_auth}
use wicara.Wire.{decimal}
use wicara.Hub.{Formats, parse_endpoint, authenticate}
use wicara.App.Mail.{auth}

-- Hexadecimal text decodes to what was encoded, and has no space around it; a number that was
-- printed is parsed as it was.
pub record TextLaws (f : Formats) (to_hex : Bytes → Text) : Type 0 where
  pub trimmed : (b : Bytes) → f.trim (to_hex b) ≡ to_hex b
  pub decoded : (b : Bytes) → f.from_hex (to_hex b) ≡ some b
  pub parsed : (n : ℕ) → n < 2 ^ 64 → f.parse_number (decimal 20 n) ≡ some n

module _ (c : Crypto) (f : Formats) (to_hex : Bytes → Text) where
  -- The hub takes a request that a client signed as that client's own, if the two clocks differ by
  -- the window at most.
  pub authenticate-auth :
      (identity : Bytes) (ts now : ℕ)
      → SignatureLaws c
      → TextLaws f to_hex
      → ts < 2 ^ 64
      → now ≤ ts + window_ms
      → ts ≤ now + window_ms
      → authenticate c f (auth c f to_hex identity ts) now ≡ ok (c.verifying_key identity)
  unfolding authenticate auth parse_endpoint
  authenticate-auth identity ts now laws texts small h k =
      let key = c.verifying_key identity in
      let signature = sign_auth c identity ts in
      let p1 = texts.trimmed key in
      let p2 = texts.decoded key in
      let p3 = laws.key_length identity in
      let p4 = texts.parsed ts small in
      let p5 = texts.decoded signature in
      let p6 = verify-sign_auth c identity ts now laws h k in
      rw (p1, p2, p3, ==-refl {A = ℕ} 32, p4, p5, p6) refl
