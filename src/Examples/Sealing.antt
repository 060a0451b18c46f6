-- ===== src/Examples/Sealing.antt =====
-- A prekey, an envelope sealed to it, a request to the mailbox, and frames on a stream.
use wicara.Prelude.{
  ◌≡◌, refl, some, List, [], ◌∷◌, Bytes, bytes_eq, nat_eq, codes, replicate, length, ok,
  Bytes-discrete, ℕ_discrete, to_le_bytes, arith,
}
use wicara.E2e.{
  SignedPrekey, VerifiedPrekey, Envelope, prekey_transcript, binding, envelope_transcript,
  auth_transcript, abs_diff, envelope_key, new_prekey, verify, seal, open_envelope, sign_auth,
  verify_auth,
}
use wicara.E2e.Sealing.{open-seal}
use wicara.E2e.Transcripts.{IsSized, signed_text_inj}
use wicara.Wire.{Frame, hello, encode, encode_all, read_all}
use wicara.Wire.Framing.{read_all-encode_all}
use wicara.Examples.Toy.{
  value, block, toy, toy_frames, toy_frames_laws, toy_signatures, toy_exchange, toy_cipher,
}

abbrev alice_seed : Bytes
alice_seed = 7 ∷ []

abbrev pub bob_seed : Bytes
bob_seed = 8 ∷ []

abbrev pub alice : Bytes
alice = block 7

abbrev pub bob : Bytes
bob = block 8

abbrev bob_secret : Bytes
bob_secret = 21 ∷ []

abbrev pub bob_prekey : SignedPrekey
bob_prekey = new_prekey toy bob_seed bob_secret 5

abbrev pub bob_verified : VerifiedPrekey
bob_verified = record { owner = bob; key = block 21 }

abbrev ephemeral : Bytes
ephemeral = 33 ∷ []

abbrev pub nonce : Bytes
nonce = 1 ∷ replicate 23 0

abbrev no_envelope : Envelope
no_envelope = record {
  sender = [];
  recipient = [];
  ephemeral = [];
  prekey = [];
  nonce = [];
  ciphertext = [];
  signature = [];
}

abbrev pub letter : Envelope
letter = value no_envelope (seal toy alice_seed bob_verified (codes "hi") ephemeral (some nonce))

pub runs :
    (verify toy bob_prekey bob ≡ ok bob_verified)
    × (seal toy alice_seed bob_verified (codes "hi") ephemeral (some nonce) ≡ ok letter)
    × (verify_auth toy bob 1000 (sign_auth toy bob_seed 1000) 2000 ≡ ok tt)
    × (verify_auth toy bob 1000 (sign_auth toy bob_seed 1000) 300000 ≡ ok tt)
    × IsSized letter
unfolding new_prekey verify seal binding prekey_transcript envelope_transcript envelope_key
    verify_auth sign_auth auth_transcript abs_diff to_le_bytes Bytes-discrete ℕ_discrete
runs = (
  refl,
  refl,
  refl,
  refl,
  record { sender = refl; recipient = refl; ephemeral = refl; prekey = refl; nonce = refl },
)

open-seal_example :
    open_envelope toy letter bob_secret (toy.verifying_key bob_seed)
    ≡ ok (codes "hi", toy.verifying_key alice_seed)
open-seal_example =
    open-seal toy toy_signatures toy_exchange toy_cipher alice_seed bob_seed bob_secret 5
      bob_verified (codes "hi") ephemeral (some nonce) letter runs.0 runs.1

signed_text_inj_example :
    (letter.sender ≡ letter.sender)
    × (letter.recipient ≡ letter.recipient)
    × (letter.ephemeral ≡ letter.ephemeral)
    × (letter.prekey ≡ letter.prekey)
    × (letter.nonce ≡ letter.nonce)
    × (letter.ciphertext ≡ letter.ciphertext)
signed_text_inj_example = signed_text_inj letter letter runs.4 runs.4 refl

abbrev greetings : List Frame
greetings = hello (codes "ana") ∷ hello (codes "bo") ∷ []

abbrev greeting : Bytes
greeting = value [] (encode toy_frames (hello (codes "ana")))

abbrev stream : Bytes
stream = value [] (encode_all toy_frames greetings)

written :
    (encode toy_frames (hello (codes "ana")) ≡ ok greeting)
    × (encode_all toy_frames greetings ≡ ok stream)
    × (length stream ≡ 13)
unfolding encode encode_all to_le_bytes
written = (refl, refl, refl)

read_all-encode_all_example : read_all toy_frames 14 stream ≡ some (ok greetings)
read_all-encode_all_example =
    read_all-encode_all toy_frames toy_frames_laws greetings stream 14 written.1
      (omega (arith, written.2))
