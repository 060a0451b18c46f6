-- ===== src/Identity.antt =====
-- crates/wicara/src/identity.rs: the identity file. What the user answers, what the generator of random bytes
-- gives and what the file system does are arguments; a passphrase is the bytes of its UTF-8.
pub mod Reopening
use wicara.Prelude.{
  ℕ, ◌+◌, Bool, true, false, not, ◌&&◌, Option, none, some, List, [], ◌∷◌, ◌++◌, Bytes, Text,
  bytes_eq, nat_eq, ◌==◌, ltb, leb, if◌then◌else◌, length, take, drop, filter, Result, ok, err,
  ◌>>=◌, ◌>>◌, ensure, ok_or, map_err,
}
use wicara.Crypto.{Crypto}
use wicara.Vault.{salt_len, VaultError, derive, seal, open_blob}

abbrev pub min_passphrase : ℕ
min_passphrase = 8

pub record Identity : Type 0 where
  pub secret : Bytes
  pub vault : Bytes

pub data IdentityError : Type 0 where
  truncated_file not_a_key no_answer too_short no_match rng_failed not_written : IdentityError
  locked : VaultError → IdentityError

-- what the two prompts, the generator and the file system give; `part` is what a failed write leaves
pub record Session : Type 0 where
  pub first : Option Bytes
  pub second : Option Bytes
  pub salt : Option Bytes
  pub secret : Option Bytes
  pub nonce : Option Bytes
  pub writes : Bool
  pub part : Option Bytes
  pub restricts : Bool

-- `chars().count()`: the bytes that begin a character
unfoldable pub char_count : Bytes → ℕ
char_count bytes = length (filter (λ b. not (leb 128 b && ltb b 192)) bytes)

-- `trim_end_matches(['\r', '\n'])`, on a line that was read
unfoldable pub trim_line : Bytes → Bytes
trim_line [] = []
trim_line (b ∷ bs) = elim (trim_line bs) [
  | [] ↦ if b == 10 then [] else if b == 13 then [] else b ∷ []
  | d ∷ ds ↦ b ∷ d ∷ ds
]

-- `ask` when the input is no terminal: the line that was read, `none` at the end of the input
unfoldable pub ask : Option Bytes → Result IdentityError Bytes
ask none = err no_answer
ask (some []) = err no_answer
ask (some (b ∷ bs)) = ok (trim_line (b ∷ bs))

module _ (c : Crypto) where
  -- `load`, on what the file holds
  unfoldable pub load : Bytes → Option Bytes → Result IdentityError Identity
  load blob line = do
    ensure (ltb salt_len (length blob)) truncated_file
    passphrase ← ask line
    vault ← map_err (derive c passphrase (take salt_len blob)) locked
    secret ← map_err (open_blob c vault (drop salt_len blob)) locked
    ensure (length secret == 32) not_a_key
    ok (record { secret = secret; vault = vault })

  -- what `create` is to write, and the identity
  unfoldable pub fresh_identity : Session → Result IdentityError (Bytes × Identity)
  fresh_identity io = do
    passphrase ← ask io.first
    ensure (leb min_passphrase (char_count passphrase)) too_short
    again ← ask io.second
    ensure (again == passphrase) no_match
    salt ← ok_or io.salt rng_failed
    vault ← map_err (derive c passphrase salt) locked
    secret ← ok_or io.secret rng_failed
    sealed ← map_err (seal c vault secret io.nonce) locked
    ok (salt ++ sealed, record { secret = secret; vault = vault })

  -- `create`: what the file is then, and the identity
  unfoldable pub create : Session → Option Bytes × Result IdentityError Identity
  create io = elim (fresh_identity io) [
    | err e ↦ (none, err e)
    | ok (blob, id) ↦
        if not io.writes
        then (io.part, err not_written)
        else if not io.restricts
        then (some blob, err not_written)
        else (some blob, ok id)
  ]

  unfoldable pub load_or_create :
      Option Bytes → Session → Option Bytes × Result IdentityError Identity
  load_or_create none io = create io
  load_or_create (some blob) io = (some blob, load blob io.first)
