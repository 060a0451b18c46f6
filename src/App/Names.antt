-- ===== src/App/Names.antt =====
-- crates/wicara/src/main.rs: the names of a peer and the prekey, kept in the table of settings. The random nonces are
-- arguments, and so are `HEXLOWER.encode` and `HEXLOWER.decode`.
use wicara.Prelude.{
  ℕ, ◌≡◌, refl, sym, ◌∙◌, ap, subst, false, Option, none, some, List, [], ◌∷◌, ◌++◌, Bytes, Text,
  Bytes-discrete, ℕ_discrete, codes, bytes_eq, nat_eq, ◌==◌, ==-refl, if◌then◌else◌, length, take,
  Result, ok, err, ◌>>=◌, ◌>>◌, ensure, ok_or, map_err, Result-cases, Option-cases, inl, inr, arith,
}
use wicara.Crypto.{Crypto, CipherLaws}
use wicara.Vault.{seal, nonce_len, open_blob-seal}
use wicara.Wire.{hex}
use wicara.Store.Tables.{
  Store, StoreError, SettingRow, setting, set_setting, upsert_setting, find_setting,
}

-- `nick_key`, `alias_key`
unfoldable pub nick_key : Bytes → Text
nick_key peer = codes "nick:" ++ hex (take 5 peer)

unfoldable pub alias_key : Bytes → Text
alias_key peer = codes "alias:" ++ hex (take 5 peer)

-- an empty name is none
unfoldable pub present : Option Text → Option Text
present none = none
present (some []) = none
present (some (b ∷ bs)) = some (b ∷ bs)

unfoldable pub flatten : Result StoreError (Option Text) → Option Text
flatten (ok o) = o
flatten (err e) = none

first_or : ℕ → List ℕ → ℕ
first_or d [] = d
first_or d (x ∷ xs) = x

pub data PrekeyError : Type 0 where
  prekey_store : StoreError → PrekeyError
  not_hex not_32_bytes : PrekeyError

module _ (c : Crypto) where
  -- the two names that `announce_peer` tells the interface
  unfoldable pub names_of : Store → Bytes → Option Text × Option Text
  names_of s peer =
      (flatten (setting c s (nick_key peer)), present (flatten (setting c s (alias_key peer))))

  -- `remember_nick`, which goes on if it fails
  unfoldable pub remember_nick : Store → Bytes → Text → Option Bytes → Store
  remember_nick s peer nick nonce = elim (set_setting c s (nick_key peer) nick nonce) [
    | ok s' ↦ s'
    | err e ↦ s
  ]

  -- the arm of `dispatch` for `/name`
  unfoldable pub name_peer : Store → Bytes → Option Text → Option Bytes → Result StoreError Store
  name_peer s peer none nonce = set_setting c s (alias_key peer) [] nonce
  name_peer s peer (some alias) nonce = set_setting c s (alias_key peer) alias nonce

  -- `load_or_create_prekey`; `fresh` is `StaticSecret::random`
  unfoldable pub load_or_create_prekey :
      (Bytes → Text)
      → (Text → Option Bytes)
      → Store
      → Bytes
      → Option Bytes
      → Result PrekeyError (Bytes × Store)
  load_or_create_prekey to_hex from_hex s fresh nonce =
      map_err (setting c s (codes "prekey")) prekey_store >>= λ stored. elim stored [
        | some text ↦ (do
          bytes ← ok_or (from_hex text) not_hex
          ensure (length bytes == 32) not_32_bytes
          ok (bytes, s))
        | none ↦
            map_err (set_setting c s (codes "prekey") (to_hex fresh) nonce) prekey_store >>= λ s'.
            ok (fresh, s')
      ]

  find_setting-upsert :
      (r : SettingRow) (key : Text) (rows : List SettingRow)
      → find_setting key (upsert_setting r rows)
        ≡ (if r.key == key then some r.value else find_setting key rows)
  unfolding find_setting upsert_setting
  find_setting-upsert r key [] = ground arith
  find_setting-upsert r key (x ∷ xs) =
      let rest = find_setting-upsert r key xs in
      elim (Bytes-discrete x.key r.key) [
        | yes p ↦ elim (Bytes-discrete r.key key) [
          | yes q ↦ ground (arith, p, q, ==-refl key)
          | no q ↦
              let apart : (x.key == key) ≡ false = elim (Bytes-discrete x.key key) [
                | yes y ↦ absurd (q (sym p ∙ y))
                | no y ↦ ground (arith, y)
              ] in
              ground (arith, p, q, apart, ==-refl r.key)
        ]
        | no p ↦ elim (Bytes-discrete r.key key) [
          | yes q ↦
              let apart : (x.key == key) ≡ false = elim (Bytes-discrete x.key key) [
                | yes y ↦ absurd (p (y ∙ sym q))
                | no y ↦ ground (arith, y)
              ] in
              ground (arith, p, q, rest, apart)
          | no q ↦ ground (arith, p, q, rest)
        ]
      ]

  -- setting one key leaves the others
  setting-other :
      (s s' : Store) (key other value : Bytes) (nonce : Option Bytes)
      → (key == other) ≡ false
      → set_setting c s key value nonce ≡ ok s'
      → setting c s' other ≡ setting c s other
  unfolding setting set_setting
  setting-other s s' key other value nonce apart h =
      elim (Result-cases (seal c s.vault value nonce)) [
        | inr (e, p) ↦ ground (arith, p, h)
        | inl (sealed, p) ↦
            let row : SettingRow = record { key = key; value = sealed } in
            let found = find_setting-upsert row other s.settings in
            let made : record s { settings = upsert_setting row s.settings } ≡ s' =
              ground (arith, p, h) in
            let kept : find_setting other (upsert_setting row s.settings)
                ≡ find_setting other s.settings =
              ground (arith, found, apart) in
            subst (λ x. setting c x other ≡ setting c s other) made (rw (kept, setting) refl)
      ]

  setting-same :
      (s s' : Store) (key value nonce : Bytes)
      → CipherLaws c
      → length nonce ≡ nonce_len
      → set_setting c s key value (some nonce) ≡ ok s'
      → setting c s' key ≡ ok (some value)
  unfolding setting set_setting
  setting-same s s' key value nonce laws size h =
      elim (Result-cases (seal c s.vault value (some nonce))) [
        | inr (e, p) ↦ ground (arith, p, h)
        | inl (sealed, p) ↦
            let row : SettingRow = record { key = key; value = sealed } in
            let opens = open_blob-seal c s.vault value nonce sealed laws size p in
            let found = find_setting-upsert row key s.settings in
            let made : record s { settings = upsert_setting row s.settings } ≡ s' =
              ground (arith, p, h) in
            let kept : find_setting key (upsert_setting row s.settings) ≡ some sealed =
              ground (arith, found, ==-refl key) in
            let opened : setting c (record s { settings = upsert_setting row s.settings }) key
                ≡ ok (some value) =
              ground (arith, kept, opens) in
            subst (λ x. setting c x key ≡ ok (some value)) made opened
      ]

  -- A peer cannot take the place of the name that the user chose: remembering the name that any peer gives itself leaves
  -- the alias of every peer as it was.
  pub nick_keeps_alias :
      (s : Store) (peer other : Bytes) (nick : Text) (nonce : Option Bytes)
      → (names_of (remember_nick s peer nick nonce) other).1 ≡ (names_of s other).1
  unfolding names_of remember_nick nick_key alias_key first_or
  nick_keeps_alias s peer other nick nonce =
      elim (Result-cases (set_setting c s (nick_key peer) nick nonce)) [
        | inr (e, p) ↦ ap (λ (x : Store). (names_of x other).1) (rw (p, remember_nick) refl)
        | inl (s', p) ↦
            let apart : (nick_key peer == alias_key other) ≡ false =
              elim (Bytes-discrete (nick_key peer) (alias_key other)) [
                | yes q ↦ absurd (omega (arith, ap (first_or 0) q))
                | no q ↦ ground (arith, q)
              ] in
            let kept = setting-other s s' (nick_key peer) (alias_key other) nick nonce apart p in
            let step : remember_nick s peer nick nonce ≡ s' = rw (p, remember_nick) refl in
            ap (λ (x : Store). (names_of x other).1) step ∙ ap (λ x. present (flatten x)) kept
      ]

  -- A name, if it is not empty, that is given to one peer shows for every peer whose key begins
  -- with the same five bytes.
  pub alias_goes_by_prefix :
      (s s' : Store) (peer other : Bytes) (b : ℕ) (bs nonce : Bytes)
      → CipherLaws c
      → length nonce ≡ nonce_len
      → take 5 peer ≡ take 5 other
      → name_peer s peer (some (b ∷ bs)) (some nonce) ≡ ok s'
      → (names_of s' other).1 ≡ some (b ∷ bs)
  unfolding names_of name_peer alias_key present flatten
  alias_goes_by_prefix s s' peer other b bs nonce laws size prefix h =
      let same : alias_key peer ≡ alias_key other = ap (λ x. codes "alias:" ++ hex x) prefix in
      let at = setting-same s s' (alias_key peer) (b ∷ bs) nonce laws size h in
      ap (λ x. present (flatten x)) (ap (setting c s') (sym same) ∙ at)

  -- The prekey lasts: once it was made it is found in the store, and every later start uses the same secret and leaves the
  -- store as it is.
  pub prekey_lasts :
      (to_hex : Bytes → Text) (from_hex : Text → Option Bytes) (s s' : Store)
      (fresh later secret nonce : Bytes) (nonce' : Option Bytes)
      → CipherLaws c
      → length nonce ≡ nonce_len
      → ((b : Bytes) → from_hex (to_hex b) ≡ some b)
      → length fresh ≡ 32
      → load_or_create_prekey to_hex from_hex s fresh (some nonce) ≡ ok (secret, s')
      → load_or_create_prekey to_hex from_hex s' later nonce' ≡ ok (secret, s')
  unfolding load_or_create_prekey
  prekey_lasts to_hex from_hex s s' fresh later secret nonce nonce' laws size decodes long h =
      elim (Result-cases (setting c s (codes "prekey"))) [
        | inr (e, p) ↦ ground (arith, p, h)
        | inl (stored, p) ↦ elim (Option-cases stored) [
          | inl q ↦
              elim (Result-cases (set_setting c s (codes "prekey") (to_hex fresh) (some nonce))) [
                | inr (e, r) ↦ ground (arith, p, q, r, h)
                | inl (t, r) ↦
                    let at = setting-same s t (codes "prekey") (to_hex fresh) nonce laws size r in
                    let made : (fresh, t) ≡ (secret, s') = ground (arith, p, q, r, h) in
                    let back = decodes fresh in
                    let again : load_or_create_prekey to_hex from_hex t later nonce'
                        ≡ ok (fresh, t) =
                      ground (arith, at, back, long) in
                    subst
                      (λ (x : Bytes × Store).
                        load_or_create_prekey to_hex from_hex x.1 later nonce' ≡ ok x)
                      made again
              ]
          | inr (text, q) ↦ elim (Option-cases (from_hex text)) [
            | inl r ↦ ground (arith, p, q, r, h)
            | inr (bytes, r) ↦ elim (ℕ_discrete (length bytes) 32) [
              | no l ↦ ground (arith, p, q, r, l, h)
              | yes l ↦
                  let made : (bytes, s) ≡ (secret, s') = ground (arith, p, q, r, l, h) in
                  let again : load_or_create_prekey to_hex from_hex s later nonce' ≡ ok (bytes, s) =
                    ground (arith, p, q, r, l) in
                  subst
                    (λ (x : Bytes × Store).
                      load_or_create_prekey to_hex from_hex x.1 later nonce' ≡ ok x)
                    made again
            ]
          ]
        ]
      ]
