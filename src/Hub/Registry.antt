-- ===== src/Hub/Registry.antt =====
-- The room registry and the prekey directory of the hub (crates/wicara-hub/src/store.rs and
-- main.rs): what they hold and hand out.
pub mod Rows
use wicara.Prelude.{
  ℕ, ◌≤◌, ◌≡◌, refl, sym, ◌∙◌, ap, subst, Option, none, some, List, [], ◌∷◌, Bytes, Text, bytes_eq,
  nat_eq, ◌==◌, ltb, if◌then◌else◌, length, ok, Result-cases, Option-cases, inl, inr, ◌⊎◌, arith,
}
use wicara.Crypto.{Crypto}
use wicara.E2e.{SignedPrekey, VerifiedPrekey, verify}
use wicara.Room.{Room, RoomEntry, verify_log}
use wicara.Hub.Tables.{
  HubStore, PrekeyRow, RoomRow, put_prekey, upsert_prekey, find_prekey, prekey, put_mail,
  delete_mail, upsert_room, put_room, find_room, room, sweep,
}
use wicara.Hub.{
  Formats, Headers, parse_endpoint, admit_mail, admit_prekey, admit_delete, admit_log,
  handle_put_prekey, handle_post_mail, handle_delete_mail, handle_put_room, handle_get_room,
  handle_get_prekey, Event, put_prekey_request, post_mail_request, delete_mail_request,
  put_room_request, sweep_round, serve, serve_all, empty_store,
}
use wicara.Hub.Admission.{admit_log_exact, admit_prekey_exact}
use wicara.Hub.Registry.Rows.{found_room, found_prekey, room_stays}

module _ (c : Crypto) (f : Formats) where
  -- The blob decodes to a log of the given length that verifies, for the room with that id.
  pub record IsLogOf (id blob : Bytes) (n : ℕ) : Type 0 where
    pub entries : List RoomEntry
    pub room : Room
    pub decodes : f.logs.from_bytes blob ≡ some entries
    pub verifies : verify_log c f.ops entries ≡ ok room
    pub id-eq : room.id ≡ id
    pub length-eq : length entries ≡ n

  -- The blob decodes to a prekey of the owner, signed by the owner.
  pub record IsPrekeyOf (owner blob : Bytes) : Type 0 where
    pub prekey : SignedPrekey
    pub verified : VerifiedPrekey
    pub decodes : f.prekeys.from_bytes blob ≡ some prekey
    pub verifies : verify c prekey owner ≡ ok verified

  -- Every log in the registry is one of the room it is filed under, and every prekey in the
  -- directory one of its owner.
  pub record IsVerified (s : HubStore) : Type 0 where
    pub logs :
        (id : Bytes) (r : RoomRow) → find_room id s.rooms ≡ some r → IsLogOf id r.blob r.length
    pub keys :
        (owner blob : Bytes) → find_prekey owner s.prekeys ≡ some blob → IsPrekeyOf owner blob

  put_room-IsVerified :
      (s : HubStore) (id body : Bytes) (n : ℕ)
      → IsVerified s
      → IsLogOf id body n
      → IsVerified (put_room s id n body).0
  unfolding put_room
  put_room-IsVerified s id body n v new = record {
    logs = λ j r h. elim (found_room j (record { id = id; length = n; blob = body }) r s.rooms h) [
      | inl old ↦ v.logs j r old
      | inr (same, e) ↦
          subst (λ (k : Bytes). IsLogOf k r.blob r.length) same
            (subst (λ (x : RoomRow). IsLogOf id x.blob x.length) e new)
    ];
    keys = v.keys;
  }

  put_prekey-IsVerified :
      (s : HubStore) (p : SignedPrekey) (body : Bytes)
      → IsVerified s
      → IsPrekeyOf p.owner body
      → IsVerified (put_prekey s p body)
  unfolding put_prekey
  put_prekey-IsVerified s p body v new = record {
    logs = v.logs;
    keys = λ owner blob h.
        elim (found_prekey owner blob
          (record { owner = p.owner; created_ms = p.created_ms; blob = body }) s.prekeys h) [
            | inl old ↦ v.keys owner blob old
            | inr (same, e) ↦
                subst (λ (k : Bytes). IsPrekeyOf k blob) same (subst (IsPrekeyOf p.owner) e new)
          ];
  }

  same_tables :
      {s t : HubStore} → t.rooms ≡ s.rooms → t.prekeys ≡ s.prekeys → IsVerified s → IsVerified t
  same_tables p q v = record {
    logs = λ j r h. v.logs j r (ap (find_room j) (sym p) ∙ h);
    keys = λ o b h. v.keys o b (ap (find_prekey o) (sym q) ∙ h);
  }

  -- the two tables under each handler
  tables-post :
      (s : HubStore) (path : Text) (body : Bytes) (now : ℕ)
      → ((handle_post_mail c f s path body now).1.rooms ≡ s.rooms)
        × ((handle_post_mail c f s path body now).1.prekeys ≡ s.prekeys)
  unfolding put_mail handle_post_mail
  tables-post s path body now = elim (Result-cases (admit_mail c f s path body)) [
    | inl (e, p) ↦ (rw (p, handle_post_mail), rw (p, handle_post_mail))
    | inr (x, p) ↦ (rw (p, handle_post_mail), rw (p, handle_post_mail))
  ]

  tables-delete :
      (s : HubStore) (h : Headers) (body : Bytes) (now : ℕ)
      → ((handle_delete_mail c f s h body now).1.rooms ≡ s.rooms)
        × ((handle_delete_mail c f s h body now).1.prekeys ≡ s.prekeys)
  unfolding delete_mail handle_delete_mail
  tables-delete s h body now = elim (Result-cases (admit_delete c f h body now)) [
    | inl ((me, ids), p) ↦ (rw (p, handle_delete_mail), rw (p, handle_delete_mail))
    | inr (x, p) ↦ (rw (p, handle_delete_mail), rw (p, handle_delete_mail))
  ]

  serve-IsVerified : (s : HubStore) (e : Event) → IsVerified s → IsVerified (serve c f s e)
  unfolding serve handle_put_prekey handle_put_room handle_post_mail sweep
  serve-IsVerified s (put_prekey_request body) v = elim (Result-cases (admit_prekey c f body)) [
    | inr (x, p) ↦ rw (p, serve, handle_put_prekey) v
    | inl (k, p) ↦
        let (d, (w, h)) = (admit_prekey_exact c f body k).0 p in
        rw (p, serve, handle_put_prekey)
          (put_prekey-IsVerified s k body v
            (record { prekey = k; verified = w; decodes = d; verifies = h }))
  ]
  serve-IsVerified s (post_mail_request path body now) v =
      same_tables (tables-post s path body now).0 (tables-post s path body now).1 v
  serve-IsVerified s (delete_mail_request h body now) v =
      same_tables (tables-delete s h body now).0 (tables-delete s h body now).1 v
  serve-IsVerified s (put_room_request path body) v =
      elim (Result-cases (admit_log c f path body)) [
        | inr (x, p) ↦ rw (p, serve, handle_put_room) v
        | inl ((id, n), p) ↦
            let (_, (es, r, d, h, i, l)) = (admit_log_exact c f path body id n).0 p in
            rw (p, serve, handle_put_room)
              (put_room-IsVerified s id body n v (record {
                entries = es;
                room = r;
                decodes = d;
                verifies = h;
                id-eq = i;
                length-eq = l;
              }))
      ]
  serve-IsVerified s (sweep_round now) v = same_tables refl refl v

  -- Whatever it is asked, the hub holds only logs that verify, each for the room it is filed under,
  -- and prekeys that their owners signed, if that was so at the start.
  pub serve_all-IsVerified :
      (s : HubStore) (es : List Event) → IsVerified s → IsVerified (serve_all c f s es)
  unfolding serve_all
  serve_all-IsVerified s [] v = v
  serve_all-IsVerified s (e ∷ es) v =
      serve_all-IsVerified (serve c f s e) es (serve-IsVerified s e v)

  pub IsVerified-empty_store : IsVerified empty_store
  unfolding find_room find_prekey
  IsVerified-empty_store = record { logs = λ j r h. cc; keys = λ o b h. cc }

  -- What a hub that began empty hands out for a room is a log of that room that verifies.
  pub room_answers_verify :
      (es : List Event) (path : Text) (id blob : Bytes)
      → parse_endpoint c f path ≡ ok id
      → handle_get_room c f (serve_all c f empty_store es) path ≡ ok blob
      → (n : ℕ) × IsLogOf id blob n
  unfolding handle_get_room room
  room_answers_verify es path id blob p h =
      let s : HubStore = serve_all c f empty_store es in
      let v : IsVerified s = serve_all-IsVerified empty_store es IsVerified-empty_store in
      elim (Option-cases (find_room id s.rooms)) [
        | inl e ↦ ground (arith, p, e)
        | inr (r, e) ↦
            let same : r.blob ≡ blob = ground (arith, p, e) in
            (r.length, subst (λ (b : Bytes). IsLogOf id b r.length) same (v.logs id r e))
      ]

  -- What a hub that began empty hands out as an endpoint's prekey is one that the endpoint signed.
  pub prekey_answers_verify :
      (es : List Event) (path : Text) (id blob : Bytes)
      → parse_endpoint c f path ≡ ok id
      → handle_get_prekey c f (serve_all c f empty_store es) path ≡ ok blob
      → IsPrekeyOf id blob
  unfolding handle_get_prekey prekey
  prekey_answers_verify es path id blob p h =
      let s : HubStore = serve_all c f empty_store es in
      let v : IsVerified s = serve_all-IsVerified empty_store es IsVerified-empty_store in
      elim (Option-cases (find_prekey id s.prekeys)) [
        | inl e ↦ ground (arith, p, e)
        | inr (b, e) ↦
            let same : b ≡ blob = ground (arith, p, e) in subst (IsPrekeyOf id) same (v.keys id b e)
      ]

  serve-room_stays :
      (s : HubStore) (e : Event) (id : Bytes) (r : RoomRow)
      → find_room id s.rooms ≡ some r
      → (r' : RoomRow) × (find_room id (serve c f s e).rooms ≡ some r') × (r.length ≤ r'.length)
  unfolding serve handle_put_prekey handle_put_room sweep put_prekey put_room
  serve-room_stays s (put_prekey_request body) id r h =
      elim (Result-cases (admit_prekey c f body)) [
        | inr (x, p) ↦ (r, rw (p, serve, handle_put_prekey) h, omega arith)
        | inl (k, p) ↦ (r, rw (p, serve, handle_put_prekey) h, omega arith)
      ]
  serve-room_stays s (post_mail_request path body now) id r h =
      (r, ap (find_room id) (tables-post s path body now).0 ∙ h, omega arith)
  serve-room_stays s (delete_mail_request hs body now) id r h =
      (r, ap (find_room id) (tables-delete s hs body now).0 ∙ h, omega arith)
  serve-room_stays s (put_room_request path body) id r h =
      elim (Result-cases (admit_log c f path body)) [
        | inr (x, p) ↦ (r, rw (p, serve, handle_put_room) h, omega arith)
        | inl ((j, n), p) ↦
            let (r', q, le) =
              room_stays id (record { id = j; length = n; blob = body }) r s.rooms h in
            (r', rw (p, serve, handle_put_room) q, le)
      ]
  serve-room_stays s (sweep_round now) id r h = (r, h, omega arith)

  -- A room that the hub knows stays known whatever it is asked, and its log never gets shorter.
  pub rooms_never_shrink :
      (s : HubStore) (es : List Event) (id : Bytes) (r : RoomRow)
      → find_room id s.rooms ≡ some r
      → (r' : RoomRow) × (find_room id (serve_all c f s es).rooms ≡ some r')
        × (r.length ≤ r'.length)
  unfolding serve_all
  rooms_never_shrink s [] id r h = (r, h, omega arith)
  rooms_never_shrink s (e ∷ es) id r h =
      let (r1, h1, l1) = serve-room_stays s e id r h in
      let (r2, h2, l2) = rooms_never_shrink (serve c f s e) es id r1 h1 in (r2, h2, omega arith)
