-- ===== src/Room/Chain/Logs.antt =====
-- The loop of `verify_log` over a whole log, and the chains that `Room.Chain` describes.
use wicara.Prelude.{
  ◌≡◌, refl, ◌↔◌, List, [], ◌∷◌, ◌++◌, append_assoc, append-nil, ok, ◌>>=◌, >>=-eq-ok, ok-injective,
  Result-cases, inl, inr, subst,
}
use wicara.Crypto.{Crypto, Codec}
use wicara.Room.{RoomOp, RoomEntry, Room, step, replay, found, verify_log}
use wicara.Room.Chain.{Chain, start, extend}
use wicara.Room.Chain.Steps.{step-Stepped, Stepped-step, found-Founded, Founded-found}

module _ (c : Crypto) (ops : Codec RoomOp) where
  pub replay-append :
      (r : Room) (es fs : List RoomEntry)
      → replay c ops r (es ++ fs) ≡ (replay c ops r es >>= λ s. replay c ops s fs)
  unfolding replay
  replay-append r [] fs = refl
  replay-append r (e ∷ es) fs = elim (Result-cases (step c ops r e)) [
    | inl (s, p) ↦ rw p (replay-append s es fs)
    | inr (x, p) ↦ rw p
  ]

  -- after a first entry, the rest of the log is replayed from the room that the front gives
  pub verify_log-append :
      (e : RoomEntry) (es fs : List RoomEntry)
      → verify_log c ops ((e ∷ es) ++ fs) ≡ (verify_log c ops (e ∷ es) >>= λ r. replay c ops r fs)
  unfolding verify_log
  verify_log-append e es fs = elim (Result-cases (found c ops e)) [
    | inl (r, p) ↦ rw p (replay-append r es fs)
    | inr (x, p) ↦ rw p
  ]

  replay-Chain :
      (es fs : List RoomEntry) (r s : Room)
      → Chain c ops es r
      → replay c ops r fs ≡ ok s
      → Chain c ops (es ++ fs) s
  unfolding replay
  replay-Chain es [] r s h p = rw append-nil (subst (Chain c ops es) (ok-injective p) h)
  replay-Chain es (e ∷ fs) r s h p =
      let (t, q, k) = >>=-eq-ok (step c ops r e) (λ t. replay c ops t fs) p in
      rw (← append_assoc es (e ∷ []) fs)
        (replay-Chain (es ++ e ∷ []) fs t s (extend e h refl (step-Stepped c ops r e t q)) k)

  pub verify_log-Chain :
      (es : List RoomEntry) (r : Room) → verify_log c ops es ≡ ok r → Chain c ops es r
  unfolding verify_log
  verify_log-Chain [] r h = cc
  verify_log-Chain (e ∷ es) r h =
      let (t, q, k) = >>=-eq-ok (found c ops e) (λ t. replay c ops t es) h in
      replay-Chain (e ∷ []) es t r (start e refl (found-Founded c ops e t q)) k

  -- entries that replay after an accepted log extend it
  pub verify_log-extend :
      (es fs : List RoomEntry) {r s : Room}
      → verify_log c ops es ≡ ok r
      → replay c ops r fs ≡ ok s
      → verify_log c ops (es ++ fs) ≡ ok s
  verify_log-extend [] fs h p = unfold verify_log in cc
  verify_log-extend (e ∷ es) fs h p = rw (verify_log-append e es fs, h) p

  pub Chain-verify_log :
      {es : List RoomEntry} {r : Room} → Chain c ops es r → verify_log c ops es ≡ ok r
  unfolding verify_log replay
  Chain-verify_log (start e p f) = rw (p, Founded-found c ops f)
  Chain-verify_log (extend {es = es} {r = r} e h p s) =
      rw p (verify_log-extend es (e ∷ []) (Chain-verify_log h) (rw (Stepped-step c ops s)))

  -- `verify_log` accepts a log with a room exactly when the log is a chain that describes it.
  pub verify_log_decides_Chain :
      (es : List RoomEntry) (r : Room) → (verify_log c ops es ≡ ok r) ↔ Chain c ops es r
  verify_log_decides_Chain es r = (verify_log-Chain es r, Chain-verify_log)
