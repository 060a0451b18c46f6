-- ===== src/Examples/Rooms.antt =====
-- A room of two: its founder creates it and invites a member.
use wicara.Prelude.{
  ℕ, ◌≡◌, ◌≢◌, refl, ◌⊎◌, ◌↔◌, true, List, [], ◌∷◌, Bytes, bytes_eq, nat_eq, codes, All, ok,
  Bytes-discrete, ℕ_discrete, to_le_bytes, arith,
}
use wicara.Room.{
  RoomOp, create, invite, kick, leave, RoomEntry, Room, genesis, is_admin, apply_op, transcript,
  new_entry, entry_hash, verify_signature, step, replay, found, verify_log,
}
use wicara.Room.Members.{contains, insert, remove}
use wicara.Room.Chain.{Chain}
use wicara.Room.Chain.Logs.{verify_log_decides_Chain}
use wicara.Room.Safety.{Some, Invites, members_were_invited}
use wicara.Room.Heads.{Collision, IsSized, head_determines_log, id_determines_founder}
use wicara.Examples.Toy.{value, block, toy, toy_ops, toy_ops_laws}

abbrev no_entry : RoomEntry
no_entry = record { prev = []; author = []; ts_ms = 0; op = leave; signature = [] }

abbrev no_room : Room
no_room = record { id = []; name = []; founder = []; members = []; head = []; length = 0 }

abbrev pub founder_seed : Bytes
founder_seed = 7 ∷ []

abbrev pub guest_seed : Bytes
guest_seed = 8 ∷ []

abbrev pub guest : Bytes
guest = block 8

abbrev stranger : Bytes
stranger = block 9

abbrev written : Bytes → Bytes → ℕ → RoomOp → RoomEntry
written key prev ts op = value no_entry (new_entry toy toy_ops key prev ts op)

abbrev verified : List RoomEntry → Room
verified log = value no_room (verify_log toy toy_ops log)

abbrev pub creation : RoomEntry
creation = written founder_seed genesis 1 (create (codes "den"))

abbrev pub invitation : RoomEntry
invitation = written founder_seed (verified (creation ∷ [])).head 2 (invite guest)

abbrev pub log : List RoomEntry
log = creation ∷ invitation ∷ []

abbrev pub den : Room
den = verified log

-- what the founder and the guest may write next
abbrev another_invitation : RoomEntry
another_invitation = written founder_seed den.head 3 (invite stranger)

abbrev expulsion : RoomEntry
expulsion = written founder_seed den.head 3 (kick guest)

abbrev farewell : RoomEntry
farewell = written guest_seed den.head 3 leave

pub runs :
    (verify_log toy toy_ops log ≡ ok den)
    × (contains guest den.members ≡ true)
    × (toy.verifying_key founder_seed ≡ den.founder)
    × (new_entry toy toy_ops founder_seed den.head 3 (invite stranger) ≡ ok another_invitation)
    × (new_entry toy toy_ops founder_seed den.head 3 (kick guest) ≡ ok expulsion)
    × (new_entry toy toy_ops guest_seed den.head 3 leave ≡ ok farewell)
    × (apply_op den (toy.verifying_key guest_seed) leave ≡ ok (remove guest den.members))
    × (guest ≢ den.founder)
unfolding new_entry transcript verify_log found replay step verify_signature entry_hash apply_op
    is_admin insert contains remove to_le_bytes Bytes-discrete ℕ_discrete
runs = (refl, refl, refl, refl, refl, refl, refl, λ p. cc)

pub log_verifies : verify_log toy toy_ops log ≡ ok den
log_verifies = runs.0

sized : All IsSized log
unfolding new_entry transcript verify_log found replay step verify_signature entry_hash apply_op
    is_admin insert contains remove to_le_bytes Bytes-discrete ℕ_discrete
sized = (
  record { prev = refl; author = refl; ts_ms = omega arith },
  (record { prev = refl; author = refl; ts_ms = omega arith }, tt),
)

verify_log_decides_Chain_example : (verify_log toy toy_ops log ≡ ok den) ↔ Chain toy toy_ops log den
verify_log_decides_Chain_example = verify_log_decides_Chain toy toy_ops log den

members_were_invited_example : (guest ≡ den.founder) ⊎ Some (Invites toy toy_ops den guest) log
members_were_invited_example = members_were_invited toy toy_ops log den guest log_verifies runs.1

head_determines_log_example : (log ≡ log) ⊎ Collision toy
head_determines_log_example =
    head_determines_log toy toy_ops toy_ops_laws log log den den sized sized log_verifies
      log_verifies refl

id_determines_founder_example :
    ((creation ≡ creation) × (den.name ≡ den.name) × (den.founder ≡ den.founder)) ⊎ Collision toy
id_determines_founder_example =
    id_determines_founder toy toy_ops toy_ops_laws creation creation (invitation ∷ [])
      (invitation ∷ []) den den sized.0 sized.0 log_verifies log_verifies refl
