-- ===== src/Examples/Requests.antt =====
-- A request that a client signs, with a parser of numbers that reads what `decimal` prints.
use native.Mathlib.Nat.{pow-suc}
use wicara.Prelude.{
  ℕ, zero, suc, ◌+◌, ◌-◌, ◌*◌, ◌/◌, ◌^◌, ◌<◌, ◌≡◌, refl, ap, some, [], ◌∷◌, ◌++◌, Text, ltb,
  Bool-cases, inl, inr, ok, arith,
}
use wicara.Wire.{decimal}
use wicara.Hub.{Formats, authenticate}
use wicara.App.Mail.{auth}
use wicara.App.Requests.{TextLaws, authenticate-auth}
use wicara.Examples.Toy.{toy}
use wicara.Examples.Hub.{formats}
use wicara.Examples.Toy.{toy_signatures}

abbrev read_from : ℕ → Text → ℕ
read_from acc [] = acc
read_from acc (d ∷ ds) = read_from (acc * 10 + (d - 48)) ds

read_from-snoc :
    (acc : ℕ) (ds : Text) (d : ℕ) → read_from acc (ds ++ d ∷ []) ≡ read_from acc ds * 10 + (d - 48)
read_from-snoc acc [] d = refl
read_from-snoc acc (x ∷ ds) d = read_from-snoc (acc * 10 + (x - 48)) ds d

read_from-decimal : (fuel n : ℕ) → n < 10 ^ fuel → read_from 0 (decimal fuel n) ≡ n
read_from-decimal zero n h = omega arith
read_from-decimal (suc fuel) n h =
    let p : 10 ^ suc fuel ≡ 10 ^ fuel * 10 = pow-suc 10 fuel in
    elim (Bool-cases (ltb n 10)) [
      | inl e ↦ rw e (omega arith)
      | inr e ↦
          let front = read_from-decimal fuel (n / 10) (omega arith) in
          rw (e, read_from-snoc, front) (omega arith)
    ]

abbrev reading : Formats
reading = record formats { parse_number = λ text. some (read_from 0 text) }

texts : TextLaws reading (λ b. b)
texts = record {
  trimmed = λ b. refl;
  decoded = λ b. refl;
  parsed = λ n small. ap some (read_from-decimal 20 n (omega arith));
}

authenticate-auth_example :
    authenticate toy reading (auth toy reading (λ b. b) (8 ∷ []) 1000) 2000
    ≡ ok (toy.verifying_key (8 ∷ []))
authenticate-auth_example =
    authenticate-auth toy reading (λ b. b) (8 ∷ []) 1000 2000 toy_signatures texts (omega arith)
      (omega arith) (omega arith)
