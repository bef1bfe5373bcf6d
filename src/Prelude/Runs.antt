-- ===== src/Prelude/Runs.antt =====
-- What a run of Go code ends in: a value, os.Exit (also through logFatal), a runtime panic or fatal
-- error, or a wait without end, such as a Lock of a mutex that its holder never unlocks.
use mathlib.Core.Path.{◌≡◌, refl}

pub data Outcome {ℓ} (A : Type ℓ) : Type ℓ where
  ok : A → Outcome A
  exit : Outcome A
  panic : Outcome A
  blocked : Outcome A

infixl 5 ◌>>=◌
abbrev pub ◌>>=◌ {ℓ κ} : {A : Type ℓ} {B : Type κ} → Outcome A → (A → Outcome B) → Outcome B
ok a >>= f = f a
exit >>= f = exit
panic >>= f = panic
blocked >>= f = blocked

-- A run that returns went through its first part, which returned as well.
module _ {ℓ κ} {A : Type ℓ} {B : Type κ} where
  pub >>=-eq-ok :
      (run : Outcome A) (next : A → Outcome B) {result : B}
      → run >>= next ≡ ok result
      → (first : A) × (run ≡ ok first) × (next first ≡ ok result)
  >>=-eq-ok panic next e = cc
  >>=-eq-ok exit next e = cc
  >>=-eq-ok blocked next e = cc
  >>=-eq-ok (ok first) next e = (first, refl, e)

pub panic≢ok {ℓ} : {A : Type ℓ} {a : A} → ¬ (panic ≡ ok a)
panic≢ok h = cc

pub exit≢ok {ℓ} : {A : Type ℓ} {a : A} → ¬ (exit ≡ ok a)
exit≢ok h = cc

pub ok_injective {ℓ} : {A : Type ℓ} {a b : A} → ok a ≡ ok b → a ≡ b
ok_injective h = cc
