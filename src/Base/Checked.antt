-- ===== src/Base/Checked.antt =====
-- Results of calls that check their arguments: `CTH_CRITICAL` ends the call (cth/incl/cth/io/log.hpp).
use mathlib.Core.Path.{◌≡◌, refl, ap}
use mathlib.Core.Bool.{Bool, true, false}

-- `critical` is a failed check; `diverged` is a loop that used up the rounds it was given.
pub data Result {ℓ} (A : Type ℓ) : Type ℓ where
  ok : A → Result A
  critical : Result A
  diverged : Result A

-- `CTH_CRITICAL(failed, ...)`
abbrev pub check : Bool → Result (Unit {0})
check failed = elim failed [ true ↦ critical | false ↦ ok tt ]

-- What follows a call runs only if the call ended well.
infixl 5 ◌>>=◌
abbrev pub ◌>>=◌ {ℓ κ} : {A : Type ℓ} → {B : Type κ} → Result A → (A → Result B) → Result B
critical >>= next = critical
diverged >>= next = diverged
ok x >>= next = next x

infixl 5 ◌>>◌
abbrev pub ◌>>◌ {κ} : {B : Type κ} → Result (Unit {0}) → Result B → Result B
checked >> next = checked >>= λ _. next

-- A chain that ends well ran each of its parts.
module _ {ℓ κ} {A : Type ℓ} {B : Type κ} (next : A → Result B) where
  pub >>=-eq-ok :
      (first : Result A) {y : B}
      → (first >>= next) ≡ ok y
      → (x : A) × (first ≡ ok x) × (next x ≡ ok y)
  >>=-eq-ok critical e = cc
  >>=-eq-ok diverged e = cc
  >>=-eq-ok (ok x) e = (x, refl, e)

pub ok-injective {ℓ} : {A : Type ℓ} {a b : A} → ok a ≡ ok b → a ≡ b
ok-injective {a = a} p = ap (λ r. elim r [ ok x ↦ x | _ ↦ a ]) p
