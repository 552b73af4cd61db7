-- ===== src/Protocol/Ui/Outcome.antt =====
-- Postconditions of a run that kept within its fuel.
use voidnet.Base.{◌≡◌, ◌≢◌, subst, Bool, true, false, ok, err, ◌>>=◌, if◌then◌else◌}
use voidnet.Protocol.Ui.Syntax.{VoidUiParseError, Parsed, parse_error, out_of_fuel}

-- The run did not end for want of fuel, and `P` holds of its value if it has one.
pub data Ensures {ℓ κ} {A : Type ℓ} (P : A → Type κ) : Parsed A → Type (ℓ ⊔ κ) where
  holds : {a : A} → P a → Ensures P (ok a)
  rejected : {e : VoidUiParseError} → Ensures P (err (parse_error e))

module _ {ℓ κ} {A : Type ℓ} {P : A → Type κ} where
  pub Ensures-ok : {r : Parsed A} {a : A} → Ensures P r → r ≡ ok a → P a
  Ensures-ok (holds h) e = subst P (cc) h
  Ensures-ok rejected e = cc

  pub Ensures-ne_out_of_fuel : {r : Parsed A} → Ensures P r → r ≢ err out_of_fuel
  Ensures-ne_out_of_fuel (holds h) = cc
  Ensures-ne_out_of_fuel rejected = cc

  pub Ensures-if :
      (b : Bool) {x y : Parsed A} → Ensures P x → Ensures P y → Ensures P (if b then x else y)
  Ensures-if true hx hy = hx
  Ensures-if false hx hy = hy

  -- The branches are parsers.
  pub Ensures-if_at {μ} :
      {X : Type μ} (b : Bool) (p q : X → Parsed A) {x : X}
      → Ensures P (p x)
      → Ensures P (q x)
      → Ensures P ((if b then p else q) x)
  Ensures-if_at true p q hp hq = hp
  Ensures-if_at false p q hp hq = hq

  pub Ensures-weaken {κ'} :
      {Q : A → Type κ'} {r : Parsed A} → Ensures P r → ((a : A) → P a → Q a) → Ensures Q r
  Ensures-weaken (holds {a} h) k = holds (k a h)
  Ensures-weaken rejected k = rejected

  pub Ensures-bind {ℓ' κ'} :
      {B : Type ℓ'} {Q : B → Type κ'} {r : Parsed A} {f : A → Parsed B}
      → Ensures P r
      → ((a : A) → P a → Ensures Q (f a))
      → Ensures Q (r >>= f)
  Ensures-bind (holds {a} h) k = k a h
  Ensures-bind rejected k = rejected
