-- ===== src/Browser/Tree/Outcome.antt =====
-- What holds of a `Result` that is not out of fuel, for the functions of app/browser/parse.c.
use mathlib.Core.Path.{subst}
use liumos.Prelude.{Bool, true, false, ◌≡◌, ◌≢◌, refl, if◌then◌else◌}
use liumos.Browser.Tokenize.{Result, ok, exhausted, null_pointer, overflow, out_of_fuel, ◌>>=◌}

abbrev Outcome : {A : Type 0} → (A → Type 0) → Result A → Type 0
Outcome P (ok a) = P a
Outcome P out_of_fuel = ⊥
Outcome P _ = Unit

-- The result is not out of fuel, and satisfies `P` if there is one.
pub record Post {A : Type 0} (P : A → Type 0) (r : Result A) : Type 0 where
  pub holds : Outcome P r

module _ {A : Type 0} {P : A → Type 0} where
  pub Post-ok : {a : A} → P a → Post P (ok a)
  Post-ok p = record { holds = p }

  pub Post-exhausted : Post P exhausted
  Post-exhausted = record { holds = tt }

  pub Post-null_pointer : Post P null_pointer
  Post-null_pointer = record { holds = tt }

  pub Post-overflow : Post P overflow
  Post-overflow = record { holds = tt }

  pub Post-if :
      (b : Bool) {x y : Result A}
      → (b ≡ true → Post P x)
      → (b ≡ false → Post P y)
      → Post P (if b then x else y)
  Post-if true f g = f refl
  Post-if false f g = g refl

  pub Post-ends : {r : Result A} → Post P r → r ≢ out_of_fuel
  Post-ends {r = out_of_fuel} p e = p.holds
  Post-ends {r = ok a} p e = absurd (cc e)
  Post-ends {r = exhausted} p e = absurd (cc e)
  Post-ends {r = null_pointer} p e = absurd (cc e)
  Post-ends {r = overflow} p e = absurd (cc e)

  pub Post-bind :
      {B : Type 0} {Q : B → Type 0} {r : Result A} {f : A → Result B}
      → Post P r
      → ((a : A) → P a → Post Q (f a))
      → Post Q (r >>= f)
  Post-bind {r = ok a} p h = h a p.holds
  Post-bind {r = exhausted} p h = record { holds = tt }
  Post-bind {r = null_pointer} p h = record { holds = tt }
  Post-bind {r = overflow} p h = record { holds = tt }
  Post-bind {r = out_of_fuel} p h = absurd p.holds

  pub Post-mono : {Q : A → Type 0} {r : Result A} → Post P r → ((a : A) → P a → Q a) → Post Q r
  Post-mono {r = ok a} p h = record { holds = h a p.holds }
  Post-mono {r = exhausted} p h = record { holds = tt }
  Post-mono {r = null_pointer} p h = record { holds = tt }
  Post-mono {r = overflow} p h = record { holds = tt }
  Post-mono {r = out_of_fuel} p h = absurd p.holds

  pub Post-result : {r : Result A} {a : A} → Post P r → r ≡ ok a → P a
  Post-result p e = (subst (Post P) e p).holds

  pub Post-self : {r : Result A} → Post P r → Post (λ a. r ≡ ok a) r
  Post-self {r = ok a} p = record { holds = refl }
  Post-self {r = exhausted} p = record { holds = tt }
  Post-self {r = null_pointer} p = record { holds = tt }
  Post-self {r = overflow} p = record { holds = tt }
  Post-self {r = out_of_fuel} p = absurd p.holds
