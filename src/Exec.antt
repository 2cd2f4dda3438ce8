-- ===== src/Exec.antt =====
-- A Go method over a state: it returns a value or an error, and the state that it leaves. What was
-- changed before an error stays changed.
use go_payment.Prelude.{
  arith, ◌≡◌, refl, ◌⊎◌, inl, inr, Bool, String, Option, none, some, if◌then◌else◌,
}
use go_payment.Errors.{GoError, wrapped}

pub data Result (A : Type 0) : Type 0 where
  ok : A → Result A
  err : GoError → Result A

pub Result-cases :
    {A : Type 0} (r : Result A) → ((a : A) × (r ≡ ok a)) ⊎ ((e : GoError) × (r ≡ err e))
Result-cases (ok a) = inl (a, refl)
Result-cases (err e) = inr (e, refl)

abbrev pub Exec : Type 0 → Type 0 → Type 0
Exec S A = S → Result A × S

module _ {S A : Type 0} where
  abbrev pub pure : A → Exec S A
  pure a s = (ok a, s)

  abbrev pub fail : GoError → Exec S A
  fail e s = (err e, s)

  abbrev pub lift : Result A → Exec S A
  lift r s = (r, s)

  -- the caller goes on with the error as a value
  abbrev pub attempt : Exec S A → Exec S (Result A)
  attempt m s = let (r, s') = m s in (ok r, s')

-- `if err != nil { return err }` between two steps
abbrev pub continue : {S A B : Type 0} → (A → Exec S B) → Result A → Exec S B
continue f (ok a) s = f a s
continue f (err e) s = (err e, s)

-- A method that ends without an error has passed its first step, and ends as the rest does.
pub continue_ok :
    {S A B : Type 0} (f : A → Exec S B) (r : Result A) (s : S) (b : B)
    → (continue f r s).0 ≡ ok b
    → (a : A) × (r ≡ ok a) × ((f a s).0 ≡ ok b) × (continue f r s ≡ f a s)
continue_ok f (ok a) s b h = (a, refl, h, refl)
continue_ok f (err e) s b h = absurd (ground arith)

infixl 10 ◌>>=◌ ◌>>◌
abbrev pub ◌>>=◌ : {S A B : Type 0} → Exec S A → (A → Exec S B) → Exec S B
◌>>=◌ m f s = let (r, s') = m s in continue f r s'

abbrev pub ◌>>◌ : {S A B : Type 0} → Exec S A → Exec S B → Exec S B
m >> k = m >>= λ _. k

abbrev pub fail_if : {S : Type 0} → Bool → GoError → Exec S (Unit {0})
fail_if c e s = (if c then err e else ok tt, s)

abbrev pub or_fail : {S A : Type 0} → Option A → GoError → Exec S A
or_fail none e s = (err e, s)
or_fail (some a) e s = (ok a, s)

-- `if err != nil { return fmt.Errorf("<before>%w", err) }`
abbrev pub or_wrapped : {S : Type 0} → String → Result (Unit {0}) → Exec S (Unit {0})
or_wrapped before (ok _) = pure tt
or_wrapped before (err e) = fail (wrapped before e "")

-- a call that returns nothing
abbrev pub doing : {S : Type 0} → (S → S) → Exec S (Unit {0})
doing f s = (ok tt, f s)
