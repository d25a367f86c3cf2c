-- ===== src/Exec.antt =====
-- Methods of the source that change an object and may throw. What was changed before a throw stays
-- changed, so the state comes back with the error as well.
pub mod Rules
use threadwire.Prelude.{Bool, true, false, ◌≡◌, refl, if◌then◌else◌}
use threadwire.Domain.Errors.{Failure, Result, ok, err, ErrorCode, threadwire_error}

abbrev pub Exec : Type 0 → Type 0 → Type 0
Exec S A = S → S × Result A

module _ {S : Type 0} where
  unfoldable pub pure : {A : Type 0} → A → Exec S A
  pure a s = (s, ok a)

  unfoldable pub raise : {A : Type 0} → Failure → Exec S A
  raise e s = (s, err e)

  abbrev pub throws : {A : Type 0} → ErrorCode → Exec S A
  throws c = raise (threadwire_error c)

  unfoldable pub lift : {A : Type 0} → Result A → Exec S A
  lift r s = (s, r)

  unfoldable pub gets : {A : Type 0} → (S → A) → Exec S A
  gets f s = (s, ok (f s))

  unfoldable pub modify : (S → S) → Exec S (Unit {0})
  modify f s = (f s, ok tt)

  abbrev pub continue : {A B : Type 0} → S × Result A → (A → Exec S B) → S × Result B
  continue (s, ok a) f = f a s
  continue (s, err e) f = (s, err e)

  infixl 5 ◌>>=◌ ◌>>◌
  -- Opening this opens what a block is made of.
  unfoldable pub ◌>>=◌ : {A B : Type 0} → Exec S A → (A → Exec S B) → Exec S B
  unfolding pure raise lift gets modify
  ◌>>=◌ m f s = continue (m s) f

  abbrev pub ◌>>◌ : {B : Type 0} → Exec S (Unit {0}) → Exec S B → Exec S B
  m >> n = m >>= λ done. n

  abbrev pub settled : {A : Type 0} → S × Result A → S × Result (Result A)
  settled (s, r) = (s, ok r)

  -- `try { … }`, whose result a handler reads
  unfoldable pub attempt : {A : Type 0} → Exec S A → Exec S (Result A)
  attempt m s = settled (m s)

  -- `if (b) { … }`
  abbrev pub when : Bool → Exec S (Unit {0}) → Exec S (Unit {0})
  when b m = if b then m else pure tt
