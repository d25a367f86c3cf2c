-- ===== src/Exec/Rules.antt =====
-- A rule for each way to build a method, over what holds before it, after it returns and after it
-- throws.
use threadwire.Prelude.{Bool, true, false, ◌≡◌, refl, if◌then◌else◌}
use threadwire.Domain.Errors.{Failure, Result, ok, err}
use threadwire.Exec.{Exec, pure, raise, gets, modify, ◌>>=◌, attempt, continue, settled}

module _ {S A : Type 0} where
  abbrev pub Ends : (A → S → Type 0) → (Failure → S → Type 0) → S × Result A → Type 0
  Ends Q E (s, ok a) = Q a s
  Ends Q E (s, err e) = E e s

  -- From a state in `P`, `m` returns within `Q` or throws within `E`.
  pub record Triple (P : S → Type 0) (m : Exec S A) (Q : A → S → Type 0) (E : Failure → S → Type 0)
      : Type 0 where
    pub at : (s : S) → P s → Ends Q E (m s)

module _ {S A B : Type 0} {E : Failure → S → Type 0} where
  continue-Ends :
      (r : S × Result A) (f : A → Exec S B) (R : A → S → Type 0) (Q : B → S → Type 0)
      → Ends R E r
      → ((a : A) → Triple (R a) (f a) Q E)
      → Ends Q E (continue r f)
  continue-Ends (s, ok a) f R Q h k = (k a).at s h
  continue-Ends (s, err e) f R Q h k = h

module _ {S : Type 0} {P : S → Type 0} {E : Failure → S → Type 0} where
  pub Triple-pure :
      {A : Type 0} {Q : A → S → Type 0} (a : A) → ((s : S) → P s → Q a s) → Triple P (pure a) Q E
  unfolding pure
  Triple-pure a h = record { at = h }

  pub Triple-gets :
      {A : Type 0} {Q : A → S → Type 0} (f : S → A)
      → ((s : S) → P s → Q (f s) s)
      → Triple P (gets f) Q E
  unfolding gets
  Triple-gets f h = record { at = h }

  pub Triple-modify :
      {Q : Unit {0} → S → Type 0} (f : S → S)
      → ((s : S) → P s → Q tt (f s))
      → Triple P (modify f) Q E
  unfolding modify
  Triple-modify f h = record { at = h }

  pub Triple-raise :
      {A : Type 0} {Q : A → S → Type 0} (e : Failure)
      → ((s : S) → P s → E e s)
      → Triple P (raise e) Q E
  unfolding raise
  Triple-raise e h = record { at = h }

  pub Triple-bind :
      {A B : Type 0} {m : Exec S A} {f : A → Exec S B} (R : A → S → Type 0) {Q : B → S → Type 0}
      → Triple P m R E
      → ((a : A) → Triple (R a) (f a) Q E)
      → Triple P (m >>= f) Q E
  unfolding ◌>>=◌
  Triple-bind {m} {f} R {Q} h k = record { at = λ s p. continue-Ends (m s) f R Q (h.at s p) k }

  pub Triple-if :
      {A : Type 0} {Q : A → S → Type 0} (b : Bool) {m n : Exec S A}
      → (b ≡ true → Triple P m Q E)
      → (b ≡ false → Triple P n Q E)
      → Triple P (if b then m else n) Q E
  Triple-if true hm hn = hm refl
  Triple-if false hm hn = hn refl

module _ {S A : Type 0} where
  settled-Ends :
      (r : S × Result A) (Q : A → S → Type 0) (E F : Failure → S → Type 0)
      → Ends Q E r
      → Ends (λ a s. Ends Q E (s, a)) F (settled r)
  settled-Ends (s, ok a) Q E F h = h
  settled-Ends (s, err e) Q E F h = h

  pub Triple-attempt :
      {P : S → Type 0} {m : Exec S A} {Q : A → S → Type 0} {E : Failure → S → Type 0}
      (F : Failure → S → Type 0)
      → Triple P m Q E
      → Triple P (attempt m) (λ a s. Ends Q E (s, a)) F
  unfolding attempt
  Triple-attempt {m} {Q} {E} F h = record { at = λ s p. settled-Ends (m s) Q E F (h.at s p) }

  -- More may be known before.
  pub Triple-before :
      {P P' : S → Type 0} {m : Exec S A} {Q : A → S → Type 0} {E : Failure → S → Type 0}
      → ((s : S) → P' s → P s)
      → Triple P m Q E
      → Triple P' m Q E
  Triple-before h k = record { at = λ s p. k.at s (h s p) }

  -- A fact that the state before it shows.
  pub Triple-fact :
      {P : S → Type 0} {m : Exec S A} {Q : A → S → Type 0} {E : Failure → S → Type 0} {F : Type 0}
      → ((s : S) → P s → F)
      → (F → Triple P m Q E)
      → Triple P m Q E
  Triple-fact h k = record { at = λ s p. (k (h s p)).at s p }
