-- ===== src/Project/Registry/Refinement.antt =====
-- The registry of projects against an abstract one, which knows of a handle only the locator that it
-- stands for.
use threadwire.Prelude.{
  ℕ, zero, suc, ◌≡◌, ◌≢◌, refl, sym, ◌∙◌, false, Option, none, some, List, Text, ◌==◌, text_eq,
  if◌then◌else◌, if_cases, is_some,
}
use threadwire.Prelude.Dict.{get, has, get-put}
use threadwire.Domain.Errors.{Result, ok, err, Failure}
use threadwire.Domain.Identity.{Url, create_project_locator, create_opaque_project_handle}
use threadwire.Project.Registry.{
  ProjectRegistry, add_project, call_factory, try_handles, register_new, register_checked, register,
  max_handle_collision_attempts,
}
use threadwire.Project.Registry.Bijection.{Inv, registered, registered-Inv}

abbrev pub Names : Type 0
Names = Text → Option Text

abbrev pub names_of : ProjectRegistry → Names
names_of r handle = get r.projects handle

-- What a registration of a locator may do: answer the handle that stands for it, take a handle that
-- stands for nothing if none stands for the locator yet, or refuse.
pub data Registers (locator : Text) (before after : Names) : Result Text → Type 0 where
  is_known :
      (handle : Text)
      → before handle ≡ some locator
      → ((h : Text) → after h ≡ before h)
      → Registers locator before after (ok handle)
  is_created :
      (handle : Text)
      → before handle ≡ none
      → ((h : Text) → before h ≢ some locator)
      → ((h : Text) → after h ≡ (if handle == h then some locator else before h))
      → Registers locator before after (ok handle)
  is_refused :
      (e : Failure) → ((h : Text) → after h ≡ before h) → Registers locator before after (err e)

-- The same for the value of a locator, which must be valid.
unfoldable pub RegistersValue : Result Text → Names → Names → Result Text → Type 0
RegistersValue (err e) before after answer = (answer ≡ err e) × ((h : Text) → after h ≡ before h)
RegistersValue (ok locator) before after answer = Registers locator before after answer

is_free : (o : Option Text) → is_some o ≡ false → o ≡ none
is_free none p = refl
is_free (some l) p = cc

none-some : {A : Type 0} {a : A} → none ≡ some a → ⊥
none-some p = cc

abbrev Refines : Text → ProjectRegistry → ProjectRegistry × Result Text → Type 0
Refines locator r (q, answer) = Registers locator (names_of r) (names_of q) answer

try_handles-Registers :
    (factory : ℕ → Text) (attempts : ℕ) (locator : Text) (r : ProjectRegistry)
    → ((h : Text) → get r.projects h ≢ some locator)
    → Refines locator r (try_handles factory attempts locator r)
unfolding try_handles
try_handles-Registers factory zero locator r new = is_refused _ (λ h. refl)
try_handles-Registers factory (suc attempts) locator r new =
    go (try_handles-Registers factory attempts locator (call_factory r) new)
      (create_opaque_project_handle (factory r.factory_calls))
  where
    next : ProjectRegistry × Result Text
    next = try_handles factory attempts locator (call_factory r)

    go :
        Refines locator r next
        → (made : Result Text)
        → Refines locator r (elim made as (λ _. ProjectRegistry × Result Text) [
          | err e ↦ (call_factory r, err e)
          | ok handle ↦
              if has r.projects handle
              then next
              else (add_project handle locator (call_factory r), ok handle)
        ])
    go later (err e) = is_refused e (λ h. refl)
    go later (ok handle) =
        if_cases (Refines locator r) (has r.projects handle) (λ taken. later)
          (λ free.
            is_created handle (is_free (get r.projects handle) free) new
              (λ h. get-put r.projects handle h locator))

register_new-Registers :
    (factory : ℕ → Text) (locator : Text) (found : Option Text) (r : ProjectRegistry)
    → get r.handles_by_locator locator ≡ found
    → Inv r
    → Refines locator r (register_new factory locator found r)
register_new-Registers factory locator none r absent inv =
    try_handles-Registers factory max_handle_collision_attempts locator r
      (λ h known. none-some (sym absent ∙ inv.back h locator known))
register_new-Registers factory locator (some handle) r present inv =
    is_known handle (inv.forth handle locator present) (λ h. refl)

checked-Registers :
    (factory : ℕ → Text) (made : Result Text) (r : ProjectRegistry)
    → Inv r
    → RegistersValue made
        (names_of r)
        (names_of (register_checked factory made r).0)
        (register_checked factory made r).1
unfolding RegistersValue
checked-Registers factory (err e) r inv = (refl, λ h. refl)
checked-Registers factory (ok locator) r inv =
    register_new-Registers factory locator (get r.handles_by_locator locator) r refl inv

-- A registration, after any registrations, is one of the abstract registry's: a value that is no
-- project's locator is refused with its error and changes nothing; for a locator the answer is the
-- handle that stands for it, or, if none does, a handle that stood for nothing and now stands for it,
-- or an error; and no other handle changes what it stands for.
pub register-Registers :
    (parse_url : Text → Option Url) (factory : ℕ → Text) (values : List Text) (value : Text)
    → RegistersValue
        (create_project_locator parse_url value)
        (names_of (registered parse_url factory values))
        (names_of (register parse_url factory value (registered parse_url factory values)).0)
        (register parse_url factory value (registered parse_url factory values)).1
unfolding register
register-Registers parse_url factory values value =
    checked-Registers factory (create_project_locator parse_url value)
      (registered parse_url factory values) (registered-Inv parse_url factory values)
