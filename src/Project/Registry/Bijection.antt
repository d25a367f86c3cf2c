-- ===== src/Project/Registry/Bijection.antt =====
-- Handles and locators of projects stand one for one.
use threadwire.Prelude.{
  ℕ, zero, suc, ◌≡◌, refl, sym, ◌∙◌, ap, false, Option, none, some, List, [], ◌∷◌, ◌++◌, Text,
  text_eq, if◌then◌else◌, arith, text_beq_iff, if_cases,
}
use threadwire.Prelude.Dict.{get, has, get-put}
use threadwire.Domain.Errors.{Result, ok, err, Failure, or_throw, ok-injective, project_not_found}
use threadwire.Domain.Identity.{Url, create_project_locator, create_opaque_project_handle}
use threadwire.Project.Registry.{
  ProjectRegistry, new_registry, add_project, call_factory, try_handles, register_new,
  register_checked, register, resolve, max_handle_collision_attempts,
}

-- The two maps are inverse to each other.
pub record Inv (r : ProjectRegistry) : Type 0 where
  pub back : (h l : Text) → get r.projects h ≡ some l → get r.handles_by_locator l ≡ some h
  pub forth : (h l : Text) → get r.handles_by_locator l ≡ some h → get r.projects h ≡ some l

new-Inv : Inv new_registry
unfolding get
new-Inv = record { back = λ h l p. cc; forth = λ h l p. cc }

add_project-Inv :
    (handle locator : Text) (r : ProjectRegistry)
    → has r.projects handle ≡ false
    → get r.handles_by_locator locator ≡ none
    → Inv r
    → Inv (add_project handle locator r)
add_project-Inv handle locator r free new inv = record {
  back = λ h l p. ground (
    arith,
    get-put r.projects handle h locator,
    get-put r.handles_by_locator locator l handle,
    inv.back h l,
    inv.forth h l,
    inv.back,
    inv.forth,
    text_beq_iff handle h,
    text_beq_iff locator l,
  );
  forth = λ h l p. ground (
    arith,
    get-put r.projects handle h locator,
    get-put r.handles_by_locator locator l handle,
    inv.back h l,
    inv.forth h l,
    inv.back,
    inv.forth,
    text_beq_iff handle h,
    text_beq_iff locator l,
  );
}

-- After a call for a locator: a handle that it returns resolves to it, and no project is lost.
record Registered (locator : Text) (r : ProjectRegistry) (q : ProjectRegistry × Result Text)
    : Type 0 where
  pub inv : Inv q.0
  pub resolves : (h : Text) → q.1 ≡ ok h → get q.0.projects h ≡ some locator
  pub kept : (h l : Text) → get r.projects h ≡ some l → get q.0.projects h ≡ some l

called-Inv : (r : ProjectRegistry) → Inv r → Inv (call_factory r)
called-Inv r inv = record { back = inv.back; forth = inv.forth }

refused :
    (locator : Text) (r : ProjectRegistry) (e : Failure) → Inv r → Registered locator r (r, err e)
refused locator r e inv = record { inv = inv; resolves = λ h p. cc; kept = λ h l p. p }

added :
    (handle locator : Text) (r : ProjectRegistry)
    → has r.projects handle ≡ false
    → get r.handles_by_locator locator ≡ none
    → Inv r
    → Registered locator r (add_project handle locator r, ok handle)
added handle locator r free new inv = record {
  inv = add_project-Inv handle locator r free new inv;
  resolves = λ h p.
      ground (
        arith,
        get-put r.projects handle h locator,
        text_beq_iff handle h,
        ok-injective handle h p,
      );
  kept = λ h l p. ground (arith, get-put r.projects handle h locator, text_beq_iff handle h);
}

try_handles-Registered :
    (factory : ℕ → Text) (attempts : ℕ) (locator : Text) (r : ProjectRegistry)
    → get r.handles_by_locator locator ≡ none
    → Inv r
    → Registered locator r (try_handles factory attempts locator r)
unfolding try_handles
try_handles-Registered factory zero locator r new inv = refused locator r _ inv
try_handles-Registered factory (suc attempts) locator r new inv =
    go (try_handles-Registered factory attempts locator (call_factory r) new (called-Inv r inv))
      (create_opaque_project_handle (factory r.factory_calls))
  where
    next : ProjectRegistry × Result Text
    next = try_handles factory attempts locator (call_factory r)

    go :
        Registered locator (call_factory r) next
        → (made : Result Text)
        → Registered locator r (elim made as (λ _. ProjectRegistry × Result Text) [
          | err e ↦ (call_factory r, err e)
          | ok handle ↦
              if has r.projects handle
              then next
              else (add_project handle locator (call_factory r), ok handle)
        ])
    go later (err e) = record { inv = called-Inv r inv; resolves = λ h p. cc; kept = λ h l p. p }
    go later (ok handle) =
        if_cases (Registered locator r) (has r.projects handle)
          (λ taken. record { inv = later.inv; resolves = later.resolves; kept = later.kept })
          (λ free.
            let a = added handle locator (call_factory r) free new (called-Inv r inv) in
            record { inv = a.inv; resolves = a.resolves; kept = a.kept })

register_new-Registered :
    (factory : ℕ → Text) (locator : Text) (found : Option Text) (r : ProjectRegistry)
    → get r.handles_by_locator locator ≡ found
    → Inv r
    → Registered locator r (register_new factory locator found r)
register_new-Registered factory locator none r p inv =
    try_handles-Registered factory max_handle_collision_attempts locator r p inv
register_new-Registered factory locator (some handle) r p inv = record {
  inv = inv;
  resolves = λ h q. inv.forth h locator (p ∙ ap some (ok-injective handle h q));
  kept = λ h l q. q;
}

found : (o : Option Text) (l : Text) → or_throw o project_not_found ≡ ok l → o ≡ some l
found none l p = cc
found (some a) l p = ap some (ok-injective a l p)

some-injective : (a b : Text) → some a ≡ some b → a ≡ b
some-injective a b p = cc

module _ (parse_url : Text → Option Url) (factory : ℕ → Text) where
  -- The registry after calls of `register`.
  unfoldable pub registered : List Text → ProjectRegistry
  registered [] = new_registry
  registered (value ∷ values) = (register parse_url factory value (registered values)).0

  checked :
      (made : Result Text) (r : ProjectRegistry)
      → Inv r
      → Inv (register_checked factory made r).0
        × ((h l : Text)
            → made ≡ ok l
            → (register_checked factory made r).1 ≡ ok h
            → get (register_checked factory made r).0.projects h ≡ some l)
        × ((h l : Text)
            → get r.projects h ≡ some l
            → get (register_checked factory made r).0.projects h ≡ some l)
  checked (err e) r inv = (inv, (λ h l p q. cc), (λ h l p. p))
  checked (ok locator) r inv =
      let reg =
        register_new-Registered factory locator (get r.handles_by_locator locator) r refl inv in
      (reg.inv, (λ h l p q. reg.resolves h q ∙ ap some (ok-injective locator l p)), reg.kept)

  pub registered-Inv : (values : List Text) → Inv (registered values)
  unfolding registered register
  registered-Inv [] = new-Inv
  registered-Inv (value ∷ values) =
      (checked (create_project_locator parse_url value) (registered values)
        (registered-Inv values)).0

  registered-kept :
      (values more : List Text) (h l : Text)
      → get (registered values).projects h ≡ some l
      → get (registered (more ++ values)).projects h ≡ some l
  unfolding registered register
  registered-kept values [] h l p = p
  registered-kept values (value ∷ more) h l p =
      (checked (create_project_locator parse_url value) (registered (more ++ values))
          (registered-Inv (more ++ values))).2
        h l (registered-kept values more h l p)

  -- The handle that `register` returns for a value, after any registrations, resolves to the locator
  -- that the value stands for, then and after any further registrations.
  pub register-resolves :
      (values more : List Text) (value h : Text)
      → (register parse_url factory value (registered values)).1 ≡ ok h
      → (locator : Text) × (create_project_locator parse_url value ≡ ok locator)
        × (resolve (registered (more ++ value ∷ values)) h ≡ ok locator)
  unfolding register resolve registered
  register-resolves values more value h p = go (create_project_locator parse_url value) refl p
    where
      go :
          (made : Result Text)
          → create_project_locator parse_url value ≡ made
          → (register_checked factory made (registered values)).1 ≡ ok h
          → (locator : Text) × (made ≡ ok locator)
            × (or_throw (get (registered (more ++ value ∷ values)).projects h) project_not_found
                ≡ ok locator)
      go (err e) made q = cc
      go (ok locator) made q =
          let now =
            (checked (create_project_locator parse_url value) (registered values)
                (registered-Inv values)).1
              h locator made p in
          (
            locator,
            refl,
            ap (λ o. or_throw o project_not_found)
                (registered-kept (value ∷ values) more h locator now),
          )

  -- After any registrations two handles that resolve to the same locator are the same handle.
  pub resolve-one_handle :
      (values : List Text) (h j l : Text)
      → resolve (registered values) h ≡ ok l
      → resolve (registered values) j ≡ ok l
      → h ≡ j
  unfolding resolve
  resolve-one_handle values h j l p q =
      let inv = registered-Inv values in
      let here = inv.back h l (found (get (registered values).projects h) l p) in
      let there = inv.back j l (found (get (registered values).projects j) l q) in
      some-injective h j (sym here ∙ there)
