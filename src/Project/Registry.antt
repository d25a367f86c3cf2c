-- ===== src/Project/Registry.antt =====
-- project/ProjectRegistry.ts. The n-th value of the handle factory is `factory n`.
pub mod Bijection
pub mod Refinement
use threadwire.Prelude.{
  ℕ, zero, suc, ◌+◌, Bool, true, false, Option, none, some, [], Text, text_eq, if◌then◌else◌,
}
use threadwire.Prelude.Dict.{Dict, get, put, has}
use threadwire.Domain.Errors.{
  Result, ok, err, throw, or_throw, project_handle_collision, project_not_found,
}
use threadwire.Domain.Identity.{Url, create_project_locator, create_opaque_project_handle}

abbrev pub max_handle_collision_attempts : ℕ
max_handle_collision_attempts = 8

pub record ProjectRegistry : Type 0 where
  pub projects : Dict Text Text
  pub handles_by_locator : Dict Text Text
  pub factory_calls : ℕ

abbrev pub new_registry : ProjectRegistry
new_registry = record { projects = []; handles_by_locator = []; factory_calls = 0 }

abbrev pub add_project : Text → Text → ProjectRegistry → ProjectRegistry
add_project handle locator r = record r {
  projects = put r.projects handle locator;
  handles_by_locator = put r.handles_by_locator locator handle;
}

abbrev pub call_factory : ProjectRegistry → ProjectRegistry
call_factory r = record r { factory_calls = r.factory_calls + 1 }

-- The loop of `register`, on the attempts that are left.
unfoldable pub try_handles : (ℕ → Text) → ℕ → Text → ProjectRegistry → ProjectRegistry × Result Text
try_handles factory zero locator r = (r, throw project_handle_collision)
try_handles factory (suc attempts) locator r =
    let next = try_handles factory attempts locator (call_factory r) in
    elim (create_opaque_project_handle (factory r.factory_calls)) [
      | err e ↦ (call_factory r, err e)
      | ok handle ↦
          if has r.projects handle
          then next
          else (add_project handle locator (call_factory r), ok handle)
    ]

abbrev pub register_new :
    (ℕ → Text) → Text → Option Text → ProjectRegistry → ProjectRegistry × Result Text
register_new factory locator (some handle) r = (r, ok handle)
register_new factory locator none r = try_handles factory max_handle_collision_attempts locator r

abbrev pub register_checked :
    (ℕ → Text) → Result Text → ProjectRegistry → ProjectRegistry × Result Text
register_checked factory (err e) r = (r, err e)
register_checked factory (ok locator) r =
    register_new factory locator (get r.handles_by_locator locator) r

unfoldable pub register :
    (Text → Option Url) → (ℕ → Text) → Text → ProjectRegistry → ProjectRegistry × Result Text
register parse_url factory locator r =
    register_checked factory (create_project_locator parse_url locator) r

unfoldable pub resolve : ProjectRegistry → Text → Result Text
resolve r handle = or_throw (get r.projects handle) project_not_found
