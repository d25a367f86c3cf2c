-- ===== src/Domain/Errors.antt =====
-- domain/errors.ts. An error class of the source is determined by its code, so `instanceof` on a
-- class is a test of the code. Messages and causes are not modelled.
use mathlib.Core.Option.{Option, none, some}
use threadwire.Prelude.{Bool, true, false, ◌≡◌, refl, if◌then◌else◌}

pub data ErrorCode : Type 0 where
  config_invalid process_inspection_failed classic_process_topology_invalid : ErrorCode
  classic_installation_not_found classic_installation_query_failed classic_start_failed : ErrorCode
  classic_stop_failed process_exit_timeout new_process_not_observed : ErrorCode
  runtime_not_observed runtime_required_existing runtime_generation_changed : ErrorCode
  runtime_provenance_unverified runtime_recovery_forbidden cdp_endpoint_unavailable : ErrorCode
  cdp_endpoint_timeout cdp_target_list_malformed cdp_target_not_found : ErrorCode
  cdp_target_ambiguous cdp_attach_failed cdp_disconnected : ErrorCode
  cdp_navigation_failed cdp_readiness_failed operation_timeout : ErrorCode
  operation_aborted conversation_locator_invalid thread_not_found : ErrorCode
  thread_handle_collision project_locator_invalid project_not_found : ErrorCode
  project_handle_collision project_creation_failed project_conversation_not_created : ErrorCode
  route_navigation_failed existing_route_readiness_timeout fresh_route_readiness_timeout : ErrorCode
  turn_input_failed turn_write_failed fresh_conversation_not_created : ErrorCode
  turn_state_uncertain response_stream_unavailable response_stream_failed : ErrorCode
  response_parse_failed : ErrorCode

pub ErrorCode-discrete : Discrete ErrorCode
ErrorCode-discrete = hlevel

-- What a `throw` carries: an error of the program, a built-in one, or some other value.
pub data Failure : Type 0 where
  threadwire_error : ErrorCode → Failure
  type_error range_error other_error : Failure

-- A synchronous call returns or throws.
pub data Result {ℓ} (R : Type ℓ) : Type ℓ where
  err : Failure → Result R
  ok : R → Result R

infixl 5 ◌>>=◌
abbrev pub ◌>>=◌ {ℓ κ} : {R : Type ℓ} {S : Type κ} → Result R → (R → Result S) → Result S
err x >>= next = err x
ok r >>= next = next r

abbrev pub throw {ℓ} : {A : Type ℓ} → ErrorCode → Result A
throw c = err (threadwire_error c)

-- `if (o === undefined) throw new E()`
abbrev pub or_throw {ℓ} : {A : Type ℓ} → Option A → ErrorCode → Result A
or_throw none c = throw c
or_throw (some a) c = ok a

-- What a call that has returned says of its parts.
pub guarded-ok {ℓ} :
    {A : Type ℓ} (b : Bool) (c : ErrorCode) (m : Result A) (a : A)
    → (if b then throw c else m) ≡ ok a
    → (b ≡ false) × (m ≡ ok a)
guarded-ok true c m a p = cc
guarded-ok false c m a p = (refl, p)

pub bind-ok {ℓ κ} :
    {A : Type ℓ} {B : Type κ} (m : Result A) (f : A → Result B) (b : B)
    → m >>= f ≡ ok b
    → (a : A) × (m ≡ ok a) × (f a ≡ ok b)
bind-ok (ok a) f b p = (a, refl, p)
bind-ok (err e) f b p = cc

pub ok-injective {ℓ} : {A : Type ℓ} (a b : A) → ok a ≡ ok b → a ≡ b
ok-injective a b p = cc

infixl 5 ◌>>◌
abbrev pub ◌>>◌ {κ} : {S : Type κ} → Result (Unit {0}) → Result S → Result S
first >> second = first >>= λ done. second
