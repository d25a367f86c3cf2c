-- ===== src/Config/Bounds.antt =====
-- What a configuration that has been loaded guarantees.
use threadwire.Prelude.{
  ◌⊎◌, inl, inr, sym, ℕ, ◌+◌, ◌-◌, ◌*◌, ◌≤◌, ◌<◌, ◌≡◌, ◌≢◌, refl, subst, true, not, Option, none,
  some, [], ◌∷◌, Text, text, ◌==◌, nat_eq, text_eq, ltb, arith, text_beq_iff,
}
use threadwire.Domain.Errors.{ok, config_invalid, guarded-ok, bind-ok, ok-injective}
use threadwire.Config.{
  ClassicPolicy, managed, bound_existing, ControllerConfig, ApiConfig, Env, localhost, or_else,
  is_port_text, decimal, parse_tcp_port, parse_policy, check_intent, check_host, load_config,
  load_api_config, assert_api_config_compatible,
}

decimal-lower : (acc : ℕ) (s : Text) → acc ≤ decimal acc s
unfolding decimal
decimal-lower acc [] = omega arith
decimal-lower acc (c ∷ s) = let rest = decimal-lower (10 * acc + (c - b'0')) s in omega arith

-- A port's text does not begin with 0.
is_port_text-positive : (s : Text) → is_port_text s ≡ true → 0 < decimal 0 s
unfolding is_port_text decimal
is_port_text-positive [] p = cc
is_port_text-positive (c ∷ s) p = let rest = decimal-lower (10 * 0 + (c - b'0')) s in ground arith

IsPort : ℕ → Type 0
IsPort n = (0 < n) × (n ≤ 65535)

parse_tcp_port-IsPort : (s : Text) (n : ℕ) → parse_tcp_port s ≡ ok n → IsPort n
unfolding parse_tcp_port IsPort
parse_tcp_port-IsPort s n p =
    let (shaped, checked) = guarded-ok (not (is_port_text s)) config_invalid _ n p in
    let (small, value) = guarded-ok (ltb 65535 (decimal 0 s)) config_invalid _ n checked in
    let positive = is_port_text-positive s (ground arith) in
    subst (λ n. (0 < n) × (n ≤ 65535)) (ok-injective (decimal 0 s) n value) (positive, ground arith)

check_host-localhost : (host : Text) → check_host host ≡ ok tt → host ≡ localhost
check_host-localhost host p =
    let (checked, _) = guarded-ok (not (host == localhost)) config_invalid (ok tt) tt p in
    (text_beq_iff host localhost).0 (ground arith)

check_intent-bound :
    (policy : ClassicPolicy) (intent : Option Text) (checked : Option Text)
    → check_intent policy intent ≡ ok checked
    → (checked ≡ none) ⊎ (policy ≡ bound_existing)
unfolding check_intent
check_intent-bound policy none checked p = inl (sym (ok-injective none checked p))
check_intent-bound managed (some intent) checked p = cc
check_intent-bound bound_existing (some intent) checked p = inr refl

abbrev Safe : ControllerConfig → Type 0
Safe c =
    (c.cdp_host ≡ localhost)
    × (0 < c.cdp_port)
    × (c.cdp_port ≤ 65535)
    × ((c.known_fresh_notice_intent ≡ none) ⊎ (c.classic_policy ≡ bound_existing))

abbrev Local : ApiConfig → Type 0
Local api = (api.api_host ≡ localhost) × (0 < api.api_port) × (api.api_port ≤ 65535)

-- A controller configuration that is loaded, from any environment, has the host 127.0.0.1 and a
-- port from 1 to 65535, and it carries the authority for a known notice only under BOUND_EXISTING.
pub load_config-safe :
    (env : Env) (c : ControllerConfig)
    → load_config env ≡ ok c
    → (c.cdp_host ≡ localhost)
      × (0 < c.cdp_port)
      × (c.cdp_port ≤ 65535)
      × ((c.known_fresh_notice_intent ≡ none) ⊎ (c.classic_policy ≡ bound_existing))
unfolding load_config IsPort
load_config-safe env c p =
    let host = or_else (env (text "THREADWIRE_CDP_HOST")) localhost in
    let (_, at_host, p1) = bind-ok (check_host host) _ c p in
    let (port, at_port, p2) =
      bind-ok (parse_tcp_port (or_else (env (text "THREADWIRE_CDP_PORT")) (text "9223"))) _ c p1 in
    let (policy, at_policy, p3) =
      bind-ok (parse_policy (or_else (env (text "THREADWIRE_CLASSIC_POLICY")) (text "MANAGED"))) _ c
        p2 in
    let (intent, at_intent, p4) =
      bind-ok (check_intent policy (env (text "THREADWIRE_KNOWN_FRESH_NOTICE_INTENT"))) _ c p3 in
    let valid = parse_tcp_port-IsPort _ port at_port in
    let built = ok-injective _ c p4 in
    subst Safe built (
      check_host-localhost host at_host,
      valid.0,
      valid.1,
      check_intent-bound policy _ intent at_intent,
    )

-- The two configurations that are loaded from one environment and found compatible, that of the API
-- and that of the CDP endpoint, both have the host 127.0.0.1 and a port from 1 to 65535, and their
-- ports differ.
pub load_api_config-apart :
    (env : Env) (api : ApiConfig) (c : ControllerConfig)
    → load_api_config env ≡ ok api
    → load_config env ≡ ok c
    → assert_api_config_compatible api c ≡ ok tt
    → (api.api_host ≡ localhost)
      × (0 < api.api_port)
      × (api.api_port ≤ 65535)
      × (c.cdp_host ≡ localhost)
      × (0 < c.cdp_port)
      × (c.cdp_port ≤ 65535)
      × (api.api_port ≢ c.cdp_port)
unfolding load_api_config assert_api_config_compatible IsPort
load_api_config-apart env api c p q r =
    let host = or_else (env (text "THREADWIRE_API_HOST")) localhost in
    let (_, at_host, p1) = bind-ok (check_host host) _ api p in
    let (port, at_port, p2) =
      bind-ok (parse_tcp_port (or_else (env (text "THREADWIRE_API_PORT")) (text "9224"))) _ api
        p1 in
    let valid = parse_tcp_port-IsPort _ port at_port in
    let built = ok-injective _ api p2 in
    let (apart, _) = guarded-ok (api.api_port == c.cdp_port) config_invalid (ok tt) tt r in
    let here = subst Local built (check_host-localhost host at_host, valid.0, valid.1) in
    let (at_cdp_host, cdp_positive, cdp_small, _) = load_config-safe env c q in
    (here.0, here.1, here.2, at_cdp_host, cdp_positive, cdp_small, λ same. ground arith)
