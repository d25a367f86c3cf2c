-- ===== src/Config.antt =====
-- config/ControllerConfig.ts and api/ApiConfig.ts. The environment is a function from a variable's
-- name to its value.
pub mod Bounds
use threadwire.Prelude.{
  ℕ, zero, suc, ◌+◌, ◌-◌, ◌*◌, Bool, true, false, not, ◌&&◌, ◌||◌, Option, none, some, List, [],
  ◌∷◌, Text, text, ◌==◌, nat_eq, text_eq, leb, ltb, if◌then◌else◌, length, is_some,
}
use threadwire.Domain.Errors.{Result, ok, err, throw, config_invalid, ◌>>=◌}
use threadwire.Domain.Identity.{is_digit, strip_hex}

pub data ClassicPolicy : Type 0 where
  managed bound_existing : ClassicPolicy

pub record ControllerConfig : Type 0 where
  pub cdp_host : Text
  pub cdp_port : ℕ
  pub classic_policy : ClassicPolicy
  pub known_fresh_notice_intent : Option Text

pub record ApiConfig : Type 0 where
  pub api_host : Text
  pub api_port : ℕ

abbrev pub Env : Type 0
Env = Text → Option Text

-- `value ?? fallback`
abbrev pub or_else : Option Text → Text → Text
or_else none fallback = fallback
or_else (some value) fallback = value

abbrev pub localhost : Text
localhost = text "127.0.0.1"

unfoldable pub all_digits : Text → Bool
unfolding is_digit
all_digits [] = true
all_digits (c ∷ s) = is_digit c && all_digits s

-- /^[1-9]\d{0,4}$/
unfoldable pub is_port_text : Text → Bool
unfolding all_digits
is_port_text [] = false
is_port_text (c ∷ s) = leb b'1' c && leb c b'9' && leb (length s) 4 && all_digits s

-- `Number` of decimal digits, `acc` being the value of those before them
unfoldable pub decimal : ℕ → Text → ℕ
decimal acc [] = acc
decimal acc (c ∷ s) = decimal (10 * acc + (c - b'0')) s

unfoldable pub parse_tcp_port : Text → Result ℕ
parse_tcp_port value =
    if not (is_port_text value)
    then throw config_invalid
    else if ltb 65535 (decimal 0 value)
    then throw config_invalid
    else ok (decimal 0 value)

unfoldable pub parse_policy : Text → Result ClassicPolicy
parse_policy value =
    if value == text "MANAGED"
    then ok managed
    else if value == text "BOUND_EXISTING"
    then ok bound_existing
    else throw config_invalid

-- [0-9a-f]{n}- and what follows
abbrev pub hex_group : ℕ → Option Text → Option Text
hex_group n none = none
hex_group n (some s) = elim (strip_hex n s) [
  | none ↦ none
  | some rest ↦ elim rest [ [] ↦ none | c ∷ more ↦ if c == b'-' then some more else none ]
]

abbrev pub hex_end : ℕ → Option Text → Bool
hex_end n none = false
hex_end n (some s) = elim (strip_hex n s) [
  | none ↦ false
  | some rest ↦ elim rest [ [] ↦ true | c ∷ more ↦ false ]
]

-- /^[0-9a-f]{8}-[0-9a-f]{4}-[0-9a-f]{4}-[0-9a-f]{4}-[0-9a-f]{12}$/
unfoldable pub is_uuid : Text → Bool
is_uuid s = hex_end 12 (hex_group 4 (hex_group 4 (hex_group 4 (hex_group 8 (some s)))))

abbrev pub is_bound : ClassicPolicy → Bool
is_bound managed = false
is_bound bound_existing = true

-- The authority for a known notice, which asks for the policy and for a canonical UUID.
unfoldable pub check_intent : ClassicPolicy → Option Text → Result (Option Text)
check_intent policy none = ok none
check_intent policy (some intent) =
    if not (is_bound policy) || not (is_uuid intent) then throw config_invalid else ok (some intent)

abbrev pub check_host : Text → Result (Unit {0})
check_host host = if not (host == localhost) then throw config_invalid else ok tt

unfoldable pub load_config : Env → Result ControllerConfig
load_config env = do
  _ ← check_host (or_else (env (text "THREADWIRE_CDP_HOST")) localhost)
  port ← parse_tcp_port (or_else (env (text "THREADWIRE_CDP_PORT")) (text "9223"))
  policy ← parse_policy (or_else (env (text "THREADWIRE_CLASSIC_POLICY")) (text "MANAGED"))
  intent ← check_intent policy (env (text "THREADWIRE_KNOWN_FRESH_NOTICE_INTENT"))
  ok record {
    cdp_host = or_else (env (text "THREADWIRE_CDP_HOST")) localhost;
    cdp_port = port;
    classic_policy = policy;
    known_fresh_notice_intent = intent;
  }

unfoldable pub load_api_config : Env → Result ApiConfig
load_api_config env = do
  _ ← check_host (or_else (env (text "THREADWIRE_API_HOST")) localhost)
  port ← parse_tcp_port (or_else (env (text "THREADWIRE_API_PORT")) (text "9224"))
  ok record { api_host = or_else (env (text "THREADWIRE_API_HOST")) localhost; api_port = port }

unfoldable pub assert_api_config_compatible : ApiConfig → ControllerConfig → Result (Unit {0})
assert_api_config_compatible api controller =
    if api.api_port == controller.cdp_port then throw config_invalid else ok tt
