-- ===== src/Tests/Project.antt =====
-- The project registry and the configuration at concrete inputs.
use threadwire.Prelude.{
  ◌≡◌, ◌≢◌, refl, ℕ, ◌+◌, ◌≤◌, ◌<◌, ◌⊎◌, Option, none, some, [], ◌∷◌, ◌++◌, Text, true, false, text,
  text_beq, trim_slash,
}
use threadwire.Prelude.Dict.{get, put}
use threadwire.Domain.Errors.{ok}
use threadwire.Domain.Identity.{
  Url, chatgpt_origin, create_project_locator, create_opaque_project_handle, is_opaque_id, is_digit,
}
use threadwire.Project.Registry.{register, resolve, try_handles}
use threadwire.Project.Registry.Bijection.{registered, register-resolves, resolve-one_handle}
use threadwire.Project.Registry.Refinement.{RegistersValue, names_of, register-Registers}
use threadwire.Config.{
  ControllerConfig, ApiConfig, Env, localhost, managed, bound_existing, load_config,
  load_api_config, assert_api_config_compatible, all_digits, is_port_text, decimal, parse_tcp_port,
  parse_policy, check_intent,
}
use threadwire.Config.Bounds.{load_config-safe, load_api_config-apart}

-- A parser that takes its text for the path of a page of the origin.
abbrev project_page : Text → Option Url
project_page path = some record {
  protocol = text "https:";
  origin = chatgpt_origin;
  username = [];
  password = [];
  hostname = text "chatgpt.com";
  port = [];
  pathname = path;
  search = [];
  hash = [];
  has_query = false;
  has_fragment = false;
}

abbrev letters : ℕ → Text
letters n = (97 + n) ∷ []

abbrev path : Text
path = text "/g/g-p-0123456789abcdef0123456789abcdef/project/"

abbrev project_handle : Text
project_handle = text "prj_a"

abbrev locator_of_path : Text
locator_of_path = text "https://chatgpt.com/g/g-p-0123456789abcdef0123456789abcdef/project"

-- An empty query is kept, so the address of a page with one is another locator.
empty_query-kept :
    create_project_locator
      (λ s. some record {
        protocol = text "https:";
        origin = chatgpt_origin;
        username = [];
        password = [];
        hostname = text "chatgpt.com";
        port = [];
        pathname = path;
        search = [];
        hash = [];
        has_query = true;
        has_fragment = false;
      })
      path
    ≡ ok (locator_of_path ++ text "?")
unfolding create_project_locator text_beq trim_slash
empty_query-kept = refl

register-resolves_example :
    (locator : Text) × (create_project_locator project_page path ≡ ok locator)
    × (resolve (registered project_page letters (path ∷ path ∷ [])) project_handle ≡ ok locator)
unfolding register create_project_locator registered try_handles create_opaque_project_handle
    is_opaque_id text_beq trim_slash get
register-resolves_example =
    register-resolves project_page letters [] (path ∷ []) path project_handle refl

resolve-one_handle_example : project_handle ≡ project_handle
unfolding register create_project_locator registered try_handles create_opaque_project_handle
    is_opaque_id text_beq trim_slash get put resolve
resolve-one_handle_example =
    resolve-one_handle project_page letters (path ∷ []) project_handle project_handle
      locator_of_path refl refl

register-Registers_example :
    RegistersValue
      (create_project_locator project_page path)
      (names_of (registered project_page letters []))
      (names_of (register project_page letters path (registered project_page letters [])).0)
      (register project_page letters path (registered project_page letters [])).1
register-Registers_example = register-Registers project_page letters [] path

abbrev defaults : Env
defaults name = none

abbrev default_config : ControllerConfig
default_config = record {
  cdp_host = localhost;
  cdp_port = 9223;
  classic_policy = managed;
  known_fresh_notice_intent = none;
}

abbrev default_api : ApiConfig
default_api = record { api_host = localhost; api_port = 9224 }

load_config-safe_example :
    (localhost ≡ localhost)
    × (0 < 9223)
    × (9223 ≤ 65535)
    × ((default_config.known_fresh_notice_intent ≡ none) ⊎ (managed ≡ bound_existing))
unfolding load_config parse_tcp_port is_port_text all_digits is_digit decimal parse_policy
    check_intent text_beq
load_config-safe_example = load_config-safe defaults default_config refl

load_api_config-apart_example :
    (localhost ≡ localhost)
    × (0 < 9224)
    × (9224 ≤ 65535)
    × (localhost ≡ localhost)
    × (0 < 9223)
    × (9223 ≤ 65535)
    × (default_api.api_port ≢ default_config.cdp_port)
unfolding load_config load_api_config assert_api_config_compatible parse_tcp_port is_port_text
    all_digits is_digit decimal parse_policy check_intent text_beq
load_api_config-apart_example =
    load_api_config-apart defaults default_api default_config refl refl refl
