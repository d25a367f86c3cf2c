-- ===== src/Domain/Identity.antt =====
-- domain/ThreadIdentity.ts and domain/ProjectIdentity.ts: locators and opaque handles.
-- The WHATWG parser behind `new URL` is a parameter; the regular expressions are functions on
-- UTF-16 code units.
pub mod Locators
use threadwire.Prelude.{
  ℕ, suc, zero, Bool, true, false, not, ◌&&◌, ◌||◌, Option, none, some, List, [], ◌∷◌, ◌++◌, Text,
  text, strip_prefix, trim_slash, ◌==◌, nat_eq, text_eq, leb, if◌then◌else◌, is_some, length,
}
use threadwire.Domain.Errors.{
  Result, ok, err, throw, type_error, conversation_locator_invalid, project_locator_invalid,
}

-- The parts of a parsed URL that the program reads. A query or fragment that is there and is empty
-- leaves `search` or `hash` empty, and `toString` still writes its `?` or `#`.
pub record Url : Type 0 where
  pub protocol : Text
  pub origin : Text
  pub username : Text
  pub password : Text
  pub hostname : Text
  pub port : Text
  pub pathname : Text
  pub search : Text
  pub hash : Text
  pub has_query : Bool
  pub has_fragment : Bool

abbrev pub chatgpt_origin : Text
chatgpt_origin = text "https://chatgpt.com"

unfoldable pub is_digit : ℕ → Bool
is_digit c = leb b'0' c && leb c b'9'

is_lower : ℕ → Bool
is_lower c = leb b'a' c && leb c b'z'

is_upper : ℕ → Bool
is_upper c = leb b'A' c && leb c b'Z'

-- [0-9a-f]
unfoldable pub is_hex : ℕ → Bool
unfolding is_digit
is_hex c = is_digit c || (leb b'a' c && leb c b'f')

-- [A-Za-z0-9_-]
pub is_component_char : ℕ → Bool
unfolding is_digit is_lower is_upper
is_component_char c = is_upper c || is_lower c || is_digit c || c == b'_' || c == b'-'

abbrev pub is_empty : Text → Bool
is_empty [] = true
is_empty (c ∷ s) = false

-- [^/]+\/?$ once `seen` characters other than a slash have been read
is_segment : Bool → Text → Bool
is_segment seen [] = seen
is_segment seen (c ∷ s) =
    let rest = is_segment true s in if c == b'/' then seen && is_empty s else rest

-- EXISTING_CONVERSATION_PATH = /^\/c\/[^/]+\/?$/
pub is_existing_conversation_path : Text → Bool
unfolding is_segment
is_existing_conversation_path path = elim (strip_prefix (text "/c/") path) [
  | none ↦ false
  | some rest ↦ is_segment false rest
]

-- The longest prefix of [A-Za-z0-9_-]*, and the rest.
span_component : Text → Text × Text
unfolding is_component_char
span_component [] = ([], [])
span_component (c ∷ s) =
    let (taken, rest) = span_component s in
    if is_component_char c then (c ∷ taken, rest) else ([], c ∷ s)

-- g-p-[A-Za-z0-9_-]+
is_project_component : Text → Bool
is_project_component s = elim (strip_prefix (text "g-p-") s) [
  | none ↦ false
  | some rest ↦ not (is_empty rest)
]

-- ^\/g\/(g-p-[A-Za-z0-9_-]+), with the component and the rest
project_component : Text → Option (Text × Text)
unfolding span_component is_project_component
project_component path = elim (strip_prefix (text "/g/") path) [
  | none ↦ none
  | some s ↦ if is_project_component (span_component s).0 then some (span_component s) else none
]

-- PROJECT_CONVERSATION_PATH, with its capture
pub project_conversation_path : Text → Option Text
unfolding project_component is_segment
project_conversation_path path = elim (project_component path) [
  | none ↦ none
  | some (component, s) ↦ elim (strip_prefix (text "/c/") s) [
    | none ↦ none
    | some rest ↦ if is_segment false rest then some component else none
  ]
]

-- /^\/g\/(g-p-[A-Za-z0-9_-]+)\/project$/, with its capture
pub project_path : Text → Option Text
unfolding project_component
project_path path = elim (project_component path) [
  | none ↦ none
  | some (component, rest) ↦ if rest == text "/project" then some component else none
]

all_hex : Text → Bool
unfolding is_hex
all_hex [] = true
all_hex (c ∷ s) = is_hex c && all_hex s

-- CANONICAL_PROJECT_COMPONENT = /^g-p-[0-9a-f]{32}$/
pub is_canonical_project_component : Text → Bool
unfolding all_hex
is_canonical_project_component s = elim (strip_prefix (text "g-p-") s) [
  | none ↦ false
  | some rest ↦ length rest == 32 && all_hex rest
]

-- [a-z0-9]+(?:-[a-z0-9]+)*$, where `fresh` says that a group has just begun
suffix_groups : Bool → Text → Bool
unfolding is_lower is_digit
suffix_groups fresh [] = not fresh
suffix_groups fresh (c ∷ s) =
    let next = suffix_groups true s in
    let same = suffix_groups false s in
    if c == b'-' then not fresh && next else (is_lower c || is_digit c) && same

-- PROJECT_CONVERSATION_SUFFIX = /^-[a-z0-9]+(?:-[a-z0-9]+)*$/
pub is_project_conversation_suffix : Text → Bool
unfolding suffix_groups
is_project_conversation_suffix s = elim (strip_prefix (text "-") s) [
  | none ↦ false
  | some rest ↦ suffix_groups true rest
]

conversation_url : Url → Result Text
unfolding is_existing_conversation_path project_conversation_path
conversation_url url =
    if url.protocol == text "https:"
      && url.origin == chatgpt_origin
      && is_empty url.username
      && is_empty url.password
      && (is_existing_conversation_path url.pathname
          || is_some (project_conversation_path url.pathname))
    then ok (chatgpt_origin ++ trim_slash url.pathname)
    else throw conversation_locator_invalid

component_in_project : Text → Text → Bool
unfolding is_canonical_project_component is_project_conversation_suffix
component_in_project conversation project =
    conversation == project
    || (is_canonical_project_component project && elim (strip_prefix project conversation) [
      | none ↦ false
      | some suffix ↦ is_project_conversation_suffix suffix
    ])

paths_in_project : Text → Text → Bool
unfolding project_path project_conversation_path component_in_project
paths_in_project conversation project = elim (project_path project) [
  | none ↦ false
  | some p ↦ elim (project_conversation_path conversation) [
    | none ↦ false
    | some c ↦ component_in_project c p
  ]
]

module _ (parse_url : Text → Option Url) where
  unfoldable pub create_conversation_locator : Text → Result Text
  unfolding conversation_url
  create_conversation_locator value = elim (parse_url value) [
    | none ↦ throw conversation_locator_invalid
    | some url ↦ conversation_url url
  ]

  -- `none` is a locator that `new URL` rejects, where the source throws
  unfoldable pub is_unscoped_conversation_locator : Text → Option Bool
  unfolding is_existing_conversation_path
  is_unscoped_conversation_locator locator = elim (parse_url locator) [
    | none ↦ none
    | some url ↦ some (is_existing_conversation_path url.pathname)
  ]

  unfoldable pub conversation_belongs_to_project : Text → Text → Option Bool
  unfolding paths_in_project
  conversation_belongs_to_project conversation project = elim (parse_url conversation) [
    | none ↦ none
    | some c ↦ elim (parse_url project) [
      | none ↦ none
      | some p ↦ some (paths_in_project c.pathname p.pathname)
    ]
  ]

-- [0-9a-f]{n}, with what follows
unfoldable pub strip_hex : ℕ → Text → Option Text
unfolding is_hex
strip_hex zero s = some s
strip_hex (suc n) [] = none
strip_hex (suc n) (c ∷ s) = let rest = strip_hex n s in if is_hex c then rest else none

-- /^\/g\/g-p-[0-9a-f]{32}\/project\/?$/
is_project_locator_path : Text → Bool
unfolding strip_hex
is_project_locator_path path = elim (strip_prefix (text "/g/g-p-") path) [
  | none ↦ false
  | some s ↦ elim (strip_hex 32 s) [
    | none ↦ false
    | some rest ↦ rest == text "/project" || rest == text "/project/"
  ]
]

-- `url.toString()` of an https: URL without user information and port
to_string : Url → Text
to_string url =
    text "https://"
    ++ url.hostname
    ++ url.pathname
    ++ (if url.has_query && is_empty url.search then text "?" else url.search)
    ++ (if url.has_fragment && is_empty url.hash then text "#" else url.hash)

project_url : Url → Result Text
unfolding is_project_locator_path to_string
project_url url =
    if url.protocol == text "https:"
      && url.hostname == text "chatgpt.com"
      && is_empty url.username
      && is_empty url.password
      && is_empty url.port
      && is_empty url.search
      && is_empty url.hash
      && is_project_locator_path url.pathname
    then ok (trim_slash (to_string (record url { pathname = trim_slash url.pathname })))
    else throw project_locator_invalid

unfoldable pub create_project_locator : (Text → Option Url) → Text → Result Text
unfolding project_url
create_project_locator parse_url value = elim (parse_url value) [
  | none ↦ throw project_locator_invalid
  | some url ↦ project_url url
]

-- /^[A-Za-z0-9_-]{1,128}$/
all_component_chars : Text → Bool
unfolding is_component_char
all_component_chars [] = true
all_component_chars (c ∷ s) = is_component_char c && all_component_chars s

unfoldable pub is_opaque_id : Text → Bool
unfolding all_component_chars
is_opaque_id s = not (is_empty s) && leb (length s) 128 && all_component_chars s

unfoldable pub create_opaque_thread_handle : Text → Result Text
create_opaque_thread_handle opaque_id =
    if not (is_opaque_id opaque_id) then err type_error else ok (text "tw_" ++ opaque_id)

unfoldable pub create_opaque_project_handle : Text → Result Text
create_opaque_project_handle value =
    if not (is_opaque_id value) then err type_error else ok (text "prj_" ++ value)
