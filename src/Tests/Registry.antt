-- ===== src/Tests/Registry.antt =====
-- Locators and the thread registry at concrete inputs.
use threadwire.Prelude.{
  ◌≡◌, ◌≢◌, refl, ℕ, ◌+◌, Option, some, List, [], ◌∷◌, Text, text, true, false, text_beq,
  trim_slash, text_eq,
}
use threadwire.Prelude.Dict.{has, get, put}
use threadwire.Domain.Errors.{ok, throw, thread_not_found}
use threadwire.Domain.Identity.{
  Url, chatgpt_origin, create_conversation_locator, create_opaque_thread_handle, is_opaque_id,
  is_unscoped_conversation_locator, conversation_belongs_to_project,
}
use threadwire.Domain.Identity.Locators.{unscoped-not_in_project}
use threadwire.Routing.Registry.{
  ThreadRegistry, new_registry, register_with_status, reserve_provisional_with_status,
  commit_provisional, rollback_provisional, resolve, registration_state, provisional, committed,
}
use threadwire.Routing.Registry.{
  register_normalized, reserve_normalized, allocate_handle, add_committed, handle_exists,
}
use threadwire.Routing.Registry.Invariant.{Inv, new_registry-Inv}
use threadwire.Routing.Registry.Lifecycle.{IsSpent}
use threadwire.Routing.Registry.Reachable.{
  after_calls, Call, registers, reserves, commits, reachable-Inv,
}
use threadwire.Routing.Registry.Contract.{
  register-resolve, resolve-injective, reserve-commit, reserve-rollback,
}

-- A parser that takes its text for the path of a page of the origin.
abbrev path_url : Text → Option Url
path_url path = some record {
  protocol = text "https:";
  origin = chatgpt_origin;
  username = [];
  password = [];
  hostname = text "chatgpt.com";
  port = [];
  pathname = path;
  search = [];
  hash = [];
  has_query = false;
  has_fragment = false;
}

abbrev letters : ℕ → Text
letters n = (97 + n) ∷ []

abbrev first_path : Text
first_path = text "/c/1"

abbrev first_locator : Text
first_locator = text "https://chatgpt.com/c/1"

abbrev first_handle : Text
first_handle = text "tw_a"

normal_form : create_conversation_locator path_url (text "/c/1/") ≡ ok first_locator
unfolding create_conversation_locator text_beq trim_slash
normal_form = refl

first_normal : create_conversation_locator path_url first_path ≡ ok first_locator
unfolding create_conversation_locator text_beq trim_slash
first_normal = refl

unscoped-not_in_project_example :
    conversation_belongs_to_project path_url first_path (text "/g/g-p-a/project") ≢ some true
unfolding is_unscoped_conversation_locator
unscoped-not_in_project_example =
    unscoped-not_in_project path_url first_path (text "/g/g-p-a/project") refl

abbrev some_calls : List Call
some_calls = registers first_path ∷ reserves (text "/c/2") ∷ commits 0 ∷ []

reachable-Inv_example : Inv (after_calls path_url letters new_registry some_calls)
reachable-Inv_example = reachable-Inv path_url letters some_calls

register-resolve_example :
    let q = register_with_status path_url letters new_registry first_path in
    (resolve q.0 first_handle ≡ ok first_locator)
    × (register_with_status path_url letters q.0 first_path
        ≡ (q.0, ok (record { thread_handle = first_handle; created = false })))
unfolding create_conversation_locator register_with_status register_normalized allocate_handle
    create_opaque_thread_handle is_opaque_id text_beq trim_slash get handle_exists
register-resolve_example =
    register-resolve path_url letters new_registry first_path first_locator new_registry-Inv
      first_normal (record { thread_handle = first_handle; created = true }) refl

abbrev one_thread : ThreadRegistry
one_thread = record new_registry {
  committed_handle_to_locator = (first_handle, first_locator) ∷ [];
  locator_to_handle = (first_locator, first_handle) ∷ [];
  factory_calls = 1;
}

resolve-injective_example : first_handle ≡ first_handle
unfolding after_calls create_conversation_locator register_with_status register_normalized
    allocate_handle create_opaque_thread_handle is_opaque_id text_beq trim_slash get put resolve
    add_committed handle_exists
resolve-injective_example =
    resolve-injective path_url letters (registers first_path ∷ []) first_handle first_handle
      first_locator refl refl

reserve-commit_example :
    let r = (reserve_provisional_with_status path_url letters new_registry first_path).0 in
    let q = commit_provisional r 0 in
    (registration_state r first_handle ≡ ok provisional)
    × (resolve r first_handle ≡ throw thread_not_found)
    × (q.1 ≡ true)
    × (resolve q.0 first_handle ≡ ok first_locator)
    × (registration_state q.0 first_handle ≡ ok committed)
    × IsSpent q.0 0
unfolding create_conversation_locator reserve_provisional_with_status reserve_normalized
    allocate_handle create_opaque_thread_handle is_opaque_id text_beq trim_slash get handle_exists
reserve-commit_example =
    reserve-commit path_url letters new_registry first_path first_locator first_handle 0
      new_registry-Inv first_normal refl

reserve-rollback_example :
    let r = (reserve_provisional_with_status path_url letters new_registry first_path).0 in
    let q = rollback_provisional r 0 in
    (q.1 ≡ true)
    × (has q.0.locator_to_handle first_locator ≡ false)
    × (registration_state q.0 first_handle ≡ throw thread_not_found)
    × (q.0.committed_handle_to_locator ≡ [])
    × IsSpent q.0 0
unfolding create_conversation_locator reserve_provisional_with_status reserve_normalized
    allocate_handle create_opaque_thread_handle is_opaque_id text_beq trim_slash get handle_exists
reserve-rollback_example =
    reserve-rollback path_url letters new_registry first_path first_locator first_handle 0
      new_registry-Inv first_normal refl
