-- ===== src/Domain/Identity/Locators.antt =====
-- Locators are normal forms, and a conversation is unscoped or a project's, never both.
use threadwire.Prelude.{◌≡◌, ◌≢◌, true, false, Option, none, some, [], ◌∷◌, Text, arith}
use threadwire.Domain.Identity.{
  Url, is_existing_conversation_path, project_conversation_path, is_unscoped_conversation_locator,
  conversation_belongs_to_project, paths_in_project,
}

existing_path-no_project :
    (path : Text)
    → is_existing_conversation_path path ≡ true
    → project_conversation_path path ≡ none
unfolding is_existing_conversation_path project_conversation_path
existing_path-no_project [] h = cc
existing_path-no_project (a ∷ []) h = ground arith
existing_path-no_project (a ∷ b ∷ s) h = ground arith

existing_path-not_in_project :
    (path project : Text)
    → is_existing_conversation_path path ≡ true
    → paths_in_project path project ≡ false
unfolding paths_in_project
existing_path-not_in_project path project h = ground (arith, existing_path-no_project path h)

-- A locator that counts as unscoped, under any parser of URLs, is not found to belong to a project.
pub unscoped-not_in_project :
    (parse_url : Text → Option Url) (locator project : Text)
    → is_unscoped_conversation_locator parse_url locator ≡ some true
    → conversation_belongs_to_project parse_url locator project ≢ some true
unfolding is_unscoped_conversation_locator conversation_belongs_to_project
unscoped-not_in_project parse_url locator project h k = grind (arith, existing_path-not_in_project)
