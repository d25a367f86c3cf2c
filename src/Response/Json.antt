-- ===== src/Response/Json.antt =====
-- What response/ResponseStreamConsumer.ts reads of a parsed JSON value. An object is its own
-- properties; a number's value is never read.
use threadwire.Prelude.{
  Bool, false, ◌&&◌, Option, none, some, List, [], ◌∷◌, Text, text, ◌==◌, text_eq, if◌then◌else◌,
  is_some,
}

mutual
  pub data Json : Type 0 where
    null : Json
    boolean : Bool → Json
    number : Json
    string : Text → Json
    array : Items → Json
    object : Fields → Json

  pub data Items : Type 0 where
    no_items : Items
    item : Json → Items → Items

  pub data Fields : Type 0 where
    no_fields : Fields
    field : Text → Json → Fields → Fields

pub find_field : Text → Fields → Option Json
find_field name no_fields = none
find_field name (field k v fs) = let rest = find_field name fs in if k == name then some v else rest

-- The string that a property holds.
pub string_field : Text → Fields → Option Text
unfolding find_field
string_field name fs = elim (find_field name fs) [
  | some v ↦ elim v [ string s ↦ some s | _ ↦ none ]
  | none ↦ none
]

abbrev pub assistant_text_patch_path : Text
assistant_text_patch_path = text "/message/content/parts/0"

abbrev pub assistant_text_patch_operation : Text
assistant_text_patch_operation = text "append"

-- `patch.p === …`
pub holds : Text → Text → Fields → Bool
unfolding string_field
holds name value fs = elim (string_field name fs) [ some s ↦ s == value | none ↦ false ]

-- The text that a patch of the assistant's message appends.
pub patch_text : Json → Option Text
unfolding holds
patch_text (object fs) =
    if holds (text "p") assistant_text_patch_path fs
      && holds (text "o") assistant_text_patch_operation fs
    then string_field (text "v") fs
    else none
patch_text _ = none

pub patch_texts : Items → List Text
patch_texts no_items = []
patch_texts (item j rest) = elim (patch_text j) [
  | some s ↦ s ∷ patch_texts rest
  | none ↦ patch_texts rest
]

value_texts : Option Json → List Text
unfolding patch_texts
value_texts (some (string s)) = s ∷ []
value_texts (some (array items)) = patch_texts items
value_texts _ = []

-- The deltas that a parsed `delta` record carries, in order.
unfoldable pub record_texts : Json → List Text
unfolding value_texts find_field
record_texts (object fs) =
    if is_some (find_field (text "role") fs) then [] else value_texts (find_field (text "v") fs)
record_texts _ = []
