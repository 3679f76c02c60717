-- ===== src/Contract/Value.antt =====
-- The JSON values of a `Record<string, unknown>`. Counters are natural numbers; of a number that is
-- not one, the program only asks whether it is there, so it is kept as its text.
use agent_town.Prelude.{ℕ, String, Bool, Option, none, some, List, [], ◌∷◌, string_eq}
use agent_town.Prelude.{if◌then◌else◌, ◌==◌}

mutual
  pub data Value : Type 0 where
    null : Value
    bool : Bool → Value
    num : ℕ → Value
    other_number : String → Value
    str : String → Value
    obj : Fields → Value
    arr : Items → Value

  pub data Items : Type 0 where
    no_items : Items
    item : Value → Items → Items

  pub data Fields : Type 0 where
    end : Fields
    field : String → Value → Fields → Fields

-- payload.key; `none` is undefined.
unfoldable pub get_field : String → Fields → Option Value
get_field k end = none
get_field k (field j v fs) = if j == k then some v else get_field k fs

unfoldable pub strings : List String → Items
strings [] = no_items
strings (s ∷ ss) = item (str s) (strings ss)

-- A nullable text.
unfoldable pub nullable : Option String → Value
nullable none = null
nullable (some s) = str s
