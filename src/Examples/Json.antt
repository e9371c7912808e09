-- ===== src/Examples/Json.antt =====
-- JSON values that stand in for serde_json.
use komms_cli.Base.{ℕ, List, [], ◌∷◌, String, Bool, some}
use komms_cli.Cli.Output.{SerdeJson}

mutual
  pub data JsonValue : Type 0 where
    null : JsonValue
    number : ℕ → JsonValue
    boolean : Bool → JsonValue
    string : List ℕ → JsonValue
    array : JsonItems → JsonValue
    object : JsonFields → JsonValue

  pub data JsonItems : Type 0 where
    no_item : JsonItems
    item : JsonValue → JsonItems → JsonItems

  pub data JsonFields : Type 0 where
    end : JsonFields
    field : String → JsonValue → JsonFields → JsonFields

abbrev pub to_items : List JsonValue → JsonItems
to_items [] = no_item
to_items (j ∷ js) = item j (to_items js)

abbrev pub to_fields : List (String × JsonValue) → JsonFields
to_fields [] = end
to_fields ((k, v) ∷ fs) = field k v (to_fields fs)

-- A key that is set stands in front.
abbrev pub set : JsonValue → String → JsonValue → JsonValue
set (object fs) k v = object (field k v fs)
set j k v = j

-- In place of the text of a value, one byte.
abbrev pub tag : JsonValue → ℕ
tag null = b'n'
tag (number n) = b'0'
tag (boolean b) = b't'
tag (string s) = b'"'
tag (array js) = b'['
tag (object fs) = b'{'

abbrev pub json : SerdeJson
json = record {
  Json = JsonValue;
  null = null;
  number = λ n. number n;
  boolean = λ b. boolean b;
  string = λ s. string s;
  array = λ js. array (to_items js);
  object = λ fs. object (to_fields fs);
  set = set;
  to_string = λ j. some (tag j ∷ []);
  to_string_pretty = λ j. some (tag j ∷ b' ' ∷ []);
}
