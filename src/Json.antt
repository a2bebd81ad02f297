-- ===== src/Json.antt =====
-- gateway/include/JsonParser.h and gateway/src/JsonParser.cpp, over nlohmann::json: `parse` and `dump` are parameters.
-- A text that is dumped is UTF-8; nlohmann throws otherwise.
use distributed_im.Common.{ℕ, Bool, List, [], Option, none, some, Bytes, ite}
use distributed_im.Common.Assoc.{bytes_discrete}
use distributed_im.Common.Decimal.{ℤ, pos}
use distributed_im.Common.Text.{codes}

-- `seconds` is a `double` with a whole value, and `real` any other number that is no integer.
mutual
  pub data JsonValue : Type 0 where
    null : JsonValue
    boolean : Bool → JsonValue
    integer : ℤ → JsonValue
    seconds : ℕ → JsonValue
    real : Bytes → JsonValue
    text : Bytes → JsonValue
    texts : List Bytes → JsonValue
    array : Items → JsonValue
    object : Fields → JsonValue

  pub data Items : Type 0 where
    nil : Items
    cons : JsonValue → Items → Items

  pub data Fields : Type 0 where
    end : Fields
    field : Bytes → JsonValue → Fields → Fields

pattern abbrev pub number : ℕ → JsonValue
number n = integer (pos n)

-- The members of an object that is dumped.
abbrev pub Members : Type 0
Members = List (Bytes × JsonValue)

-- nlohmann::json: `none` is a parse error, and `dump` writes an object with the given members.
pub record JsonLibrary : Type 0 where
  pub parse : Bytes → Option JsonValue
  pub dump : Members → Bytes

unfoldable pub find_field : Bytes → Fields → Option JsonValue
find_field key end = none
find_field key (field k v fs) = ite (bytes_discrete k key) (some v) (find_field key fs)

-- `j.contains(key)` and `j[key]`: only an object contains a key.
unfoldable pub member : Bytes → JsonValue → Option JsonValue
unfolding find_field
member key (object fs) = find_field key fs
member key _ = none

-- The text of a member; the empty text for a missing one, and for one that is no string.
unfoldable pub text_of : Option JsonValue → Bytes
text_of (some (text s)) = s
text_of (some _) = []
text_of none = []

unfoldable pub string_in : Bytes → Option JsonValue → Bytes
unfolding member text_of
string_in key none = []
string_in key (some j) = text_of (member key j)

module _ (json : JsonLibrary) where
  unfoldable pub get_json_string : Bytes → Bytes → Bytes
  unfolding string_in
  get_json_string json_str key = string_in key (json.parse json_str)

  unfoldable pub get_json_type : Bytes → Bytes
  unfolding string_in
  get_json_type json_str = string_in (codes "type") (json.parse json_str)
