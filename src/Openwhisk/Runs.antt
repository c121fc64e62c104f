-- ===== src/Openwhisk/Runs.antt =====
-- Messages on small inputs, with a reader that knows one document.
use seuss.Prelude.{
  true, Option, none, some, List, [], ◌∷◌, Bytes, codes, bytes_eq, ◌==◌, if◌then◌else◌,
}
use seuss.Prelude.Int.{ℤ, pos}
use seuss.Openwhisk.Msg.{ActivationMessage}
use seuss.Openwhisk.Reader.{Yajl}
use seuss.Openwhisk.Document.{
  Json, string, number, object, array, Fields, end, field, Items, nil, cons, render, at_path,
}

abbrev string_of : Option Json → Option Bytes
string_of (some (string s)) = some s
string_of other = none

abbrev number_of : Option Json → Option ℤ
number_of (some (number n)) = some n
number_of other = none

abbrev members : Fields → List (Bytes × Json)
members end = []
members (field k v fs) = (k, v) ∷ members fs

abbrev object_of : Option Json → Option (List (Bytes × Json))
object_of (some (object fs)) = some (members fs)
object_of other = none

abbrev values : Items → List Json
values nil = []
values (cons v xs) = v ∷ values xs

abbrev array_of : Option Json → Option (List Json)
array_of (some (array xs)) = some (values xs)
array_of other = none

abbrev integer_of : Json → ℤ
integer_of (number n) = n
integer_of other = pos 0

abbrev reader : Json → Yajl
reader j = record {
  Tree = Json;
  tree_parse = λ text. if text == render j then some j else none;
  get_string = λ t path. string_of (at_path path t);
  get_number = λ t path. number_of (at_path path t);
  get_object = λ t path. object_of (at_path path t);
  get_array = λ t path. array_of (at_path path t);
  as_string = λ t. string_of (some t);
  as_integer = integer_of;
}

abbrev message : ActivationMessage
message = record {
  transid = record { name = codes "b701"; id = 1532474133193 };
  root_controller_index = record { instance_id = pos 0; name = [] };
  activation_id = codes "20f9";
  revision = codes "1-37";
  content = codes "{\"key\":\"val\",\"spin\":27}";
  action = record { path = codes "user_9801"; name = codes "29523"; version = codes "0.0.1" };
  user = record {
    subject = codes "user_9801";
    authkey = codes "e4f8";
    namespace = record { name = codes "user_9801"; uuid = codes "51" };
  };
  blocking = true;
}

abbrev content : Fields
content = field (codes "key") (string (codes "val")) (field (codes "spin") (number (pos 27)) end)
