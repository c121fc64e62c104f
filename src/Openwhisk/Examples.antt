-- ===== src/Openwhisk/Examples.antt =====
-- The code cache and the texts of JSON on small inputs.
use seuss.Prelude.{true, false, ◌≡◌, refl, Option, some, [], Bytes, codes, bytes_eq}
use seuss.Table.{find}
use seuss.Openwhisk.Grammar.{is_number, is_string}
use seuss.Openwhisk.Msg.{Action}
use seuss.Openwhisk.Couchdb.{Couchdb, cache_key, get_address, get_action}
use seuss.Openwhisk.Cache.{get_action_again}

abbrev empty_cache : Couchdb
empty_cache = record {
  host = codes "h";
  password = codes "w";
  port = codes "1";
  protocol = codes "http";
  username = codes "u";
  address = codes "a";
  db_entity = codes "e";
  db_cache = [];
}

abbrev first : Action
first = record { path = codes "user_1"; name = codes "0"; version = codes "0.0.1" }

abbrev second : Action
second = record { path = codes "user_"; name = codes "10"; version = codes "0.0.1" }

-- A database that has another code for every request: its address.
abbrev http_get : Bytes → Bytes
http_get address = address

abbrev code_in : Bytes → Option (Option Bytes)
code_in text = some (some text)

-- Two actions of two users: the second one gets the code of the first.
get_action_again_example :
    get_action http_get code_in (get_action http_get code_in empty_cache first).1 second ≡ (
      (get_action http_get code_in empty_cache first).0,
      (get_action http_get code_in empty_cache first).1,
      [],
    )
unfolding cache_key find get_address
get_action_again_example =
    get_action_again http_get code_in empty_cache first second (some (codes "a/e/user_1%2F0")) refl
      refl refl

numbers :
    (is_number (codes "-0.5E+10") ≡ true)
    × (is_number (codes "01") ≡ false)
    × (is_number (codes "1.") ≡ false)
    × (is_number (codes "-") ≡ false)
unfolding is_number
numbers = (refl, refl, refl, refl)

strings :
    (is_string (codes "\\u00e9\\\"") ≡ true)
    × (is_string (codes "a\"b") ≡ false)
    × (is_string (codes "\\x") ≡ false)
    × (is_string (codes "\\u12") ≡ false)
unfolding is_string
strings = (refl, refl, refl, refl)
