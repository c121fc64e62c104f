-- ===== src/Openwhisk/Couchdb.antt =====
-- src/openwhisk/couchdb.cc: the code of an action, from a cache or from the database. The request
-- (pillowtalk) and the reading of its JSON answer (yajl) are parameters.
use seuss.Prelude.{
  Bool, true, false, Option, none, some, List, [], ◌∷◌, ◌++◌, bytes_eq, Bytes, codes, is_empty,
  ◌||◌, if◌then◌else◌,
}
use seuss.Table.{Table, find, emplace}
use seuss.Openwhisk.Msg.{Action}

-- The settings and the cache, which stand in variables of the file.
pub record Couchdb : Type 0 where
  pub host : Bytes
  pub password : Bytes
  pub port : Bytes
  pub protocol : Bytes
  pub username : Bytes
  pub address : Bytes
  pub db_entity : Bytes
  pub db_cache : Table Bytes Bytes

-- `init`: without a full configuration it fails, and otherwise it makes the address.
unfoldable pub init : Couchdb → Bool × Couchdb
init db =
    if is_empty db.protocol
      || is_empty db.host
      || is_empty db.username
      || is_empty db.password
      || is_empty db.port
    then (false, db)
    else (
      true,
      record db {
        address =
            db.protocol
            ++ codes "://"
            ++ db.username
            ++ codes ":"
            ++ db.password
            ++ codes "@"
            ++ db.host
            ++ codes ":"
            ++ db.port;
      },
    )

unfoldable pub cache_key : Action → Bytes
cache_key action = action.path ++ action.name ++ action.version

unfoldable pub get_address : Couchdb → Action → Bytes
get_address db action =
    db.address
    ++ codes "/"
    ++ db.db_entity
    ++ codes "/"
    ++ action.path
    ++ codes "%2F"
    ++ action.name

-- `http_get` is the text of the answer to a request, and `code_in` reads it: `none` if it is no JSON,
-- and otherwise the string at `exec`, `code`, if there is one.
module _ (http_get : Bytes → Bytes) (code_in : Bytes → Option (Option Bytes)) where
  unfoldable pub code_or_empty : Option Bytes → Bytes
  code_or_empty none = codes ""
  code_or_empty (some code) = code

  -- The answer of the database, cached if it is JSON.
  unfoldable pub store_answer : Option (Option Bytes) → Couchdb → Action → Bytes × Couchdb
  store_answer none db action = (codes "", db)
  store_answer (some code) db action = (
    code_or_empty code,
    record db { db_cache = (emplace (cache_key action) (code_or_empty code) db.db_cache).0 },
  )

  -- `get_action` past the lookup in the cache.
  unfoldable pub query_if_new : Option Bytes → Couchdb → Action → Bytes × Couchdb × List Bytes
  query_if_new (some code) db action = (code, db, [])
  query_if_new none db action =
      let (code, db') = store_answer (code_in (http_get (get_address db action))) db action in
      (code, db', get_address db action ∷ [])

  -- `get_action`: the code, the new cache, and the requests to the database.
  unfoldable pub get_action : Couchdb → Action → Bytes × Couchdb × List Bytes
  get_action db action = query_if_new (find (cache_key action) db.db_cache) db action
