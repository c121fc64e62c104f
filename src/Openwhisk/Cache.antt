-- ===== src/Openwhisk/Cache.antt =====
-- The cache of action codes.
use seuss.Prelude.{◌≡◌, Option, none, some, [], ◌∷◌, arith, bytes_eq, beq_self, Bytes}
use seuss.Table.{find, find-cons, emplace_new}
use seuss.Openwhisk.Msg.{Action}
use seuss.Openwhisk.Couchdb.{
  Couchdb, cache_key, get_address, code_or_empty, store_answer, query_if_new, get_action,
}

module _ (http_get : Bytes → Bytes) (code_in : Bytes → Option (Option Bytes)) where
  abbrev answered : Couchdb → Action → Option Bytes → Couchdb
  answered db action answer = record db {
    db_cache = (cache_key action, code_or_empty http_get code_in answer) ∷ db.db_cache;
  }

  get_action_new :
      (db : Couchdb) (action : Action) {answer : Option Bytes}
      → find (cache_key action) db.db_cache ≡ none
      → code_in (http_get (get_address db action)) ≡ some answer
      → get_action http_get code_in db action ≡ (
        code_or_empty http_get code_in answer,
        answered db action answer,
        get_address db action ∷ [],
      )
  unfolding get_action query_if_new store_answer
  get_action_new db action {answer} new read =
      rw (new, query_if_new, read, store_answer)
        (ground (
          arith,
          emplace_new (cache_key action) (code_or_empty http_get code_in answer) db.db_cache new,
        ))

  get_action_cached :
      (db : Couchdb) (action : Action) {code : Bytes}
      → find (cache_key action) db.db_cache ≡ some code
      → get_action http_get code_in db action ≡ (code, db, [])
  unfolding get_action query_if_new
  get_action_cached db action cached = rw (cached, query_if_new)

  -- Once the database has answered for an action, every action whose path, name and version join to
  -- the same text gets that code with no request: the same action, but also another one, whatever the
  -- database holds for it, since the key does not keep its parts apart.
  pub get_action_again :
      (db : Couchdb) (first second : Action) (answer : Option Bytes)
      → find (cache_key first) db.db_cache ≡ none
      → code_in (http_get (get_address db first)) ≡ some answer
      → cache_key second ≡ cache_key first
      → get_action http_get code_in (get_action http_get code_in db first).1 second
        ≡ ((get_action http_get code_in db first).0, (get_action http_get code_in db first).1, [])
  get_action_again db first second answer new read same = rw (get_action_new db first new read) (
      get_action_cached (answered db first answer) second (
        ground (
          arith,
          same,
          find-cons (cache_key first) (cache_key second) (code_or_empty http_get code_in answer)
              db.db_cache,
          beq_self (cache_key first),
        )))
