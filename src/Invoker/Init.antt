-- ===== src/Invoker/Init.antt =====
-- `Invoker::Init`: the limits of a core, from the command line of its machine.
use seuss.Prelude.{ℕ, ◌+◌, Option, none, some, Bytes, codes, length, take, drop, Result, ok, ◌>>=◌}
use seuss.Text.Search.{find_text}
use seuss.Text.Numbers.{atoi, to_uint16}
use seuss.Hot.Defs.{HotCache}
use seuss.Invoker.Defs.{Counters}

-- The text behind the place where a key was found, up to the next semicolon.
unfoldable pub up_to_gap : Option ℕ → Bytes → Bytes
up_to_gap none text = text
up_to_gap (some gap) text = take gap text

unfoldable pub value_at : (key cl : Bytes) (loc : ℕ) → Bytes
unfolding up_to_gap
value_at key cl loc =
    let text = drop (loc + length key) cl in up_to_gap (find_text (codes ";") text) text

-- The setting of a key; a key that is not there leaves the limit as it is.
unfoldable pub limit_from : (key cl : Bytes) → Option ℕ → (limit : ℕ) → Result ℕ
unfolding value_at
limit_from key cl none limit = ok limit
limit_from key cl (some loc) limit = do number ← atoi (value_at key cl loc); ok (to_uint16 number)

unfoldable pub read_limit : (key cl : Bytes) (limit : ℕ) → Result ℕ
unfolding limit_from
read_limit key cl limit = limit_from key cl (find_text key cl) limit

-- The two limits of the hot starts; that of the reuses is read only if the other one is there.
unfoldable pub read_hot_limits : (cl : Bytes) → Option ℕ → HotCache → Result HotCache
unfolding read_limit limit_from
read_hot_limits cl none hot = ok hot
read_hot_limits cl (some loc) hot = do
  instances ← limit_from (codes "Slim=") cl (some loc) hot.hot_instance_limit
  reuses ← read_limit (codes "Rlim=") cl hot.hot_instance_reuse_limit
  ok (record hot { hot_instance_limit = instances; hot_instance_reuse_limit = reuses })

unfoldable pub init : (cl : Bytes) → Counters → HotCache → Result (Counters × HotCache)
unfolding read_limit read_hot_limits
init cl c hot = do
  limit ← read_limit (codes "Clim=") cl c.request_concurrency_limit
  hot' ← read_hot_limits cl (find_text (codes "Slim=") cl) hot
  ok (record c { request_concurrency_limit = limit }, hot')
