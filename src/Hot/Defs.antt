-- ===== src/Hot/Defs.antt =====
-- The state of the hot-start cache, and its operations.
use seuss.Prelude.{
  ℕ, ◌+◌, ◌%◌, Bool, true, false, not, Option, none, some, List, [], ◌∷◌, ◌++◌, ◌==◌, nat_eq, leb,
  is_some, if◌then◌else◌, Result, ok, panic, ◌>>=◌, ◌>>◌, kassert,
}
use seuss.Table.{Table, size, find, erase, emplace, assign}

abbrev pub default_instance_reuse_limit : ℕ
default_instance_reuse_limit = 300

pub record HotCache : Type 0 where
  pub hot_instance_limit : ℕ  -- uint16_t
  pub hot_instance_reuse_limit : ℕ  -- uint16_t
  pub stalled_instance_map : Table ℕ ℕ  -- function id to instance id
  pub stalled_instance_fifo : List ℕ  -- function ids
  pub stalled_instance_usage_count : Table ℕ ℕ  -- instance id to uint16_t

-- Calls into the instance manager.
pub data Signal : Type 0 where
  set_inactive : ℕ → Signal
  signal_yield : ℕ → Signal

-- `fifo.erase(std::find(...))`: the first occurrence goes, if there is one.
unfoldable pub remove_first : ℕ → List ℕ → List ℕ
remove_first fid [] = []
remove_first fid (f ∷ fs) = let rest = remove_first fid fs in if f == fid then fs else f ∷ rest

unfoldable pub hot_instances_are_enabled : HotCache → Bool
hot_instances_are_enabled c = not (c.hot_instance_limit == 0)

unfoldable pub hot_instance_exists : HotCache → ℕ → Bool
hot_instance_exists c fid = is_some (find fid c.stalled_instance_map)

unfoldable pub take_instance : Option ℕ → HotCache → ℕ → Result (ℕ × HotCache)
take_instance none c fid = panic
take_instance (some id) c fid = ok (
  id,
  record c {
    stalled_instance_map = erase fid c.stalled_instance_map;
    stalled_instance_fifo = remove_first fid c.stalled_instance_fifo;
  },
)

-- `get_hot_instance`: the instance leaves the cache; without one the machine stops.
unfoldable pub get_hot_instance : HotCache → ℕ → Result (ℕ × HotCache)
unfolding take_instance
get_hot_instance c fid = take_instance (find fid c.stalled_instance_map) c fid

-- The reuse test, on the record of the instance's uses.
unfoldable pub within_reuse_limit : HotCache → Option ℕ → Bool
within_reuse_limit c none = true
within_reuse_limit c (some uses) = leb uses c.hot_instance_reuse_limit

unfoldable pub hot_instance_can_be_reused : HotCache → ℕ → Result Bool
unfolding within_reuse_limit
hot_instance_can_be_reused c id = do
  kassert (not (id == 0))
  ok (
      if leb c.hot_instance_limit (size c.stalled_instance_map)
      then false
      else within_reuse_limit c (find id c.stalled_instance_usage_count))

-- The new value of the instance's use counter, a `uint16_t`.
unfoldable pub use_count : Option ℕ → ℕ
use_count none = 1
use_count (some uses) = (uses + 1) % 65536

-- `save_hot_instance` past its three early returns.
unfoldable pub keep_instance :
    (known : ℕ → Bool) → HotCache → ℕ → ℕ → Result (Bool × HotCache × List Signal)
unfolding use_count
keep_instance known c fid id = do
  let uses = use_count (find id c.stalled_instance_usage_count)
  let counts = assign id uses c.stalled_instance_usage_count
  kassert (known id)
  let (instances, inserted) = emplace fid id c.stalled_instance_map
  ok (
    true,
    record c {
      stalled_instance_map = instances;
      stalled_instance_fifo = c.stalled_instance_fifo ++ fid ∷ [];
      stalled_instance_usage_count = counts;
    },
    set_inactive id ∷ signal_yield id ∷ [],
  )

-- `save_hot_instance`: whether the instance was saved, the new state, and the calls into the manager.
unfoldable pub save_hot_instance :
    (known : ℕ → Bool) → HotCache → ℕ → ℕ → Result (Bool × HotCache × List Signal)
unfolding keep_instance hot_instance_can_be_reused hot_instance_exists
save_hot_instance known c fid id = do
  kassert (not (fid == 0))
  kassert (not (id == 0))
  reusable ← hot_instance_can_be_reused c id
  if not reusable
      then ok (false, c, [])
      else if hot_instance_exists c fid
      then ok (false, c, [])
      else if is_some (find fid c.stalled_instance_map)
      then ok (false, c, [])
      else keep_instance known c fid id
