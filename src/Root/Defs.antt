-- ===== src/Root/Defs.antt =====
-- The state of `InvokerRoot` and its operations.
use seuss.Prelude.{
  ℕ, zero, suc, ◌+◌, ◌%◌, Bool, true, false, not, Option, none, some, List, [], ◌∷◌, ◌++◌, ◌==◌,
  leb, if◌then◌else◌, Result, ok, ◌>>=◌, ◌>>◌, kassert, expect, nat_eq,
}
use seuss.Table.{Table, size, find, erase, emplace}
use seuss.Invocation.{Invocation}

abbrev pub default_snapmap_limit : ℕ
default_snapmap_limit = 32768

pub record InvokerRoot : Type 0 where
  pub base_um_env : ℕ
  pub preinit_env : ℕ
  pub is_bootstrapped : Bool
  pub request_map : Table ℕ Invocation
  pub request_queue : List ℕ
  pub snapmap : Table ℕ ℕ

-- The loop of `AddWork` over `i`, with `left` rounds to go: the cores that get a `Poke`.
unfoldable pub poke_cores : (num_cpus mine offset left i : ℕ) → List ℕ
poke_cores num_cpus mine offset zero i = []
poke_cores num_cpus mine offset (suc left) i =
    let core = (i + offset) % num_cpus in
    let rest = poke_cores num_cpus mine offset left (i + 1) in
    if not (core == mine) then core ∷ rest else rest

-- `AddWork` on core `mine`, with the cores that it pokes.
unfoldable pub add_work :
    (num_cpus mine : ℕ) → InvokerRoot → Invocation → Result (InvokerRoot × List ℕ)
add_work num_cpus mine r i = do
  let tid = i.info.transaction_id
  let (request_map, inserted) = emplace tid i r.request_map
  kassert inserted
  ok (
    record r { request_map = request_map; request_queue = r.request_queue ++ tid ∷ [] },
    poke_cores num_cpus mine (tid % num_cpus) num_cpus 0,
  )

-- The body of `GetWork`, by the contents of the queue.
unfoldable pub pop_work : List ℕ → InvokerRoot → Result (Option Invocation × InvokerRoot)
pop_work [] r = ok (none, r)
pop_work (tid ∷ rest) r = do
  i ← expect (find tid r.request_map)
  ok (some i, record r { request_map = erase tid r.request_map; request_queue = rest })

-- `GetWork`: `none` is the result `false`.
unfoldable pub get_work : InvokerRoot → Result (Option Invocation × InvokerRoot)
get_work r = pop_work r.request_queue r

unfoldable pub get_base_sv : InvokerRoot → Result ℕ
get_base_sv r = do kassert r.is_bootstrapped; ok r.base_um_env

-- `none` is the null pointer.
unfoldable pub get_snapshot : InvokerRoot → ℕ → Result (Option ℕ)
get_snapshot r fid = do kassert r.is_bootstrapped; ok (find fid r.snapmap)

unfoldable pub cache_is_full : InvokerRoot → Bool
cache_is_full r = leb default_snapmap_limit (size r.snapmap)

-- The part of `SetSnapshot` behind the lookup, by the result of the lookup.
set_snapshot_after : Option ℕ → InvokerRoot → ℕ → ℕ → Result (InvokerRoot × Bool × List ℕ)
unfolding cache_is_full
set_snapshot_after (some hit) r fid sv = ok (r, false, sv ∷ [])
set_snapshot_after none r fid sv = if cache_is_full r then ok (r, false, sv ∷ []) else do
  let (snapmap, inserted) = emplace fid sv r.snapmap
  kassert inserted
  ok (record r { snapmap = snapmap }, true, [])

-- `SetSnapshot`: the state, the result, and the snapshots that it deletes.
unfoldable pub set_snapshot : InvokerRoot → ℕ → ℕ → Result (InvokerRoot × Bool × List ℕ)
unfolding set_snapshot_after
set_snapshot r fid sv = do
  kassert r.is_bootstrapped
  set_snapshot_after (find fid r.snapmap) r fid sv
