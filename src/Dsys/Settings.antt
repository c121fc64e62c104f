-- ===== src/Dsys/Settings.antt =====
-- src/dsys/dsys.cc and src/dsys/Controller.cc: the settings from the command line of the front end, and
-- what an instance is allocated with.
use seuss.Prelude.{
  ℕ, zero, suc, ◌*◌, ◌%◌, Bool, true, false, not, ◌&&◌, Option, none, some, List, [], ◌∷◌, ◌++◌,
  nat_eq, ◌==◌, ltb, if◌then◌else◌, is_empty, Bytes, codes, Result, ok, ◌>>=◌, ◌>>◌, kassert,
}
use seuss.Prelude.Decimal.{to_string}

-- The global configuration: `uint16_t` but for the two texts.
pub record Settings : Type 0 where
  pub native_binary_path : Bytes
  pub zookeeper_host : Bytes
  pub native_instance_count : ℕ
  pub native_core_count : ℕ
  pub native_numa_count : ℕ
  pub native_memory_gb : ℕ
  pub native_invoker_core_concurrency_limit : ℕ
  pub native_invoker_core_spicy_limit : ℕ
  pub native_invoker_core_spicy_reuse : ℕ

-- The memory that the cores need at least.
unfoldable pub with_memory : Settings → Settings
with_memory s =
    if ltb s.native_memory_gb (s.native_core_count * 4)
    then record s { native_memory_gb = s.native_core_count * 4 % 65536 }
    else s

unfoldable pub with_zookeeper : Option Bytes → Settings → Settings
with_zookeeper none s = s
with_zookeeper (some host) s = record s { zookeeper_host = host }

-- `process_program_options`, by the two options that it reads itself; the library has stored the others
-- in the settings before. `in_current_path` is the path of a file in the current directory.
unfoldable pub process_program_options :
    (in_current_path : Bytes → Bytes)
    → (elf32 zookeeper : Option Bytes) → Settings
    → Bool × Settings
unfolding with_memory with_zookeeper
process_program_options in_current_path none zookeeper s = (false, s)
process_program_options in_current_path (some elf32) zookeeper s = (
  true,
  with_zookeeper zookeeper (with_memory (record s { native_binary_path = in_current_path elf32 })),
)

-- What the node allocator is called with: `NodeArgs`, and the texts for the command line of the instance.
pub record Allocation : Type 0 where
  pub binary_path : Bytes
  pub cpus : ℕ
  pub ram : ℕ
  pub numa : ℕ
  pub appended : List Bytes

unfoldable pub invoker_args : Settings → List Bytes
invoker_args s =
    (codes "Clim=" ++ to_string s.native_invoker_core_concurrency_limit)
    ∷ (codes "Slim=" ++ to_string s.native_invoker_core_spicy_limit)
    ∷ (if not (s.native_invoker_core_spicy_limit == 0)
          && not (s.native_invoker_core_spicy_reuse == 0)
        then (codes "Rlim=" ++ to_string s.native_invoker_core_spicy_reuse) ∷ []
        else [])

-- `AllocateNativeInstances`: it allocates one instance.
unfoldable pub allocate_native_instances : Settings → (binary_path : Bytes) → Result Allocation
unfolding invoker_args
allocate_native_instances s binary_path = do
  kassert (not (is_empty binary_path))
  let cpus = s.native_core_count
  let ram = (if ltb s.native_memory_gb (cpus * 2) then cpus * 2 else s.native_memory_gb)
  let numa = (if ltb cpus s.native_numa_count then cpus else s.native_numa_count)
  ok (record {
    binary_path = binary_path;
    cpus = cpus;
    ram = ram;
    numa = numa;
    appended = invoker_args s;
  })

-- The loop of `Init` on the front end, with `count` instances to go.
unfoldable pub allocate_all : (count : ℕ) → Settings → Result (List Allocation)
allocate_all zero s = ok []
allocate_all (suc count) s = do
  one ← allocate_native_instances s s.native_binary_path
  rest ← allocate_all count s
  ok (one ∷ rest)

unfoldable pub init : Settings → Result (List Allocation)
init s = allocate_all s.native_instance_count s
