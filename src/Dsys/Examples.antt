-- ===== src/Dsys/Examples.antt =====
-- The settings, the members and the addresses on small inputs, and the witnesses.
use seuss.Prelude.{
  ◌*◌, ◌≤◌, ◌≡◌, refl, true, none, some, List, [], ◌∷◌, Bytes, codes, arith, nat_eq, ok,
}
use seuss.Dsys.Settings.{
  Settings, Allocation, process_program_options, allocate_native_instances, invoker_args,
}
use seuss.Dsys.Settings
use seuss.Dsys.Allocation.{instance_of, init-process_program_options}
use seuss.Dsys.Order.{less, mem, IsAscending}
use seuss.Dsys.MemberSet.{MemberSet, member_add, member_delete, child_change, watch_handler}
use seuss.Dsys.Changes.{watch_handler-add, watch_handler-delete, watch_handler_gaps}

abbrev settings : Settings
settings = record {
  native_binary_path = [];
  zookeeper_host = codes "172.17.0.2:2181";
  native_instance_count = 2;
  native_core_count = 3;
  native_numa_count = 1;
  native_memory_gb = 4;
  native_invoker_core_concurrency_limit = 12;
  native_invoker_core_spicy_limit = 16;
  native_invoker_core_spicy_reuse = 500;
}

abbrev in_current_path : Bytes → Bytes
in_current_path file = b'/' ∷ file

init-process_program_options_example :
    (t : Settings) × (process_program_options in_current_path
        (some (codes "seuss.elf32"))
        none
        settings
      ≡ (true, t))
    × (Settings.init t ≡ ok (instance_of t ∷ instance_of t ∷ []))
    × ((instance_of t).binary_path ≡ codes "/seuss.elf32")
    × ((instance_of t).cpus ≡ 3)
    × (4 * 3 ≤ (instance_of t).ram)
    × ((instance_of t).numa ≤ 3)
init-process_program_options_example =
    init-process_program_options in_current_path (λ file. refl) (codes "seuss.elf32") none settings
      (omega arith)

abbrev member_set : List Bytes → MemberSet
member_set cache = record { initialized = true; member_id_cache = cache; mid = [] }

abbrev one : Bytes
one = codes "10.0.0.1"

abbrev two : Bytes
two = codes "10.0.0.2"

ascending : IsAscending (one ∷ two ∷ [])
unfolding less
ascending = ((refl, tt), (tt, tt))

watch_handler-add_example :
    ((watch_handler child_change (one ∷ two ∷ []) (member_set (two ∷ []))).1 ≡ member_add one ∷ [])
    × ((m : Bytes)
        → mem m
            (watch_handler child_change (one ∷ two ∷ []) (member_set (two ∷ []))).0.member_id_cache
          ≡ mem m (one ∷ two ∷ []))
unfolding mem
watch_handler-add_example =
    watch_handler-add (one ∷ two ∷ []) (member_set (two ∷ [])) ascending (tt, tt) (omega arith)
      (λ m known. ground (arith, known))

one_leaves :
    ((watch_handler child_change (two ∷ []) (member_set (one ∷ two ∷ []))).1
      ≡ member_delete one ∷ [])
    × ((m : Bytes)
        → mem m
            (watch_handler child_change (two ∷ []) (member_set (one ∷ two ∷ []))).0.member_id_cache
          ≡ mem m (two ∷ []))
unfolding mem
one_leaves =
    watch_handler-delete (two ∷ []) (member_set (one ∷ two ∷ [])) (tt, tt) ascending (omega arith)
      (λ m known. ground (arith, known))

watch_handler_gaps_example :
    ((watch_handler child_change (one ∷ two ∷ []) (member_set (two ∷ []))).0.member_id_cache
      ≡ two ∷ one ∷ [])
    × (¬ IsAscending
        (watch_handler child_change (one ∷ two ∷ []) (member_set (two ∷ []))).0.member_id_cache)
    × (watch_handler child_change (one ∷ []) (member_set (two ∷ [])) ≡ (member_set (two ∷ []), []))
unfolding less
watch_handler_gaps_example =
    watch_handler_gaps one two (one ∷ []) (member_set (two ∷ [])) (member_set (two ∷ [])) refl refl
      refl
