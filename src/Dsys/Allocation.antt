-- ===== src/Dsys/Allocation.antt =====
-- What the front end allocates when it starts.
use seuss.Prelude.{
  ℕ, zero, suc, ◌*◌, ◌≤◌, ◌<◌, ◌≡◌, refl, ap, ◌∙◌, true, false, Option, none, some, arith, ltb,
  if◌then◌else◌, is_empty, Bytes, replicate, ok,
}
use seuss.Dsys.Settings.{
  Settings, Allocation, with_memory, with_zookeeper, process_program_options, invoker_args,
  allocate_native_instances, allocate_all, init,
}

-- The instance that these settings ask for.
abbrev pub instance_of : Settings → Allocation
instance_of s = record {
  binary_path = s.native_binary_path;
  cpus = s.native_core_count;
  ram =
      (if ltb s.native_memory_gb (s.native_core_count * 2)
        then s.native_core_count * 2
        else s.native_memory_gb);
  numa =
      (if ltb s.native_core_count s.native_numa_count
        then s.native_core_count
        else s.native_numa_count);
  appended = invoker_args s;
}

allocate_all_lem :
    (count : ℕ) (s : Settings)
    → is_empty s.native_binary_path ≡ false
    → allocate_all count s ≡ ok (replicate count (instance_of s))
unfolding allocate_all allocate_native_instances
allocate_all_lem zero s named = refl
allocate_all_lem (suc count) s named = rw (named, allocate_all_lem count s named)

-- What the options of the command line leave of the settings.
options-kept :
    (zookeeper : Option Bytes) (s : Settings)
    → s.native_core_count * 4 < 65536
    → ((with_zookeeper zookeeper (with_memory s)).native_instance_count ≡ s.native_instance_count)
      × ((with_zookeeper zookeeper (with_memory s)).native_binary_path ≡ s.native_binary_path)
      × ((with_zookeeper zookeeper (with_memory s)).native_core_count ≡ s.native_core_count)
      × (s.native_core_count * 4 ≤ (with_zookeeper zookeeper (with_memory s)).native_memory_gb)
unfolding with_memory with_zookeeper
options-kept none s fits = ground arith
options-kept (some host) s fits = ground arith

-- After a command line with a binary was accepted, the loop of `Init` ends: it allocates exactly as many
-- instances as were asked for, all alike, from that binary, each with at least 4 GB for each core, and with no
-- more NUMA nodes than cores. Four times the number of cores fits into 16 bits.
pub init-process_program_options :
    (in_current_path : Bytes → Bytes)
    → ((file : Bytes) → is_empty (in_current_path file) ≡ false)
    → (elf32 : Bytes) (zookeeper : Option Bytes) (s : Settings) → s.native_core_count * 4 < 65536
    → (t : Settings) × (process_program_options in_current_path (some elf32) zookeeper s
        ≡ (true, t))
      × (init t ≡ ok (replicate s.native_instance_count (instance_of t)))
      × ((instance_of t).binary_path ≡ in_current_path elf32)
      × ((instance_of t).cpus ≡ s.native_core_count)
      × (4 * s.native_core_count ≤ (instance_of t).ram)
      × ((instance_of t).numa ≤ s.native_core_count)
unfolding process_program_options init
init-process_program_options in_current_path named elf32 zookeeper s fits =
    let given = record s { native_binary_path = in_current_path elf32 } in
    let t = with_zookeeper zookeeper (with_memory given) in
    let (count, path, cores, memory) = options-kept zookeeper given fits in
    (
      t,
      refl,
      allocate_all_lem t.native_instance_count t (ap is_empty path ∙ named elf32)
          ∙ ap (λ n. ok (replicate n (instance_of t))) count,
      path,
      cores,
      ground (arith, memory, cores),
      ground (arith, cores),
    )
