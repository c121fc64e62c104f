-- ===== src/Startup/Limits.antt =====
-- The limits of the cores of a node, from the command line of the front end on.
use seuss.Prelude.{
  ℕ, ◌<◌, ◌≡◌, refl, ap, sym, subst, ◌∙◌, not, ◌&&◌, Option, none, some, Bytes, codes, ◌++◌, nat_eq,
  ◌==◌, find_first_of, if◌then◌else◌, ok, inl, inr, Option-cases, arith,
}
use seuss.Hot.Defs.{HotCache}
use seuss.Invoker.Defs.{Counters}
use seuss.Invoker.Init.{init}
use seuss.Dsys.Settings.{
  Settings, Allocation, allocate_native_instances, with_memory, with_zookeeper,
}
use seuss.Dsys.Settings
use seuss.Dsys.Limits.{command_line, init-allocate}
use seuss.Kafka.Defs.{or_kept}
use seuss.Startup.Defs.{
  Options, Process, starts, main, set_up_openwhisk, load_function, set_up_natives,
  process_program_options,
}
use seuss.Startup.Configured.{main_steps}
use seuss.Startup.Notify.{Given, main_with, notify, options_of, store_dsys}

-- What the calls of a node read of the settings.
abbrev limits : Settings → ℕ × ℕ × ℕ
limits s = (
  s.native_invoker_core_concurrency_limit, s.native_invoker_core_spicy_limit,
  s.native_invoker_core_spicy_reuse,
)

-- What a core reads of the limits.
abbrev pub configured : ℕ × ℕ × ℕ → Counters → HotCache → Counters × HotCache
configured l c hot = (
  record c { request_concurrency_limit = l.0 },
  record hot {
    hot_instance_limit = l.1;
    hot_instance_reuse_limit =
        (if not (l.1 == 0) && not (l.2 == 0) then l.2 else hot.hot_instance_reuse_limit);
  },
)

set_up_openwhisk-limits :
    (o : Options) (p p' : Process)
    → set_up_openwhisk o p ≡ starts p'
    → limits p'.settings ≡ limits p.settings
unfolding set_up_openwhisk process_program_options
set_up_openwhisk-limits o p p' e = ground (arith, e)

with_zookeeper-limits :
    (zookeeper : Option Bytes) (s : Settings) → limits (with_zookeeper zookeeper s) ≡ limits s
unfolding with_zookeeper
with_zookeeper-limits none s = refl
with_zookeeper-limits (some host) s = refl

with_memory-limits : (s : Settings) → limits (with_memory s) ≡ limits s
unfolding with_memory
with_memory-limits s = ground arith

module _ (in_current_path : Bytes → Bytes) (contents : Bytes → Option Bytes) where
  load_function-limits :
      (file : Option Bytes) (p p' : Process)
      → load_function in_current_path contents file p ≡ starts p'
      → limits p'.settings ≡ limits p.settings
  unfolding load_function
  load_function-limits none p p' e = ground (arith, e)
  load_function-limits (some file) p p' e = elim (Option-cases (contents (in_current_path file))) [
    | inl absent ↦ ground (arith, e, absent)
    | inr (function, there) ↦ ground (arith, e, there)
  ]

  natives-limits :
      (elf32 zookeeper : Option Bytes) (s : Settings)
      → limits (Settings.process_program_options in_current_path elf32 zookeeper s).1 ≡ limits s
  unfolding Settings.process_program_options
  natives-limits none zookeeper s = refl
  natives-limits (some elf32) zookeeper s =
      with_zookeeper-limits zookeeper _
      ∙ with_memory-limits (record s { native_binary_path = in_current_path elf32 })

  set_up_natives-limits :
      (o : Options) (p p' : Process)
      → set_up_natives in_current_path contents o p ≡ starts p'
      → limits p'.settings ≡ limits p.settings
  unfolding set_up_natives
  set_up_natives-limits o p p' e = ground (arith, e, natives-limits o.elf32 o.zookeeper p.settings)

  main-limits :
      (o : Options) (p p' : Process)
      → main in_current_path contents (some o) p ≡ starts p'
      → limits p'.settings ≡ limits p.settings
  main-limits o p p' e =
      let (p₁, p₂, first, second, last) = main_steps in_current_path contents o p p' e in
      set_up_natives-limits o p₂ p' last
      ∙ load_function-limits o.file p₁ p₂ second
      ∙ set_up_openwhisk-limits o p p₁ first

  -- Where the front end is started with a command line, and then allocates a node, each core of the node
  -- reads the limits of that command line: at most 12 invocations, no idle instance and 300 reuses
  -- where it does not give them; but the number of reuses only if neither of the last two is 0, and
  -- else it stays the one that the core was built with. `AppendArgs` ends each argument with a semicolon, the
  -- rest of the line of the node holds none of the keys' first letters, and the limits are
  -- those of `uint16_t`.
  pub init-main :
      (append : Bytes → Bytes → Bytes)
      → ((text arg : Bytes) → append text arg ≡ text ++ (arg ++ codes ";"))
      → (g : Given) (p p' : Process) (path pre post : Bytes) (a : Allocation) (c : Counters)
        (hot : HotCache)
      → find_first_of b'C' pre ≡ none
      → find_first_of b'S' pre ≡ none
      → find_first_of b'R' pre ≡ none
      → find_first_of b'R' post ≡ none
      → or_kept g.dsys.concurrency_limit 12 < 65536
      → or_kept g.dsys.spicy_limit 0 < 65536
      → or_kept g.dsys.reuse_limit 300 < 65536
      → main_with in_current_path contents (some g) p ≡ starts p'
      → allocate_native_instances p'.settings path ≡ ok a
      → init (command_line append pre a.appended ++ post) c hot
        ≡ ok (
            configured
              (
                or_kept g.dsys.concurrency_limit 12,
                or_kept g.dsys.spicy_limit 0,
                or_kept g.dsys.reuse_limit 300,
              )
              c
              hot)
  unfolding main_with notify store_dsys
  init-main append law g p p' path pre post a c hot no_C no_S no_R no_R' h₁ h₂ h₃ started done =
      let same = main-limits (options_of g) (notify g p) p' started in
      init-allocate append law p'.settings path pre post a c hot no_C no_S no_R no_R'
        (subst (λ l. l.0 < 65536) (sym same) h₁) (subst (λ l. l.1 < 65536) (sym same) h₂)
        (subst (λ l. l.2 < 65536) (sym same) h₃) done
      ∙ ap (λ l. ok (configured l c hot)) same
