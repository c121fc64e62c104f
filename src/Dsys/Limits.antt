-- ===== src/Dsys/Limits.antt =====
-- The limits of the cores, from the settings of the front end through the command line of an instance.
use seuss.Prelude.{
  ◌<◌, ◌≡◌, refl, ap, ◌∙◌, append_assoc, Bool, true, false, not, ◌&&◌, none, List, [], ◌∷◌, ◌++◌,
  arith, nat_eq, ◌==◌, Bool-cases, inl, inr, if◌then◌else◌, Bytes, codes, find_first_of, ok,
}
use seuss.Text.Search.{find_first_of-append}
use seuss.Text.Numbers.{is_digit}
use seuss.Hot.Defs.{HotCache}
use seuss.Invoker.Defs.{Counters}
use seuss.Invoker.Init.{init}
use seuss.Dsys.Settings.{Settings, Allocation, invoker_args, allocate_native_instances}
use seuss.Dsys.CommandLine.{
  setting, read_limit-setting, read_limit-lacks, after_second, line, after_second-lacks, init-line,
}

-- The command line of an instance: what the allocator has put there, then the arguments of
-- `AppendArgs` in order, then what it adds.
abbrev pub command_line : (append : Bytes → Bytes → Bytes) (pre : Bytes) → List Bytes → Bytes
command_line append pre [] = pre
command_line append pre (a ∷ args) = command_line append (append pre a) args

abbrev reuse_is_set : Settings → Bool
reuse_is_set s =
    not (s.native_invoker_core_spicy_limit == 0) && not (s.native_invoker_core_spicy_reuse == 0)

allocate_native_instances-appended :
    (s : Settings) (path : Bytes) (a : Allocation)
    → allocate_native_instances s path ≡ ok a
    → a.appended ≡ invoker_args s
unfolding allocate_native_instances
allocate_native_instances-appended s path a done = ground (arith, done)

module _ (append : Bytes → Bytes → Bytes)
    (law : (text arg : Bytes) → append text arg ≡ text ++ (arg ++ codes ";")) (s : Settings)
    (pre post : Bytes) where
  open s use {
    native_invoker_core_concurrency_limit, native_invoker_core_spicy_limit,
    native_invoker_core_spicy_reuse,
  }

  command_line-reuse :
      reuse_is_set s ≡ true
      → command_line append pre (invoker_args s) ++ post
        ≡ line pre
            (setting (codes "Rlim=") native_invoker_core_spicy_reuse post)
            native_invoker_core_concurrency_limit
            native_invoker_core_spicy_limit
  unfolding invoker_args
  command_line-reuse set = simp (set, law, append_assoc)

  command_line-no_reuse :
      reuse_is_set s ≡ false
      → command_line append pre (invoker_args s) ++ post
        ≡ line pre post native_invoker_core_concurrency_limit native_invoker_core_spicy_limit
  unfolding invoker_args
  command_line-no_reuse unset = simp (unset, law, append_assoc)

-- Each core reads the limits that the front end was started with: the number of invocations, the
-- number of idle instances, and the number of reuses if neither of the last two is 0; else the limit of
-- the reuses stays the one that the core was built with. `AppendArgs` ends each argument with a
-- semicolon, and the rest of the line holds none of the keys' first letters. The settings are those
-- of `uint16_t`.
pub init-allocate :
    (append : Bytes → Bytes → Bytes)
    → ((text arg : Bytes) → append text arg ≡ text ++ (arg ++ codes ";"))
    → (s : Settings) (path pre post : Bytes) (a : Allocation) (c : Counters) (hot : HotCache)
    → find_first_of b'C' pre ≡ none
    → find_first_of b'S' pre ≡ none
    → find_first_of b'R' pre ≡ none
    → find_first_of b'R' post ≡ none
    → s.native_invoker_core_concurrency_limit < 65536
    → s.native_invoker_core_spicy_limit < 65536
    → s.native_invoker_core_spicy_reuse < 65536
    → allocate_native_instances s path ≡ ok a
    → init (command_line append pre a.appended ++ post) c hot
      ≡ ok (
        record c { request_concurrency_limit = s.native_invoker_core_concurrency_limit },
        record hot {
          hot_instance_limit = s.native_invoker_core_spicy_limit;
          hot_instance_reuse_limit =
              (if not (s.native_invoker_core_spicy_limit == 0)
                  && not (s.native_invoker_core_spicy_reuse == 0)
                then s.native_invoker_core_spicy_reuse
                else hot.hot_instance_reuse_limit);
        },
      )
unfolding is_digit
init-allocate append law s path pre post a c hot no_C no_S no_R no_R' h₁ h₂ h₃ done =
    let limit = s.native_invoker_core_concurrency_limit in
    let instances = s.native_invoker_core_spicy_limit in
    let reuse = s.native_invoker_core_spicy_reuse in
    let lacks = after_second-lacks pre post limit instances b'R' refl refl refl no_R in
    let from = λ (text : Bytes). init text c hot in
    let given =
      ap (λ args. from (command_line append pre args ++ post))
        (allocate_native_instances-appended s path a done) in
    elim (Bool-cases (reuse_is_set s)) [
      | inl set ↦
          given
          ∙ ap from (command_line-reuse append law s pre post set)
          ∙ init-line pre (setting (codes "Rlim=") reuse post) limit instances c hot no_C no_S h₁ h₂
              (read_limit-setting b'R' (codes "lim=") _ post reuse hot.hot_instance_reuse_limit
                lacks h₃)
          ∙ rw set
      | inr unset ↦
          given
          ∙ ap from (command_line-no_reuse append law s pre post unset)
          ∙ init-line pre post limit instances c hot no_C no_S h₁ h₂ (
              read_limit-lacks b'R' (codes "lim=") _ hot.hot_instance_reuse_limit (
                find_first_of-append b'R' (after_second pre post limit instances) post lacks no_R'))
          ∙ rw unset
    ]
