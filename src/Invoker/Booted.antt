-- ===== src/Invoker/Booted.antt =====
-- The node after `Bootstrap`.
use seuss.Prelude.{
  ℕ, ◌≡◌, refl, ap, sym, ◌∙◌, true, not, Option, none, some, List, [], ◌∷◌, ok, panic, kassert,
  >>=-eq-ok, arith,
}
use seuss.Root.Defs.{InvokerRoot, get_base_sv}
use seuss.Session.Defs.{Promise, connected, initialized, executed, closed, aborted, Action}
use seuss.Invoker.Bootstrap.{
  Warmup, WarmupEvent, captured, handler, calls_back, with_session, warmup_callback, warmup_event,
  warmup_events, booted, finish_boot, second_boot, bootstrap,
}

-- The last snapshot that is taken, or the one before.
abbrev pub last_captured : ℕ → List WarmupEvent → ℕ
last_captured base [] = base
last_captured base (captured sv ∷ es) = last_captured sv es
last_captured base (handler c ∷ es) = last_captured base es
last_captured base (calls_back now p ∷ es) = last_captured base es

abbrev root_after : WarmupEvent → InvokerRoot → InvokerRoot
root_after e r = record r { base_um_env = last_captured r.base_um_env (e ∷ []) }

warmup_callback-root :
    (now : ℕ) (p : Promise) (w w' : Warmup) (acts : List Action)
    → warmup_callback now p w ≡ ok (w', acts)
    → w'.root ≡ w.root
unfolding warmup_callback with_session
warmup_callback-root now connected w w' acts e = ground (arith, e)
warmup_callback-root now initialized w w' acts e = ground (arith, e)
warmup_callback-root now executed w w' acts e = ground (arith, e)
warmup_callback-root now closed w w' acts e = ground (arith, e)
warmup_callback-root now aborted w w' acts e = ground (arith, e)

warmup_event-root :
    (e : WarmupEvent) (w w' : Warmup) (acts : List Action)
    → warmup_event e w ≡ ok (w', acts)
    → w'.root ≡ root_after e w.root
unfolding warmup_event with_session
warmup_event-root (captured sv) w w' acts e = ground (arith, e)
warmup_event-root (handler c) w w' acts e = ground (arith, e)
warmup_event-root (calls_back now p) w w' acts e = warmup_callback-root now p w w' acts e

last_captured_cons :
    (base : ℕ) (x : WarmupEvent) (es : List WarmupEvent)
    → last_captured base (x ∷ es) ≡ last_captured (last_captured base (x ∷ [])) es
last_captured_cons base (captured sv) es = refl
last_captured_cons base (handler c) es = refl
last_captured_cons base (calls_back now p) es = refl

warmup_events-root :
    (es : List WarmupEvent) (w w' : Warmup) (acts : List Action)
    → warmup_events es w ≡ ok (w', acts)
    → w'.root ≡ record w.root { base_um_env = last_captured w.root.base_um_env es }
unfolding warmup_events
warmup_events-root [] w w' acts e = ground (arith, e)
warmup_events-root (x ∷ es) w w' acts e =
    let ((w₁, first), now, rest) = >>=-eq-ok (warmup_event x w) _ e in
    let ((w₂, more), later, last) = >>=-eq-ok (warmup_events es w₁) _ rest in
    let ends : w' ≡ w₂ = cc last in
    ap (λ (t : Warmup). t.root) ends
    ∙ warmup_events-root es w₁ w₂ more later
    ∙ ap (λ (r : InvokerRoot). record r { base_um_env = last_captured r.base_um_env es })
        (warmup_event-root x w w₁ first now)
    ∙ ap (λ n. record w.root { base_um_env = n }) (sym (last_captured_cons w.root.base_um_env x es))

abbrev pub after_boot : (sv base : ℕ) → InvokerRoot → InvokerRoot
after_boot sv base r = record r { preinit_env = sv; base_um_env = base; is_bootstrapped = true }

finish_boot-root :
    (w : Warmup) (more acts : List Action) (r' : InvokerRoot)
    → finish_boot (w, more) ≡ booted r' acts
    → r' ≡ record w.root { is_bootstrapped = true }
unfolding finish_boot
finish_boot-root w more acts r' e = ground (arith, e)

second_boot-root :
    (preinit : Option ℕ) (es : List WarmupEvent) (r r' : InvokerRoot) (acts : List Action)
    → second_boot preinit es r ≡ ok (booted r' acts)
    → (sv : ℕ) × (preinit ≡ some sv) × (r' ≡ after_boot sv (last_captured r.base_um_env es) r)
unfolding second_boot
second_boot-root none es r r' acts e = cc
second_boot-root (some sv) es r r' acts e =
    let ((w, more), runs, ends) = >>=-eq-ok (warmup_events es _) _ e in
    (
      sv,
      refl,
      finish_boot-root w more acts r' (cc ends)
          ∙ ap (λ (t : InvokerRoot). record t { is_bootstrapped = true })
              (warmup_events-root es _ w more runs),
    )

-- Where `Bootstrap` returns, whatever happened during the two boots, the node counts as booted, its base
-- snapshot is the last one that the second boot took, its preliminary one is that of the first boot, and
-- nothing else of the queue and of the caches has changed; a second call stops the machine.
pub bootstrap_once :
    (preinit preinit' : Option ℕ) (es es' : List WarmupEvent) (r r' : InvokerRoot)
    (acts : List Action)
    → bootstrap preinit es r ≡ ok (booted r' acts)
    → ((sv : ℕ) × (preinit ≡ some sv) × (r' ≡ after_boot sv (last_captured r.base_um_env es) r))
      × (get_base_sv r' ≡ ok (last_captured r.base_um_env es))
      × (bootstrap preinit' es' r' ≡ panic)
unfolding bootstrap get_base_sv
bootstrap_once preinit preinit' es es' r r' acts e =
    let (_, _, boots) = >>=-eq-ok (kassert (not r.is_bootstrapped)) _ e in
    let (sv, first, after) = second_boot-root preinit es r r' acts boots in
    ((sv, first, after), rw after, rw after)
