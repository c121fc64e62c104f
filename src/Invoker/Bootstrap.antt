-- ===== src/Invoker/Bootstrap.antt =====
-- `InvokerRoot::Bootstrap`: the two boots that make the base snapshot, and `seuss::Init` of a node.
use seuss.Prelude.{
  ℕ, Bool, true, false, not, Option, none, some, List, [], ◌∷◌, ◌++◌, Bytes, codes, if◌then◌else◌,
  Result, ok, panic, ◌>>=◌, ◌>>◌, kassert,
}
use seuss.Root.Defs.{InvokerRoot}
use seuss.Hot.Defs.{HotCache}
use seuss.Invoker.Defs.{Counters}
use seuss.Invoker.Init.{init}
use seuss.Session.Defs.{
  InvocationSession, Promise, connected, initialized, executed, closed, aborted, Action, Effect,
  new_session, send_http_request,
}
use seuss.Session.History.{Call, step}

-- The code and the arguments of the warm-up, and the port of its session.
abbrev pub warmup_code : Bytes
warmup_code =
    codes
      "\nfunction main(args) {\n  console.log('dummy print statement');\n  return {done : true};\n};\n"

abbrev pub warmup_args : Bytes
warmup_args = codes "{\"spin\":\"0\"}"

abbrev pub warmup_port : ℕ
warmup_port = 49159

-- The second boot: the state it works on, and whether it has halted the instance.
pub record Warmup : Type 0 where
  pub root : InvokerRoot
  pub session : InvocationSession
  pub halts : Bool

-- What happens while the instance runs: its snapshot is taken, a handler of its session is called, or a
-- promise of the session calls back.
pub data WarmupEvent : Type 0 where
  captured : (sv : ℕ) → WarmupEvent
  handler : Call → WarmupEvent
  calls_back : (now : ℕ) → Promise → WarmupEvent

unfoldable pub with_session : Warmup → Effect → Warmup × List Action
with_session w (s, acts) = (record w { session = s }, acts)

unfoldable pub warmup_callback : (now : ℕ) → Promise → Warmup → Result (Warmup × List Action)
unfolding with_session
warmup_callback now connected w = do
  effect ← send_http_request now (codes "/preInit") warmup_code true w.session
  ok (with_session w effect)
warmup_callback now initialized w = do
  effect ← send_http_request now (codes "/preRun") warmup_args false w.session
  ok (with_session w effect)
warmup_callback now executed w = ok (w, [])
warmup_callback now closed w = ok (record w { halts = true }, [])
warmup_callback now aborted w = panic

unfoldable pub warmup_event : WarmupEvent → Warmup → Result (Warmup × List Action)
unfolding with_session warmup_callback
warmup_event (captured sv) w = ok (record w { root = record w.root { base_um_env = sv } }, [])
warmup_event (handler c) w = do effect ← step w.session c; ok (with_session w effect)
warmup_event (calls_back now p) w = warmup_callback now p w

unfoldable pub warmup_events : List WarmupEvent → Warmup → Result (Warmup × List Action)
warmup_events [] w = ok (w, [])
warmup_events (e ∷ es) w = do
  (w', acts) ← warmup_event e w
  (w'', more) ← warmup_events es w'
  ok (w'', acts ++ more)

-- `Run` returns when the instance is halted; until then the boot waits.
pub data Boot : Type 0 where
  waits : Boot
  booted : InvokerRoot → List Action → Boot

unfoldable pub finish_boot : Warmup × List Action → Boot
finish_boot (w, acts) =
    if w.halts then booted (record w.root { is_bootstrapped = true }) acts else waits

-- The first boot halts when its snapshot is taken, if ever; then comes the second.
unfoldable pub second_boot : Option ℕ → List WarmupEvent → InvokerRoot → Result Boot
unfolding finish_boot
second_boot none es r = ok waits
second_boot (some sv) es r = do
  warm ← warmup_events es (record {
    root = record r { preinit_env = sv };
    session = new_session warmup_port;
    halts = false;
  })
  ok (finish_boot warm)

-- `Bootstrap`, with the snapshot of the first boot and the events of the second.
unfoldable pub bootstrap : (preinit : Option ℕ) → List WarmupEvent → InvokerRoot → Result Boot
unfolding second_boot
bootstrap preinit es r = do kassert (not r.is_bootstrapped); second_boot preinit es r

-- The loop of `seuss::Init` on a native node: each core reads its limits from the command line `cl`.
unfoldable pub init_cores :
    (cl : Bytes) → List (Counters × HotCache) → Result (List (Counters × HotCache))
init_cores cl [] = ok []
init_cores cl ((c, hot) ∷ cores) = do
  first ← init cl c hot
  rest ← init_cores cl cores
  ok (first ∷ rest)

unfoldable pub init_node :
    (cl : Bytes) (preinit : Option ℕ)
    → List WarmupEvent
    → List (Counters × HotCache)
    → InvokerRoot
    → Result (List (Counters × HotCache) × Boot)
unfolding init_cores
init_node cl preinit es cores r = do
  cores' ← init_cores cl cores
  boot ← bootstrap preinit es r
  ok (cores', boot)
