-- ===== src/Invoker/WarmedUp.antt =====
-- A second boot that goes well.
use seuss.Prelude.{
  ℕ, ◌≡◌, refl, ap, ◌∙◌, Bool, true, false, some, List, [], ◌∷◌, ◌++◌, Bytes, codes, drop,
  find_first_of, Result, ok, kassert, ◌>>=◌, ◌>>◌, not, if◌then◌else◌, arith,
}
use seuss.Root.Defs.{InvokerRoot}
use seuss.Session.Http.{http_post_request}
use seuss.Session.Defs.{
  InvocationSession, Promise, connected, initialized, executed, closed, Action, send, new_session,
  send_http_request, status_line, on_close, disable_timer,
}
use seuss.Session.History.{Call, step, connects, connects_done, receives, closes}
use seuss.Invoker.Events.{connecting, connect-new_session}
use seuss.Invoker.Served.{up, on_connected-up, receive-ready, receive-reply}
use seuss.Invoker.Bootstrap.{
  Warmup, WarmupEvent, captured, handler, calls_back, with_session, warmup_callback, warmup_event,
  warmup_events, booted, waits, finish_boot, second_boot, bootstrap, warmup_code, warmup_args,
  warmup_port,
}
use seuss.Invoker.Booted.{after_boot}

warmup_events-handler :
    (c : Call) (es : List WarmupEvent) (w : Warmup) {w' : Warmup} {s : InvocationSession}
    {acts more : List Action}
    → step w.session c ≡ ok (s, acts)
    → warmup_events es (record w { session = s }) ≡ ok (w', more)
    → warmup_events (handler c ∷ es) w ≡ ok (w', acts ++ more)
unfolding warmup_events warmup_event
warmup_events-handler c es w now later = rw (now, later)

warmup_events-calls_back :
    (t : ℕ) (p : Promise) (es : List WarmupEvent) (w : Warmup) {w₁ w' : Warmup}
    {acts more : List Action}
    → warmup_callback t p w ≡ ok (w₁, acts)
    → warmup_events es w₁ ≡ ok (w', more)
    → warmup_events (calls_back t p ∷ es) w ≡ ok (w', acts ++ more)
unfolding warmup_events warmup_event
warmup_events-calls_back t p es w now later = rw (now, later)

warmup_events-captured :
    (sv : ℕ) (es : List WarmupEvent) (w : Warmup) {w' : Warmup} {more : List Action}
    → warmup_events es (record w { root = record w.root { base_um_env = sv } }) ≡ ok (w', more)
    → warmup_events (captured sv ∷ es) w ≡ ok (w', more)
unfolding warmup_events warmup_event
warmup_events-captured sv es w later = rw later

warmup_events-none : (w : Warmup) → warmup_events [] w ≡ ok (w, [])
unfolding warmup_events
warmup_events-none w = refl

-- The two requests of the warm-up.
abbrev sent : (path payload : Bytes) (keep_alive : Bool) → InvocationSession → InvocationSession
sent path payload keep_alive s = record s {
  previous_request = http_post_request path payload keep_alive;
}

callback-preinit :
    (t : ℕ) (w : Warmup)
    → warmup_callback t connected w
      ≡ ok (
        record w { session = sent (codes "/preInit") warmup_code true w.session },
        send (http_post_request (codes "/preInit") warmup_code true) ∷ [],
      )
unfolding warmup_callback with_session send_http_request
callback-preinit t w = refl

callback-prerun :
    (t : ℕ) (w : Warmup)
    → warmup_callback t initialized w
      ≡ ok (
        record w { session = sent (codes "/preRun") warmup_args false w.session },
        send (http_post_request (codes "/preRun") warmup_args false) ∷ [],
      )
unfolding warmup_callback with_session send_http_request
callback-prerun t w = refl

-- The instance accepts the connection, says that it is ready, has its snapshot taken, replies and closes.
abbrev pub warmed_up : (t₀ t₁ t₂ t₃ sv : ℕ) (ready reply : Bytes) → List WarmupEvent
warmed_up t₀ t₁ t₂ t₃ sv ready reply =
    handler (connects t₀)
    ∷ handler (connects_done t₁)
    ∷ calls_back t₁ connected
    ∷ handler (receives false ready)
    ∷ calls_back t₂ initialized
    ∷ captured sv
    ∷ handler (receives false reply)
    ∷ calls_back t₃ executed
    ∷ handler closes
    ∷ calls_back t₃ closed
    ∷ []

abbrev first_warmup : ℕ → InvokerRoot → Warmup
first_warmup preinit r = record {
  root = record r { preinit_env = preinit };
  session = new_session warmup_port;
  halts = false;
}

bootstrap-warmup_events :
    (preinit : ℕ) (es : List WarmupEvent) (r : InvokerRoot) {w : Warmup} {acts : List Action}
    → r.is_bootstrapped ≡ false
    → warmup_events es (first_warmup preinit r) ≡ ok (w, acts)
    → w.halts ≡ true
    → bootstrap (some preinit) es r ≡ ok (booted (record w.root { is_bootstrapped = true }) acts)
unfolding bootstrap second_boot finish_boot
bootstrap-warmup_events preinit es r {w} {acts} fresh runs halts =
    ap (λ (b : Bool). kassert (not b) >> second_boot (some preinit) es r) fresh
    ∙ ap (λ (m : Result (Warmup × List Action)). m >>= λ warm. ok (finish_boot warm)) runs
    ∙ ap
        (λ (b : Bool).
          ok (if b then booted (record w.root { is_bootstrapped = true }) acts else waits))
        halts

-- What is sent, in order.
abbrev pub requests : List Action → List Bytes
requests [] = []
requests (send msg ∷ acts) = msg ∷ requests acts
requests (a ∷ acts) = requests acts

-- Both boots go well: the first has its snapshot taken, and in the second the instance accepts the connection,
-- answers `200 OK` with `{"OK":true}`, has its snapshot taken, answers `200 OK` with a result, and
-- closes. Then `Bootstrap` of a new node returns; the node is booted on the second snapshot, and what
-- the instance was sent are the warm-up's code under `/preInit`, and then its arguments under `/preRun`.
pub bootstrap-warmed_up :
    (preinit sv t₀ t₁ t₂ t₃ brace brace' : ℕ) (ready reply : Bytes) (r : InvokerRoot)
    → r.is_bootstrapped ≡ false
    → find_first_of b'{' ready ≡ some brace
    → status_line ready ≡ codes "HTTP/1.1 200 OK"
    → drop brace ready ≡ codes "{\"OK\":true}"
    → find_first_of b'{' reply ≡ some brace'
    → status_line reply ≡ codes "HTTP/1.1 200 OK"
    → (acts : List Action) × (bootstrap (some preinit) (warmed_up t₀ t₁ t₂ t₃ sv ready reply) r
        ≡ ok (booted (after_boot preinit sv r) acts))
      × (requests acts
          ≡ http_post_request (codes "/preInit") warmup_code true
            ∷ http_post_request (codes "/preRun") warmup_args false
            ∷ [])
unfolding bootstrap second_boot finish_boot step on_close disable_timer warmup_callback new_session
bootstrap-warmed_up preinit sv t₀ t₁ t₂ t₃ brace brace' ready reply r fresh r₁ r₂ r₃ p₁ p₂ =
    let w₀ = first_warmup preinit r in
    let w₁ = record w₀ { session = connecting t₀ warmup_port } in
    let w₂ = record w₁ { session = up t₁ warmup_port } in
    let w₃ = record w₂ { session = sent (codes "/preInit") warmup_code true w₂.session } in
    let w₄ = record w₃ { session = record w₃.session { is_initialized = true } } in
    let w₅ = record w₄ { session = sent (codes "/preRun") warmup_args false w₄.session } in
    let w₆ = record w₅ { root = record w₅.root { base_um_env = sv } } in
    let w₇ = record w₆ { session = record w₆.session { reply = drop brace' reply } } in
    let w₈ = record w₇ { session = (on_close w₇.session).0 } in
    let runs =
      warmup_events-handler (connects t₀) _ w₀
        (connect-new_session t₀ warmup_port (λ z. omega arith))
        (warmup_events-handler (connects_done t₁) _ w₁ (ap ok (on_connected-up t₀ t₁ warmup_port)) (
          warmup_events-calls_back t₁ connected _ w₂ (callback-preinit t₁ w₂) (
            warmup_events-handler (receives false ready) _ w₃
              (receive-ready ready brace w₃.session r₁ r₂ r₃ refl)
              (warmup_events-calls_back t₂ initialized _ w₄ (callback-prerun t₂ w₄) (
                warmup_events-captured sv _ w₅ (
                  warmup_events-handler (receives false reply) _ w₆
                    (receive-reply reply brace' w₆.session p₁ p₂ refl)
                    (warmup_events-calls_back t₃ executed _ w₇ refl (
                      warmup_events-handler closes _ w₇ refl (
                        warmup_events-calls_back t₃ closed [] w₈ refl
                          (warmup_events-none _)))))))))) in
    (_, bootstrap-warmup_events preinit _ r fresh runs refl, refl)
