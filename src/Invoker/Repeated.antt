-- ===== src/Invoker/Repeated.antt =====
-- A warm or a hot start of a function whose result is the text that also answers an initialisation.
use seuss.Prelude.{
  ℕ, nat_eq, ◌≡◌, refl, ap, ◌∙◌, ◌≢◌, Bool, true, false, some, List, [], ◌∷◌, ok, Bytes, codes,
  is_empty, drop, find_first_of, bytes_eq,
}
use seuss.Session.Defs.{status_line, send, connected, initialized, new_session, connect}
use seuss.Session.Http.{http_post_request}
use seuss.Session.History.{connects, connects_done, receives, step}
use seuss.Invoker.Defs.{callback, Output, did}
use seuss.Invoker.Starts.{Job, handler, Event, calls_back, events}
use seuss.Invoker.Events.{
  events-none, events-handler, events-calls_back, connecting, connect-new_session,
}
use seuss.Invoker.Served.{replies, up, on_connected-up, receive-ready, when_initialized-run}
use seuss.Invoker.Answered.{run_first, when_connected-run}

-- What the instance is sent.
abbrev pub sent_to_instance : List Output → List Bytes
sent_to_instance [] = []
sent_to_instance (did (send msg) ∷ outs) = msg ∷ sent_to_instance outs
sent_to_instance (o ∷ outs) = sent_to_instance outs

abbrev pub ok_result : (t₀ t₁ t₂ : ℕ) (reply : Bytes) → List Event
ok_result t₀ t₁ t₂ reply =
    handler (connects t₀)
    ∷ handler (connects_done t₁)
    ∷ calls_back t₁ connected
    ∷ handler (receives false reply)
    ∷ calls_back t₂ initialized
    ∷ []

-- An attempt without code, as each warm or hot start is, with arguments, on a new session with a
-- port other than 0. The instance accepts the connection, runs the function, and the function
-- returns `{"OK":true}`, with the status `200 OK`. The session takes this for the answer to an
-- initialisation: no reply goes out, and the same run request is sent to the instance a second
-- time.
pub ok_result_runs_again :
    (known : ℕ → Bool) (checkpoint : Bool) (t₀ t₁ t₂ brace port : ℕ) (reply : Bytes) (j : Job)
    → find_first_of b'{' reply ≡ some brace
    → status_line reply ≡ codes "HTTP/1.1 200 OK"
    → drop brace reply ≡ codes "{\"OK\":true}"
    → port ≢ 0
    → j.attempt.session ≡ new_session port
    → is_empty j.attempt.code ≡ true
    → is_empty j.attempt.args ≡ false
    → (j' : Job) × (outs : List Output) × (events known checkpoint (ok_result t₀ t₁ t₂ reply) j
        ≡ ok (j', outs))
      × (sent_to_instance outs
          ≡ http_post_request (codes "/run") j.attempt.args false
            ∷ http_post_request (codes "/run") j.attempt.args false
            ∷ [])
      × (replies outs ≡ [])
unfolding step callback new_session
ok_result_runs_again known checkpoint t₀ t₁ t₂ brace port reply j at good same far new no_code
      some_args =
    let a₀ = record j.attempt { session = connecting t₀ port } in
    let a₁ = record j.attempt { session = up t₁ port } in
    let a₂ = run_first t₁ a₁ in
    let a₃ = record a₂ { session = record a₂.session { is_initialized = true } } in
    (
      _,
      _,
      events-handler known checkpoint (connects t₀) _ j
          (ap (connect t₀) new ∙ connect-new_session t₀ port far)
          (events-handler known checkpoint (connects_done t₁) _ (record j { attempt = a₀ })
            (ap ok (on_connected-up t₀ t₁ port))
            (events-calls_back known checkpoint t₁ connected _ (record j { attempt = a₁ })
              (when_connected-run t₁ a₁ j.node.hot no_code some_args)
              (events-handler known checkpoint (receives false reply) _ (record j { attempt = a₂ })
                (receive-ready reply brace a₂.session at good same refl)
                (events-calls_back known checkpoint t₂ initialized _ (record j { attempt = a₃ })
                  (when_initialized-run t₂ a₃ j.node.hot some_args)
                  (events-none known checkpoint _))))),
      refl,
      refl,
    )
