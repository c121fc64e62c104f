-- ===== src/Session/Examples.antt =====
-- Runs of a session on small inputs.
use seuss.Prelude.{◌≡◌, ◌≢◌, refl, true, false, some, [], ◌∷◌, List, arith, Bytes, codes, drop, ok}
use seuss.Prelude.Decimal.{to_string}
use seuss.Session.Http.{http_post_request, request_body}
use seuss.Session.Defs.{
  InvocationSession, set_value, spawn_set_value, timer_start, timer_stop, connect_to, disconnect,
  connected, closed, initialized, new_session, connect, on_connected, on_close, receive,
  receive_status, receive_response, process_reply, status_line, enable_timer, disable_timer,
}
use seuss.Session.History.{
  Call, connects, connects_done, closes, receives, step, Happening, did, run,
}
use seuss.Session.Timer.{follow, run-follow}

abbrev fresh : InvocationSession
fresh = record {
  is_connected = false;
  is_initialized = false;
  src_port = 49160;
  timer_set = false;
  timeout = 0;
  init_start_time = 0;
  run_start_time = 0;
  previous_request = [];
  reply = [];
}

fresh_lem : new_session 49160 ≡ fresh
unfolding new_session
fresh_lem = refl

request_example :
    http_post_request (codes "/init") (codes "a\nb") true
    ≡ codes
        "POST /init HTTP/1.0\r\nContent-Type: application/json\r\nConnection: keep-alive\r\ncontent-length: 39\r\n\r\n{\"value\": {\"main\":\"main\", \"code\":\"ab\"}}"
unfolding http_post_request request_body to_string
request_example = refl

abbrev failure : Bytes
failure = codes "HTTP/1.1 502 Bad Gateway\r\n\r\n{\"error\":\"x\"}"

abbrev success : Bytes
success = codes "HTTP/1.1 200 OK\r\n\r\n{\"OK\":true}"

failure_status : status_line failure ≢ codes "HTTP/1.1 200 OK"
failure_status e = ground arith

failure_text : drop 28 failure ≢ codes "{\"OK\":true}"
failure_text e = ground arith

abbrev calls : List Call
calls = connects 10 ∷ connects_done 2000 ∷ receives false success ∷ closes ∷ []

abbrev ended : InvocationSession
ended = record fresh { is_initialized = true }

abbrev seen : List Happening
seen =
    did (connect_to 49160)
    ∷ did (timer_start 5000000)
    ∷ did timer_stop
    ∷ did (timer_start 60000000)
    ∷ did (spawn_set_value connected)
    ∷ did (set_value initialized)
    ∷ did timer_stop
    ∷ did disconnect
    ∷ did (spawn_set_value closed)
    ∷ []

ran : run fresh calls ≡ ok (ended, seen)
unfolding run step connect on_connected on_close receive process_reply receive_status
    receive_response enable_timer disable_timer
ran = refl

run-follow_example : follow false seen ≡ some false
run-follow_example = run-follow fresh ended calls seen ran
