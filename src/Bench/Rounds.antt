-- ===== src/Bench/Rounds.antt =====
-- `openwhisk::test` of src/openwhisk/openwhisk.cc: one benchmark, from the names of its runs on.
use seuss.Prelude.{
  ℕ, zero, suc, Bool, true, false, Option, none, some, List, [], ◌∷◌, ◌++◌, Bytes, codes, is_empty,
  if◌then◌else◌, Result, ok, ◌>>=◌,
}
use seuss.Prelude.Int.{ℤ, pos, negsuc}
use seuss.Prelude.Decimal.{to_string}
use seuss.Invocation.{InvocationStats}
use seuss.Openwhisk.Msg.{ActivationMessage, CompletionMessage}
use seuss.Controller.Defs.{Controller, Outgoing, schedule_with_code, resolve_activation}

abbrev pub default_function : Bytes
default_function =
    codes
      "function main(args) { var spin=0; var count = 0; if(args.spin) spin=args.spin; var max = 1<<spin; for (var line=1; line<max; line++) { count++; } return {done:true, c:count}; })"

-- The code that is run: `openwhisk::function`, or the default one.
unfoldable pub code_of : (function : Bytes) → Bytes
code_of function = if is_empty function then default_function else function

unfoldable pub below_one : ℤ → Bool
below_one (pos zero) = true
below_one (pos (suc n)) = false
below_one (negsuc n) = true

unfoldable pub minus_one : ℤ → ℤ
minus_one (pos zero) = negsuc 0
minus_one (pos (suc n)) = pos n
minus_one (negsuc n) = negsuc (suc n)

unfoldable pub plus_one : ℤ → ℤ
plus_one (pos n) = pos (suc n)
plus_one (negsuc zero) = pos 0
plus_one (negsuc (suc n)) = negsuc n

-- The names that are still to be run, and `concurrencyPool`.
pub record Rounds : Type 0 where
  pub revisions : List Bytes
  pub pool : ℤ
  pub controller : Controller

-- The loop goes on, with the number that it draws and the promise that the controller makes; or the reply of
-- a node comes in.
pub data RoundEvent : Type 0 where
  goes_on : (now promise drawn : ℕ) → RoundEvent
  replies : (now : ℕ) → InvocationStats → Bytes → RoundEvent

-- The continuation of the completion.
unfoldable pub put_back : Option (ℕ × CompletionMessage) → ℤ → ℤ
unfolding plus_one
put_back none pool = pool
put_back (some done) pool = plus_one pool

module _ (hash : Bytes → ℕ) (nid_text : ℕ → Bytes) (instance₀ status₀ : ℤ) (am : ActivationMessage)
    (code : Bytes) where
  -- The body of the loop at one name. Without a place in the pool it sleeps.
  unfoldable pub send_next :
      (now promise drawn : ℕ) → List Bytes → Rounds → Result (Rounds × List Outgoing)
  unfolding below_one minus_one
  send_next now promise drawn [] s = ok (s, [])
  send_next now promise drawn (re ∷ rest) s = if below_one s.pool then ok (s, []) else do
    let am_tmp = record am { transid = record am.transid { name = to_string drawn }; revision = re }
    (c, out) ← schedule_with_code hash nid_text now promise s.controller am_tmp code
    ok (record { revisions = rest; pool = minus_one s.pool; controller = c }, out ∷ [])

  unfoldable pub round : RoundEvent → Rounds → Result (Rounds × List Outgoing)
  unfolding send_next put_back
  round (goes_on now promise drawn) s = send_next now promise drawn s.revisions s
  round (replies now istats res) s =
      let (c, done) = resolve_activation instance₀ status₀ now s.controller istats res in
      ok (record s { pool = put_back done s.pool; controller = c }, [])

  unfoldable pub rounds : List RoundEvent → Rounds → Result (Rounds × List Outgoing)
  unfolding round
  rounds [] s = ok (s, [])
  rounds (e ∷ es) s = do (s', sent) ← round e s; (s'', more) ← rounds es s'; ok (s'', sent ++ more)
