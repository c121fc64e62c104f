-- ===== src/Controller/Outcome.antt =====
-- When an activation can be scheduled.
use seuss.Prelude.{
  ℕ, ◌≡◌, not, ◌&&◌, inl, inr, [], ◌∷◌, nat_eq, leb, is_some, Bytes, length, length-append, is_ok,
  arith, Option-cases,
}
use seuss.Table.{find, emplace_new, emplace_old}
use seuss.Channel.Defs.{read_at}
use seuss.Openwhisk.Msg.{ActivationMessage}
use seuss.Controller.Defs.{Controller, ready, copy_activation_id, front, schedule_with_code}
use seuss.Controller.Records.{entry_of}

copy_activation_id_ok : (text : Bytes) → is_ok (copy_activation_id text) ≡ leb 32 (length text)
unfolding copy_activation_id read_at
copy_activation_id_ok text = ground (arith, length-append text (0 ∷ []))

front_ok :
    (hash : Bytes → ℕ) (nid_text : ℕ → Bytes) (c : Controller)
    → is_ok (front hash nid_text c.nids) ≡ ready c
unfolding front ready
front_ok hash nid_text c = ground arith

-- `ScheduleActivation` goes through exactly if the activation id has at least 32 bytes, no transaction
-- with the same hash waits for its result, and a node has registered. Where one of the last two fails,
-- an assertion stops the machine. An id that is shorter is read past its end, which the language leaves
-- undefined and which need not stop anything; the model does not go on from there.
pub schedule_outcome :
    (hash : Bytes → ℕ) (nid_text : ℕ → Bytes) (now promise : ℕ) (c : Controller)
    (am : ActivationMessage) (code : Bytes)
    → is_ok (schedule_with_code hash nid_text now promise c am code)
      ≡ leb 32 (length am.activation_id)
        && not (is_some (find (hash am.transid.name) c.record_map))
        && ready c
unfolding schedule_with_code
schedule_outcome hash nid_text now promise c am code =
    let id = copy_activation_id_ok am.activation_id in
    let nodes = front_ok hash nid_text c in
    let entry = entry_of now promise am in
    elim (Option-cases (find (hash am.transid.name) c.record_map)) [
      | inl new ↦
          ground (arith, id, nodes, emplace_new (hash am.transid.name) entry c.record_map new)
      | inr (old, at) ↦
          ground (arith, id, nodes, emplace_old (hash am.transid.name) entry old c.record_map at)
    ]
