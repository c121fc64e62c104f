-- ===== src/Openwhisk/Completed.antt =====
-- The texts of the completions and of the heartbeat (`to_json` of src/openwhisk/msg.cc), and what they hold.
use seuss.Prelude.{
  Bool-cases, inl, inr, is_empty, if◌then◌else◌, [], ◌≡◌, refl, append_assoc, Bool, true, false,
  ◌&&◌, nat_eq, arith, Bytes, codes,
}
use seuss.Prelude.Int.{ℤ, pos, to_string_signed}
use seuss.Openwhisk.Msg.{InstanceId, ActivationMessage, CompletionMessage, new_completion}
use seuss.Openwhisk.Json.{
  instance_to_json, ping_to_json, transaction_to_json, response_to_json, completion_to_json,
}
use seuss.Openwhisk.Numbers.{integer, to_string_signed-is_number}
use seuss.Openwhisk.Grammar.{
  Value, boolean, string, object, array, Members, no_member, member, Elements, no_element, element,
  text_of, text_of_elements, is_string, is_blank, is_proper, are_proper, IsText,
}

abbrev pub named : (key : Bytes) → Value → Members → Members
named key v ms = member [] key [] v ms

abbrev pub last : Members
last = no_member []

abbrev instance_value : InstanceId → Value
instance_value i = object (
    named (codes "instance") (integer i.instance_id)
      (if is_empty i.name then last else named (codes "name") (string i.name) last))

instance_to_json-text_of : (i : InstanceId) → instance_to_json i ≡ text_of (instance_value i)
unfolding instance_to_json text_of
instance_to_json-text_of i = elim (Bool-cases (is_empty i.name)) [
  | inl unnamed ↦ simp (unnamed, append_assoc)
  | inr given ↦ simp (given, append_assoc)
]

-- A message of the heartbeat, for an invoker that has no name.
pub ping-IsText :
    (id : ℤ) → IsText (ping_to_json (record { name = record { instance_id = id; name = [] } }))
unfolding ping_to_json instance_to_json text_of is_proper is_string is_blank
ping-IsText id =
    let i : InstanceId = record { instance_id = id; name = [] } in
    (
      object (named (codes "name") (instance_value i) last),
      ground (arith, to_string_signed-is_number id),
      simp append_assoc,
    )

-- The value that a completion stands for, with those of its result and of its annotations.
abbrev pub completion_value :
    CompletionMessage → (publish : Bool) (result : Value) (annotations : Elements) → Value
completion_value cm publish result annotations = object (
    named (codes "transid")
      (array
        (element (string cm.transid.name) (element (integer (pos cm.transid.id)) (no_element []))))
      (named (codes "response")
        (object (
          named (codes "duration") (integer cm.response.duration) (
            named (codes "name") (string cm.response.name) (
              named (codes "subject") (string cm.response.subject) (
                named (codes "activationId") (string cm.response.activation_id) (
                  named (codes "publish") (boolean publish) (
                    named (codes "version") (string cm.response.version) (
                      named (codes "end") (integer cm.response.end) (
                        named (codes "start") (integer cm.response.start) (
                          named (codes "namespace") (string cm.response.namespace) (
                            named (codes "response")
                              (object (
                                named (codes "statusCode") (integer cm.response.status_code)
                                  (named (codes "result") result last)))
                              (named (codes "logs") (array (no_element []))
                                (named (codes "annotations") (array annotations) last)))))))))))))
        (named (codes "invoker") (instance_value cm.invoker) last)))

completion_to_json-text_of :
    (cm : CompletionMessage) (publish : Bool) (result : Value) (annotations : Elements)
    → cm.response.publish ≡ text_of (boolean publish)
    → cm.response.result ≡ text_of result
    → cm.response.annotations ≡ text_of_elements true annotations
    → completion_to_json cm ≡ text_of (completion_value cm publish result annotations)
unfolding completion_to_json transaction_to_json response_to_json text_of to_string_signed
completion_to_json-text_of cm publish result annotations a b c =
    simp (a, b, c, instance_to_json-text_of, append_assoc)

-- The names of an activation that its completion has can stand in a string as they are.
unfoldable pub is_plain_message : ActivationMessage → Bool
is_plain_message am =
    is_string am.transid.name
    && is_string am.activation_id
    && is_string am.action.name
    && is_string am.action.version
    && is_string am.user.subject
    && is_string am.user.namespace.name

module _ (instance₀ status₀ : ℤ) (am : ActivationMessage) (plain : is_plain_message am ≡ true) where
  -- A completion of the activation, with what is filled in later.
  abbrev pub filled : (duration status invoker : ℤ) (annotations result : Bytes) → CompletionMessage
  filled duration status invoker annotations result =
      let cm = new_completion instance₀ status₀ am in
      record {
        transid = cm.transid;
        response = record cm.response {
          annotations = annotations;
          duration = duration;
          status_code = status;
          result = result;
        };
        invoker = record cm.invoker { instance_id = invoker };
      }

  filled-is_proper :
      (duration status invoker : ℤ) (annotations result : Bytes) (v : Value) (xs : Elements)
      → is_proper v ≡ true
      → are_proper xs ≡ true
      → is_proper (completion_value (filled duration status invoker annotations result) false v xs)
        ≡ true
  unfolding new_completion is_plain_message is_proper is_string is_blank
  filled-is_proper duration status invoker annotations result v xs proper also = ground (
    arith,
    plain,
    proper,
    also,
    to_string_signed-is_number (pos am.transid.id),
    to_string_signed-is_number (pos 0),
    to_string_signed-is_number duration,
    to_string_signed-is_number status,
    to_string_signed-is_number invoker,
  )

  pub filled-IsText :
      (duration status invoker : ℤ) (annotations result : Bytes) (xs : Elements)
      → IsText result
      → annotations ≡ text_of_elements true xs
      → are_proper xs ≡ true
      → IsText (completion_to_json (filled duration status invoker annotations result))
  unfolding new_completion text_of
  filled-IsText duration status invoker annotations result xs (v, proper, text) same also =
      let cm = filled duration status invoker annotations result in
      (
        completion_value cm false v xs,
        filled-is_proper duration status invoker annotations result v xs proper also,
        completion_to_json-text_of cm false v xs refl text same,
      )
