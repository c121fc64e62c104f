-- ===== src/Openwhisk/Json.antt =====
-- The texts of the messages of src/openwhisk/msg.h: `to_json` of each.
use seuss.Prelude.{Bool, ◌++◌, Bytes, codes, is_empty, if◌then◌else◌}
use seuss.Prelude.Decimal.{to_string}
use seuss.Prelude.Int.{to_string_signed}
use seuss.Openwhisk.Msg.{
  TransactionId, InstanceId, Action, Namespace, User, PingMessage, ActivationMessage, Response,
  CompletionMessage,
}

unfoldable pub transaction_to_json : TransactionId → Bytes
transaction_to_json t = codes "[\"" ++ (t.name ++ (codes "\"," ++ (to_string t.id ++ codes "]")))

unfoldable pub instance_to_json : InstanceId → Bytes
instance_to_json i =
    if is_empty i.name
    then codes "{\"instance\":" ++ (to_string_signed i.instance_id ++ codes "}")
    else codes "{\"instance\":"
      ++ (to_string_signed i.instance_id ++ (codes ",\"name\":\"" ++ (i.name ++ codes "\"}")))

unfoldable pub action_to_json : Action → Bytes
action_to_json a =
    codes "{\"path\":\""
    ++ (a.path
        ++ (codes "\",\"name\":\""
            ++ (a.name ++ (codes "\",\"version\":\"" ++ (a.version ++ codes "\"}")))))

unfoldable pub namespace_to_json : Namespace → Bytes
namespace_to_json n =
    codes "{\"name\":\"" ++ (n.name ++ (codes "\",\"uuid\":\"" ++ (n.uuid ++ codes "\"}")))

unfoldable pub user_to_json : User → Bytes
unfolding namespace_to_json
user_to_json u =
    codes "{\"subject\":\""
    ++ (u.subject
        ++ (codes "\",\"authkey\":\""
            ++ (u.authkey
                ++ (codes "\",\"namespace\":" ++ (namespace_to_json u.namespace ++ codes "}")))))

unfoldable pub ping_to_json : PingMessage → Bytes
unfolding instance_to_json
ping_to_json p = codes "{\"name\":" ++ (instance_to_json p.name ++ codes "}")

-- `std::to_string(bool)`
unfoldable pub bool_to_string : Bool → Bytes
bool_to_string b = if b then codes "1" else codes "0"

unfoldable pub activation_to_json : ActivationMessage → Bytes
unfolding instance_to_json transaction_to_json action_to_json user_to_json bool_to_string
activation_to_json m =
    codes "{\"rootControllerIndex\":"
    ++ (instance_to_json m.root_controller_index
        ++ (codes ",\"activationId\":\""
            ++ (m.activation_id
                ++ (codes "\",\"revision\":\""
                    ++ (m.revision
                        ++ (codes "\",\"transid\":"
                            ++ (transaction_to_json m.transid
                                ++ (codes ",\"action\":"
                                    ++ (action_to_json m.action
                                        ++ (codes ",\"content\":"
                                            ++ (m.content
                                                ++ (codes ",\"blocking\":"
                                                    ++ (bool_to_string m.blocking
                                                        ++ (codes ",\"user\":"
                                                            ++ (user_to_json m.user
                                                            ++ codes "}")))))))))))))))

unfoldable pub response_to_json : Response → Bytes
response_to_json r =
    codes "{\"duration\":"
    ++ (to_string_signed r.duration
        ++ (codes ",\"name\":\""
            ++ (r.name
                ++ (codes "\",\"subject\":\""
                    ++ (r.subject
                        ++ (codes "\",\"activationId\":\""
                            ++ (r.activation_id
                                ++ (codes "\",\"publish\":"
                                    ++ (r.publish
                                        ++ (codes ",\"version\":\""
                                            ++ (r.version
                                                ++ (codes "\",\"end\":"
                                                    ++ (to_string_signed r.end
                                                        ++ (codes ",\"start\":"
                                                            ++ (to_string_signed r.start
                                                            ++ (codes ",\"namespace\":\""
                                                            ++ (r.namespace
                                                            ++ (codes
                                                            "\",\"response\":{\"statusCode\":"
                                                            ++ (to_string_signed r.status_code
                                                            ++ (codes ",\"result\":"
                                                            ++ (r.result
                                                            ++ (codes
                                                            "},\"logs\":[],\"annotations\":["
                                                            ++ (r.annotations
                                                            ++ codes "]}")))))))))))))))))))))))

unfoldable pub completion_to_json : CompletionMessage → Bytes
unfolding transaction_to_json response_to_json instance_to_json
completion_to_json c =
    codes "{\"transid\":"
    ++ (transaction_to_json c.transid
        ++ (codes ",\"response\":"
            ++ (response_to_json c.response
                ++ (codes ",\"invoker\":" ++ (instance_to_json c.invoker ++ codes "}")))))
