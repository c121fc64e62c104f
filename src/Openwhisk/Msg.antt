-- ===== src/Openwhisk/Msg.antt =====
-- src/openwhisk/msg.h and src/openwhisk/msg.cc: the messages and their texts. Members that no
-- constructor sets are arguments, since their values are indeterminate.
use seuss.Prelude.{ℕ, Bool, Bytes, codes}
use seuss.Prelude.Int.{ℤ, pos}

pub record TransactionId : Type 0 where
  pub name : Bytes
  pub id : ℕ

pub record InstanceId : Type 0 where
  pub instance_id : ℤ
  pub name : Bytes

pub record Action : Type 0 where
  pub path : Bytes
  pub name : Bytes
  pub version : Bytes

pub record Namespace : Type 0 where
  pub name : Bytes
  pub uuid : Bytes

pub record User : Type 0 where
  pub subject : Bytes
  pub authkey : Bytes
  pub namespace : Namespace

pub record PingMessage : Type 0 where
  pub name : InstanceId

pub record ActivationMessage : Type 0 where
  pub transid : TransactionId
  pub root_controller_index : InstanceId
  pub activation_id : Bytes
  pub revision : Bytes
  pub content : Bytes
  pub action : Action
  pub user : User
  pub blocking : Bool

pub record Response : Type 0 where
  pub activation_id : Bytes
  pub name : Bytes
  pub namespace : Bytes
  pub publish : Bytes
  pub subject : Bytes
  pub version : Bytes
  pub annotations : Bytes
  pub duration : ℤ
  pub start : ℤ
  pub end : ℤ
  pub status_code : ℤ
  pub result : Bytes

pub record CompletionMessage : Type 0 where
  pub transid : TransactionId
  pub response : Response
  pub invoker : InstanceId

-- `CompletionMessage(am)`: the answer to an activation, before it has a result.
unfoldable pub new_completion : (instance₀ status₀ : ℤ) → ActivationMessage → CompletionMessage
new_completion instance₀ status₀ am = record {
  transid = am.transid;
  response = record {
    activation_id = am.activation_id;
    name = am.action.name;
    namespace = am.user.namespace.name;
    publish = codes "false";
    subject = am.user.subject;
    version = am.action.version;
    annotations = codes "";
    duration = pos 0;
    start = pos 0;
    end = pos 0;
    status_code = status₀;
    result = codes "{}";
  };
  invoker = record { instance_id = instance₀; name = codes "" };
}
