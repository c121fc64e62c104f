-- ===== src/Openwhisk/RoundTrip.antt =====
-- An activation that is printed and read back.
use seuss.Prelude.{codes, is_empty, if◌then◌else◌, bytes_eq}
use seuss.Prelude.Int.{pos}
use seuss.Openwhisk.Msg.{InstanceId, ActivationMessage}
use seuss.Openwhisk.Document.{Json, string, number, object, array, Fields, end, field, nil, cons}

-- The arguments are strings and integers.
abbrev pub IsFlat : Fields → Type 0
IsFlat end = Unit {0}
IsFlat (field k (string s) fs) = IsFlat fs
IsFlat (field k (number n) fs) = IsFlat fs
IsFlat (field k other fs) = ⊥

-- The document that a message stands for, with the fields of its content.
abbrev instance_document : InstanceId → Json
instance_document i = object (
    field (codes "instance") (number i.instance_id)
      (if is_empty i.name then end else field (codes "name") (string i.name) end))

abbrev pub document : ActivationMessage → Fields → Json
document m fs = object (
    field (codes "rootControllerIndex") (instance_document m.root_controller_index) (
      field (codes "activationId") (string m.activation_id) (
        field (codes "revision") (string m.revision) (
          field (codes "transid")
            (array (cons (string m.transid.name) (cons (number (pos m.transid.id)) nil)))
            (field (codes "action")
              (object (
                field (codes "path") (string m.action.path) (
                  field (codes "name") (string m.action.name)
                    (field (codes "version") (string m.action.version) end))))
              (field (codes "content") (object fs) (
                field (codes "blocking") (number (pos (if m.blocking then 1 else 0))) (
                  field (codes "user")
                    (object (
                      field (codes "subject") (string m.user.subject) (
                        field (codes "authkey") (string m.user.authkey) (
                          field (codes "namespace")
                            (object (
                              field (codes "name") (string m.user.namespace.name)
                                (field (codes "uuid") (string m.user.namespace.uuid) end)))
                            end))))
                    end))))))))
