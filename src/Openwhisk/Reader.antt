-- ===== src/Openwhisk/Reader.antt =====
-- `ActivationMessage::ActivationMessage(json)` of src/openwhisk/msg.cc, over the YAJL library.
use seuss.Prelude.{
  ℕ, Bool, true, false, Option, none, some, List, [], ◌∷◌, ◌++◌, Bytes, codes, length, leb,
  if◌then◌else◌, Result, ok, panic, ◌>>=◌, ◌>>◌, expect, kassert,
}
use seuss.Prelude.Int.{ℤ, to_string_signed, to_word}
use seuss.Openwhisk.Msg.{TransactionId, ActivationMessage}

-- What the code uses of YAJL: the parser, `yajl_tree_get` at each of its types, and the two macros that
-- read a value. `as_string` is `none` where the value is no string.
pub record Yajl : Type 1 where
  pub Tree : Type 0
  pub tree_parse : Bytes → Option Tree
  pub get_string : Tree → List Bytes → Option Bytes
  pub get_number : Tree → List Bytes → Option ℤ
  pub get_object : Tree → List Bytes → Option (List (Bytes × Tree))
  pub get_array : Tree → List Bytes → Option (List Tree)
  pub as_string : Tree → Option Bytes
  pub as_integer : Tree → ℤ

-- A new message: its texts are empty, and the three arguments are what its other members happen to hold.
unfoldable pub new_activation : (id₀ : ℕ) (instance₀ : ℤ) (blocking₀ : Bool) → ActivationMessage
new_activation id₀ instance₀ blocking₀ = record {
  transid = record { name = []; id = id₀ };
  root_controller_index = record { instance_id = instance₀; name = [] };
  activation_id = [];
  revision = [];
  content = [];
  action = record { path = []; name = []; version = [] };
  user = record { subject = []; authkey = []; namespace = record { name = []; uuid = [] } };
  blocking = blocking₀;
}

-- `if (yv) member = ...`
abbrev pub assigned {ℓ} : {A : Type ℓ} → Option A → A → A
assigned none old = old
assigned (some new) old = new

module _ (y : Yajl) where
  open y use {
    Tree, tree_parse, get_string, get_number, get_object, get_array, as_string, as_integer,
  }

  -- A value of the arguments: a string in quotes, anything else as an integer.
  unfoldable pub print_value : Option Bytes → ℤ → Bytes
  print_value (some text) n = b'"' ∷ (text ++ codes "\"")
  print_value none n = to_string_signed n

  unfoldable pub print_member : Bytes × Tree → Bytes
  unfolding print_value
  print_member (key, value) =
      b'"' ∷ (key ++ (codes "\":" ++ print_value (as_string value) (as_integer value)))

  unfoldable pub print_members : (first : Bool) → List (Bytes × Tree) → Bytes
  unfolding print_member
  print_members first [] = []
  print_members first (m ∷ ms) =
      (if first then [] else codes ",") ++ (print_member m ++ print_members false ms)

  -- The arguments. The loop counts in a `uint16_t`: over more members it never ends, and the text that it
  -- builds takes all the memory.
  unfoldable pub read_content : Option (List (Bytes × Tree)) → Result Bytes
  unfolding print_members
  read_content none = ok (codes "{}")
  read_content (some members) = do
    kassert (leb (length members) 65535)
    ok (codes "{" ++ (print_members true members ++ codes "}"))

  -- The first two members of the array, whatever is there; a member that is missing, and a name that
  -- is no string, is an access to nothing.
  unfoldable pub read_transid : Option (List Tree) → TransactionId → Result TransactionId
  read_transid none old = ok old
  read_transid (some (first ∷ second ∷ more)) old = do
    name ← expect (as_string first)
    ok (record { name = name; id = to_word (as_integer second) })
  read_transid (some other) old = panic

  unfoldable pub read_members : Tree → ActivationMessage → Result ActivationMessage
  unfolding read_content read_transid
  read_members t m = do
    content ← read_content (get_object t (codes "content" ∷ []))
    transid ← read_transid (get_array t (codes "transid" ∷ [])) m.transid
    ok (record {
      transid = transid;
      root_controller_index = record {
        instance_id =
            assigned (get_number t (codes "rootControllerIndex" ∷ codes "instance" ∷ []))
              m.root_controller_index.instance_id;
        name =
            assigned (get_string t (codes "rootControllerIndex" ∷ codes "name" ∷ []))
              m.root_controller_index.name;
      };
      activation_id = assigned (get_string t (codes "activationId" ∷ [])) m.activation_id;
      revision = assigned (get_string t (codes "revision" ∷ [])) m.revision;
      content = content;
      action = record {
        path = assigned (get_string t (codes "action" ∷ codes "path" ∷ [])) m.action.path;
        name = assigned (get_string t (codes "action" ∷ codes "name" ∷ [])) m.action.name;
        version = assigned (get_string t (codes "action" ∷ codes "version" ∷ [])) m.action.version;
      };
      user = record {
        subject = assigned (get_string t (codes "user" ∷ codes "subject" ∷ [])) m.user.subject;
        authkey = assigned (get_string t (codes "user" ∷ codes "authkey" ∷ [])) m.user.authkey;
        namespace = record {
          name =
              assigned (get_string t (codes "user" ∷ codes "namespace" ∷ codes "name" ∷ []))
                m.user.namespace.name;
          uuid =
              assigned (get_string t (codes "user" ∷ codes "namespace" ∷ codes "uuid" ∷ []))
                m.user.namespace.uuid;
        };
      };
      blocking = m.blocking;
    })

  unfoldable pub read_tree : Option Tree → ActivationMessage → Result ActivationMessage
  unfolding read_members
  read_tree none m = ok m
  read_tree (some t) m = read_members t m

  -- The constructor: a text that is no JSON leaves the message as it is.
  unfoldable pub read_activation :
      (id₀ : ℕ) (instance₀ : ℤ) (blocking₀ : Bool) → Bytes → Result ActivationMessage
  unfolding read_tree new_activation
  read_activation id₀ instance₀ blocking₀ json =
      read_tree (tree_parse json) (new_activation id₀ instance₀ blocking₀)
