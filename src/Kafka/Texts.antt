-- ===== src/Kafka/Texts.antt =====
-- Texts among the outputs of the client, names among the activations that wait, and the text of the annotations
-- (`activation_consumer_loop` of src/openwhisk/kafka.cc, `ResolveActivation` of src/SeussController.cc).
use seuss.Prelude.{
  ℕ, ◌≡◌, refl, Bool, true, ◌&&◌, some, List, [], ◌∷◌, ◌++◌, arith, Bytes, bytes_eq, nat_eq, codes,
  Result, ok, panic, append_assoc,
}
use seuss.Prelude.Int.{pos, of_word, to_string_signed}
use seuss.Table.{Table, find, erase}
use seuss.Invocation.{ExecStats}
use seuss.Openwhisk.Msg.{ActivationMessage}
use seuss.Openwhisk.Numbers.{integer, to_string_signed-is_number}
use seuss.Openwhisk.Grammar.{
  string, object, Elements, no_element, element, text_of, text_of_elements, is_string, is_blank,
  is_proper, are_proper, IsText,
}
use seuss.Openwhisk.Completed.{named, last, is_plain_message, ping-IsText}
use seuss.Controller.Defs.{ActivationRecord, annotations}
use seuss.Kafka.Defs.{Kafka, heartbeat, Output, produce, commit, send_request, sleep}

-- Whatever is produced is a text of JSON.
abbrev pub AreTexts : List Output → Type 0
AreTexts [] = Unit {0}
AreTexts (produce topic text ∷ outs) = IsText text × AreTexts outs
AreTexts (commit ∷ outs) = AreTexts outs
AreTexts (send_request out ∷ outs) = AreTexts outs
AreTexts (sleep ms ∷ outs) = AreTexts outs

-- The names of the activations that wait can stand in a string as they are.
abbrev pub all_plain : Table ℕ ActivationRecord → Bool
all_plain [] = true
all_plain ((tid, entry) ∷ m) = is_plain_message entry.message && all_plain m

abbrev pub reads_plain : Result ActivationMessage → Bool
reads_plain panic = true
reads_plain (ok am) = is_plain_message am

pub append-AreTexts : (xs ys : List Output) → AreTexts xs → AreTexts ys → AreTexts (xs ++ ys)
append-AreTexts [] ys h k = k
append-AreTexts (produce topic text ∷ xs) ys h k = (h.0, append-AreTexts xs ys h.1 k)
append-AreTexts (commit ∷ xs) ys h k = append-AreTexts xs ys h k
append-AreTexts (send_request out ∷ xs) ys h k = append-AreTexts xs ys h k
append-AreTexts (sleep ms ∷ xs) ys h k = append-AreTexts xs ys h k

pub find-all_plain :
    (tid : ℕ) (entry : ActivationRecord) (m : Table ℕ ActivationRecord)
    → all_plain m ≡ true
    → find tid m ≡ some entry
    → is_plain_message entry.message ≡ true
unfolding find
find-all_plain tid entry [] h at = ground arith
find-all_plain tid entry ((j, other) ∷ m) h at = ground (arith, find-all_plain tid entry m)

pub erase-all_plain :
    (tid : ℕ) (m : Table ℕ ActivationRecord) → all_plain m ≡ true → all_plain (erase tid m) ≡ true
unfolding erase
erase-all_plain tid [] h = refl
erase-all_plain tid ((j, entry) ∷ m) h = ground (arith, erase-all_plain tid m)

-- One annotation.
abbrev measure : (key : Bytes) (value : ℕ) → Elements → Elements
measure key value rest =
    element
      (object (named (codes "key") (string key) (named (codes "value") (integer (pos value)) last)))
      rest

abbrev pub measures : (wait : ℕ) → ExecStats → Elements
measures wait exec =
    measure (codes "waitTime") wait (measure (codes "initTime") exec.init_time (no_element []))

pub annotations-text_of :
    (wait : ℕ) (exec : ExecStats)
    → annotations wait exec ≡ text_of_elements true (measures wait exec)
unfolding annotations text_of to_string_signed
annotations-text_of wait exec = simp append_assoc

pub measures-are_proper : (wait : ℕ) (exec : ExecStats) → are_proper (measures wait exec) ≡ true
unfolding is_proper is_string is_blank
measures-are_proper wait exec =
    ground (
      arith,
      to_string_signed-is_number (pos wait),
      to_string_signed-is_number (pos exec.init_time),
    )

pub heartbeat-AreTexts : (k : Kafka) → AreTexts (heartbeat k)
unfolding heartbeat
heartbeat-AreTexts k = (ping-IsText (of_word k.invoker_id), tt)
