-- ===== src/Bench/Prompt.antt =====
-- `openwhisk::test` of src/openwhisk/openwhisk.cc: what it does with a line of its input.
use seuss.Prelude.{
  ℕ, Bool, false, not, if◌then◌else◌, nat_eq, ◌==◌, List, Bytes, bytes_eq, codes, is_empty, length,
  Result, ok, ◌>>=◌, ◌>>◌, kassert,
}
use seuss.Prelude.Int.{ℤ, pos, negsuc}
use seuss.Controller.Defs.{Controller, ready}
use seuss.Bench.Defs.{Bench, bench, vec_good, gen_revision_vec}
use seuss.Bench.Rounds.{Rounds}

-- The program ends, it asks for another line, or a benchmark begins.
pub data Prompted : Type 0 where
  quits asks_again : Prompted
  begins : Rounds → Prompted

unfoldable pub is_size : ℤ → (size : ℕ) → Bool
is_size (pos n) size = size == n
is_size (negsuc n) size = false

module _ (rand : ℕ → ℕ) (random_shuffle : List Bytes → List Bytes) where
  unfoldable pub begin : Bench → Controller → Result Prompted
  unfolding is_size
  begin b c = do
    revisions ← gen_revision_vec rand random_shuffle b.runs b.fns
    kassert (is_size b.runs (length revisions))
    ok (begins (record { revisions = revisions; pool = b.parallel; controller = c }))

  unfoldable pub prompt : (benchmark_config : Bytes) → Controller → Result Prompted
  unfolding begin
  prompt benchmark_config c =
      if benchmark_config == codes "q"
      then ok quits
      else if is_empty benchmark_config
      then ok asks_again
      else if not (vec_good (bench benchmark_config))
      then ok asks_again
      else if not (ready c)
      then ok asks_again
      else begin (bench benchmark_config) c
