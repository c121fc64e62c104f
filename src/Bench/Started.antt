-- ===== src/Bench/Started.antt =====
-- A benchmark that begins with a line of numbers.
use seuss.Prelude.{
  ℕ, zero, suc, ◌+◌, ◌*◌, ◌/◌, ◌%◌, ◌^◌, ◌<◌, ◌≡◌, refl, ap, ◌∙◌, true, false, List, [], ◌∷◌, Bytes,
  arith, nat_eq, bytes_eq, ◌==◌, codes, is_empty, length, length-replicate, replicate, ok,
}
use seuss.Prelude.Int.{pos}
use seuss.Prelude.Decimal.{to_string}
use seuss.Text.Numbers.{to_string-head}
use seuss.Controller.Defs.{Controller, ready}
use seuss.Bench.Defs.{Bench, bench, vec_good, is_zero, set, fill, name_all, gen_revision_vec}
use seuss.Bench.Revisions.{count, drawn, gen_revision_vec-count}
use seuss.Bench.Reading.{typed, numbers, bench-typed}
use seuss.Bench.Prompt.{begins, is_size, begin, prompt}

length-set : (l : List Bytes) (i : ℕ) (v : Bytes) → length (set l i v) ≡ length l
length-set [] i v = refl
length-set (x ∷ l) zero v = refl
length-set (x ∷ l) (suc i) v = ap suc (length-set l i v)

length-fill :
    (left base j : ℕ) (name : Bytes) (ret : List Bytes)
    → length (fill left base j name ret) ≡ length ret
unfolding fill
length-fill zero base j name ret = refl
length-fill (suc left) base j name ret =
    length-fill left base (j + 1) name (set ret (base + j) name) ∙ length-set ret (base + j) name

length-name_all :
    (left i repeats : ℕ) (rand : ℕ → ℕ) (ret : List Bytes)
    → length (name_all left i repeats rand ret) ≡ length ret
unfolding name_all
length-name_all zero i repeats rand ret = refl
length-name_all (suc left) i repeats rand ret =
    length-name_all left (i + 1) repeats rand
      (fill repeats (i * repeats) 0 (to_string (rand i)) ret)
    ∙ length-fill repeats (i * repeats) 0 (to_string (rand i)) ret

length-gen_revision_vec :
    (rand : ℕ → ℕ) (random_shuffle : List Bytes → List Bytes) (runs fns : ℕ) (l : List Bytes)
    → ((l : List Bytes) → length (random_shuffle l) ≡ length l)
    → gen_revision_vec rand random_shuffle (pos runs) (pos fns) ≡ ok l
    → length l ≡ runs
unfolding gen_revision_vec
length-gen_revision_vec rand random_shuffle runs fns l shuffled e =
    let names = name_all fns 0 (runs / fns) rand (replicate runs []) in
    let made : l ≡ random_shuffle names = ground (arith, e) in
    ap length made
    ∙ shuffled names
    ∙ length-name_all fns 0 (runs / fns) rand (replicate runs [])
    ∙ length-replicate runs []

typed_no_command :
    (runs fns parallel sleep : ℕ)
    → ((typed runs fns parallel sleep == codes "q") ≡ false)
      × (is_empty (typed runs fns parallel sleep) ≡ false)
typed_no_command runs fns parallel sleep =
    let (e, more, same, lo, hi) = to_string-head runs in rw same (ground (arith, hi))

begin-gen_revision_vec :
    (rand : ℕ → ℕ) (random_shuffle : List Bytes → List Bytes) (b : Bench) (c : Controller)
    (runs fns : ℕ) (l : List Bytes)
    → b.runs ≡ pos runs
    → b.fns ≡ pos fns
    → gen_revision_vec rand random_shuffle (pos runs) (pos fns) ≡ ok l
    → length l ≡ runs
    → begin rand random_shuffle b c
      ≡ ok (begins (record { revisions = l; pool = b.parallel; controller = c }))
unfolding begin is_size
begin-gen_revision_vec rand random_shuffle b c runs fns l r f made all =
    rw (r, f, made, all) (ground arith)

module _ (rand : ℕ → ℕ) (random_shuffle : List Bytes → List Bytes)
    (kept : (x : Bytes) (l : List Bytes) → count x (random_shuffle l) ≡ count x l)
    (as_long : (l : List Bytes) → length (random_shuffle l) ≡ length l) where
  -- A line of four printed numbers, each an `int`: the runs, the functions, the workers and the pause in
  -- between. If a back end is there, there are runs and functions, and the number of functions divides that of the runs,
  -- then the line begins a benchmark. Its pool has a place for each worker, and it has as many names as
  -- runs, in which each name is as often as the random numbers give it, times the runs for each
  -- function. The shuffle is taken to keep the length of a list, and how often each name is in it.
  pub prompt-typed :
      (c : Controller) (runs fns parallel sleep : ℕ)
      → ready c ≡ true
      → runs < 2 ^ 31
      → fns < 2 ^ 31
      → parallel < 2 ^ 31
      → sleep < 2 ^ 31
      → 0 < runs
      → 0 < fns
      → runs % fns ≡ 0
      → (l : List Bytes) × (prompt rand random_shuffle (typed runs fns parallel sleep) c
          ≡ ok (begins (record { revisions = l; pool = pos parallel; controller = c })))
        × (length l ≡ runs)
        × ((x : Bytes) → count x l ≡ runs / fns * count x (drawn fns 0 rand))
  unfolding prompt vec_good is_zero
  prompt-typed c runs fns parallel sleep found h₁ h₂ h₃ h₄ some_runs some_fns divides =
      let (l, made, counts) =
        gen_revision_vec-count rand random_shuffle runs fns kept some_fns divides in
      let all = length-gen_revision_vec rand random_shuffle runs fns l as_long made in
      let read = bench-typed runs fns parallel sleep h₁ h₂ h₃ h₄ in
      let (no_quit, no_empty) = typed_no_command runs fns parallel sleep in
      let good : vec_good (bench (typed runs fns parallel sleep)) ≡ true =
        rw read (ground (arith, some_runs)) in
      let goes_on : prompt rand random_shuffle (typed runs fns parallel sleep) c
          ≡ begin rand random_shuffle (bench (typed runs fns parallel sleep)) c =
        rw (no_quit, no_empty, good, found) refl in
      (
        l,
        goes_on
            ∙ ap (λ b. begin rand random_shuffle b c) read
            ∙ begin-gen_revision_vec rand random_shuffle (numbers runs fns parallel sleep) c runs
                fns l refl refl made all,
        all,
        counts,
      )
