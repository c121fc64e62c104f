-- ===== src/Bench/Revisions.antt =====
-- How often each name is run.
use seuss.Prelude.{
  ℕ, zero, suc, ◌+◌, ◌*◌, ◌/◌, ◌%◌, ◌<◌, ◌≡◌, refl, ap, sym, ◌∙◌, append_assoc, Bool, true, false,
  List, [], ◌∷◌, ◌++◌, arith, Bytes, bytes_eq, nat_eq, ◌==◌, length, length-append,
  length-replicate, replicate, if◌then◌else◌, ok,
}
use native.Mathlib.Omega.{div_any}
use mathlib.Core.Path.{◌≡⟨◌⟩◌, ◌∎}
use seuss.Prelude.Int.{pos}
use seuss.Prelude.Decimal.{to_string}
use seuss.Bench.Defs.{set, fill, name_all, gen_revision_vec}

abbrev pub count : Bytes → List Bytes → ℕ
count x [] = 0
count x (y ∷ ys) = let rest = count x ys in if y == x then suc rest else rest

count-append : (x : Bytes) (ys zs : List Bytes) → count x (ys ++ zs) ≡ count x ys + count x zs
count-append x [] zs = omega arith
count-append x (y ∷ ys) zs = ground (arith, count-append x ys zs)

-- The names that are drawn from round `i` on.
abbrev pub drawn : (left i : ℕ) (rand : ℕ → ℕ) → List Bytes
drawn zero i rand = []
drawn (suc left) i rand = to_string (rand i) ∷ drawn left (i + 1) rand

-- Each name as often as it is repeated.
abbrev repeated : (repeats : ℕ) → List Bytes → List Bytes
repeated repeats [] = []
repeated repeats (name ∷ names) = replicate repeats name ++ repeated repeats names

set-append :
    (done rest : List Bytes) (i : ℕ) (x name : Bytes)
    → i ≡ length done
    → set (done ++ x ∷ rest) i name ≡ done ++ name ∷ rest
set-append done rest i x name at = ap (λ i. set (done ++ x ∷ rest) i name) at ∙ at_end done
  where
    at_end : (done : List Bytes) → set (done ++ x ∷ rest) (length done) name ≡ done ++ name ∷ rest
    at_end [] = refl
    at_end (y ∷ done) = ap (◌∷◌ y) (at_end done)

fill-append :
    (left base j : ℕ) (name : Bytes) (done rest : List Bytes)
    → base + j ≡ length done
    → fill left base j name (done ++ (replicate left [] ++ rest))
      ≡ done ++ (replicate left name ++ rest)
unfolding fill
fill-append zero base j name done rest at = refl
fill-append (suc left) base j name done rest at =
    let next = fill left base (j + 1) name in
    let todo = replicate {A = Bytes} left [] ++ rest in
    next (set (done ++ [] ∷ todo) (base + j) name)
    ≡⟨ ap next (set-append done todo (base + j) [] name at) ⟩ next (done ++ name ∷ todo)
    ≡⟨ ap next (sym (append_assoc done (name ∷ []) todo)) ⟩ next ((done ++ name ∷ []) ++ todo)
    ≡⟨ fill-append left base (j + 1) name (done ++ name ∷ []) rest
        (omega (arith, at, length-append done (name ∷ []))) ⟩
      (done ++ name ∷ []) ++ (replicate left name ++ rest)
    ≡⟨ append_assoc done (name ∷ []) (replicate left name ++ rest) ⟩
      done ++ name ∷ (replicate left name ++ rest) ∎

replicate-plus {ℓ} :
    {A : Type ℓ} (m n : ℕ) (x : A) → replicate (m + n) x ≡ replicate m x ++ replicate n x
replicate-plus zero n x = ap (λ k. replicate k x) (omega arith)
replicate-plus (suc m) n x =
    replicate (suc m + n) x
    ≡⟨ ap (λ k. replicate k x) {y = suc (m + n)} (omega arith) ⟩ x ∷ replicate (m + n) x
    ≡⟨ ap (◌∷◌ x) (replicate-plus m n x) ⟩ x ∷ (replicate m x ++ replicate n x) ∎

-- The whole loop, behind the names of the rounds that are done.
name_all-append :
    (left i repeats : ℕ) (rand : ℕ → ℕ) (done : List Bytes)
    → i * repeats ≡ length done
    → name_all left i repeats rand (done ++ replicate (left * repeats) [])
      ≡ done ++ repeated repeats (drawn left i rand)
unfolding name_all
name_all-append zero i repeats rand done at = ap (λ n. done ++ replicate n []) {y = 0} (omega arith)
name_all-append (suc left) i repeats rand done at =
    let name = to_string (rand i) in
    let names = replicate repeats name in
    let rest = replicate {A = Bytes} (left * repeats) [] in
    let loop = name_all left (i + 1) repeats rand in
    let here = fill repeats (i * repeats) 0 name in
    loop (here (done ++ replicate (suc left * repeats) []))
    ≡⟨ ap (λ n. loop (here (done ++ replicate n []))) {y = repeats + left * repeats} (omega arith) ⟩
      loop (here (done ++ replicate (repeats + left * repeats) []))
    ≡⟨ ap (λ l. loop (here (done ++ l))) (replicate-plus repeats (left * repeats) []) ⟩
      loop (here (done ++ (replicate repeats [] ++ rest)))
    ≡⟨ ap loop (fill-append repeats (i * repeats) 0 name done rest (omega (arith, at))) ⟩
      loop (done ++ (names ++ rest))
    ≡⟨ ap loop (sym (append_assoc done names rest)) ⟩ loop ((done ++ names) ++ rest)
    ≡⟨ name_all-append left (i + 1) repeats rand (done ++ names)
        (omega (arith, at, length-append done names, length-replicate repeats name)) ⟩
      (done ++ names) ++ repeated repeats (drawn left (i + 1) rand)
    ≡⟨ append_assoc done names (repeated repeats (drawn left (i + 1) rand)) ⟩
      done ++ (names ++ repeated repeats (drawn left (i + 1) rand)) ∎

count-replicate : (x y : Bytes) (n : ℕ) → count x (replicate n y) ≡ (if y == x then n else 0)
count-replicate x y zero = ground arith
count-replicate x y (suc n) = ground (arith, count-replicate x y n)

count-repeated :
    (x : Bytes) (n : ℕ) (names : List Bytes) → count x (repeated n names) ≡ n * count x names
count-repeated x n [] = omega arith
count-repeated x n (name ∷ names) =
    count x (replicate n name ++ repeated n names)
    ≡⟨ count-append x (replicate n name) (repeated n names) ⟩
      count x (replicate n name) + count x (repeated n names)
    ≡⟨ ap (λ c. c + count x (repeated n names)) (count-replicate x name n) ⟩
      (if name == x then n else 0) + count x (repeated n names)
    ≡⟨ ap (λ c. (if name == x then n else 0) + c) (count-repeated x n names) ⟩
      (if name == x then n else 0) + n * count x names
    ≡⟨ one_more (name == x) (count x names) ⟩ n * count x (name ∷ names) ∎
  where
    one_more : (b : Bool) (c : ℕ) → (if b then n else 0) + n * c ≡ n * (if b then suc c else c)
    one_more true c = omega arith
    one_more false c = omega arith

-- Whatever the generator of random numbers gives: with a number of functions other than 0 that divides the
-- number of runs, a list of names comes out, in which each name is as often as the random numbers give it,
-- times the runs for each function. The shuffle is taken to keep how often each name is in the list.
pub gen_revision_vec-count :
    (rand : ℕ → ℕ) (random_shuffle : List Bytes → List Bytes) (runs fns : ℕ)
    → ((x : Bytes) (l : List Bytes) → count x (random_shuffle l) ≡ count x l)
    → 0 < fns
    → runs % fns ≡ 0
    → (l : List Bytes) × (gen_revision_vec rand random_shuffle (pos runs) (pos fns) ≡ ok l)
      × ((x : Bytes) → count x l ≡ runs / fns * count x (drawn fns 0 rand))
unfolding gen_revision_vec
gen_revision_vec-count rand random_shuffle runs fns shuffled some_fns divides =
    let repeats = runs / fns in
    let names = name_all fns 0 repeats rand (replicate runs []) in
    let all : fns * repeats ≡ runs = omega (arith, div_any runs fns, divides) in
    let named : names ≡ repeated repeats (drawn fns 0 rand) =
      ap (λ n. name_all fns 0 repeats rand (replicate n [])) (sym all)
      ∙ name_all-append fns 0 repeats rand [] (omega arith) in
    (
      random_shuffle names,
      ground (arith, some_fns, divides),
      λ x. shuffled x names ∙ ap (count x) named ∙ count-repeated x repeats (drawn fns 0 rand),
    )
