-- ===== src/Root/Wakeups.antt =====
-- Which cores `AddWork` wakes.
use seuss.Prelude.{
  ◌∙◌, length, ℕ, zero, suc, ◌+◌, ◌-◌, ◌%◌, ◌≤◌, ◌<◌, ◌≡◌, refl, not, ◌&&◌, List, [], ◌∷◌, arith,
  ◌==◌, nat_eq, ltb, leb, if◌then◌else◌,
}
use native.Mathlib.Nat.{mod-eq_of_lt, mod-eq-sub-mod, mod-lt}
use native.Mathlib.Decide.{dec_lt}
use seuss.Root.Defs.{poke_cores}

-- How often a core is in a list.
abbrev pub count : ℕ → List ℕ → ℕ
count c [] = 0
count c (k ∷ ks) = if k == c then suc (count c ks) else count c ks

-- The round of the loop that reaches core `c`.
round_of : (num_cpus offset c : ℕ) → ℕ
round_of n offset c = if leb offset c then c - offset else c + n - offset

mod_wrap : (a n : ℕ) → 0 < n → a < n + n → a % n ≡ (if ltb a n then a else a - n)
mod_wrap a n p h = elim (dec_lt a n) [
  | yes below ↦ ground (arith, mod-eq_of_lt below)
  | no above ↦ ground (
    arith,
    mod-eq-sub-mod {n = a} {m = n} (omega arith),
    mod-eq_of_lt {n = a - n} {m = n} (omega arith),
  )
]

module _ (n mine offset c : ℕ) (c_lt : c < n) (offset_lt : offset < n) where
  core_iff : (i : ℕ) → i < n → ((i + offset) % n == c) ≡ (i == round_of n offset c)
  unfolding round_of
  core_iff i h = ground (arith, mod_wrap (i + offset) n)

  count-poke_cores :
      (left i : ℕ)
      → i + left ≤ n
      → count c (poke_cores n mine offset left i) ≡ (
          if leb i (round_of n offset c) && ltb (round_of n offset c) (i + left) && not (c == mine)
          then 1
          else 0)
  unfolding poke_cores
  count-poke_cores zero i h = ground arith
  count-poke_cores (suc left) i h = ground (arith, core_iff i, count-poke_cores left (i + 1))

-- No core beyond the last is poked.
poke_cores-lt :
    (n mine offset c : ℕ)
    → 0 < n
    → n ≤ c
    → (left i : ℕ) → count c (poke_cores n mine offset left i) ≡ 0
unfolding poke_cores
poke_cores-lt n mine offset c p h zero i = refl
poke_cores-lt n mine offset c p h (suc left) i =
    ground (arith, mod-lt (i + offset) p, poke_cores-lt n mine offset c p h left (i + 1))

-- `AddWork` for the transaction `tid` pokes every core of the machine but its own, each exactly once,
-- and no other.
pub count-poke_cores_all :
    (num_cpus mine tid c : ℕ)
    → 0 < num_cpus
    → count c (poke_cores num_cpus mine (tid % num_cpus) num_cpus 0)
      ≡ (if ltb c num_cpus && not (c == mine) then 1 else 0)
unfolding round_of
count-poke_cores_all n mine tid c p = elim (dec_lt c n) [
  | yes below ↦
      ground (arith, count-poke_cores n mine (tid % n) c below (mod-lt tid p) n 0, mod-lt tid p)
  | no beyond ↦ ground (arith, poke_cores-lt n mine (tid % n) c p (omega arith) n 0)
]

count-le-length : (c : ℕ) (ks : List ℕ) → count c ks ≤ length ks
count-le-length c [] = omega arith
count-le-length c (k ∷ ks) = ground (arith, count-le-length c ks)

-- With a second core there is always one to poke.
pub poked_cores :
    (num_cpus mine tid : ℕ)
    → 1 < num_cpus
    → 0 < length (poke_cores num_cpus mine (tid % num_cpus) num_cpus 0)
poked_cores n mine tid several =
    let other : ℕ = (if mine == 0 then 1 else 0) in
    let once : count other (poke_cores n mine (tid % n) n 0) ≡ 1 =
      count-poke_cores_all n mine tid other (omega arith) ∙ ground (arith, several) in
    omega (arith, once, count-le-length other (poke_cores n mine (tid % n) n 0))
