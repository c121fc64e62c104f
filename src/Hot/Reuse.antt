-- ===== src/Hot/Reuse.antt =====
-- How often one instance serves hot starts.
use seuss.Prelude.{
  ℕ, zero, suc, ◌+◌, ◌-◌, ◌%◌, ◌<◌, ◌≡◌, ◌≢◌, Bool, true, false, none, some, inl, inr, arith,
  nat_eq, if◌then◌else◌, Result, ok, ◌>>=◌, Option-cases, Bool-cases,
}
use Prim.Native.Nat.{min}
use seuss.Table.{size, find, assign, find-assign}
use seuss.Hot.Defs.{HotCache, get_hot_instance, save_hot_instance, within_reuse_limit, use_count}
use seuss.Hot.Invariant.{IsHot, can_save, save_hot_instance_lem}
use seuss.Hot.RoundTrip.{get_hot_instance-saved}

-- One instance of one function: it is saved when an invocation ends and taken by the next hot start,
-- until a save is refused. The result is the number of hot starts, at most the fuel.
pub hot_starts : ℕ → (known : ℕ → Bool) → HotCache → (fid id : ℕ) → Result ℕ
hot_starts zero known c fid id = ok 0
hot_starts (suc fuel) known c fid id = do
  (flag, c', signals) ← save_hot_instance known c fid id
  let rest = (do
    (taken, c'') ← get_hot_instance c' fid
    n ← hot_starts fuel known c'' fid id
    ok (suc n))
  if flag then rest else ok 0

-- The hot starts that the use counter leaves.
abbrev pub left : HotCache → ℕ → ℕ
left c id = elim (find id c.stalled_instance_usage_count) [
  | none ↦ c.hot_instance_reuse_limit + 1
  | some uses ↦ c.hot_instance_reuse_limit + 1 - uses
]

-- The cache after a save and the hot start that follows.
abbrev used : HotCache → ℕ → HotCache
used c id = record c {
  stalled_instance_usage_count =
      assign id (use_count (find id c.stalled_instance_usage_count)) c.stalled_instance_usage_count;
}

module _ (c : HotCache) (fid id : ℕ) (new : find fid c.stalled_instance_map ≡ none)
    (room : size c.stalled_instance_map < c.hot_instance_limit) where
  left-used :
      c.hot_instance_reuse_limit < 65535
      → can_save c fid id ≡ true
      → left c id ≡ suc (left (used c id) id)
  unfolding within_reuse_limit use_count
  left-used small h = elim (Option-cases (find id c.stalled_instance_usage_count)) [
    | inl fresh ↦ ground (arith, find-assign id id 1 c.stalled_instance_usage_count)
    | inr (uses, e) ↦
        ground (arith, find-assign id id ((uses + 1) % 65536) c.stalled_instance_usage_count)
  ]

  left_refused : can_save c fid id ≡ false → left c id ≡ 0
  unfolding within_reuse_limit
  left_refused h = elim (Option-cases (find id c.stalled_instance_usage_count)) [
    | inl fresh ↦ ground arith
    | inr (uses, e) ↦ ground arith
  ]

module _ (known : ℕ → Bool) (fid id : ℕ) (f : fid ≢ 0) (i : id ≢ 0) (k : known id ≡ true) where
  -- An instance that no other function's instance crowds out serves exactly as many hot starts as its
  -- counter leaves, one more than the configured limit for a new instance; then it is refused. The
  -- limit is below the counter's range.
  pub hot_starts_exact :
      (fuel : ℕ) (c : HotCache)
      → IsHot c
      → find fid c.stalled_instance_map ≡ none
      → size c.stalled_instance_map < c.hot_instance_limit
      → c.hot_instance_reuse_limit < 65535
      → hot_starts fuel known c fid id ≡ ok (min fuel (left c id))
  unfolding hot_starts
  hot_starts_exact zero c v new room small = ground arith
  hot_starts_exact (suc fuel) c v new room small = elim (Bool-cases (can_save c fid id)) [
    | inl fits ↦ ground (
      arith,
      save_hot_instance_lem known c fid id f i k,
      get_hot_instance-saved c fid id v fits,
      left-used c fid id new room small fits,
      hot_starts_exact fuel (used c id)
          (record { distinct = v.distinct; bounded = v.bounded; listed = v.listed }) new room small,
    )
    | inr refused ↦
        ground (
          arith,
          save_hot_instance_lem known c fid id f i k,
          left_refused c fid id new room refused,
        )
  ]
