-- ===== src/Hot/Examples.antt =====
-- Runs of the hot-start cache on small inputs.
use seuss.Prelude.{ℕ, ◌≡◌, refl, Bool, true, List, [], ◌∷◌, arith, nat_eq, ok, some, ◌≢◌}
use seuss.Table.{Table, find, erase, emplace, assign}
use seuss.Hot.Defs.{
  HotCache, set_inactive, signal_yield, remove_first, hot_instance_exists, get_hot_instance,
  save_hot_instance,
}
use seuss.Hot.Invariant.{IsHot, Call, save, get, run, run-IsHot}
use seuss.Hot.RoundTrip.{get_hot_instance-save_hot_instance}
use seuss.Hot.Reuse.{hot_starts, hot_starts_exact}

abbrev everything : ℕ → Bool
everything id = true

-- Two idle instances at most, and a reuse limit of 2.
abbrev cold : HotCache
cold = record {
  hot_instance_limit = 2;
  hot_instance_reuse_limit = 2;
  stalled_instance_map = [];
  stalled_instance_fifo = [];
  stalled_instance_usage_count = [];
}

cold-IsHot : IsHot cold
unfolding find
cold-IsHot = record { distinct = tt; bounded = omega arith; listed = λ fid. refl }

abbrev one_idle : HotCache
one_idle = record cold {
  stalled_instance_map = (5, 70) ∷ [];
  stalled_instance_fifo = 5 ∷ [];
  stalled_instance_usage_count = (70, 1) ∷ [];
}

saved_one :
    save_hot_instance everything cold 5 70
    ≡ ok (true, one_idle, set_inactive 70 ∷ signal_yield 70 ∷ [])
unfolding save_hot_instance find emplace assign erase
saved_one = refl

-- Instance 70 was used twice, and instance 71 three times.
abbrev used : HotCache
used = record cold { stalled_instance_usage_count = (70, 2) ∷ (71, 3) ∷ [] }

used-IsHot : IsHot used
unfolding find
used-IsHot = record { distinct = tt; bounded = omega arith; listed = λ fid. refl }

abbrev used_again : HotCache
used_again = record one_idle { stalled_instance_usage_count = (70, 3) ∷ (71, 3) ∷ [] }

saved_used :
    save_hot_instance everything used 5 70
    ≡ ok (true, used_again, set_inactive 70 ∷ signal_yield 70 ∷ [])
unfolding save_hot_instance find emplace assign erase
saved_used = refl

get_hot_instance-save_hot_instance_example :
    (hot_instance_exists used_again 5 ≡ true)
    × (counts : Table ℕ ℕ) × (get_hot_instance used_again 5
        ≡ ok (70, record used { stalled_instance_usage_count = counts }))
    × (find 70 counts ≡ some 3)
    × ((other : ℕ) → other ≢ 70 → find other counts ≡ find other used.stalled_instance_usage_count)
unfolding find
get_hot_instance-save_hot_instance_example =
    get_hot_instance-save_hot_instance everything used used_again 5 70
      (set_inactive 70 ∷ signal_yield 70 ∷ []) used-IsHot saved_used

-- The third function finds no room.
abbrev calls : List Call
calls = save 5 70 ∷ save 6 71 ∷ save 7 72 ∷ get 5 ∷ []

abbrev second_idle : HotCache
second_idle = record cold {
  stalled_instance_map = (6, 71) ∷ [];
  stalled_instance_fifo = 6 ∷ [];
  stalled_instance_usage_count = (71, 1) ∷ (70, 1) ∷ [];
}

run-IsHot_example : IsHot second_idle
unfolding run save_hot_instance get_hot_instance remove_first find emplace assign erase
run-IsHot_example = run-IsHot everything cold second_idle calls cold-IsHot refl

-- With a reuse limit of 2 the instance serves three hot starts.
hot_starts_exact_example : hot_starts 10 everything cold 5 70 ≡ ok 3
unfolding find
hot_starts_exact_example =
    hot_starts_exact everything 5 70 (omega arith) (omega arith) refl 10 cold cold-IsHot refl
      (omega arith) (omega arith)
