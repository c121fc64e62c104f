-- ===== src/Hot/RoundTrip.antt =====
-- What is saved in the cache is what a hot start gets.
use seuss.Prelude.{
  ℕ, ◌+◌, ◌%◌, ◌≡◌, ◌≢◌, ◌∙◌, none, some, sym, Bool, true, List, [], ◌∷◌, ◌++◌, arith, nat_eq, ok,
}
use seuss.Table.{Table, find, find-assign, find-cons, erase-cons, erase_absent}
use seuss.Hot.Defs.{
  HotCache, Signal, use_count, remove_first, hot_instance_exists, get_hot_instance,
  save_hot_instance,
}
use seuss.Hot.Invariant.{
  queued, IsHot, can_save, saved, taken, get_hot_instance_lem, save_hot_instance-saved,
}

remove_first-append :
    (fid : ℕ) (fs : List ℕ) → queued fid fs ≡ 0 → remove_first fid (fs ++ fid ∷ []) ≡ fs
unfolding remove_first
remove_first-append fid [] h = ground arith
remove_first-append fid (f ∷ fs) h = ground (arith, remove_first-append fid fs)

pub get_hot_instance-saved :
    (c : HotCache) (fid id : ℕ)
    → IsHot c
    → can_save c fid id ≡ true
    → get_hot_instance (saved c fid id) fid
      ≡ ok (
        id,
        record c { stalled_instance_usage_count = (saved c fid id).stalled_instance_usage_count },
      )
unfolding taken
get_hot_instance-saved c fid id v h = ground (
  arith,
  v.listed fid,
  get_hot_instance_lem (saved c fid id) fid {id = id},
  find-cons fid fid id c.stalled_instance_map,
  erase-cons fid fid id c.stalled_instance_map,
  erase_absent fid c.stalled_instance_map,
  remove_first-append fid c.stalled_instance_fifo,
)

-- A hot start of a function gets the very instance that was saved for it, and leaves the cache as it
-- was before the save, but for the instance's use counter: that is one more than it was, modulo 2^16,
-- or 1 for an instance that had none, and the counters of all other instances are as they were.
pub get_hot_instance-save_hot_instance :
    (known : ℕ → Bool) (c c' : HotCache) (fid id : ℕ) (signals : List Signal)
    → IsHot c
    → save_hot_instance known c fid id ≡ ok (true, c', signals)
    → (hot_instance_exists c' fid ≡ true)
      × (counts : Table ℕ ℕ) × (get_hot_instance c' fid
          ≡ ok (id, record c { stalled_instance_usage_count = counts }))
      × (find id counts
          ≡ some (elim (find id c.stalled_instance_usage_count) [
            | none ↦ 1
            | some uses ↦ (uses + 1) % 65536
          ]))
      × ((other : ℕ) → other ≢ id → find other counts ≡ find other c.stalled_instance_usage_count)
unfolding hot_instance_exists use_count
get_hot_instance-save_hot_instance known c c' fid id signals v e =
    let (f, same) = save_hot_instance-saved known c c' fid id true signals e in
    let same' : (c' ≡ saved c fid id) = ground arith in
    let uses = use_count (find id c.stalled_instance_usage_count) in
    let count = λ (j : ℕ). find-assign id j uses c.stalled_instance_usage_count in
    (
      ground (arith, find-cons fid fid id c.stalled_instance_map, same'),
      (saved c fid id).stalled_instance_usage_count,
      ground (arith, get_hot_instance-saved c fid id v (sym f), same'),
      count id ∙ ground arith,
      λ other differs. count other ∙ ground (arith, differs),
    )
