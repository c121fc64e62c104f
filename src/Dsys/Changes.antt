-- ===== src/Dsys/Changes.antt =====
-- The list of members after a change, and what is announced of it.
use seuss.Prelude.{
  ◌<◌, ◌≡◌, ap, subst, ◌∙◌, true, false, List, [], ◌∷◌, arith, ltb, lt→ltb, Bytes, length, bytes_eq,
}
use seuss.Dsys.Order.{less, mem, IsAscending, less_irrefl, less_trans}
use seuss.Dsys.MemberSet.{
  MemberSet, child_change, set_difference, add_members, update_members, watch_handler,
}
use seuss.Dsys.Difference.{
  without, set_difference-without, mem-append, mem-without, adds, deletes, add_members_lem,
  delete_members-hooks, mem-delete_members,
}

module _ (latest : List Bytes) (s : MemberSet) (sorted : IsAscending latest)
    (cached : IsAscending s.member_id_cache) where
  -- Members have come, and none has gone: exactly the new ones are announced, in order and each once,
  -- and from then on the list has exactly the latest members. Both lists are sorted, as
  -- `std::set_difference` demands, and have no member twice.
  pub watch_handler-add :
      length s.member_id_cache < length latest
      → ((m : Bytes) → mem m s.member_id_cache ≡ true → mem m latest ≡ true)
      → ((watch_handler child_change latest s).1 ≡ adds (without latest s.member_id_cache))
        × ((m : Bytes)
            → mem m (watch_handler child_change latest s).0.member_id_cache ≡ mem m latest)
  unfolding watch_handler update_members
  watch_handler-add more kept =
      let grows = lt→ltb (length s.member_id_cache) (length latest) more in
      let diff = set_difference-without latest s.member_id_cache sorted cached in
      (
        rw (grows, diff, add_members_lem (without latest s.member_id_cache) s.member_id_cache),
        λ m.
            rw (grows, diff, add_members_lem (without latest s.member_id_cache) s.member_id_cache)
              (ground (
                arith,
                mem-append m s.member_id_cache (without latest s.member_id_cache),
                mem-without m latest s.member_id_cache,
                kept m,
              )),
      )

  -- Members have gone, and none has come: exactly those are announced, in order and each once, and from
  -- then on the list has exactly the latest members. Both lists are sorted and have no member twice.
  pub watch_handler-delete :
      length latest < length s.member_id_cache
      → ((m : Bytes) → mem m latest ≡ true → mem m s.member_id_cache ≡ true)
      → ((watch_handler child_change latest s).1 ≡ deletes (without s.member_id_cache latest))
        × ((m : Bytes)
            → mem m (watch_handler child_change latest s).0.member_id_cache ≡ mem m latest)
  unfolding watch_handler update_members
  watch_handler-delete fewer kept =
      let shrinks = lt→ltb (length latest) (length s.member_id_cache) fewer in
      let no_growth : ltb (length s.member_id_cache) (length latest) ≡ false =
        ground (arith, fewer) in
      let diff = set_difference-without s.member_id_cache latest cached sorted in
      (
        rw (no_growth, shrinks, diff)
            (delete_members-hooks (without s.member_id_cache latest) s.member_id_cache),
        λ m.
            rw (no_growth, shrinks, diff)
              (ground (
                arith,
                mem-delete_members m (without s.member_id_cache latest) s.member_id_cache,
                mem-without m s.member_id_cache latest,
                kept m,
              )),
      )

update_members-unsorted :
    (a b : Bytes) → less a b ≡ true → (update_members (a ∷ b ∷ []) (b ∷ [])).0 ≡ b ∷ a ∷ []
unfolding update_members set_difference add_members
update_members-unsorted a b ab = ground (arith, ab, less_irrefl b)

not-IsAscending : (a b : Bytes) → less a b ≡ true → ¬ IsAscending (b ∷ a ∷ [])
not-IsAscending a b ab sorted = cc (less_trans a b a ab sorted.0.0, less_irrefl a)

update_members-same :
    (latest cache : List Bytes)
    → length latest ≡ length cache
    → update_members latest cache ≡ (cache, [])
unfolding update_members
update_members-same latest cache same = ground (arith, same)

-- A member that comes and sorts before the one that is there leaves the list unsorted, so that the
-- next change calls `std::set_difference` on a list that it must not be called on; and a change that
-- leaves the number of members as it is, such as an exchange, is not noticed at all.
pub watch_handler_gaps :
    (a b : Bytes) (latest : List Bytes) (s t : MemberSet)
    → less a b ≡ true
    → s.member_id_cache ≡ b ∷ []
    → length latest ≡ length t.member_id_cache
    → ((watch_handler child_change (a ∷ b ∷ []) s).0.member_id_cache ≡ b ∷ a ∷ [])
      × (¬ IsAscending (watch_handler child_change (a ∷ b ∷ []) s).0.member_id_cache)
      × (watch_handler child_change latest t ≡ (t, []))
unfolding watch_handler
watch_handler_gaps a b latest s t ab one same =
    let after = ap (λ c. (update_members (a ∷ b ∷ []) c).0) one ∙ update_members-unsorted a b ab in
    (
      after,
      λ sorted. not-IsAscending a b ab (subst IsAscending after sorted),
      ap (λ r. (record t { member_id_cache = r.0 }, r.1))
          (update_members-same latest t.member_id_cache same),
    )
