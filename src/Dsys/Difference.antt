-- ===== src/Dsys/Difference.antt =====
-- What `std::set_difference` gives on sorted lists, and what the two loops over it make of the members.
use seuss.Prelude.{
  ◌≡◌, refl, ap, sym, subst, append-nil, append_assoc, true, not, ◌&&◌, ◌||◌, Bool-cases, inl, inr,
  List, [], ◌∷◌, ◌++◌, arith, nat_eq, ◌==◌, Bytes, bytes_eq, bytes_beq_iff, if◌then◌else◌,
}
use seuss.Dsys.Order.{
  less, less_irrefl, eq_of_not_less, mem, IsBelow, IsAscending, IsBelow-trans, mem-IsBelow,
}
use seuss.Dsys.MemberSet.{
  Hook, member_add, member_delete, set_difference, add_members, delete_members, remove_id,
}

-- The members of the first list that are not in the second, in their order.
abbrev pub without : List Bytes → List Bytes → List Bytes
without [] ys = []
without (x ∷ xs) ys = let rest = without xs ys in if mem x ys then rest else x ∷ rest

without-above :
    (y : Bytes) (xs ys : List Bytes) → IsBelow y xs → without xs (y ∷ ys) ≡ without xs ys
unfolding mem
without-above y [] ys below = refl
without-above y (x ∷ xs) ys below =
    ground (arith, bytes_beq_iff x y, less_irrefl y, below.0, without-above y xs ys below.1)

without-nil : (xs : List Bytes) → without xs [] ≡ xs
unfolding mem
without-nil [] = refl
without-nil (x ∷ xs) = ap (◌∷◌ x) (without-nil xs)

mem_self : (x y : Bytes) (ys : List Bytes) → x ≡ y → mem x (y ∷ ys) ≡ true
unfolding mem
mem_self x y ys same = ground (arith, (bytes_beq_iff x y).1 same)

-- On sorted lists the algorithm is this filter.
pub set_difference-without :
    (xs ys : List Bytes) → IsAscending xs → IsAscending ys → set_difference xs ys ≡ without xs ys
unfolding set_difference
set_difference-without [] ys ax ay = refl
set_difference-without (x ∷ xs) [] ax ay = sym (without-nil (x ∷ xs))
set_difference-without (x ∷ xs) (y ∷ ys) ax ay = elim (Bool-cases (less x y)) [
  | inl lt ↦
      let absent = mem-IsBelow x (y ∷ ys) (lt, IsBelow-trans x y ys lt ay.0) in
      ground (arith, lt, absent, set_difference-without xs (y ∷ ys) ax.1 ay)
  | inr ge ↦ elim (Bool-cases (less y x)) [
    | inl gt ↦
        let above = without-above y (x ∷ xs) ys (gt, IsBelow-trans y x xs gt ax.0) in
        ground (arith, ge, gt, above, set_difference-without (x ∷ xs) ys ax ay.1)
    | inr le ↦
        let same = eq_of_not_less x y ge le in
        let above = without-above y xs ys (subst (λ t. IsBelow t xs) same ax.0) in
        ground (arith, ge, le, above, mem_self x y ys same, set_difference-without xs ys ax.1 ay.1)
  ]
]

-- Membership.
pub mem-append : (m : Bytes) (xs ys : List Bytes) → mem m (xs ++ ys) ≡ mem m xs || mem m ys
unfolding mem
mem-append m [] ys = refl
mem-append m (x ∷ xs) ys = ground (arith, mem-append m xs ys)

pub mem-without :
    (m : Bytes) (xs ys : List Bytes) → mem m (without xs ys) ≡ mem m xs && not (mem m ys)
unfolding mem
mem-without m [] ys = refl
mem-without m (x ∷ xs) ys = elim (Bool-cases (mem x ys)) [
  | inl out ↦ elim (Bool-cases (m == x)) [
    | inl same ↦
        ground
          (arith, out, same, mem-without m xs ys, ap (λ t. mem t ys) ((bytes_beq_iff m x).0 same))
    | inr other ↦ ground (arith, out, other, mem-without m xs ys)
  ]
  | inr stays ↦ elim (Bool-cases (m == x)) [
    | inl same ↦
        ground
          (arith, stays, same, mem-without m xs ys, ap (λ t. mem t ys) ((bytes_beq_iff m x).0 same))
    | inr other ↦ ground (arith, stays, other, mem-without m xs ys)
  ]
]

pub mem-remove_id :
    (m i : Bytes) (xs : List Bytes) → mem m (remove_id i xs) ≡ mem m xs && not (m == i)
unfolding mem remove_id
mem-remove_id m i [] = refl
mem-remove_id m i (x ∷ xs) =
    ground (arith, mem-remove_id m i xs, bytes_beq_iff x i, bytes_beq_iff m i, bytes_beq_iff m x)

-- The two loops.
abbrev pub adds : List Bytes → List Hook
adds [] = []
adds (i ∷ ids) = member_add i ∷ adds ids

abbrev pub deletes : List Bytes → List Hook
deletes [] = []
deletes (i ∷ ids) = member_delete i ∷ deletes ids

pub add_members_lem :
    (diff cache : List Bytes) → add_members diff cache ≡ (cache ++ diff, adds diff)
unfolding add_members
add_members_lem [] cache = ap (λ c. (c, [])) (sym (append-nil cache))
add_members_lem (i ∷ diff) cache =
    rw (add_members_lem diff (cache ++ i ∷ []), append_assoc cache (i ∷ []) diff)

pub delete_members-hooks : (diff cache : List Bytes) → (delete_members diff cache).1 ≡ deletes diff
unfolding delete_members
delete_members-hooks [] cache = refl
delete_members-hooks (i ∷ diff) cache =
    ap (◌∷◌ (member_delete i)) (delete_members-hooks diff (remove_id i cache))

pub mem-delete_members :
    (m : Bytes) (diff cache : List Bytes)
    → mem m (delete_members diff cache).0 ≡ mem m cache && not (mem m diff)
unfolding delete_members mem
mem-delete_members m [] cache = ground arith
mem-delete_members m (i ∷ diff) cache =
    ground (arith, mem-delete_members m diff (remove_id i cache), mem-remove_id m i cache)
