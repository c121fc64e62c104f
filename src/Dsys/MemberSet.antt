-- ===== src/Dsys/MemberSet.antt =====
-- src/dsys/MemberSet.h: the list of members as ZooKeeper announces its changes.
use seuss.Prelude.{
  Bool, true, false, not, List, [], ◌∷◌, ◌++◌, nat_eq, ◌==◌, ltb, if◌then◌else◌, Bytes, bytes_eq,
  codes, length,
}
use seuss.Dsys.Order.{less}

pub record MemberSet : Type 0 where
  pub initialized : Bool
  pub member_id_cache : List Bytes
  pub mid : Bytes

-- `const std::string tag_`, which the constructor copies into `parent_path_`.
abbrev pub tag : Bytes
tag = codes "members"

-- `MemberSet::MemberSet` with `auto_join` off.
unfoldable pub new_member_set : MemberSet
new_member_set = record { initialized = false; member_id_cache = []; mid = [] }

-- `ZooKeeper::Event`
pub data Event : Type 0 where
  create delete child_change change session error : Event

-- The hooks that are called, each in an event of its own.
pub data Hook : Type 0 where
  set_create set_delete : Hook
  member_add member_delete : (id : Bytes) → Hook

-- `std::set_difference` on two sorted ranges.
unfoldable pub set_difference : List Bytes → List Bytes → List Bytes
set_difference [] ys = []
set_difference (x ∷ xs) [] = x ∷ xs
set_difference (x ∷ xs) (y ∷ ys) = elim (less x y) [
  | true ↦ x ∷ set_difference xs (y ∷ ys)
  | false ↦ elim (less y x) [ true ↦ set_difference (x ∷ xs) ys | false ↦ set_difference xs ys ]
]

unfoldable pub add_members : List Bytes → List Bytes → List Bytes × List Hook
add_members [] cache = (cache, [])
add_members (i ∷ diff) cache =
    let (cache', hooks) = add_members diff (cache ++ i ∷ []) in (cache', member_add i ∷ hooks)

-- `erase(remove(...))`: every occurrence goes.
unfoldable pub remove_id : Bytes → List Bytes → List Bytes
remove_id i [] = []
remove_id i (x ∷ xs) = let rest = remove_id i xs in if x == i then rest else x ∷ rest

unfoldable pub delete_members : List Bytes → List Bytes → List Bytes × List Hook
unfolding remove_id
delete_members [] cache = (cache, [])
delete_members (i ∷ diff) cache =
    let (cache', hooks) = delete_members diff (remove_id i cache) in
    (cache', member_delete i ∷ hooks)

-- The callback of a change of the children, with the latest members.
unfoldable pub update_members : (latest cache : List Bytes) → List Bytes × List Hook
unfolding add_members delete_members set_difference
update_members latest cache =
    if ltb (length cache) (length latest)
    then add_members (set_difference latest cache) cache
    else if ltb (length latest) (length cache)
    then delete_members (set_difference cache latest) cache
    else (cache, [])

-- `WatchHandler`, with the members that `List` then gives. The watcher is set again each time.
unfoldable pub watch_handler : Event → (latest : List Bytes) → MemberSet → MemberSet × List Hook
unfolding update_members
watch_handler create latest s = (s, set_create ∷ [])
watch_handler delete latest s = (s, set_delete ∷ [])
watch_handler child_change latest s =
    let (cache, hooks) = update_members latest s.member_id_cache in
    (record s { member_id_cache = cache }, hooks)
watch_handler _ latest s = (s, [])

-- `Init`: whether the record of the set has to be made.
unfoldable pub init : (exists : Bool) → MemberSet → MemberSet × Bool
init exists s = (record s { initialized = true }, not exists)

unfoldable pub member_path_from_id : Bytes → Bytes
member_path_from_id mid = tag ++ (codes "/" ++ mid)

-- `Join`, on a node with this network id: the path of the member's record.
unfoldable pub join : (network_id : Bytes) → MemberSet → MemberSet × Bytes
unfolding member_path_from_id
join network_id s = (record s { mid = network_id }, member_path_from_id network_id)

unfoldable pub get_member_list : MemberSet → List Bytes
get_member_list s = s.member_id_cache
