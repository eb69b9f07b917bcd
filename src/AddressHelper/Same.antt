-- ===== src/AddressHelper/Same.antt =====
-- `isSameTarget` of src/utils/addressHelper.js, which compares without an order.
use metrice.Base.{
  ℕ, true, ◌∷◌, ◌≡◌, arith, Str, str_eq_sym, str_eq_refl, to_lower, Bool, false, not, ◌&&◌, ◌||◌,
  Option, none, some, [], codes, str_eq, starts_with, strip_prefix, split, ◌==◌, if◌then◌else◌,
  length, get_or,
}
use metrice.Base.Number.{trim}
use metrice.AddressHelper.{Local, is_global_channel, is_system_console, mesh_of}

-- `a === b` for two Booleans
unfoldable pub bool_eq : Bool → Bool → Bool
bool_eq a b = if a then b else not b

-- The second part of a text around colons, if it has one
unfoldable pub host_part : Str → Str
host_part s = get_or (split b':' s) 1 []

unfoldable pub nick_part : Str → Str
nick_part s = strip_prefix (codes "@") (get_or (split b':' s) 0 [])

unfoldable pub is_own_mesh : Option Str → Str → Bool
is_own_mesh none host = false
is_own_mesh (some node_id) host = str_eq host (mesh_of (to_lower node_id))

-- `isLocalA` and `isLocalB`
unfoldable pub is_local_host : Local → Str → Bool
is_local_host env host =
    str_eq host (codes "local.mesh")
    || (is_own_mesh env.local_node_id host
        || (starts_with host (codes "127.0.0.1") || starts_with host (codes "localhost")))

-- The comparison of two users, whose texts are trimmed and in lower case
unfoldable pub is_same_user : Local → Str → Str → Bool
is_same_user env a b =
    str_eq (nick_part a) (nick_part b)
    && (((length (host_part a) == 0) || (length (host_part b) == 0))
        || (str_eq (host_part a) (host_part b)
            || ((is_local_host env (host_part a) && not (is_local_host env (host_part b)))
                || (is_local_host env (host_part b) && not (is_local_host env (host_part a))))))

unfoldable pub is_same_clean : Local → Str → Str → Bool
is_same_clean env a b =
    if str_eq a b
    then true
    else if not (bool_eq (starts_with a (codes "#")) (starts_with b (codes "#")))
        || not (bool_eq (starts_with a (codes "@")) (starts_with b (codes "@")))
    then false
    else if starts_with a (codes "#")
    then false
    else is_same_user env a b

-- `isSameTarget(targetA, targetB)`
unfoldable pub is_same_target : Local → Str → Str → Bool
is_same_target env a b =
    if (length a == 0) || (length b == 0)
    then false
    else if str_eq a b
    then true
    else if is_global_channel a && is_global_channel b
    then true
    else if is_system_console a && is_system_console b
    then true
    else is_same_clean env (to_lower (trim a)) (to_lower (trim b))

is_same_user_comm : (env : Local) (a b : Str) → is_same_user env a b ≡ is_same_user env b a
unfolding is_same_user
is_same_user_comm env a b =
    ground (arith, str_eq_sym (nick_part a) (nick_part b), str_eq_sym (host_part a) (host_part b))

is_same_clean_comm : (env : Local) (a b : Str) → is_same_clean env a b ≡ is_same_clean env b a
unfolding is_same_clean bool_eq
is_same_clean_comm env a b = ground (arith, str_eq_sym a b, is_same_user_comm env a b)

-- Two texts name the same target in either order, and every text but the empty one names its own.
pub is_same_target_comm :
    (env : Local) (a b : Str) (c : ℕ)
    → (is_same_target env a b ≡ is_same_target env b a)
      × (is_same_target env (c ∷ a) (c ∷ a) ≡ true)
unfolding is_same_target
is_same_target_comm env a b c = (
  ground (arith, str_eq_sym a b, is_same_clean_comm env (to_lower (trim a)) (to_lower (trim b))),
  ground (arith, str_eq_refl (c ∷ a)),
)
