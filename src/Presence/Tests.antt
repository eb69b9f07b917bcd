-- ===== src/Presence/Tests.antt =====
-- Tests and instances for src/core/presenceManager.js.
use metrice.Base.{
  ◌-◌, ◌≤◌, ◌<◌, false, ◌&&◌, ◌↔◌, ◌≡◌, refl, none, some, [], ◌∷◌, codes, str_eq, str_eq_inst,
  starts_with, ends_with, remove_first, split, to_lower, to_lower_char, includes,
}
use metrice.AddressHelper.{mesh_of}
use metrice.Federation.{is_relay_node, relays_role, ttl_of}
use metrice.Federation.Sample.{config, engine, clients, user_at, presence_at}
use metrice.JsMap
use metrice.PeerManager.{host_of}
use metrice.Presence.{
  active_users, clamp, get_all_online_users, has_text, is_active, is_behind, is_mesh, is_tunneled,
  nick_key, note_user, note_users, refresh, clamp_users,
}
use metrice.Presence.Expiry.{cleanup_expired_presence, is_valid_route}
use metrice.Presence.Expiry.Exact.{cleanup_exact}
use metrice.Presence.Online.{UniqueNicks, first_of, online_address, one_address_per_name}

program : Unit {0}
unfolding active_users clamp get_all_online_users has_text is_active is_behind is_mesh is_tunneled
    nick_key note_user note_users refresh clamp_users host_of mesh_of is_relay_node relays_role
    ttl_of str_eq starts_with ends_with remove_first split to_lower to_lower_char includes JsMap.get
    JsMap.set JsMap.has
program = tt

online_now :
    (get_all_online_users config 70000 clients engine).1 ≡ codes "@eve" ∷ codes "@Ada:a:7" ∷ []
unfolding program
online_now = refl

one_address_per_name_example : UniqueNicks (get_all_online_users config 1200 clients engine).1
one_address_per_name_example = one_address_per_name config 1200 clients engine

online_address_example :
    first_of (codes "ada") (get_all_online_users config 1200 clients engine).1
    ≡ some (codes "@ada:edge.mesh")
unfolding program
online_address_example =
    online_address config 1200 clients engine (codes "ada") (refl, (refl, (refl, (refl, tt))))

cleanup_exact_example :
    ((JsMap.get
          (codes "@bob:b:7")
          (cleanup_expired_presence config 70000 (λ n. none) engine).0.users
        ≡ none)
      ↔ (((is_relay_node engine && is_tunneled engine.tunnels (codes "@bob:b:7")) ≡ false)
          × (ttl_of config ≤ 70000 - 1000)))
    × ((JsMap.get (codes "n") (cleanup_expired_presence config 70000 (λ n. none) engine).0.table
          ≡ none)
        ↔ (60000 < 69000))
    × (JsMap.get (codes "n") (cleanup_expired_presence config 70000 (λ n. none) engine).0.physical
        ≡ none)
unfolding program is_valid_route
cleanup_exact_example =
    cleanup_exact config 70000 (λ n. none) engine (codes "@bob:b:7") (codes "n") (user_at 1000)
      (presence_at (codes "EDGE") 1000) (refl, (refl, (refl, tt))) (refl, (refl, tt)) (refl, tt)
      refl refl
