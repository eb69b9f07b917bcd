-- ===== src/AddressHelper/Users.antt =====
-- What `formatUser` of src/utils/addressHelper.js prints is read back by its `parse`.
use metrice.Base.{
  ℕ, ◌-◌, true, false, none, some, [], ◌∷◌, ◌++◌, ◌≡◌, refl, ap, ◌∙◌, arith, Str, codes,
  str_eq_refl, starts_with, ends_with, remove_first, cut-append, to_lower, to_lower_char, length,
  drop-length, length-append, Lacks, last_or, last_or-append,
}
use metrice.Base.Number.{trim, trim_keep, is_space}
use metrice.AddressHelper.{
  Local, mesh, user, sigil, mesh_of, mesh_raw, mesh_address_of, is_node_char, all_node_chars,
  is_valid_node_id, is_local_node, parse_target, parse_with_target, parse_parts, parse_body,
  name_and_target, parse_trimmed, parse, node_or_local, format_user,
}

ends_with-append : (s p : Str) → ends_with (s ++ p) p ≡ true
unfolding ends_with
ends_with-append s p =
    let cut_off : length (s ++ p) - length p ≡ length s = omega (arith, length-append s p) in
    rw (cut_off, drop-length s p) (str_eq_refl p)

remove_first-append :
    (node_id : Str)
    → all_node_chars node_id ≡ true
    → remove_first (codes ".mesh") (node_id ++ codes ".mesh") ≡ node_id
unfolding remove_first starts_with all_node_chars is_node_char
remove_first-append [] h = refl
remove_first-append (c ∷ s) h = ground (arith, remove_first-append s)

pub to_lower-node : (node_id : Str) → all_node_chars node_id ≡ true → to_lower node_id ≡ node_id
unfolding to_lower to_lower_char all_node_chars is_node_char
to_lower-node [] h = refl
to_lower-node (c ∷ s) h = ground (arith, to_lower-node s)

-- `parseTarget` reads the address of a node back.
pub parse_target-mesh_of :
    (env : Local) (node_id : Str)
    → is_valid_node_id node_id ≡ true
    → parse_target env (mesh_of node_id) ≡ some (mesh node_id)
unfolding parse_target mesh_of is_valid_node_id
parse_target-mesh_of env [] h = cc h
parse_target-mesh_of env (c ∷ s) h =
    let chars : all_node_chars (c ∷ s) ≡ true = ground arith in
    rw
      (
        ends_with-append (c ∷ s) (codes ".mesh"),
        remove_first-append (c ∷ s) chars,
        to_lower-node (c ∷ s) chars,
      )
      refl

name_and_target-append :
    (name target : Str) → Lacks b':' name → name_and_target (name ++ b':' ∷ target) ≡ (name, target)
unfolding name_and_target
name_and_target-append name target lacks =
    rw (name_and_target, cut-append b':' name target lacks) refl

last_mesh_of : (d : ℕ) (node_id : Str) → last_or d (mesh_of node_id) ≡ b'h'
unfolding mesh_of
last_mesh_of d node_id = last_or-append d node_id (codes ".mesh")

-- A name without a colon, with any node id of 16 characters: `parse` reads what `formatUser`
-- prints, as the user of that name on that node, with the printed text and the address of the node, without host and port.
pub parse-format_user :
    (env : Local) (c : ℕ) (name node_id : Str)
    → Lacks b':' (c ∷ name)
    → is_valid_node_id node_id ≡ true
    → parse env (format_user env (c ∷ name) (some node_id))
      ≡ some (record {
        kind = user;
        raw = codes "@" ++ ((c ∷ name) ++ (codes ":" ++ (node_id ++ codes ".mesh")));
        name = c ∷ name;
        node_id = some node_id;
        mesh_address = some (node_id ++ codes ".mesh");
        host = none;
        port = none;
        is_global_channel = false;
        is_local = is_local_node env.local_node_id node_id;
        bracket_warning = false;
      })
unfolding parse format_user mesh_address_of mesh_raw mesh_of sigil node_or_local parse_trimmed
    parse_body parse_parts parse_with_target
parse-format_user env c name node_id lacks valid =
    let ends : last_or b'@' (c ∷ (name ++ b':' ∷ mesh_of node_id)) ≡ b'h' =
      last_or-append c name (b':' ∷ mesh_of node_id) ∙ last_mesh_of b':' node_id in
    let kept : trim (b'@' ∷ c ∷ (name ++ b':' ∷ mesh_of node_id))
        ≡ b'@' ∷ c ∷ (name ++ b':' ∷ mesh_of node_id) =
      trim_keep b'@' (c ∷ (name ++ b':' ∷ mesh_of node_id)) (unfold is_space in refl)
        (unfold is_space in rw (ends) refl) in
    rw (kept) (
      ap (parse_body env user) (name_and_target-append (c ∷ name) (mesh_of node_id) lacks)
      ∙ rw (parse_target-mesh_of env node_id valid) refl)
