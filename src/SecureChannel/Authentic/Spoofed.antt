-- ===== src/SecureChannel/Authentic/Spoofed.antt =====
-- Handshakes that are refused in src/core/secureChannel.js: a node id that is not the key's, and a nonce again.
use metrice.Base.{
  ℕ, zero, suc, ◌+◌, ◌≤◌, ◌<◌, true, false, ◌||◌, Option, some, List, [], ◌∷◌, ◌≡◌, refl, Str,
  codes, str_eq, ends_with, to_lower, length, if-cases, if-true, drop, ◌-◌, subst, str_eq_iff,
  if-false, some-is, All, inl, inr, Bool-cases, sym, ◌∙◌, ap, arith,
}
use metrice.AddressHelper.{Local, mesh_of, is_node_char, all_node_chars, is_valid_node_id}
use metrice.AddressHelper.Users.{to_lower-node, parse_target-mesh_of}
use metrice.NonceTracker.{NonceTracker, track}
use metrice.NonceTracker.Replay.{Call, replay_refused}
use metrice.NonceTracker.Replay
use metrice.SecureChannel.Peer.{
  declared_of, normal_ip, clean_declared, names_node, validate_host, validate_declared,
  validate_peer_ip,
}
use metrice.SecureChannel.Frames.{refuse, check_init, handle_init, handle_frame}
use metrice.SecureChannel.Authentic.{IsKept, refuse-IsKept}
use metrice.SecureChannel.{Crypto, Network, handshake_init, Effect, Env, Channel}

-- The channel stays as it was but for the tracker of nonces, and for the socket, which is closed.
abbrev IsClosed : Channel → Channel × List Effect → Type 0
IsClosed c r = IsKept c r × (r.0.is_destroyed ≡ true)

refuse-IsClosed : (c : Channel) → IsClosed c (refuse c)
refuse-IsClosed c = (refuse-IsKept c, unfold refuse in refl)

refuse-IsClosed-tracked :
    (c : Channel) (t : NonceTracker) → IsClosed c (refuse (record c { nonce_tracker = t }))
unfolding refuse
refuse-IsClosed-tracked c t = (record { channel = refl; harmless = (refl, tt) }, refl)

all_node_chars-drop : (k : ℕ) (s : Str) → all_node_chars s ≡ true → all_node_chars (drop k s) ≡ true
unfolding all_node_chars
all_node_chars-drop zero s h = h
all_node_chars-drop (suc k) [] h = h
all_node_chars-drop (suc k) (c ∷ s) h = all_node_chars-drop k s (ground arith)

-- A node id holds no dot.
node_id-plain : (s : Str) → all_node_chars s ≡ true → ends_with s (codes ".mesh") ≡ false
unfolding ends_with
node_id-plain s h = elim (Bool-cases (ends_with s (codes ".mesh"))) [
  | inr plain ↦ plain
  | inl dotted ↦
      let k = length s - 5 in
      let tail : drop k s ≡ codes ".mesh" = (str_eq_iff (drop k s) (codes ".mesh")).0 dotted in
      let wrong : all_node_chars (codes ".mesh") ≡ true =
        subst (λ t. all_node_chars t ≡ true) tail (all_node_chars-drop k s h) in
      unfold all_node_chars is_node_char in cc wrong
]

valid-chars : (s : Str) → is_valid_node_id s ≡ true → all_node_chars s ≡ true
unfolding is_valid_node_id
valid-chars s h = ground arith

clean_declared-node : (s : Str) → is_valid_node_id s ≡ true → clean_declared s ≡ s
unfolding clean_declared
clean_declared-node s h =
    ap to_lower (if-false _ (node_id-plain s (valid-chars s h))) ∙ to_lower-node s (valid-chars s h)

validate_host-other :
    (crypto : Crypto) (env : Local) (net : Network) (node_id : Str) (k : ℕ) (key other : Str)
    → is_valid_node_id node_id ≡ true
    → crypto.derive_node_id (k ∷ key) ≡ some other
    → str_eq node_id (to_lower other) ≡ false
    → validate_host crypto env net (k ∷ key) node_id ≡ some false
unfolding validate_host names_node
validate_host-other crypto env net node_id k key other valid derived differs =
    let unlike : str_eq (clean_declared node_id) (to_lower other) ≡ false =
      ap (λ t. str_eq t (to_lower other)) (clean_declared-node node_id valid) ∙ differs in
    let named : (ends_with node_id (codes ".mesh") || is_valid_node_id node_id) ≡ true =
      ap (λ b. b || is_valid_node_id node_id) (node_id-plain node_id (valid-chars node_id valid))
      ∙ valid in
    some-is _ _ derived ∙ ap some (if-false _ unlike ∙ if-true _ named)

-- The address of a node is refused for a key of another node.
validate_peer_ip-other :
    (crypto : Crypto) (env : Local) (net : Network) (node_id : Str) (k : ℕ) (key other : Str)
    → is_valid_node_id node_id ≡ true
    → net.is_ipv6 node_id ≡ false
    → crypto.derive_node_id (k ∷ key) ≡ some other
    → str_eq node_id (to_lower other) ≡ false
    → validate_peer_ip crypto env net (some (mesh_of node_id)) (k ∷ key) ≡ some false
unfolding validate_peer_ip validate_declared declared_of normal_ip is_valid_node_id
validate_peer_ip-other crypto env net [] k key other valid plain derived differs = cc valid
validate_peer_ip-other crypto env net (c ∷ s) k key other valid plain derived differs =
    some-is _ _ (parse_target-mesh_of env (c ∷ s) valid)
    ∙ (ap (validate_host crypto env net (k ∷ key)) (if-false _ plain)
        ∙ validate_host-other crypto env net (c ∷ s) k key other valid derived differs)

-- A responder gets a HANDSHAKE_INIT that declares the address of a node whose id is not derived from the key it
-- carries: it closes the socket, and but for that and the tracker of nonces every field stays as it was, whatever the
-- signature, the nonce and the network say.
pub spoofed_init_refused :
    (env : Env) (now : ℕ) (node_id : Str) (k : ℕ) (key other kem_key nonce sig : Str) (c : Channel)
    → is_valid_node_id node_id ≡ true
    → env.net.is_ipv6 node_id ≡ false
    → env.crypto.derive_node_id (k ∷ key) ≡ some other
    → str_eq node_id (to_lower other) ≡ false
    → IsKept c (
        handle_frame env now
          (handshake_init (some (mesh_of node_id)) (k ∷ key) kem_key nonce sig)
          c)
      × ((handle_frame env now
            (handshake_init (some (mesh_of node_id)) (k ∷ key) kem_key nonce sig)
            c).0.is_destroyed
          ≡ true)
unfolding handle_frame handle_init check_init
spoofed_init_refused env now node_id k key other kem_key nonce sig c valid plain derived differs =
    let tracked = record c {
      nonce_tracker = (track now nonce env.net.remote_address c.nonce_tracker).0;
    } in
    let bad =
      validate_peer_ip-other env.crypto env.local env.net node_id k key other valid plain derived
        differs in
    if-cases (IsClosed c) c.is_initiator (λ _. refuse-IsClosed c)
      (λ _.
        if-cases (IsClosed c) (track now nonce env.net.remote_address c.nonce_tracker).1
          (λ _.
            subst (IsClosed c) (sym (some-is _ _ bad))
              (refuse-IsClosed-tracked c tracked.nonce_tracker))
          (λ _. refuse-IsClosed-tracked c tracked.nonce_tracker))

-- A HANDSHAKE_INIT that was authentic as far as its nonce goes is refused when it comes again to any channel that
-- shares the tracker, from the same address, within the time to live and with fewer calls in between than the tracker
-- has room for: the socket is closed, and but for that and the tracker every field of the channel stays as it was.
pub replayed_init_refused :
    (env : Env) (now : ℕ) (address : Option Str) (identity_key kem_key nonce sig : Str)
    (tracker : NonceTracker)
    → (track now nonce env.net.remote_address tracker).1 ≡ true
    → (calls : List Call) → All (λ c. c.now ≤ now + tracker.ttl_ms) calls
    → length calls < tracker.max_capacity
    → (later : ℕ) → later ≤ now + tracker.ttl_ms
    → (c : Channel)
    → c.nonce_tracker ≡ Replay.run calls (track now nonce env.net.remote_address tracker).0
    → IsKept c (handle_frame env later (handshake_init address identity_key kem_key nonce sig) c)
      × ((handle_frame env later
            (handshake_init address identity_key kem_key nonce sig)
            c).0.is_destroyed
          ≡ true)
unfolding handle_frame handle_init
replayed_init_refused env now address identity_key kem_key nonce sig tracker accepted calls young
      few later soon c shared =
    let again : (track later nonce env.net.remote_address c.nonce_tracker).1 ≡ false =
      ap (λ t. (track later nonce env.net.remote_address t).1) shared
      ∙ replay_refused now nonce env.net.remote_address tracker accepted calls young few later
          soon in
    if-cases (IsClosed c) c.is_initiator (λ _. refuse-IsClosed c)
      (λ _.
        if-cases (IsClosed c) (track later nonce env.net.remote_address c.nonce_tracker).1
          (λ fresh. cc (fresh, again))
          (λ _.
            refuse-IsClosed-tracked c (track later nonce env.net.remote_address c.nonce_tracker).0))
