-- ===== src/Onion/Build.antt =====
-- `buildCircuit` of src/core/onionRouter.js: the keys of the hops and the setup that is wrapped for them.
pub mod Established
pub mod Installed
mod Tests
use metrice.Base.{
  ℕ, suc, ◌+◌, Bool, true, false, Option, none, some, List, [], ◌∷◌, ◌++◌, Str, codes, str_eq_inst,
  ◌==◌, if◌then◌else◌, length, map,
}
use metrice.JsMap
use metrice.Onion.Relay.{Setup, onion_info, next_of}
use metrice.Onion.{Hop, Circuit}
use metrice.SecureChannel.{Crypto, json_text, json_or_null, json_object}

-- `JSON.stringify` of what `encrypt` returns
unfoldable pub box_text : Option (Str × Str × Str) → Str
box_text none = codes "null"
box_text (some box) = json_object (
    (codes "ciphertext", json_text box.1)
    ∷ (codes "iv", json_text box.0)
    ∷ (codes "authTag", json_text box.2)
    ∷ [])

unfoldable pub setup_text : Setup → Str
setup_text p = json_object (
    (codes "type", json_text p.kind)
    ∷ (codes "circuitId", json_text p.circuit_id)
    ∷ (codes "encapsulatedKey", json_text p.encapsulated_key)
    ∷ (codes "nextHop", json_or_null (next_of p.next_hop))
    ∷ (codes "extendPayload", box_text p.extend_payload)
    ∷ [])

-- A hop with its symmetric key and the encapsulated key for it
pub record Prepared : Type 0 where
  pub hop : Hop
  pub key : Str
  pub encapsulated_key : Str

-- The first loop; `none` when a hop has no key or `encapsulateKey` throws.
unfoldable pub prepare : Crypto → Str → ℕ → List Hop → Option (List Prepared)
prepare crypto circuit_id draw [] = some []
prepare crypto circuit_id draw (h ∷ hops) =
    let rest = prepare crypto circuit_id (suc draw) hops in
    if length h.kem_public_key == 0 then none else elim (crypto.encapsulate h.kem_public_key draw) [
      | none ↦ none
      | some secret ↦ elim rest [
        | none ↦ none
        | some prepared ↦
            let first : Prepared = record {
              hop = h;
              key = crypto.derive_key secret.0 circuit_id onion_info;
              encapsulated_key = secret.1;
            } in
            some (first ∷ prepared)
      ]
    ]

-- The second loop, from the last hop to the first; the draws count from the last hop on.
unfoldable pub setup_for : Crypto → Str → ℕ → Str → Prepared → List Prepared → Setup
setup_for crypto circuit_id draw kind p [] = record {
  kind = kind;
  circuit_id = circuit_id;
  encapsulated_key = p.encapsulated_key;
  next_hop = [];
  extend_payload = none;
}
setup_for crypto circuit_id draw kind p (next ∷ rest) = record {
  kind = kind;
  circuit_id = circuit_id;
  encapsulated_key = p.encapsulated_key;
  next_hop = next.hop.address;
  extend_payload = some (
      crypto.encrypt
        (setup_text (setup_for crypto circuit_id draw (codes "CIRCUIT_EXTEND") next rest)) p.key
        (draw + length rest));
}

unfoldable pub new_circuit : ℕ → Str → List Hop → List Prepared → Str → Circuit
new_circuit now circuit_id hops prepared target = record {
  circuit_id = circuit_id;
  hops = hops;
  keys = map (λ p. p.key) prepared;
  target_node_id = target;
  created_at = now;
}

-- The circuit, if the guard answers the setup with `circuit_ready`
unfoldable pub launch :
    Crypto
    → (Str → Setup → Bool)
    → ℕ
    → Str
    → List Hop
    → Str
    → List (Str × Circuit)
    → List Prepared
    → Option (Circuit × List (Str × Circuit))
launch crypto answer now circuit_id hops target pool [] = none
launch crypto answer now circuit_id hops target pool (p ∷ rest) =
    let c = new_circuit now circuit_id hops (p ∷ rest) target in
    if answer p.hop.address
      (setup_for crypto circuit_id (length hops) (codes "CIRCUIT_CREATE") p rest)
    then some (c, JsMap.set circuit_id c pool)
    else none

-- `buildCircuit(hops, targetNodeId)` with the circuit id that was generated; `none` when it throws.
unfoldable pub build_circuit :
    Crypto
    → (Str → Setup → Bool)
    → ℕ
    → Str
    → List Hop
    → Str
    → List (Str × Circuit)
    → Option (Circuit × List (Str × Circuit))
build_circuit crypto answer now circuit_id hops target pool =
    elim (prepare crypto circuit_id 0 hops) [
      | none ↦ none
      | some prepared ↦ launch crypto answer now circuit_id hops target pool prepared
    ]
