-- ===== src/Onion/Build/Installed.antt =====
-- What relays do with the setup of a circuit of src/core/onionRouter.js whose keys they open.
use metrice.Base.{
  ℕ, ◌+◌, map, ◌*◌, Bool, true, false, ◌||◌, ◌≡◌, refl, sym, ap, subst, ◌∙◌, Option, none, some,
  List, [], ◌∷◌, Str, codes, str_eq_refl, str_eq_inst, ltb, ◌==◌, if-true, if-false, some-is,
  length,
}
use metrice.JsMap
use metrice.JsMap.Laws.{get-set}
use metrice.Onion.Build.{setup_text, Prepared, setup_for}
use metrice.Onion.Peeling.{Station}
use metrice.Onion.Relay.{
  CircuitHop, Setup, Env, Route, Effect, extend, circuit_key, onion_info, extend_effects,
  extend_circuit, setup_effects, next_of, handle_circuit_setup,
}
use metrice.Onion.{uniform_cell_size, get_hop_identifier}
use metrice.SecureChannel.Lines.{byte_length}
use metrice.SecureChannel.{Crypto, json_object}

-- The setup that goes on, if there is one
abbrev pub extended : List Effect → Option Setup
extended [] = none
extended (extend route p ∷ effects) = some p
extended (_ ∷ effects) = none

abbrev pub taken :
    (Route → Setup → Bool) → ℕ → Station → Setup → List (Str × CircuitHop) × List Effect
taken answer now s p = handle_circuit_setup s.env answer now p s.incoming s.circuits

abbrev pub installed : (Route → Setup → Bool) → ℕ → Station → Setup → Station
installed answer now s p = record s { circuits = (taken answer now s p).0 }

-- The relays behind a setup that each sends on to the next
unfoldable pub establish :
    (Route → Setup → Bool) → ℕ → Station → List Station → Setup → List Station
establish answer now s [] p = installed answer now s p ∷ []
establish answer now s (next ∷ rest) p =
    installed answer now s p ∷ elim (extended (taken answer now s p).1) [
      | none ↦ next ∷ rest
      | some inner ↦ establish answer now next rest inner
    ]

-- The key that a relay has for the circuit
abbrev pub key_of : Str → Station → Option Str
key_of circuit_id s =
    elim (JsMap.get (circuit_key circuit_id (get_hop_identifier s.incoming)) s.circuits) [
      | none ↦ none
      | some hop ↦ some hop.symmetric_key
    ]

-- Each relay has its own one of the keys.
abbrev pub HoldKeys : Str → List Str → List Station → Type 0
HoldKeys circuit_id [] [] = Unit
HoldKeys circuit_id (key ∷ keys) (s ∷ stations) =
    (key_of circuit_id s ≡ some key) × HoldKeys circuit_id keys stations
HoldKeys circuit_id [] (s ∷ stations) = false ≡ true
HoldKeys circuit_id (key ∷ keys) [] = false ≡ true

-- The relay opens the encapsulated key for it, and derives the key of the client.
pub record Opens (circuit_id : Str) (p : Prepared) (s : Station) : Type 0 where
  pub secret : Str
  pub filled : (length circuit_id == 0) || (length p.encapsulated_key == 0) ≡ false
  pub opened : s.env.crypto.decapsulate s.env.kem_private p.encapsulated_key ≡ some secret
  pub derived : s.env.crypto.derive_key secret circuit_id onion_info ≡ p.key

-- What a relay does with a setup whose key it opens
abbrev installed_hop : ℕ → Setup → Str → CircuitHop
installed_hop now q key = record {
  next_hop = next_of q.next_hop;
  symmetric_key = key;
  created_at = now;
}

taken-opens :
    (answer : Route → Setup → Bool) (now : ℕ) (s : Station) (q : Setup) (secret key : Str)
    → (length q.circuit_id == 0) || (length q.encapsulated_key == 0) ≡ false
    → s.env.crypto.decapsulate s.env.kem_private q.encapsulated_key ≡ some secret
    → s.env.crypto.derive_key secret q.circuit_id onion_info ≡ key
    → taken answer now s q ≡ (
      JsMap.set
          (circuit_key q.circuit_id (get_hop_identifier s.incoming))
          (installed_hop now q key)
          s.circuits,
      setup_effects s.env answer q key,
    )
unfolding handle_circuit_setup
taken-opens answer now s q secret key filled opened derived =
    if-false _ filled
    ∙ (some-is _ _ opened
        ∙ ap
            (λ k. (
              JsMap.set (circuit_key q.circuit_id (get_hop_identifier s.incoming))
                  (installed_hop now q k) s.circuits,
              setup_effects s.env answer q k,
            ))
            derived)

installed-key :
    (answer : Route → Setup → Bool) (now : ℕ) (s : Station) (q : Setup) (secret key : Str)
    → (length q.circuit_id == 0) || (length q.encapsulated_key == 0) ≡ false
    → s.env.crypto.decapsulate s.env.kem_private q.encapsulated_key ≡ some secret
    → s.env.crypto.derive_key secret q.circuit_id onion_info ≡ key
    → key_of q.circuit_id (installed answer now s q) ≡ some key
installed-key answer now s q secret key filled opened derived =
    let k = circuit_key q.circuit_id (get_hop_identifier s.incoming) in
    let held : JsMap.get k (taken answer now s q).0 ≡ some (installed_hop now q key) =
      ap (λ (r : List (Str × CircuitHop) × List Effect). JsMap.get k r.0)
        (taken-opens answer now s q secret key filled opened derived)
      ∙ (get-set k k (installed_hop now q key) s.circuits ∙ if-true _ (str_eq_refl k)) in
    some-is _ _ held

-- The sealed setup opens to the next one, which goes on.
extended-setup :
    (env : Env) (answer : Route → Setup → Bool) (q next : Setup) (key : Str) (box : Str × Str × Str)
    → (length q.next_hop == 0) ≡ false
    → q.extend_payload ≡ some box
    → env.crypto.decrypt box key ≡ some (setup_text next)
    → ltb (uniform_cell_size * 2) (byte_length (setup_text next)) ≡ false
    → env.parse_setup (setup_text next) ≡ some next
    → extended (setup_effects env answer q key) ≡ some next
unfolding setup_effects extend_circuit extend_effects setup_text json_object
extended-setup env answer q next key box dialed sealed unseals small reads = ap extended (
    some-is _ _ sealed
    ∙ (if-false _ dialed
        ∙ (ap (extend_circuit env answer q) unseals ∙ (if-false _ small ∙ some-is _ _ reads))))

module _ (crypto : Crypto) (circuit_id : Str) (draw now : ℕ) (answer : Route → Setup → Bool) where
  -- The setup for the next hop
  abbrev pub inner : Prepared → List Prepared → Setup
  inner next rest = setup_for crypto circuit_id draw (codes "CIRCUIT_EXTEND") next rest

  -- The relays open the keys for them; each but the last has a next address, opens the setup for the next relay with its
  -- key, and reads it, within twice the cell size.
  abbrev pub Ready : Prepared → Station → List Prepared → List Station → Type 0
  Ready p s [] [] = Opens circuit_id p s
  Ready p s (next ∷ rest) (n ∷ stations) =
      Opens circuit_id p s
      × ((length next.hop.address == 0) ≡ false)
      × (s.env.crypto.decrypt
            (crypto.encrypt (setup_text (inner next rest)) p.key (draw + length rest)) p.key
          ≡ some (setup_text (inner next rest)))
      × (ltb (uniform_cell_size * 2) (byte_length (setup_text (inner next rest))) ≡ false)
      × (s.env.parse_setup (setup_text (inner next rest)) ≡ some (inner next rest))
      × Ready next n rest stations
  Ready p s [] (n ∷ stations) = false ≡ true
  Ready p s (next ∷ rest) [] = false ≡ true

  pub setup_established :
      (kind : Str) (p : Prepared) (s : Station) (rest : List Prepared) (stations : List Station)
      → Ready p s rest stations
      → HoldKeys circuit_id
          (p.key ∷ map (λ q. q.key) rest)
          (establish answer now s stations (setup_for crypto circuit_id draw kind p rest))
  unfolding establish setup_for
  setup_established kind p s [] [] o = (
    installed-key answer now s (setup_for crypto circuit_id draw kind p []) o.secret p.key o.filled
        o.opened o.derived,
    tt,
  )
  setup_established kind p s [] (n ∷ stations) o = cc o
  setup_established kind p s (next ∷ rest) [] o = cc o
  setup_established kind p s (next ∷ rest) (n ∷ stations)
        (o, dialed, unseals, small, reads, ready) =
      let q = setup_for crypto circuit_id draw kind p (next ∷ rest) in
      let box = crypto.encrypt (setup_text (inner next rest)) p.key (draw + length rest) in
      let goes_on : extended (taken answer now s q).1 ≡ some (inner next rest) =
        ap (λ (r : List (Str × CircuitHop) × List Effect). extended r.1)
          (taken-opens answer now s q o.secret p.key o.filled o.opened o.derived)
        ∙ extended-setup s.env answer q (inner next rest) p.key box dialed refl unseals small
            reads in
      (
        installed-key answer now s q o.secret p.key o.filled o.opened o.derived,
        subst (HoldKeys circuit_id (next.key ∷ map (λ q. q.key) rest)) (sym (some-is _ _ goes_on))
            (setup_established (codes "CIRCUIT_EXTEND") next n rest stations ready),
      )
