-- ===== src/Onion/Build/Established.antt =====
-- Every relay of a circuit of src/core/onionRouter.js gets the key that the client has for it.
use metrice.Base.{
  ℕ, suc, ◌+◌, All, if-cases, some-cases, if◌then◌else◌, ◌*◌, Bool, true, false, ◌≡◌, refl, sym,
  subst, ◌∙◌, Option, none, some, List, [], ◌∷◌, Str, codes, str_eq_inst, ltb, ◌==◌, some-is,
  length,
}
use metrice.JsMap
use metrice.Onion.Build.Installed.{establish, HoldKeys, Opens, Ready, setup_established}
use metrice.Onion.Build.{
  setup_text, Prepared, prepare, setup_for, new_circuit, launch, build_circuit,
}
use metrice.Onion.Peeling.{Station}
use metrice.Onion.Relay.{Setup, Route, onion_info}
use metrice.Onion.{Hop, Circuit, uniform_cell_size}
use metrice.SecureChannel.Lines.{byte_length}
use metrice.SecureChannel.{Crypto}

-- What is known of a hop that the client has prepared: where its two keys come from
pub record IsPrepared (crypto : Crypto) (circuit_id : Str) (p : Prepared) : Type 0 where
  pub draw : ℕ
  pub secret : Str × Str
  pub encapsulated : crypto.encapsulate p.hop.kem_public_key draw ≡ some secret
  pub encapsulated_key : p.encapsulated_key ≡ secret.1
  pub key : p.key ≡ crypto.derive_key secret.0 circuit_id onion_info

-- The relay has the private key of the hop, and a cipher library that fits the client's: it opens what was encapsulated for
-- the hop, which is not empty, derives the same keys, and decrypts what was encrypted with the same key.
pub record Serves (crypto : Crypto) (h : Hop) (s : Station) : Type 0 where
  pub opens :
      (secret : Str × Str) (draw : ℕ)
      → crypto.encapsulate h.kem_public_key draw ≡ some secret
      → ((length secret.1 == 0) ≡ false)
        × (s.env.crypto.decapsulate s.env.kem_private secret.1 ≡ some secret.0)
  pub derives :
      (secret salt info : Str)
      → s.env.crypto.derive_key secret salt info ≡ crypto.derive_key secret salt info
  pub unseals :
      (text key : Str) (draw : ℕ)
      → s.env.crypto.decrypt (crypto.encrypt text key draw) key ≡ some text

abbrev prepared_of : Option (List Prepared) → List Prepared
prepared_of none = []
prepared_of (some prepared) = prepared

prepare-IsPrepared :
    (crypto : Crypto) (circuit_id : Str) (draw : ℕ) (hops : List Hop)
    → All (IsPrepared crypto circuit_id) (prepared_of (prepare crypto circuit_id draw hops))
unfolding prepare
prepare-IsPrepared crypto circuit_id draw [] = tt
prepare-IsPrepared crypto circuit_id draw (h ∷ hops) =
    let Good : Option (List Prepared) → Type 0 =
      λ o. All (IsPrepared crypto circuit_id) (prepared_of o) in
    if-cases Good (length h.kem_public_key == 0) (λ _. tt)
      (λ _.
        some-cases Good (crypto.encapsulate h.kem_public_key draw) (λ _. tt)
          (λ secret e.
            some-cases Good (prepare crypto circuit_id (suc draw) hops) (λ _. tt)
              (λ prepared rest. (
                record {
                  draw = draw;
                  secret = secret;
                  encapsulated = e;
                  encapsulated_key = refl;
                  key = refl;
                },
                subst Good rest (prepare-IsPrepared crypto circuit_id (suc draw) hops),
              ))))

Serves-Opens :
    (crypto : Crypto) (circuit_id : Str) (p : Prepared) (s : Station)
    → (length circuit_id == 0) ≡ false
    → IsPrepared crypto circuit_id p
    → Serves crypto p.hop s
    → Opens circuit_id p s
Serves-Opens crypto circuit_id p s named g serves =
    let (full, opened) = serves.opens g.secret g.draw g.encapsulated in
    record {
      secret = g.secret.0;
      filled = rw (g.encapsulated_key, named) full;
      opened = rw g.encapsulated_key opened;
      derived = serves.derives g.secret.0 circuit_id onion_info ∙ sym g.key;
    }

module _ (crypto : Crypto) (circuit_id : Str) (draw : ℕ) where
  -- The relays serve the hops; each hop but the first has an address, and the relay in front of it reads the setup for it,
  -- which stays within twice the cell size.
  abbrev pub Serving : Prepared → Station → List Prepared → List Station → Type 0
  Serving p s [] [] = Serves crypto p.hop s
  Serving p s (next ∷ rest) (n ∷ stations) =
      Serves crypto p.hop s
      × ((length next.hop.address == 0) ≡ false)
      × (ltb (uniform_cell_size * 2) (
            byte_length
              (setup_text (setup_for crypto circuit_id draw (codes "CIRCUIT_EXTEND") next rest)))
          ≡ false)
      × (s.env.parse_setup
            (setup_text (setup_for crypto circuit_id draw (codes "CIRCUIT_EXTEND") next rest))
          ≡ some (setup_for crypto circuit_id draw (codes "CIRCUIT_EXTEND") next rest))
      × Serving next n rest stations
  Serving p s [] (n ∷ stations) = false ≡ true
  Serving p s (next ∷ rest) [] = false ≡ true

  Serving-Ready :
      (now : ℕ) (answer : Route → Setup → Bool) (p : Prepared) (s : Station) (rest : List Prepared)
      (stations : List Station)
      → (length circuit_id == 0) ≡ false
      → All (IsPrepared crypto circuit_id) (p ∷ rest)
      → Serving p s rest stations
      → Ready crypto circuit_id draw now answer p s rest stations
  Serving-Ready now answer p s [] [] named (g, _) serves =
      Serves-Opens crypto circuit_id p s named g serves
  Serving-Ready now answer p s [] (n ∷ stations) named g o = cc o
  Serving-Ready now answer p s (next ∷ rest) [] named g o = cc o
  Serving-Ready now answer p s (next ∷ rest) (n ∷ stations) named (g, more)
        (serves, dialed, small, reads, serving) =
      (
        Serves-Opens crypto circuit_id p s named g serves,
        dialed,
        serves.unseals _ p.key (draw + length rest),
        small,
        reads,
        Serving-Ready now answer next n rest stations named more serving,
      )

-- The client prepares a circuit of any number of hops, and relays that have the private keys of these hops take the setup
-- that it sends, one behind the other. Then the circuit is kept if the first relay answers that it is ready, and each relay
-- holds, for the circuit and the channel that the setup came over, the same key that the circuit of the client has for that hop.
pub circuit_established :
    (crypto : Crypto) (circuit_id : Str) (hops : List Hop) (target : Str) (built : ℕ)
    (guard : Str → Setup → Bool) (pool : List (Str × Circuit)) (now : ℕ)
    (answer : Route → Setup → Bool) (p : Prepared) (rest : List Prepared) (s : Station)
    (stations : List Station)
    → (length circuit_id == 0) ≡ false
    → prepare crypto circuit_id 0 hops ≡ some (p ∷ rest)
    → Serving crypto circuit_id (length hops) p s rest stations
    → (let setup = setup_for crypto circuit_id (length hops) (codes "CIRCUIT_CREATE") p rest in
        let circuit = new_circuit built circuit_id hops (p ∷ rest) target in
        (build_circuit crypto guard built circuit_id hops target pool ≡ (
          if guard p.hop.address setup
          then some (circuit, JsMap.set circuit_id circuit pool)
          else none))
        × HoldKeys circuit_id circuit.keys (establish answer now s stations setup))
unfolding build_circuit launch new_circuit
circuit_established crypto circuit_id hops target built guard pool now answer p rest s stations
      named prepared serving =
    let good : All (IsPrepared crypto circuit_id) (p ∷ rest) =
      subst (λ o. All (IsPrepared crypto circuit_id) (prepared_of o)) prepared
        (prepare-IsPrepared crypto circuit_id 0 hops) in
    (
      some-is _ _ prepared,
      setup_established crypto circuit_id (length hops) now answer (codes "CIRCUIT_CREATE") p s rest
          stations
          (Serving-Ready crypto circuit_id (length hops) now answer p s rest stations named good
            serving),
    )
