-- ===== src/Onion/Peeling.antt =====
-- A cell of src/core/onionRouter.js loses one layer at each relay of its circuit and arrives at the last.
use metrice.Base.{
  ℕ, suc, ◌+◌, ◌*◌, true, false, ◌≡◌, ap, ◌∙◌, Option, none, some, List, [], ◌∷◌, Str, has_char,
  str_eq_inst, ltb, if-true, if-false, some-is, length,
}
use metrice.JsMap
use metrice.SecureChannel.Lines.{byte_length}
use metrice.SecureChannel.{Crypto, json_object}
use metrice.Onion.{
  uniform_cell_size, Cell, cell_text, Layer, deliver, forward, nothing, layer_text, Incoming,
  get_hop_identifier, Hop, cell_of, seal_layer, wrap,
}
use metrice.Onion.Relay.{
  CircuitHop, Env, Effect, send_cell, circuit_key, route_to, is_forward_address, forward_cell,
  handle_layer, open_layer, is_whole, handle_onion_cell,
}

-- A relay with its circuits, and the channel that the cell comes over
pub record Station : Type 0 where
  pub env : Env
  pub circuits : List (Str × CircuitHop)
  pub incoming : Incoming

-- The cell that is sent on, if there is one
abbrev pub sent_on : List Effect → Option Cell
sent_on [] = none
sent_on (send_cell route cell ∷ effects) = some cell
sent_on (_ ∷ effects) = none

abbrev pub visit : Station → Cell → List Effect
visit s cell = handle_onion_cell s.env s.circuits cell s.incoming

-- The effects at the last relay, when each relay sends the cell on to the next one
unfoldable pub travel : Station → List Station → Cell → List Effect
travel s [] cell = visit s cell
travel s (next ∷ rest) cell = elim (sent_on (visit s cell)) [
  | none ↦ []
  | some inner ↦ travel next rest inner
]

-- The relay of a station holds the key of the circuit for the channel that the cell comes over; its cipher library
-- opens what was sealed with that key, into a cell without empty parts; and `JSON.parse` reads what `JSON.stringify`
-- wrote of the layer.
pub record Opens (crypto : Crypto) (circuit_id key : Str) (s : Station) (layer : Layer) (draw : ℕ)
    : Type 0 where
  pub hop : CircuitHop
  pub known :
      JsMap.get (circuit_key circuit_id (get_hop_identifier s.incoming)) s.circuits ≡ some hop
  pub same_key : hop.symmetric_key ≡ key
  pub unseals :
      s.env.crypto.decrypt (crypto.encrypt (layer_text layer) key draw) key
      ≡ some (layer_text layer)
  pub whole : is_whole (seal_layer crypto circuit_id key draw layer) ≡ true
  pub reads : s.env.parse_layer (layer_text layer) ≡ some layer

open_layer-some :
    (env : Env) (layer : Layer)
    → env.parse_layer (layer_text layer) ≡ some layer
    → open_layer env (some (layer_text layer)) ≡ handle_layer env layer
unfolding open_layer layer_text json_object
open_layer-some env (deliver target payload) h = some-is _ _ h
open_layer-some env (forward address cell) h = some-is _ _ h
open_layer-some env nothing h = some-is _ _ h

visit-seal :
    (crypto : Crypto) (circuit_id key : Str) (s : Station) (layer : Layer) (draw : ℕ)
    → Opens crypto circuit_id key s layer draw
    → visit s (seal_layer crypto circuit_id key draw layer) ≡ handle_layer s.env layer
unfolding handle_onion_cell seal_layer cell_of
visit-seal crypto circuit_id key s layer draw h =
    if-true _ h.whole
    ∙ (some-is _ _ h.known
        ∙ (ap
              (λ k.
                open_layer s.env
                  (s.env.crypto.decrypt (crypto.encrypt (layer_text layer) key draw) k))
              h.same_key
            ∙ (ap (open_layer s.env) h.unseals ∙ open_layer-some s.env layer h.reads)))

handle_layer-forward :
    (env : Env) (address : Str) (cell : Cell)
    → is_forward_address address ≡ true
    → ltb (uniform_cell_size * 2) (byte_length (cell_text cell)) ≡ false
    → handle_layer env (forward address cell) ≡ send_cell (route_to true env address) cell ∷ []
unfolding handle_layer forward_cell is_forward_address has_char
handle_layer-forward env [] cell good small = cc good
handle_layer-forward env (c ∷ address) cell good small = if-false _ small ∙ if-true _ good

module _ (crypto : Crypto) (circuit_id target payload : Str) (draw : ℕ) where
  -- The hops behind the first, with their keys and relays
  abbrev pub hops_of : List ((Hop × Str) × Station) → List (Hop × Str)
  hops_of [] = []
  hops_of (h ∷ rest) = h.0 ∷ hops_of rest

  abbrev pub stations_of : List ((Hop × Str) × Station) → List Station
  stations_of [] = []
  stations_of (h ∷ rest) = h.1 ∷ stations_of rest

  abbrev pub last_of : Station → List ((Hop × Str) × Station) → Station
  last_of s [] = s
  last_of s (h ∷ rest) = last_of h.1 rest

  -- Each relay opens its layer, and the cell in it has an address that can be dialed and is within twice the cell size.
  abbrev pub Passes : Str → Station → List ((Hop × Str) × Station) → Type 0
  Passes key s [] = Opens crypto circuit_id key s (deliver target payload) draw
  Passes key s (h ∷ rest) =
      Opens crypto circuit_id key s
        (forward h.0.0.address (wrap crypto circuit_id target payload draw h.0.1 (hops_of rest)))
        (suc (draw + length (hops_of rest)))
      × (is_forward_address h.0.0.address ≡ true)
      × (ltb (uniform_cell_size * 2) (
            byte_length
              (cell_text (wrap crypto circuit_id target payload draw h.0.1 (hops_of rest))))
          ≡ false)
      × Passes h.0.1 h.1 rest

  -- On a circuit of any number of relays that open their layers, the cell that is wrapped for them is sent on by each
  -- relay but the last, one layer smaller each time, and the last relay gets exactly the payload for exactly the target.
  pub onion_delivered :
      (key : Str) (s : Station) (rest : List ((Hop × Str) × Station))
      → Passes key s rest
      → travel s (stations_of rest) (wrap crypto circuit_id target payload draw key (hops_of rest))
        ≡ handle_layer (last_of s rest).env (deliver target payload)
  unfolding travel wrap
  onion_delivered key s [] opens =
      visit-seal crypto circuit_id key s (deliver target payload) draw opens
  onion_delivered key s (((hop, next_key), next) ∷ rest) (opens, dialable, small, passes) =
      let inner = wrap crypto circuit_id target payload draw next_key (hops_of rest) in
      let layer = forward hop.address inner in
      let count = suc (draw + length (hops_of rest)) in
      let seen : visit s (seal_layer crypto circuit_id key count layer)
          ≡ send_cell (route_to true s.env hop.address) inner ∷ [] =
        visit-seal crypto circuit_id key s layer count opens
        ∙ handle_layer-forward s.env hop.address inner dialable small in
      some-is _ _ (ap sent_on seen) ∙ onion_delivered next_key next rest passes
