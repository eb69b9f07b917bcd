-- ===== src/Presence/Broadcast/Once.antt =====
-- How often `broadcastPresenceAnnounce` of src/core/presenceManager.js writes to a channel.
use metrice.Base.{
  ℕ, suc, Bool, true, false, ◌&&◌, ◌||◌, ◌≡◌, List, [], ◌∷◌, Str, str_eq_inst, ◌==◌, if◌then◌else◌,
}
use metrice.Federation.{Engine, Peering, is_relay_node}
use metrice.Federation.Packet.{Packet, Consequence, write, connect, upsert_route}
use metrice.JsMap
use metrice.Presence.Broadcast.{is_usable_channel, pool_key_of}

abbrev is_write : ℕ → Consequence → Bool
is_write c (write d payload) = d == c
is_write c _ = false

-- How often a channel is written to
abbrev pub writes : ℕ → List Consequence → ℕ
writes c [] = 0
writes c (effect ∷ effects) = if is_write c effect then suc (writes c effects) else writes c effects

-- The channel stands in the list, ready and writable.
abbrev pub is_offered : ℕ → List (Str × Peering) → Bool
is_offered c [] = false
is_offered c ((key, ch) ∷ channels) =
    ((ch.channel == c) && is_usable_channel ch) || is_offered c channels

-- A consequence of announcing `payload`: a route that is stored, a write of that payload, or, on a relay, the dialing of a
-- peer for that payload, to whose address the pool has no channel
abbrev pub IsAnnouncing : Engine → Packet → Consequence → Type 0
IsAnnouncing e payload (upsert_route node_id p) = Unit
IsAnnouncing e payload (write c sent) = sent ≡ payload
IsAnnouncing e payload (connect host port sent) =
    (sent ≡ payload)
    × (is_relay_node e ≡ true)
    × (JsMap.has (pool_key_of (host, port)) e.pool ≡ false)
IsAnnouncing e payload _ = ⊥
