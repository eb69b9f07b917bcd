-- ===== src/Federation/Sample.antt =====
-- A node of the federation and its state, for the instances of the theorems.
use metrice.Federation.{Config, Engine, User, Peering, ReverseTunnel}
use metrice.Packets.{Source}
use metrice.Presence.{LocalState}
use metrice.Rendezvous.{Presence}
use metrice.Base.{ℕ, true, false, none, some, [], ◌∷◌, Str, codes, str_eq}

-- A node on host `me`, port 4000. A signature is good if it is the text `sig`.
abbrev pub config : Config
config = record {
  pool_env = record {
    server_name = codes "me";
    federation_port = 4000;
    public_federation_port = 0;
    bootstrap_peers = [];
    interfaces = [];
  };
  addresses = record {
    server_name = codes "me";
    federation_port = 4000;
    local_node_id = some (codes "own");
  };
  node_id = codes "own";
  mesh_address = codes "own.mesh";
  presence_ttl = 0;
  default_channel = codes "#general";
  allow_edge_gossip = false;
  allow_edge_routing = false;
  is_test = false;
  kem_public = codes "k";
  identity_public = codes "own";
  identity_private = codes "p";
  derive_node_id = λ key. key;
  verify = λ text sig key. str_eq sig (codes "sig");
  sign = λ text key. codes "sig";
}

abbrev pub user_at : ℕ → User
user_at now = record { last_seen = now; channels = []; is_ssh = false; kem_key = [] }

abbrev pub peering : ℕ → Str → Peering
peering channel address = record {
  channel = channel;
  peer_address = address;
  remote_ip = codes "9.9.9.9";
  remote = codes "9.9.9.9:5";
  identity_key = [];
  kem_key = [];
  is_ready = true;
  is_writable = true;
}

abbrev pub presence_at : Str → ℕ → Presence
presence_at role now = record {
  role = role;
  rendezvous_nodes = [];
  kem_key = [];
  identity_key = [];
  channels = [];
  last_seen = now;
}

abbrev pub tunnel : ReverseTunnel
tunnel = record {
  channel = peering 3 (codes "edge.mesh");
  bound_address = codes "me:4000";
  edge_kem_key = [];
  identity_key = [];
}

-- A relay with a user of its own tunnel, one that is gone, and channel 1 in the pool and among the relays
abbrev pub engine : Engine
engine = record {
  role = codes "RELAY";
  node_address = codes "me:4000";
  public_ip = [];
  users =
      (codes "@ada:edge.mesh", user_at 500)
      ∷ (codes "@bob:b:7", user_at 1000)
      ∷ (codes "@Ada:a:7", user_at 90000)
      ∷ [];
  table =
      (codes "r", presence_at (codes "RELAY") 1000)
      ∷ (codes "n", presence_at (codes "EDGE") 1000)
      ∷ [];
  physical = (codes "n", codes "n:1") ∷ [];
  subscribers = (codes "#x", codes "b:7" ∷ codes "a:7" ∷ []) ∷ [];
  tunnels = (codes "edge", tunnel) ∷ [];
  relays = (codes "r:1", peering 1 (codes "r:1")) ∷ [];
  bound = codes "r:1" ∷ [];
  pool = (codes "r:1", peering 1 (codes "r:1")) ∷ (codes "s:1", peering 2 (codes "s:1")) ∷ [];
  peers = record { peers = []; public_ip = none; edge_ips = []; self_node_address = [] };
  seen_messages = record { ttl_ms = 180000; max_capacity = 10; cache = [] };
  seen_announces = [];
  seen_updates = [];
  seen_offline = [];
  last_sync = λ c. 0;
}

abbrev pub clients : LocalState
clients = record { users = codes "@eve" ∷ []; channels = []; memberships = [] }

abbrev pub source : Source
source = record { channel = peering 2 (codes "s:1"); remote_peer = codes "s:1" }
