-- ===== src/Tests/Samples.antt =====
-- Identifiers, addresses and nodes that the examples share.
use bt_dht_crawler.Prelude.{◌≢◌, refl, [], ◌∷◌, Bytes, arith}
use bt_dht_crawler.Dht.Id.{NodeId, IsNodeId, zero_id}
use bt_dht_crawler.Dht.Compact.{CompactNodeInfo, CompactPeerInfo}
use bt_dht_crawler.Dht.Compact.RoundTrip.{IsEndpoint, IsCompact}
use bt_dht_crawler.Dht.Routing.{RoutingTable, new_table, insert}
use bt_dht_crawler.Dht.Routing.Invariant.{IsValid, new_table-IsValid, insert-IsValid}
use bt_dht_crawler.Dht.Node.{Node, Address}
use bt_dht_crawler.Dht.Node.Invariant.{IsGoodNode}

abbrev pub id_a : NodeId
id_a =
    1 ∷ 2 ∷ 3 ∷ 4 ∷ 5 ∷ 6 ∷ 7 ∷ 8 ∷ 9 ∷ 10 ∷ 11 ∷ 12 ∷ 13 ∷ 14 ∷ 15 ∷ 16 ∷ 17 ∷ 18 ∷ 19 ∷ 255 ∷ []

abbrev pub id_b : NodeId
id_b = 0xab ∷ 0 ∷ 0 ∷ 0 ∷ 0 ∷ 0 ∷ 0 ∷ 0 ∷ 0 ∷ 0 ∷ 0 ∷ 0 ∷ 0 ∷ 0 ∷ 0 ∷ 0 ∷ 0 ∷ 0 ∷ 0 ∷ 7 ∷ []

pub id_a-IsNodeId : IsNodeId id_a
id_a-IsNodeId = record { size = refl; in_range = omega arith }

pub id_b-IsNodeId : IsNodeId id_b
id_b-IsNodeId = record { size = refl; in_range = omega arith }

pub zero_id-IsNodeId : IsNodeId zero_id
zero_id-IsNodeId = record { size = refl; in_range = omega arith }

abbrev pub ip_a : Bytes
ip_a = 192 ∷ 0 ∷ 2 ∷ 17 ∷ []

pub ip_a_given : ip_a ≢ []
ip_a_given e = cc

abbrev pub addr_a : Address
addr_a = record { ip = ip_a; port = 6881 }

abbrev pub node_a : CompactNodeInfo
node_a = record { id = id_a; ip = ip_a; port = 6881 }

pub node_a-IsCompact : IsCompact node_a
node_a-IsCompact = record {
  id_size = refl;
  endpoint = record { four = refl; port_fits = omega arith };
}

abbrev pub peer_a : CompactPeerInfo
peer_a = record { ip = ip_a; port = 51413 }

pub peer_a-IsEndpoint : IsEndpoint ip_a 51413
peer_a-IsEndpoint = record { four = refl; port_fits = omega arith }

-- A table of `zero_id` that knows one node.
abbrev pub table_a : RoutingTable
table_a = (insert 100 id_a ip_a 6881 (new_table zero_id)).0

pub table_a-IsValid : IsValid table_a
table_a-IsValid = insert-IsValid 100 id_a ip_a 6881 (new_table zero_id) (new_table-IsValid zero_id)

-- A running node with that table and four bytes of secrets.
abbrev pub running : Node
running = record {
  id = zero_id;
  table = table_a;
  event_chan = [];
  event_room = 2;
  token_secret = 1 ∷ 2 ∷ 3 ∷ 4 ∷ [];
  last_secret = 5 ∷ 6 ∷ 7 ∷ 8 ∷ [];
  queries_received = 0;
  get_peers_count = 0;
  announce_count = 0;
  pending = [];
  answers = [];
  sent = [];
}

pub running-IsGoodNode : IsGoodNode running
running-IsGoodNode = record { table_valid = table_a-IsValid; events_fit = omega arith }

abbrev pub token_a : Bytes
token_a = 193 ∷ 2 ∷ 1 ∷ 21 ∷ 0 ∷ 0 ∷ 0 ∷ 0 ∷ []

abbrev pub long_token : Bytes
long_token = 0 ∷ 0 ∷ 0 ∷ 0 ∷ 0 ∷ 0 ∷ 0 ∷ 0 ∷ 0 ∷ []
