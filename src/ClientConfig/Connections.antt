-- ===== src/ClientConfig/Connections.antt =====
-- pkg/clientconfig/cache.go: connections, and the map of a cluster's connections. A connection is
-- shared by pointer between the cache and the service: a pointer is a number, its object stands in
-- a heap.
use discovery_client.Prelude.{
  ℕ, String, Bool, true, false, Option, none, some, ◌&&◌, ◌||◌, ◌==◌, String_eq, ℕ_eq,
  if◌then◌else◌, String_discrete, Eq, List, [], ◌∷◌, ◌≡◌, refl, arith, Option-cases, inl, inr,
}
use discovery_client.Prelude.Int.{ℤ, ℤ_discrete}
use discovery_client.Prelude.Maps.{lookup, insert, delete, lookup-insert, lookup-delete}

-- `TKey`.
pub record TKey : Type 0 where
  pub transport : String
  pub ip : String
  pub port : ℤ
  pub nqn : String
  pub hostnqn : String

unfoldable pub TKey_discrete : Discrete TKey
TKey_discrete = hlevel (ℤ_discrete, String_discrete)

instance abbrev pub TKey_eq : Eq TKey
TKey_eq = record { eq_dec = TKey_discrete }

-- `ClientClusterPair`.
pub record ClientClusterPair : Type 0 where
  pub cluster_nqn : String
  pub host_nqn : String

unfoldable pub ClientClusterPair_discrete : Discrete ClientClusterPair
ClientClusterPair_discrete = hlevel String_discrete

instance abbrev pub ClientClusterPair_eq : Eq ClientClusterPair
ClientClusterPair_eq = record { eq_dec = ClientClusterPair_discrete }

-- `ClientClusterPair{}`, which stands for "no change".
abbrev pub empty_pair : ClientClusterPair
empty_pair = record { cluster_nqn = ""; host_nqn = "" }

unfoldable pub is_empty : ClientClusterPair → Bool
is_empty p = p.cluster_nqn == "" && p.host_nqn == ""

pub is_empty-empty_pair : is_empty empty_pair ≡ true
unfolding is_empty String_discrete
is_empty-empty_pair = refl

-- `Connection`: `stopped` holds once `Stop` has cancelled its context and closed its AEN channel.
pub record Connection : Type 0 where
  pub hostnqn : String
  pub hostid : String
  pub key : TKey
  pub connection_id : String
  pub state : Bool
  pub ctrl_loss_tmo : Option ℤ
  pub stopped : Bool

-- `newConnection`: the caller fills in the host's names.
unfoldable pub new_connection : TKey → Option ℤ → Connection
new_connection key tmo = record {
  hostnqn = "";
  hostid = "";
  key = key;
  connection_id = "";
  state = false;
  ctrl_loss_tmo = tmo;
  stopped = false;
}

-- `Stop` and `SetState`, on the object.
unfoldable pub stop : Connection → Connection
stop c = record c { stopped = true }

unfoldable pub set_state : Connection → Bool → Connection
set_state c new_state = record c { state = new_state }

-- `ClusterConnections`: the pointers by key, and the pointer of the active connection.
pub record ClusterConnections : Type 0 where
  pub cluster_connections_map : List (TKey × ℕ)
  pub active_connection : Option ℕ

-- The zero value, which a read of a missing key gives.
abbrev pub no_connections : ClusterConnections
no_connections = record { cluster_connections_map = []; active_connection = none }

-- `ConnectionMap`.
abbrev pub ConnectionMap : Type 0
ConnectionMap = List (ClientClusterPair × ClusterConnections)

abbrev pub or_no_connections : Option ClusterConnections → ClusterConnections
or_no_connections none = no_connections
or_no_connections (some cc) = cc

-- `cm[pair]`.
unfoldable pub cluster : ConnectionMap → ClientClusterPair → ClusterConnections
cluster cm pair = or_no_connections (lookup pair cm)

abbrev pub pair_of : TKey → ClientClusterPair
pair_of key = record { cluster_nqn = key.nqn; host_nqn = key.hostnqn }

-- `AddConnection`: makes the cluster's map first where it is missing.
unfoldable pub add_connection : ConnectionMap → TKey → ℕ → ConnectionMap
add_connection cm key conn =
    let cc = cluster cm (pair_of key) in
    insert (pair_of key)
      (record cc { cluster_connections_map = insert key conn cc.cluster_connections_map }) cm

-- `DeleteConnection`: to delete from a missing map does nothing.
unfoldable pub delete_connection : ConnectionMap → ClientClusterPair → TKey → ConnectionMap
delete_connection cm pair key = elim (lookup pair cm) [
  | none ↦ cm
  | some cc ↦
      insert pair (record cc { cluster_connections_map = delete key cc.cluster_connections_map }) cm
]

-- `Exists`. `reflect.DeepEqual` of two pointers holds for equal pointers; two connections with
-- different pointers are never deeply equal, since each holds a non-nil `cancel` function.
unfoldable pub exists_in : List (TKey × ℕ) → ℕ → Bool
exists_in [] c = false
exists_in ((_, conn) ∷ m) c = conn == c || exists_in m c

-- The key of the connection at a pointer.
abbrev pub key_at : List (ℕ × Connection) → ℕ → Option TKey
key_at heap p = elim (lookup p heap) [ none ↦ none | some conn ↦ some conn.key ]

-- The connection that a map of connections has for a key, in a cluster.
unfoldable pub find_in : ConnectionMap → ClientClusterPair → TKey → Option ℕ
find_in cm pair key = lookup key (cluster cm pair).cluster_connections_map

-- The connection that a map of connections has for a key.
unfoldable pub find : ConnectionMap → TKey → Option ℕ
find cm key = lookup key (cluster cm (pair_of key)).cluster_connections_map

pub find_in-add_connection :
    (cm : ConnectionMap) (key : TKey) (conn : ℕ) (pair : ClientClusterPair) (q : TKey)
    → find_in (add_connection cm key conn) pair q
      ≡ (if pair_of key == pair && key == q then some conn else find_in cm pair q)
unfolding find_in add_connection cluster
find_in-add_connection cm key conn pair q = ground (
  arith,
  lookup-insert (pair_of key) pair
      (record (cluster cm (pair_of key)) {
        cluster_connections_map =
            insert key conn (cluster cm (pair_of key)).cluster_connections_map;
      })
      cm,
  lookup-insert key q conn (cluster cm (pair_of key)).cluster_connections_map,
)

pub find_in-delete_connection :
    (cm : ConnectionMap) (pair pair' : ClientClusterPair) (key q : TKey)
    → find_in (delete_connection cm pair key) pair' q
      ≡ (if pair == pair' && key == q then none else find_in cm pair' q)
unfolding find_in delete_connection cluster lookup
find_in-delete_connection cm pair pair' key q = elim (Option-cases (lookup pair cm)) [
  | inl missing ↦ rw (missing, delete_connection) (ground arith)
  | inr (cc, found) ↦
      rw (found, delete_connection)
        (ground (
          arith,
          lookup-insert pair pair'
              (record cc { cluster_connections_map = delete key cc.cluster_connections_map }) cm,
          lookup-delete key q cc.cluster_connections_map,
        ))
]

pub find-add_connection :
    (cm : ConnectionMap) (key : TKey) (conn : ℕ) (q : TKey)
    → find (add_connection cm key conn) q ≡ (if key == q then some conn else find cm q)
unfolding find find_in
find-add_connection cm key conn q = ground (arith, find_in-add_connection cm key conn (pair_of q) q)

pub find-delete_connection :
    (cm : ConnectionMap) (key q : TKey)
    → find (delete_connection cm (pair_of key) key) q ≡ (if key == q then none else find cm q)
unfolding find find_in
find-delete_connection cm key q =
    ground (arith, find_in-delete_connection cm (pair_of key) (pair_of q) key q)
