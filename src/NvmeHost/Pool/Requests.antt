-- ===== src/NvmeHost/Pool/Requests.antt =====
-- `Discover` and `Disconnect` (pkg/nvme/nvmehost/nvmehost_impl.go) on the map from requests to clients.
use discovery_client.Prelude.{
  ℕ, ◌+◌, Bool, true, false, Option, none, some, ◌&&◌, ◌==◌, not, ℕ_eq, is_some, if◌then◌else◌,
  List, ◌∷◌, ◌≡◌, refl, arith, Bool-cases, Option-cases, inl, inr, ◌∙◌,
}
use discovery_client.Prelude.Maps.{lookup, insert, delete, lookup-insert, lookup-delete}
use discovery_client.HostApi.{NvmeDiscPageEntry, DiscoverRequest}
use discovery_client.NvmeHost.Pool.{
  ConnInfo, Pool, Discovered, Served, answers, fails, times_out, without_client, same_request,
  find_in_table, find_client, disconnect, keep_client, discover,
}
use discovery_client.NvmeHost.Pool.Slots.{
  Slots, client_for, lookup_of_found, find-delete, Slots-delete, Slots-mono, lookup_above,
  client_for-insert, Slots-insert, below_of_lookup, same_request_trans,
}

-- The client that the pool has for a request.
abbrev pub client_of : Pool → DiscoverRequest → Option ℕ
client_of h r = client_for h.conn_tbl r

-- Whether the connection is one for the request.
abbrev pub is_for : Option ConnInfo → DiscoverRequest → Bool
is_for none r = false
is_for (some c) r = same_request c.request r

pub disconnect_missing :
    (h : Pool) (cid : ℕ) → lookup cid h.conn_tbl ≡ none → disconnect h cid ≡ (h, false)
unfolding disconnect
disconnect_missing h cid e = rw (e, disconnect) refl

-- The pool without a connection.
abbrev pub dropped : Pool → ℕ → ConnInfo → Pool
dropped h cid c = record h {
  conn_tbl = delete cid h.conn_tbl;
  running = without_client c.client h.running;
}

pub disconnect_found :
    (h : Pool) (cid : ℕ) (c : ConnInfo)
    → lookup cid h.conn_tbl ≡ some c
    → disconnect h cid ≡ (dropped h cid c, true)
unfolding disconnect
disconnect_found h cid c e = rw (e, disconnect) refl

-- The pool with a connection more.
abbrev pub kept : Pool → ℕ → ConnInfo → ℕ → Pool
kept h cid c i = record h { conn_tbl = insert cid c h.conn_tbl; i = i }

abbrev reply : List NvmeDiscPageEntry → ℕ → Discovered
reply response cid = record { entries = response; connection_id = cid; failed = false }

module _ (h : Pool) (r : DiscoverRequest) (client : ℕ) (response : List NvmeDiscPageEntry) where
  abbrev pub own : ConnInfo
  own = record { request = r; client = client }

  pub keep_client_new :
      find_in_table h.conn_tbl r ≡ none
      → lookup h.i h.conn_tbl ≡ none
      → keep_client h r client response ≡ (kept h h.i own (h.i + 1), reply response h.i)
  unfolding keep_client find_client
  keep_client_new e free = rw (e, find_client) (rw (disconnect_missing h h.i free) refl)

  pub keep_client_old :
      (cid : ℕ) (c : ConnInfo)
      → find_in_table h.conn_tbl r ≡ some cid
      → lookup cid h.conn_tbl ≡ some c
      → keep_client h r client response ≡ (kept (dropped h cid c) cid own h.i, reply response cid)
  unfolding keep_client find_client
  keep_client_old cid c e there = rw (e, find_client) (rw (disconnect_found h cid c there) refl)

-- `Disconnect` takes away the connection's own client, and no other.
pub disconnect-Slots :
    (h : Pool) (cid : ℕ)
    → Slots h.i h.conn_tbl
    → let (h', found) = disconnect h cid in
      Slots h'.i h'.conn_tbl
      × (found ≡ is_some (lookup cid h.conn_tbl))
      × ((r : DiscoverRequest)
          → client_of h' r ≡ (if is_for (lookup cid h.conn_tbl) r then none else client_of h r))
disconnect-Slots h cid s = elim (Option-cases (lookup cid h.conn_tbl)) [
  | inl e ↦ rw (disconnect_missing h cid e, e) (s, refl, λ r. refl)
  | inr (c, e) ↦
      rw (disconnect_found h cid c e, e)
        (Slots-delete h.i cid h.conn_tbl s, refl, λ r. (find-delete h.i cid h.conn_tbl c r s e).1)
]

keep_client-ok :
    (h : Pool) (r : DiscoverRequest) (client : ℕ) (response : List NvmeDiscPageEntry)
    → (keep_client h r client response).1.failed ≡ false
unfolding keep_client
keep_client-ok h r client response = refl

-- What a kept client does to the table, once the connection of an equal request is gone.
Keeps : Pool → DiscoverRequest → ℕ → ℕ → Pool → Type 0
Keeps h r client cid h' =
    Slots h'.i h'.conn_tbl
    × (lookup cid h'.conn_tbl ≡ some (record { request = r; client = client }))
    × ((r' : DiscoverRequest)
        → client_of h' r' ≡ (if same_request r r' then some client else client_of h r'))

keep_client-Keeps :
    (h : Pool) (r : DiscoverRequest) (client : ℕ) (response : List NvmeDiscPageEntry)
    → Slots h.i h.conn_tbl
    → let (h', d) = keep_client h r client response in Keeps h r client d.connection_id h'
unfolding Keeps
keep_client-Keeps h r client response s = elim (Option-cases (find_in_table h.conn_tbl r)) [
  | inl e ↦
      let t = h.conn_tbl in
      let free = lookup_above h.i t s in
      let gone : lookup h.i t ≡ none = ground arith in
      rw (keep_client_new h r client response e gone) (
        Slots-insert h.i client r (h.i + 1) t (omega arith) (Slots-mono h.i t s) e free,
        ground (arith, lookup-insert h.i h.i (record { request = r; client = client }) t),
        λ r'. client_for-insert h.i client r t r' e free,
      )
  | inr (cid, e) ↦
      let t = h.conn_tbl in
      let (c, there, same) = lookup_of_found h.i cid t r s e in
      let left = delete cid t in
      let free : is_some (lookup cid left) ≡ false = ground (arith, lookup-delete cid cid t) in
      let fresh = find-delete h.i cid t c r s there in
      let none_left : find_in_table left r ≡ none = ground (arith, fresh) in
      rw (keep_client_old h r client response cid c e there) (
        Slots-insert cid client r h.i left (below_of_lookup h.i cid t s (ground arith))
            (Slots-delete h.i cid t s) none_left free,
        ground (arith, lookup-insert cid cid (record { request = r; client = client }) left),
        λ r'.
            client_for-insert cid client r left r' none_left free
            ∙ ground
                (arith, find-delete h.i cid t c r' s there, same_request_trans c.request r r' same),
      )
]

pub keep_client-Slots :
    (h : Pool) (r : DiscoverRequest) (client : ℕ) (response : List NvmeDiscPageEntry)
    → Slots h.i h.conn_tbl
    → let h' = (keep_client h r client response).0 in Slots h'.i h'.conn_tbl
unfolding Keeps
keep_client-Slots h r client response s = (keep_client-Keeps h r client response s).0

-- Whether `Discover` keeps its client: it got the log page, for a connection that stays.
abbrev pub is_kept : DiscoverRequest → Served → Bool
is_kept r fails = false
is_kept r times_out = false
is_kept r (answers response) = not (r.kato == 0)

abbrev pub is_answered : Served → Bool
is_answered fails = false
is_answered times_out = false
is_answered (answers response) = true

-- On a table with each id once and each request once, `Discover` leaves such a table. If it keeps its
-- client, that is the one for every request that is the same, under the connection that it returns;
-- each other request keeps the client that it had. It fails exactly if the client failed.
pub discover-Slots :
    (h : Pool) (r : DiscoverRequest) (served : Served)
    → Slots h.i h.conn_tbl
    → let (h', d) = discover h r served in
      Slots h'.i h'.conn_tbl
      × (d.failed ≡ not (is_answered served))
      × ((r' : DiscoverRequest)
          → client_of h' r' ≡ (
              if is_kept r served && same_request r r' then some h.next_client else client_of h r'))
      × (is_kept r served ≡ true
          → lookup d.connection_id h'.conn_tbl
            ≡ some (record { request = r; client = h.next_client }))
unfolding discover Keeps
discover-Slots h r fails s = (s, refl, λ r'. refl, λ k. cc)
discover-Slots h r times_out s = (s, refl, λ r'. refl, λ k. cc)
discover-Slots h r (answers response) s = elim (Bool-cases (r.kato == 0)) [
  | inl e ↦ rw e (s, refl, λ r'. refl, λ k. cc)
  | inr e ↦
      let started : Pool = record h {
        running = h.next_client ∷ h.running;
        next_client = h.next_client + 1;
      } in
      let k = keep_client-Keeps started r h.next_client response s in
      rw e (k.0, keep_client-ok started r h.next_client response, k.2, λ _. k.1)
]
