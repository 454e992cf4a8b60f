-- ===== src/NvmeHost/Pool/Accounts.antt =====
-- Which clients run (pkg/nvme/nvmehost/nvmehost_impl.go): those of the table, and those that failed.
use discovery_client.Prelude.{
  ℕ, ◌+◌, ◌<◌, Bool, true, false, none, some, ◌||◌, ◌&&◌, ◌==◌, not, ℕ_eq, is_some, List, [], ◌∷◌,
  ◌≡◌, refl, arith, Bool-cases, Option-cases, inl, inr, if_both,
}
use discovery_client.Prelude.Maps.{lookup, insert, delete, lookup-delete}
use mathlib.Core.Path.{subst}
use discovery_client.HostApi.{NvmeDiscPageEntry, DiscoverRequest}
use discovery_client.NvmeHost.Pool.{
  ConnInfo, Pool, Call, Served, answers, fails, times_out, discovers, disconnects, call, calls,
  without_client, find_in_table, disconnect, keep_client, discover, new_host_api,
}
use discovery_client.NvmeHost.Pool.Slots.{
  Slots, Slots-delete, lookup_of_found, lookup_above, delete_missing,
}
use discovery_client.NvmeHost.Pool.Requests.{
  dropped, kept, disconnect_missing, disconnect_found, keep_client_new, keep_client_old,
  keep_client-Slots,
}

-- The client is in the list.
unfoldable pub member : ℕ → List ℕ → Bool
member c [] = false
member c (d ∷ ds) = d == c || member c ds

-- Some connection of the table has the client.
unfoldable pub holds : ℕ → List (ℕ × ConnInfo) → Bool
holds c [] = false
holds c ((_, info) ∷ t) = info.client == c || holds c t

-- No client is in two connections, or among the lost ones.
unfoldable pub Once : List ℕ → List (ℕ × ConnInfo) → Type 0
Once lost [] = Unit
Once lost ((_, info) ∷ t) =
    (holds info.client t ≡ false) × (member info.client lost ≡ false) × Once lost t

record Accounts (h : Pool) (lost : List ℕ) : Type 0 where
  running : (c : ℕ) → member c h.running ≡ (holds c h.conn_tbl || member c lost)
  fresh : (c : ℕ) → member c h.running ≡ true → c < h.next_client
  once : Once lost h.conn_tbl
  slots : Slots h.i h.conn_tbl

member-without_client :
    (c d : ℕ) (l : List ℕ) → member c (without_client d l) ≡ (member c l && not (d == c))
unfolding member without_client
member-without_client c d [] = refl
member-without_client c d (x ∷ l) = ground (arith, member-without_client c d l)

holds_of_lookup :
    (cid : ℕ) (t : List (ℕ × ConnInfo)) (info : ConnInfo)
    → lookup cid t ≡ some info
    → holds info.client t ≡ true
unfolding holds lookup
holds_of_lookup cid [] info h = cc
holds_of_lookup cid ((k, d) ∷ t) info h = ground (arith, holds_of_lookup cid t info)

lost_of_lookup :
    (cid : ℕ) (lost : List ℕ) (t : List (ℕ × ConnInfo)) (info : ConnInfo)
    → Once lost t
    → lookup cid t ≡ some info
    → member info.client lost ≡ false
unfolding Once lookup
lost_of_lookup cid lost [] info o h = cc
lost_of_lookup cid lost ((k, d) ∷ t) info o h =
    ground (arith, o.1, lost_of_lookup cid lost t info o.2)

holds-delete :
    (c cid n : ℕ) (lost : List ℕ) (t : List (ℕ × ConnInfo)) (info : ConnInfo)
    → Once lost t
    → Slots n t
    → lookup cid t ≡ some info
    → holds c (delete cid t) ≡ (holds c t && not (info.client == c))
unfolding holds Once Slots lookup delete
holds-delete c cid n lost [] info o s h = cc
holds-delete c cid n lost ((k, d) ∷ t) info o s h = ground (
  arith,
  o.0,
  s.1,
  delete_missing cid t,
  holds-delete c cid n lost t info o.2 s.3,
  holds_of_lookup cid t info,
)

holds-delete-false :
    (c cid : ℕ) (t : List (ℕ × ConnInfo)) → holds c t ≡ false → holds c (delete cid t) ≡ false
unfolding holds delete
holds-delete-false c cid [] h = refl
holds-delete-false c cid ((k, d) ∷ t) h = ground (arith, holds-delete-false c cid t)

Once-delete :
    (cid : ℕ) (lost : List ℕ) (t : List (ℕ × ConnInfo)) → Once lost t → Once lost (delete cid t)
unfolding Once delete
Once-delete cid lost [] o = tt
Once-delete cid lost ((k, d) ∷ t) o =
    if_both (Once lost) (k == cid) (Once-delete cid lost t o.2)
      (holds-delete-false d.client cid t o.0, o.1, Once-delete cid lost t o.2)

holds-insert :
    (c cid : ℕ) (info : ConnInfo) (t : List (ℕ × ConnInfo))
    → is_some (lookup cid t) ≡ false
    → holds c (insert cid info t) ≡ (holds c t || info.client == c)
unfolding holds insert lookup
holds-insert c cid info [] h = ground arith
holds-insert c cid info ((k, d) ∷ t) h = ground (arith, holds-insert c cid info t)

Once-insert :
    (cid : ℕ) (lost : List ℕ) (info : ConnInfo) (t : List (ℕ × ConnInfo))
    → Once lost t
    → is_some (lookup cid t) ≡ false
    → holds info.client t ≡ false
    → member info.client lost ≡ false
    → Once lost (insert cid info t)
unfolding Once insert holds lookup
Once-insert cid lost info [] o h new out = (refl, out, tt)
Once-insert cid lost info ((k, d) ∷ t) o h new out =
    let other : (k == cid) ≡ false = ground arith in
    rw other (
      ground (arith, o.0, holds-insert d.client cid info t),
      o.1,
      Once-insert cid lost info t o.2 (ground arith) (ground arith) out,
    )

Once-lose :
    (c : ℕ) (lost : List ℕ) (t : List (ℕ × ConnInfo))
    → Once lost t
    → holds c t ≡ false
    → Once (c ∷ lost) t
unfolding Once member holds
Once-lose c lost [] o h = tt
Once-lose c lost ((k, d) ∷ t) o h =
    (o.0, ground (arith, o.1), Once-lose c lost t o.2 (ground arith))

member_fresh : (h : Pool) (lost : List ℕ) → Accounts h lost → member h.next_client h.running ≡ false
member_fresh h lost a = elim (Bool-cases (member h.next_client h.running)) [
  | inl e ↦ let lt = a.fresh h.next_client e in absurd (omega arith)
  | inr e ↦ e
]

dropped-Accounts :
    (h : Pool) (lost : List ℕ) (cid : ℕ) (info : ConnInfo)
    → Accounts h lost
    → lookup cid h.conn_tbl ≡ some info
    → Accounts (dropped h cid info) lost
dropped-Accounts h lost cid info a there = record {
  running = λ c. ground (
    arith,
    a.running c,
    member-without_client c info.client h.running,
    holds-delete c cid h.i lost h.conn_tbl info a.once a.slots there,
    lost_of_lookup cid lost h.conn_tbl info a.once there,
  );
  fresh = λ c m. ground (arith, a.fresh c, member-without_client c info.client h.running);
  once = Once-delete cid lost h.conn_tbl a.once;
  slots = Slots-delete h.i cid h.conn_tbl a.slots;
}

disconnect-Accounts :
    (h : Pool) (lost : List ℕ) (cid : ℕ) → Accounts h lost → Accounts (disconnect h cid).0 lost
disconnect-Accounts h lost cid a = elim (Option-cases (lookup cid h.conn_tbl)) [
  | inl e ↦ rw (disconnect_missing h cid e) a
  | inr (info, e) ↦ rw (disconnect_found h cid info e) (dropped-Accounts h lost cid info a e)
]

-- The pool once a new client has started, before it is kept, stopped or lost.
abbrev started : Pool → Pool
started h = record h { running = h.next_client ∷ h.running; next_client = h.next_client + 1 }

-- Putting a running client that is nowhere yet under a free connection.
kept-Accounts :
    (h : Pool) (lost : List ℕ) (cid i client : ℕ) (r : DiscoverRequest)
    → Accounts h lost
    → member client h.running ≡ false
    → client < h.next_client
    → is_some (lookup cid h.conn_tbl) ≡ false
    → let info : ConnInfo = record { request = r; client = client } in
      Slots i (insert cid info h.conn_tbl)
      → Accounts (record (kept h cid info i) { running = client ∷ h.running }) lost
unfolding member
kept-Accounts h lost cid i client r a new lt free s =
    let info : ConnInfo = record { request = r; client = client } in
    record {
      running = λ c. ground (arith, a.running c, holds-insert c cid info h.conn_tbl free);
      fresh = λ c m. ground (arith, a.fresh c, lt);
      once =
          Once-insert cid lost info h.conn_tbl a.once free (ground (arith, a.running client))
            (ground (arith, a.running client));
      slots = s;
    }

-- The clients that a call loses: one whose discovery failed before its timer expired is never stopped.
abbrev pub loses : Pool → Call → List ℕ → List ℕ
loses h (discovers r fails) lost = h.next_client ∷ lost
loses h (discovers r times_out) lost = lost
loses h (discovers r (answers response)) lost = lost
loses h (disconnects cid) lost = lost

abbrev pub all_lost : Pool → List Call → List ℕ → List ℕ
all_lost h [] lost = lost
all_lost h (c ∷ cs) lost = all_lost (call h c) cs (loses h c lost)

-- The counter moves on.
counted-Accounts :
    (h : Pool) (lost : List ℕ)
    → Accounts h lost
    → Accounts (record h { next_client = h.next_client + 1 }) lost
counted-Accounts h lost a = record {
  running = a.running;
  fresh = λ c m. omega (arith, a.fresh c m);
  once = a.once;
  slots = a.slots;
}

keep_client-Accounts :
    (h : Pool) (lost : List ℕ) (r : DiscoverRequest) (response : List NvmeDiscPageEntry)
    → Accounts h lost
    → Accounts (keep_client (started h) r h.next_client response).0 lost
unfolding without_client
keep_client-Accounts h lost r response a =
    let n = h.next_client in
    let t = h.conn_tbl in
    let counted : Pool = record h { next_client = n + 1 } in
    let new = member_fresh h lost a in
    let slots = keep_client-Slots (started h) r n response a.slots in
    elim (Option-cases (find_in_table t r)) [
      | inl e ↦
          let free = lookup_above h.i t a.slots in
          let gone : lookup h.i t ≡ none = ground arith in
          let eq = keep_client_new (started h) r n response e gone in
          rw eq (
            kept-Accounts counted lost h.i (h.i + 1) n r (counted-Accounts h lost a) new
              (omega arith) free (subst (λ p. Slots p.0.i p.0.conn_tbl) eq slots))
      | inr (cid, e) ↦
          let (c, there, _) = lookup_of_found h.i cid t r a.slots e in
          let eq = keep_client_old (started h) r n response cid c e there in
          let held : member c.client h.running ≡ true =
            ground (arith, a.running c.client, holds_of_lookup cid t c there) in
          let other : (n == c.client) ≡ false = ground (arith, a.fresh c.client held) in
          let a' = dropped-Accounts counted lost cid c (counted-Accounts h lost a) there in
          rw (eq, other)
            (kept-Accounts (dropped counted cid c) lost cid h.i n r a'
              (ground (arith, new, member-without_client n c.client h.running)) (omega arith)
              (ground (arith, lookup-delete cid cid t))
              (subst (λ p. Slots p.0.i p.0.conn_tbl) eq slots))
    ]

-- A client that is made and stopped.
stopped-Accounts :
    (h : Pool) (lost : List ℕ)
    → Accounts h lost
    → Accounts
        (record (started h) { running = without_client h.next_client (started h).running })
        lost
unfolding member
stopped-Accounts h lost a =
    let new = member_fresh h lost a in
    record {
      running = λ c.
          ground (arith, a.running c, member-without_client c h.next_client (started h).running);
      fresh = λ c m.
          ground (arith, a.fresh c, member-without_client c h.next_client (started h).running);
      once = a.once;
      slots = a.slots;
    }

discover-Accounts :
    (h : Pool) (lost : List ℕ) (r : DiscoverRequest) (served : Served)
    → Accounts h lost
    → Accounts (discover h r served).0 (loses h (discovers r served) lost)
unfolding discover member
discover-Accounts h lost r times_out a = stopped-Accounts h lost a
discover-Accounts h lost r fails a =
    let new = member_fresh h lost a in
    record {
      running = λ c. ground (arith, a.running c);
      fresh = λ c m. ground (arith, a.fresh c);
      once =
          Once-lose h.next_client lost h.conn_tbl a.once (ground (arith, a.running h.next_client));
      slots = a.slots;
    }
discover-Accounts h lost r (answers response) a = elim (Bool-cases (r.kato == 0)) [
  | inl e ↦ rw e (stopped-Accounts h lost a)
  | inr e ↦ rw e (keep_client-Accounts h lost r response a)
]

call-Accounts :
    (h : Pool) (lost : List ℕ) (c : Call) → Accounts h lost → Accounts (call h c) (loses h c lost)
call-Accounts h lost (discovers r served) a = discover-Accounts h lost r served a
call-Accounts h lost (disconnects cid) a = disconnect-Accounts h lost cid a

all-Accounts :
    (h : Pool) (lost : List ℕ) (cs : List Call)
    → Accounts h lost
    → Accounts (calls h cs) (all_lost h cs lost)
all-Accounts h lost [] a = a
all-Accounts h lost (c ∷ cs) a =
    all-Accounts (call h c) (loses h c lost) cs (call-Accounts h lost c a)

new-Accounts : Accounts new_host_api []
unfolding new_host_api member holds Once Slots
new-Accounts = record { running = λ c. refl; fresh = λ c m. absurd (cc); once = tt; slots = tt }

-- After any calls of `Discover` and `Disconnect`, in any order and with any results, the clients that
-- were made and not stopped are exactly those of the connections in the table and those whose
-- discovery failed before the timer of `Discover` expired, which would have stopped them; no two connections share a client; and
-- the table has each id once and each request once.
pub calls-Accounts :
    (cs : List Call)
    → let h = calls new_host_api cs in
      let lost = all_lost new_host_api cs [] in
      ((c : ℕ) → member c h.running ≡ (holds c h.conn_tbl || member c lost))
      × Once lost h.conn_tbl
      × Slots h.i h.conn_tbl
calls-Accounts cs =
    let a = all-Accounts new_host_api [] cs new-Accounts in (a.running, a.once, a.slots)
