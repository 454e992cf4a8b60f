-- ===== src/NvmeHost/Session/Entries.antt =====
-- `getLogPageEntries` (pkg/nvme/nvmehost/tcp_queue.go) against a server that serves a log page.
use discovery_client.Prelude.{
  ℕ, zero, suc, ◌+◌, ◌-◌, ◌*◌, ◌%◌, ◌^◌, ◌≤◌, ◌<◌, Bool, true, false, inl, inr, ◌==◌, ℕ_eq,
  if◌then◌else◌, List, [], ◌∷◌, ◌++◌, ◌≡◌, ◌≢◌, refl, ap, arith, ◌∙◌, length, ltb, take, drop, map,
  length-take, Bool-cases, eq_self, ltb→lt, ltb→ge,
}
use discovery_client.Nvme.Controller.{Completion}
use discovery_client.Nvme.LogPage.{page_entry_size}
use discovery_client.Nvme.Sgl.Flat.{take_all, take_nil}
use discovery_client.NvmeHost.Commands.{AbstractRequest, new_get_discovery_log_page_request}
use discovery_client.NvmeHost.Queue.{RspPdu, rsp, c2h_data}
use discovery_client.NvmeHost.Queue.Answered.{idle}
use discovery_client.NvmeHost.Session.{
  NvmefDiscRspPageEntry, Lib, ok, failed, read_page, parse_page, send_disc_log_page_request,
  page_loop, all_entries, get_log_page_entries, check_entries, ◌>>=◌, give, bind_ok, M,
  gen_ctr_changed,
}
use discovery_client.NvmeHost.Session.Respond.{after, respond_lem}
use discovery_client.NvmeHost.Session.Received.{read_page-received, page_response, ask-page}
use discovery_client.NvmeHost.Session.Pages.{Unpacks, IsPage, parse_page-IsPage, parse_page-header}

length-map : {A B : Type 0} (f : A → B) (xs : List A) → length (map f xs) ≡ length xs
length-map f [] = refl
length-map f (x ∷ xs) = ap suc (length-map f xs)

map-take-join :
    {A B : Type 0} (f : A → B) (m k : ℕ) (xs : List A)
    → map f (take m xs) ++ map f (take k (drop m xs)) ≡ map f (take (m + k) xs)
map-take-join f zero k xs = let e : 0 + k ≡ k = omega arith in rw e refl
map-take-join {A} f (suc m) k [] = rw (take_nil {A = A} k, take_nil {A = A} (suc m + k)) refl
map-take-join f (suc m) k (x ∷ xs) =
    let e : suc m + k ≡ suc (m + k) = omega arith in rw e (ap (f x ∷◌) (map-take-join f m k xs))

module _ {R S : Type 0} (pack_header : ℕ → ℕ → List ℕ) (pack_entry : R → List ℕ)
    (entry_size : (e : R) → length (pack_entry e) ≡ page_entry_size)
    (header_size : (gen n : ℕ) → length (pack_header gen n) ≡ page_entry_size)
    (entry_of : R → NvmefDiscRspPageEntry) (lib : Lib)
    (u : Unpacks pack_header pack_entry entry_size header_size entry_of lib)
    (serve : S → AbstractRequest → S × List RspPdu) (log : List R) (gen : ℕ) where
  abbrev Page : ℕ → ℕ → List ℕ → Type 0
  Page m k page =
      IsPage pack_header pack_entry entry_size header_size entry_of lib u log gen m k page

  -- A server that answers a request for a part of the log with that part and a completion. It need not
  -- answer one for the part that begins with the first entry.
  pub record ServesLog (s : S) : Type 0 where
    pub answers :
        (id k m nsid : ℕ)
        → 1 ≤ k
        → 1024 * k < 2 ^ 32
        → 1024 * m < 2 ^ 64
        → m ≤ length log
        → m ≢ 1
        → (page : List ℕ) × (cqe : Completion) × (serve s
              (new_get_discovery_log_page_request id (1024 * k) (1024 * m) nsid)
            ≡ (s, c2h_data id (length page) page ∷ rsp cqe ∷ []))
          × (cqe.command_id ≡ id)
          × Page m k page

  module _ (s : S) (serves : ServesLog s) (young : gen < 2 ^ 64) where
    send_one :
        (id k m nsid num : ℕ)
        → 1 ≤ k
        → 1024 * k < 2 ^ 32
        → 1024 * m < 2 ^ 64
        → m ≤ length log
        → m ≢ 1
        → (page : List ℕ) × Page m k page
          × (send_disc_log_page_request serve lib (1024 * k) (1024 * m) nsid num (s, idle id [])
              ≡ ((s, idle (after id) []), parse_page lib page (1024 * m) num))
    unfolding send_disc_log_page_request
    send_one id k m nsid num one size far le ne =
        let (page, cqe, served, same, p) = serves.answers id k m nsid one size far le ne in
        let some_bytes : 1 ≤ length page = omega (arith, p.size) in
        let asked =
          ask-page serve s id (1024 * k) (1024 * m) nsid page cqe served same some_bytes in
        let responded =
          respond_lem serve lib s s id []
            (λ i. new_get_discovery_log_page_request i (1024 * k) (1024 * m) nsid)
            (idle (after id) []) (page_response id (1024 * k) (1024 * m) nsid page cqe) asked in
        (
          page,
          p,
          bind_ok (λ r. give (read_page lib (1024 * m) num r.sgl)) responded
              ∙ (ap (λ o. ((s, idle (after id) []), o))
                  (read_page-received lib page (1024 * m) num some_bytes)),
        )

    -- The two requests for the header.
    send_header :
        (id nsid : ℕ)
        → length log < 2 ^ 64
        → send_disc_log_page_request serve lib 1024 0 nsid 0 (s, idle id [])
          ≡ ((s, idle (after id) []), ok (length log, gen, []))
    send_header id nsid few =
        let (page, p, sent) =
          send_one id 1 0 nsid 0 (omega arith) (omega arith) (omega arith) (omega arith)
            (λ e. cc) in
        sent
        ∙ ap (λ o. ((s, idle (after id) []), o))
            (parse_page-header pack_header pack_entry entry_size header_size entry_of lib u log gen
              0 1 page (omega arith) p young few refl)

    -- The part from the page `m` on, read with the number of all entries.
    send_entries :
        (id k m nsid : ℕ)
        → 1 ≤ k
        → 1024 * k < 2 ^ 32
        → 1024 * m < 2 ^ 64
        → m ≢ 1
        → m ≤ length log
        → (gen_ctr num_rec : ℕ) × (send_disc_log_page_request serve lib
              (1024 * k)
              (1024 * m)
              nsid
              (length log)
              (s, idle id [])
            ≡ (
              (s, idle (after id) []),
              ok (num_rec, gen_ctr, map entry_of (take (k - 1) (drop m log))),
            ))
    send_entries id k m nsid one size far ne le =
        let (page, p, sent) = send_one id k m nsid (length log) one size far le ne in
        let h = lib.unpack_header p.first in
        (
          h.0,
          h.1,
          sent
              ∙ ap (λ o. ((s, idle (after id) []), o))
                  (parse_page-IsPage pack_header pack_entry entry_size header_size entry_of lib u
                    log gen m k page one p le),
        )

    Ends : M S (List NvmefDiscRspPageEntry) → ℕ → Type 0
    Ends m id = (id' : ℕ) × (m (s, idle id []) ≡ ((s, idle id' []), ok (map entry_of log)))

    page_loop-done :
        (fuel id : ℕ) → Ends (page_loop serve lib fuel (length log) (map entry_of log)) id
    unfolding page_loop Ends
    page_loop-done zero id =
        let done : ltb (length (map entry_of log)) (length log) ≡ false =
          ground (arith, length-map entry_of log) in
        (id, rw done refl)
    page_loop-done (suc fuel) id =
        let done : ltb (length (map entry_of log)) (length log) ≡ false =
          ground (arith, length-map entry_of log) in
        (id, rw done refl)

    -- One round of the loop, which reads three entries if there are so many.
    page_loop-step :
        (fuel id m : ℕ) (res : List NvmefDiscRspPageEntry)
        → length res ≡ m
        → m < length log
        → 1024 * m < 2 ^ 64
        → m ≢ 1
        → page_loop serve lib (suc fuel) (length log) res (s, idle id [])
          ≡ page_loop serve lib fuel
              (length log)
              (res ++ map entry_of (take 3 (drop m log)))
              (s, idle (after id) [])
    unfolding page_loop
    page_loop-step fuel id m res at more far ne =
        let (gen_ctr, num_rec, sent) =
          send_entries id 4 m 0 (omega arith) (omega arith) far ne (omega arith) in
        let left : ltb (length res) (length log) ≡ true = ground (arith, at) in
        let offset : length res * 1024 % 2 ^ 64 ≡ 1024 * m = omega (arith, at) in
        rw (left, offset)
          (bind_ok (λ page. page_loop serve lib fuel (length log) (res ++ page.2)) sent)

    page_loop-whole :
        (fuel id m : ℕ)
        → length log ≤ m
        → Ends (page_loop serve lib fuel (length log) (map entry_of (take m log))) id
    page_loop-whole fuel id m le =
        let all : take m log ≡ log = take_all m log le in rw all (page_loop-done fuel id)

    page_loop-all :
        (fuel id t : ℕ)
        → 1024 * length log < 2 ^ 32
        → 3 * t ≤ length log
        → length log - 3 * t ≤ fuel
        → Ends (page_loop serve lib fuel (length log) (map entry_of (take (3 * t) log))) id
    unfolding Ends
    page_loop-all zero id t small le enough = page_loop-whole zero id (3 * t) (omega arith)
    page_loop-all (suc fuel) id t small le enough = elim (Bool-cases (ltb (3 * t) (length log))) [
      | inr done ↦ page_loop-whole (suc fuel) id (3 * t) (ltb→ge _ _ done)
      | inl more ↦
          let lt : 3 * t < length log = ltb→lt _ _ more in
          let at : length (map entry_of (take (3 * t) log)) ≡ 3 * t =
            omega (arith, length-map entry_of (take (3 * t) log), length-take (3 * t) log) in
          let round =
            page_loop-step fuel id (3 * t) (map entry_of (take (3 * t) log)) at lt (omega arith)
              (λ e. omega (arith, e)) in
          let more_entries = map-take-join entry_of (3 * t) 3 log in
          let (id', end) =
            elim (Bool-cases (ltb (length log) (3 * t + 3)))
              as (λ x.
                Ends (page_loop serve lib fuel (length log) (map entry_of (take (3 * t + 3) log)))
                  (after id)) [
                    | inl past ↦
                        page_loop-whole fuel (after id) (3 * t + 3) (omega (arith, ltb→lt _ _ past))
                    | inr inside ↦
                        let next : 3 * t + 3 ≡ 3 * (t + 1) = omega arith in
                        rw next (
                          page_loop-all fuel (after id) (t + 1) small
                            (omega (arith, ltb→ge _ _ inside)) (omega arith))
                  ] in
          (
            id',
            round
                ∙ ap (λ res. page_loop serve lib fuel (length log) res (s, idle (after id) []))
                    more_entries
                ∙ end,
          )
    ]

    all_entries-Ends :
        (paginated : Bool) (id : ℕ)
        → 1024 * (length log + 1) < 2 ^ 32
        → Ends (all_entries serve lib paginated (length log)) id
    unfolding all_entries Ends
    all_entries-Ends true id small =
        page_loop-all (length log + lib.rounds) id 0 (omega arith) (omega arith) (omega arith)
    all_entries-Ends false id small =
        let size : (page_entry_size + length log % 2 ^ 32 * page_entry_size) % 2 ^ 32
            ≡ 1024 * (length log + 1) =
          omega arith in
        let (gen_ctr, num_rec, sent) =
          send_entries id (length log + 1) 0 0 (omega arith) (omega arith) (omega arith) (λ e. cc)
            (omega arith) in
        let last : length log + 1 - 1 ≡ length log = omega arith in
        (
          after id,
          rw size (
              bind_ok (λ page. give (ok page.2)) sent
              ∙ rw (last, take_all (length log) log (omega arith)) refl),
        )

    check_entries-ServesLog :
        (id : ℕ)
        → length log < 2 ^ 64
        → check_entries serve lib (length log) gen (map entry_of log) (s, idle id [])
          ≡ ((s, idle (after id) []), ok (map entry_of log))
    unfolding check_entries
    check_entries-ServesLog id few =
        let same : (length (map entry_of log) == length log) ≡ true =
          ground (arith, length-map entry_of log) in
        rw same (
          bind_ok
            (λ last. give (if gen == last.1 then ok (map entry_of log) else failed gen_ctr_changed))
            (send_header id 0 few)
          ∙ rw (eq_self gen) refl)

    -- Against a server that serves a log page of which the size fits in 32 bits and the generation counter
    -- in 64, `getLogPageEntries` ends with exactly the entries of the log, in order, with pagination as well as without. The requests
    -- go out under any ids, and the next one finds the queue as the first did.
    pub get_log_page_entries-ServesLog :
        (paginated : Bool) (id : ℕ)
        → 1024 * (length log + 1) < 2 ^ 32
        → (id' : ℕ) × (get_log_page_entries serve lib paginated (s, idle id [])
            ≡ ((s, idle id' []), ok (map entry_of log)))
    unfolding get_log_page_entries Ends
    get_log_page_entries-ServesLog paginated id small =
        let (id', read) = all_entries-Ends paginated (after id) small in
        (
          after id',
          bind_ok
                (λ first.
                  all_entries serve lib paginated first.0
                  >>= check_entries serve lib first.0 first.1)
                (send_header id 0xffffffff (omega arith))
              ∙ bind_ok (check_entries serve lib (length log) gen) read
              ∙ check_entries-ServesLog id' (omega arith),
        )
