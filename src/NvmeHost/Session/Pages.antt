-- ===== src/NvmeHost/Session/Pages.antt =====
-- What the host reads from the bytes of a part of the log page (pkg/nvme/nvmehost/tcp_queue.go).
use Prim.Native.Nat.{min}
use discovery_client.Prelude.{
  ℕ, zero, suc, ◌+◌, ◌-◌, ◌*◌, ◌^◌, ◌<◌, ◌/◌, ◌≤◌, true, false, ◌⊎◌, inl, inr, List, [], ◌∷◌, ◌++◌,
  ◌≡◌, refl, ap, arith, ◌∙◌, length, ltb, take, drop, map, length-append, length-take, length-drop,
  append_assoc, append-nil,
}
use discovery_client.Nvme.LogPage.{page_entry_size}
use discovery_client.Nvme.LogPage.Entries.{packed, drop_exact, take_exact}
use discovery_client.NvmeHost.Session.{
  NvmefDiscRspPageEntry, Lib, ok, recv_entries, recv_log_page_data_pdu, parse_page,
}

module _ {R : Type 0} (pack_header : ℕ → ℕ → List ℕ) (pack_entry : R → List ℕ)
    (entry_size : (e : R) → length (pack_entry e) ≡ page_entry_size)
    (header_size : (gen n : ℕ) → length (pack_header gen n) ≡ page_entry_size)
    (entry_of : R → NvmefDiscRspPageEntry) where
  abbrev flat : List R → List ℕ
  flat es = packed pack_header pack_entry entry_size es

  length-packed : (es : List R) → length (flat es) ≡ page_entry_size * length es
  length-packed [] = omega arith
  length-packed (e ∷ es) =
      omega (arith, length-append (pack_entry e) (flat es), entry_size e, length-packed es)

  -- What the library does: it reads what was packed, where the numbers of a header fit in 64 bits.
  pub record Unpacks (lib : Lib) : Type 0 where
    pub header :
        (gen n : ℕ) → gen < 2 ^ 64 → n < 2 ^ 64 → lib.unpack_header (pack_header gen n) ≡ (gen, n)
    pub entry : (e : R) → lib.unpack_entry (pack_entry e) ≡ entry_of e

  module _ (lib : Lib) (u : Unpacks lib) where
    recv_entries-packed :
        (w i num : ℕ) (es : List R) (z : List ℕ)
        → length es ≤ w
        → i + length es ≤ num
        → (length es ≡ w) ⊎ (i + length es ≡ num)
        → recv_entries lib.unpack_entry w i num (flat es ++ z) ≡ map entry_of es
    unfolding recv_entries
    recv_entries-packed zero i num [] z le lt full = refl
    recv_entries-packed zero i num (e ∷ es) z le lt full = absurd (omega arith)
    recv_entries-packed (suc w) i num [] z le lt (inl full) = absurd (omega arith)
    recv_entries-packed (suc w) i num [] z le lt (inr full) =
        let done : ltb i num ≡ false = ground arith in rw done refl
    recv_entries-packed (suc w) i num (e ∷ es) z le lt full =
        let more : ltb i num ≡ true = ground arith in
        let first : take page_entry_size ((pack_entry e ++ flat es) ++ z) ≡ pack_entry e =
          rw append_assoc (
            take_exact page_entry_size 0 (pack_entry e) (flat es ++ z) (entry_size e)
            ∙ append-nil (pack_entry e)) in
        let rest : drop page_entry_size ((pack_entry e ++ flat es) ++ z) ≡ flat es ++ z =
          rw append_assoc
            (drop_exact page_entry_size 0 (pack_entry e) (flat es ++ z) (entry_size e)) in
        let full' : (length es ≡ w) ⊎ (i + 1 + length es ≡ num) = elim full [
          | inl f ↦ inl (omega (arith, f))
          | inr f ↦ inr (omega (arith, f))
        ] in
        rw (more, first, rest, u.entry e)
          (ap (entry_of e ∷◌)
            (recv_entries-packed w (i + 1) num es z (omega arith) (omega arith) full'))

    recv_entries_none : (w i : ℕ) (page : List ℕ) → recv_entries lib.unpack_entry w i 0 page ≡ []
    unfolding recv_entries
    recv_entries_none zero i page = refl
    recv_entries_none (suc w) i page = ground arith

    -- The bytes of `k` pages of 1024 bytes from the page `m` on: one page, which is the header if `m` is
    -- 0, and then the entries from `m` on, as many as there are.
    pub record IsPage (log : List R) (gen m k : ℕ) (page : List ℕ) : Type 0 where
      pub first : List ℕ
      pub tail : List ℕ
      pub split : page ≡ first ++ (flat (take (k - 1) (drop m log)) ++ tail)
      pub first_size : length first ≡ page_entry_size
      pub size : length page ≡ page_entry_size * k
      pub start : m ≡ 0 → first ≡ pack_header gen (length log)

    module _ (log : List R) (gen m k : ℕ) (page : List ℕ) (some_page : 1 ≤ k)
        (p : IsPage log gen m k page) where
      rest_of_page : drop page_entry_size page ≡ flat (take (k - 1) (drop m log)) ++ p.tail
      rest_of_page =
          ap (drop page_entry_size) p.split
          ∙ drop_exact page_entry_size 0 p.first (flat (take (k - 1) (drop m log)) ++ p.tail)
              p.first_size

      start_of_page : take page_entry_size page ≡ p.first
      start_of_page =
          ap (take page_entry_size) p.split
          ∙ take_exact page_entry_size 0 p.first (flat (take (k - 1) (drop m log)) ++ p.tail)
              p.first_size
          ∙ append-nil p.first

      whole_pages : length (drop page_entry_size page) / page_entry_size ≡ k - 1
      whole_pages = omega (arith, length-drop page_entry_size page, p.size, some_page)

      -- The host reads these entries, if it knows how many there are in all, and none if it does not.
      pub recv_log_page-IsPage :
          m ≤ length log
          → recv_log_page_data_pdu lib (drop page_entry_size page) (1024 * m) (length log)
            ≡ map entry_of (take (k - 1) (drop m log))
      unfolding recv_log_page_data_pdu
      recv_log_page-IsPage le =
          let es = take (k - 1) (drop m log) in
          let at : (1024 * m) / 1024 ≡ m = omega arith in
          let n : length es ≡ min (k - 1) (length log - m) =
            omega (arith, length-take (k - 1) (drop m log), length-drop m log) in
          let full : (length es ≡ k - 1) ⊎ (m + length es ≡ length log) = ground (arith, n, le) in
          rw (whole_pages, at, rest_of_page)
            (recv_entries-packed (k - 1) m (length log) es p.tail (omega (arith, n))
              (omega (arith, n, le)) full)

      pub parse_page-IsPage :
          m ≤ length log
          → let h = lib.unpack_header p.first in
            parse_page lib page (1024 * m) (length log)
            ≡ ok (h.1, h.0, map entry_of (take (k - 1) (drop m log)))
      unfolding parse_page
      parse_page-IsPage le =
          let long : ltb (length page) page_entry_size ≡ false =
            ground (arith, p.size, some_page) in
          rw (long, start_of_page, recv_log_page-IsPage le) refl

      pub parse_page-header :
          gen < 2 ^ 64
          → length log < 2 ^ 64
          → m ≡ 0
          → parse_page lib page (1024 * m) 0 ≡ ok (length log, gen, [])
      unfolding parse_page recv_log_page_data_pdu
      parse_page-header young few zero_page =
          let long : ltb (length page) page_entry_size ≡ false =
            ground (arith, p.size, some_page) in
          rw
            (
              long,
              start_of_page,
              p.start zero_page,
              u.header gen (length log) young few,
              recv_entries_none (length (drop page_entry_size page) / page_entry_size)
                  (1024 * m / 1024) (drop page_entry_size page),
            )
            refl
