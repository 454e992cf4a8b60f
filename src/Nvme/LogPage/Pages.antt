-- ===== src/Nvme/LogPage/Pages.antt =====
-- `execute` (pkg/nvme/discovery.go) answers with a part of the log page.
use Prim.Native.Nat.{max}
use discovery_client.Prelude.{
  ℕ, zero, suc, ◌+◌, ◌-◌, ◌*◌, ◌/◌, ◌^◌, ◌≤◌, ◌<◌, String, Bool, some, ◌==◌, ℕ_eq, List, ◌++◌, ◌≡◌,
  ◌≢◌, refl, sym, arith, ap, ◌∙◌, if◌then◌else◌, length, take, drop, length-take, ℕ_discrete,
}
use discovery_client.Nvme.Sgl.{ScatterList, Cursor, new_cursor, copy_at, write}
use discovery_client.Nvme.Sgl.Flat.{content, place, IsCursor}
use discovery_client.Nvme.Sgl.Writing.{write_lem}
use discovery_client.Nvme.Sgl.Reading.{capacity-write}
use discovery_client.Nvme.LogPage.{
  GetLogPageCommand, Answer, execute, write_entries, get_log_page_len, get_log_page_offset,
  num_entries, entry_offset, page_entry_size, status_success, status_internal,
}
use discovery_client.Nvme.LogPage.Entries.{
  packed, drop-packed, take-packed, drop_exact, take_exact, write_entries-fits, write_entries-short,
  copy_at-copy_at,
}

num_entries-first :
    (k : ℕ) → 1 ≤ k → num_entries (max (page_entry_size * k) page_entry_size) 0 ≡ k - 1
unfolding num_entries
num_entries-first k h = ground arith

num_entries-later :
    (j k : ℕ)
    → 1 ≤ k
    → 1 ≤ j
    → num_entries (max (page_entry_size * k) page_entry_size) (page_entry_size * j) ≡ k
unfolding num_entries
num_entries-later j k h l = ground arith

entry_offset-later :
    (j : ℕ)
    → 1 ≤ j
    → page_entry_size * j < 2 ^ 64
    → entry_offset (page_entry_size * j) ≡ page_entry_size * (j - 1)
unfolding entry_offset
entry_offset-later j h lt = ground arith

get_log_page_offset-lt : (cmd : GetLogPageCommand) → get_log_page_offset cmd < 2 ^ 64
unfolding get_log_page_offset
get_log_page_offset-lt cmd = omega arith

module _ {R : Type 0} (pack_header : ℕ → ℕ → List ℕ) (pack_entry : R → List ℕ)
    (header_size : (gen n : ℕ) → length (pack_header gen n) ≡ page_entry_size)
    (entry_size : (e : R) → length (pack_entry e) ≡ page_entry_size) (log : List R) (gen : ℕ)
    (fill : ℕ → ℕ → String → List R × ℕ × ℕ)
    (serves : (o n : ℕ) (host : String)
      → fill o n host ≡ (take n (drop (o / page_entry_size) log), length log, gen))
    (cmd : GetLogPageCommand) (cdw10 : ℕ) (host : String) (buffer : ScatterList) where
  -- The log page: the header and all entries.
  abbrev pub log_page : List ℕ
  log_page = pack_header gen (length log) ++ packed pack_header pack_entry entry_size log

  -- The answer of `execute` to the command.
  abbrev pub answer : Answer
  answer = execute pack_header pack_entry (some fill) cmd cdw10 host buffer

  -- What `execute` writes, for `n` entries from the offset `o` among them.
  writer_at : ℕ → Cursor
  writer_at o =
      if o == 0
      then (write (new_cursor buffer) (pack_header gen (length log))).0
      else new_cursor buffer

  writer_at-zero : writer_at 0 ≡ (write (new_cursor buffer) (pack_header gen (length log))).0
  unfolding writer_at ℕ_discrete
  writer_at-zero = refl

  writer_at-later : (o : ℕ) → o ≢ 0 → writer_at o ≡ new_cursor buffer
  unfolding writer_at
  writer_at-later o ne = ground arith

  written : ℕ → ℕ → Cursor × Bool
  written n o =
      write_entries pack_header pack_entry (writer_at o) (take n (drop (o / page_entry_size) log))

  answer-written :
      (n o : ℕ)
      → num_entries (max (get_log_page_len cmd) page_entry_size) (get_log_page_offset cmd) ≡ n
      → entry_offset (get_log_page_offset cmd) ≡ o
      → (answer.status ≡ (if (written n o).1 then status_internal else status_success))
        × (answer.sgl_writer ≡ (written n o).0)
  unfolding execute written writer_at
  answer-written n o en eo = rw (execute, en, eo, serves o n host) (refl, refl)

  module _ (v : IsCursor (new_cursor buffer)) (k : ℕ) (some_page : 1 ≤ k)
      (len : get_log_page_len cmd ≡ page_entry_size * k)
      (room : buffer.capacity ≡ page_entry_size * k) where
    join :
        (h q l : List ℕ)
        → length h ≡ page_entry_size
        → copy_at page_entry_size q (copy_at 0 h l) ≡ copy_at 0 (h ++ q) l
    join h q l e =
        ap (λ i. copy_at i q (copy_at 0 h l)) {x = page_entry_size} {y = 0 + length h}
          (omega (arith, e))
        ∙ copy_at-copy_at 0 h q l

    header_written :
        let w = writer_at 0 in
        IsCursor w
        × (content w ≡ copy_at 0 (pack_header gen (length log)) (content (new_cursor buffer)))
        × (place w ≡ page_entry_size)
        × (w.sgl.capacity ≡ page_entry_size * k)
    unfolding new_cursor
    header_written =
        let h = pack_header gen (length log) in
        let (v', flat, n, moved, _) = write_lem (new_cursor buffer) h v in
        rw writer_at-zero (
          v',
          flat,
          omega (arith, n, moved, header_size gen (length log), some_page, room),
          capacity-write (new_cursor buffer) h ∙ room,
        )

    -- The first part of the page: the header, and one entry less than there is room for.
    first_page :
        get_log_page_offset cmd ≡ 0
        → (answer.status ≡ status_success)
          × (content answer.sgl_writer
              ≡ copy_at 0 (take (page_entry_size * k) log_page) (content (new_cursor buffer)))
    unfolding written entry_offset
    first_page start =
        let es = take (k - 1) log in
        let h = pack_header gen (length log) in
        let (hv, flat, at, cap) = header_written in
        let n : page_entry_size * k ≡ page_entry_size + page_entry_size * (k - 1) = omega arith in
        let (status, left) =
          answer-written (k - 1) 0 (rw (len, start) (num_entries-first k some_page))
            (rw start refl) in
        let (ok, all) =
          write_entries-fits pack_header pack_entry entry_size es (writer_at 0) hv
            (omega (arith, at, cap, length-take (k - 1) log)) in
        let part : take (page_entry_size * k) log_page
            ≡ h ++ packed pack_header pack_entry entry_size es =
          rw n (
            take_exact page_entry_size (page_entry_size * (k - 1)) h _
              (header_size gen (length log))
            ∙ ap (h ++◌) (take-packed pack_header pack_entry entry_size (k - 1) log)) in
        (
          status ∙ rw ok,
          ap content left
              ∙ all
              ∙ rw (at, flat, part)
                  (join h (packed pack_header pack_entry entry_size es) _
                    (header_size gen (length log))),
        )

    later_page :
        (j : ℕ)
        → get_log_page_offset cmd ≡ page_entry_size * suc (suc j)
        → (answer.status ≡ status_success)
          × (content answer.sgl_writer
              ≡ copy_at 0
                  (take (page_entry_size * k) (drop (page_entry_size * suc (suc j)) log_page))
                  (content (new_cursor buffer)))
    unfolding written new_cursor
    later_page j start =
        let es = take k (drop (suc j) log) in
        let h = pack_header gen (length log) in
        let o = page_entry_size * suc j in
        let n : page_entry_size * suc (suc j) ≡ page_entry_size + o = omega arith in
        let at_j : (o / page_entry_size) ≡ suc j = omega arith in
        let lt : page_entry_size * suc (suc j) < 2 ^ 64 =
          rw (sym start) (get_log_page_offset-lt cmd) in
        let eo : entry_offset (get_log_page_offset cmd) ≡ o =
          rw start (omega (arith, entry_offset-later (suc (suc j)) (omega arith) lt)) in
        let (status, left) =
          answer-written k o
            (rw (len, start) (num_entries-later (suc (suc j)) k some_page (omega arith))) eo in
        let cursor = writer_at-later o (λ z. omega arith) in
        let (ok, all) =
          write_entries-fits pack_header pack_entry entry_size es (new_cursor buffer) v
            (omega (arith, room, length-take k (drop (suc j) log))) in
        let part : take (page_entry_size * k) (drop (page_entry_size * suc (suc j)) log_page)
            ≡ packed pack_header pack_entry entry_size es =
          rw n (
            ap (take (page_entry_size * k)) (
              drop_exact page_entry_size o h _ (header_size gen (length log))
              ∙ drop-packed pack_header pack_entry entry_size (suc j) log)
            ∙ take-packed pack_header pack_entry entry_size k (drop (suc j) log)) in
        (status ∙ rw (cursor, at_j, ok), ap content left ∙ rw (cursor, at_j, part) all)

    -- A command for `k` pages of 1024 bytes at any page but the first after the header succeeds, and its
    -- data begins with those pages of the log page, the header and the entries, as far as the log
    -- goes. The data has room for what the command asks for, an entry and the header are packed into
    -- 1024 bytes each, and the subsystem gives the entries from the offset on.
    pub execute-log_page :
        (j : ℕ)
        → get_log_page_offset cmd ≡ page_entry_size * j
        → j ≢ 1
        → (answer.status ≡ status_success)
          × (content answer.sgl_writer
              ≡ copy_at 0
                  (take (page_entry_size * k) (drop (page_entry_size * j) log_page))
                  (content (new_cursor buffer)))
    execute-log_page zero start ne = first_page start
    execute-log_page (suc zero) start ne = absurd (ne refl)
    execute-log_page (suc (suc j)) start ne = later_page j start

    -- A request for whole entries at the offset of the first entry is not answered with the entries: the
    -- header is written again before them, and where the log has as many entries as were asked for
    -- the last one does not fit, and the command fails.
    pub execute-second_page :
        get_log_page_offset cmd ≡ page_entry_size → k ≤ length log → answer.status ≡ status_internal
    unfolding written
    execute-second_page start long =
        let es = take k log in
        let (hv, _, at, cap) = header_written in
        let lt : page_entry_size * 1 < 2 ^ 64 = omega arith in
        let eo : entry_offset (get_log_page_offset cmd) ≡ 0 =
          rw start (entry_offset-later 1 (omega arith) lt) in
        let (status, left) =
          answer-written k 0 (rw (len, start) (num_entries-later 1 k some_page (omega arith))) eo in
        let bad =
          write_entries-short pack_header pack_entry entry_size es (writer_at 0) hv
            (omega (arith, at, cap)) (omega (arith, at, cap, length-take k log)) in
        status ∙ rw bad
