-- ===== src/NvmeHost/Target/Log.antt =====
-- The bytes that the target sends for a part of the log page (pkg/nvme/discovery.go, tcp_queue.go).
use Prim.Native.Nat.{max}
use discovery_client.Prelude.{
  ℕ, zero, suc, ◌+◌, ◌-◌, ◌*◌, ◌/◌, ◌^◌, ◌≤◌, ◌<◌, String, none, some, ◌==◌, ℕ_eq, if◌then◌else◌,
  List, [], ◌∷◌, ◌++◌, ◌≡◌, ◌≢◌, refl, sym, ap, arith, ◌∙◌, length, take, drop, replicate,
  length-take, length-replicate, append_assoc,
}
use mathlib.Core.Path.{subst}
use discovery_client.Nvme.Sgl.{
  ScatterList, Cursor, new_scatter_list, new_cursor, copy_at, read, write,
}
use discovery_client.Nvme.Sgl.Flat.{
  IsCursor, content, length-bytes, length-copy_at, Inside-zero, take_all, copy_at-nil,
}
use discovery_client.Nvme.Sgl.Fresh.{new_scatter_list-IsCursor}
use discovery_client.Nvme.Sgl.Reading.{capacity-write, read_lem, read-write}
use discovery_client.Nvme.LogPage.{
  GetLogPageCommand, execute, write_entries, get_log_page_len, get_log_page_offset, page_entry_size,
  num_entries, entry_offset, status_success, new_get_log_page_command,
}
use discovery_client.Nvme.LogPage.Fields.{get_log_page-new}
use discovery_client.Nvme.LogPage.Entries.{packed, drop_exact, take_exact, drop-packed, take-packed}
use discovery_client.Nvme.LogPage.Pages.{execute-log_page}
use discovery_client.NvmeHost.Session.{copied, Lib, NvmefDiscRspPageEntry}
use discovery_client.NvmeHost.Session.Pages.{Unpacks, IsPage}

-- A list that is full of bytes is copied whole.
pub copied-full :
    (sgl : ScatterList)
    → length (content (new_cursor sgl)) ≡ sgl.capacity
    → copied sgl ≡ content (new_cursor sgl)
unfolding copied new_cursor
copied-full sgl full =
    let v : IsCursor (new_cursor sgl) = record {
      inside = Inside-zero sgl.buffers;
      in_range = omega arith;
      full = sym (length-bytes sgl.buffers) ∙ full;
    } in
    let (_, q, _, _) = read_lem (new_cursor sgl) sgl.capacity v in
    q ∙ take_all sgl.capacity (content (new_cursor sgl)) (omega (arith, full))

-- Bytes that fill a new list are copied whole.
pub copied-written :
    (n m : ℕ) (p : List ℕ)
    → 1 ≤ m
    → length p ≡ n
    → let (w, _, err) = write (new_cursor (new_scatter_list n m)) p in
      (err ≡ none) × (copied w.sgl ≡ p)
unfolding copied new_cursor new_scatter_list write
copied-written n m p one size =
    let c = new_cursor (new_scatter_list n m) in
    let (v, _, _) = new_scatter_list-IsCursor n m one in
    let (q, err, _) = read-write c p v (omega (arith, size)) in
    (err, ap (λ k. (read (new_cursor (write c p).0.sgl) k).1) (sym size) ∙ q)

pub copy_at-start : (p l : List ℕ) → length p ≤ length l → copy_at 0 p l ≡ p ++ drop (length p) l
unfolding copy_at
copy_at-start [] l h = copy_at-nil 0 l
copy_at-start (x ∷ p) [] h = absurd (omega arith)
copy_at-start (x ∷ p) (y ∷ l) h = ap (x ∷◌) (copy_at-start p l (omega arith))

drop-cons :
    {R : Type 0} (j : ℕ) (log : List R)
    → j < length log
    → (e : R) × (drop j log ≡ e ∷ drop (suc j) log)
drop-cons zero [] h = absurd (omega arith)
drop-cons zero (e ∷ log) h = (e, refl)
drop-cons (suc j) [] h = absurd (omega arith)
drop-cons (suc j) (e ∷ log) h = drop-cons j log (omega arith)

module _ {R : Type 0} (pack_header : ℕ → ℕ → List ℕ) (pack_entry : R → List ℕ)
    (entry_size : (e : R) → length (pack_entry e) ≡ page_entry_size)
    (header_size : (gen n : ℕ) → length (pack_header gen n) ≡ page_entry_size)
    (entry_of : R → NvmefDiscRspPageEntry) (lib : Lib)
    (u : Unpacks pack_header pack_entry entry_size header_size entry_of lib) (log : List R)
    (gen : ℕ) where
  abbrev flat : List R → List ℕ
  flat es = packed pack_header pack_entry entry_size es

  abbrev log_bytes : List ℕ
  log_bytes = pack_header gen (length log) ++ flat log

  capacity-write_entries :
      (w : Cursor) (es : List R)
      → (write_entries pack_header pack_entry w es).0.sgl.capacity ≡ w.sgl.capacity
  unfolding write_entries
  capacity-write_entries w [] = refl
  capacity-write_entries w (e ∷ es) =
      let c = capacity-write w (pack_entry e) in
      ground (arith, c, capacity-write_entries (write w (pack_entry e)).0 es)

  -- A page of the log begins with one page that the host does not read, and goes on with entries.
  starts :
      (k m : ℕ)
      → 1 ≤ k
      → m ≢ 1
      → m ≤ length log
      → (first : List ℕ) × (take (page_entry_size * k) (drop (page_entry_size * m) log_bytes)
          ≡ first ++ flat (take (k - 1) (drop m log)))
        × (length first ≡ page_entry_size)
        × (m ≡ 0 → first ≡ pack_header gen (length log))
  starts k zero one ne le =
      let h = pack_header gen (length log) in
      let n : page_entry_size * k ≡ page_entry_size + page_entry_size * (k - 1) = omega arith in
      (
        h,
        rw n (
            take_exact page_entry_size (page_entry_size * (k - 1)) h (flat log)
              (header_size gen (length log))
            ∙ ap (h ++◌) (take-packed pack_header pack_entry entry_size (k - 1) log)),
        header_size gen (length log),
        λ e. refl,
      )
  starts k (suc j) one ne le =
      let (e, there) = drop-cons j log (omega arith) in
      let at : page_entry_size * suc j ≡ page_entry_size + page_entry_size * j = omega arith in
      let n : page_entry_size * k ≡ page_entry_size + page_entry_size * (k - 1) = omega arith in
      let from : drop (page_entry_size * suc j) log_bytes
          ≡ pack_entry e ++ flat (drop (suc j) log) =
        ap (λ o. drop o log_bytes) at
        ∙ drop_exact page_entry_size (page_entry_size * j) (pack_header gen (length log)) (flat log)
            (header_size gen (length log))
        ∙ drop-packed pack_header pack_entry entry_size j log
        ∙ ap flat there in
      (
        pack_entry e,
        rw (n, from)
            (take_exact page_entry_size (page_entry_size * (k - 1)) (pack_entry e)
                (flat (drop (suc j) log)) (entry_size e)
              ∙ ap (pack_entry e ++◌)
                  (take-packed pack_header pack_entry entry_size (k - 1) (drop (suc j) log))),
        entry_size e,
        λ z. cc,
      )

  -- The bytes of a list that begins as the page does are such a page.
  pub copy_at-IsPage :
      (k m : ℕ) (zeros : List ℕ)
      → 1 ≤ k
      → m ≢ 1
      → m ≤ length log
      → length zeros ≡ page_entry_size * k
      → IsPage pack_header pack_entry entry_size header_size entry_of lib u log gen m k
          (copy_at 0 (take (page_entry_size * k) (drop (page_entry_size * m) log_bytes)) zeros)
  copy_at-IsPage k m zeros one ne le size =
      let (first, part, one_page, start) = starts k m one ne le in
      let p = take (page_entry_size * k) (drop (page_entry_size * m) log_bytes) in
      let fits : length p ≤ length zeros =
        omega
          (arith, length-take (page_entry_size * k) (drop (page_entry_size * m) log_bytes), size) in
      record {
        first = first;
        tail = drop (length p) zeros;
        split =
            copy_at-start p zeros fits
            ∙ ap (λ q. q ++ drop (length p) zeros) part
            ∙ append_assoc first (flat (take (k - 1) (drop m log))) (drop (length p) zeros);
        first_size = one_page;
        size = length-copy_at 0 p zeros ∙ size;
        start = start;
      }

  module _ (fill : ℕ → ℕ → String → List R × ℕ × ℕ)
      (serves : (o n : ℕ) (host : String)
        → fill o n host ≡ (take n (drop (o / page_entry_size) log), length log, gen))
      (cmd : GetLogPageCommand) (cdw10 : ℕ) (host : String) (buffer : ScatterList) where
    capacity-execute :
        (execute pack_header pack_entry (some fill) cmd cdw10 host buffer).sgl_writer.sgl.capacity
        ≡ buffer.capacity
    unfolding execute new_cursor
    capacity-execute =
        let n =
          num_entries (max (get_log_page_len cmd) page_entry_size) (get_log_page_offset cmd) in
        let o = entry_offset (get_log_page_offset cmd) in
        let r = fill o n host in
        let w : Cursor =
          if o == 0
          then (write (new_cursor buffer) (pack_header r.2 r.1)).0
          else new_cursor buffer in
        ground (
          arith,
          capacity-write_entries w r.0,
          capacity-write (new_cursor buffer) (pack_header r.2 r.1),
        )

    -- The answer to the host's command for `k` pages from the page `m` on.
    pub execute-IsPage :
        (id k m nsid : ℕ)
        → cmd ≡ new_get_log_page_command id (page_entry_size * k) (page_entry_size * m) nsid
        → buffer ≡ new_scatter_list (get_log_page_len cmd) 8192
        → 1 ≤ k
        → page_entry_size * k < 2 ^ 32
        → page_entry_size * m < 2 ^ 64
        → m ≤ length log
        → m ≢ 1
        → let a = execute pack_header pack_entry (some fill) cmd cdw10 host buffer in
          (a.status ≡ status_success)
          × (get_log_page_len cmd ≡ page_entry_size * k)
          × IsPage pack_header pack_entry entry_size header_size entry_of lib u log gen m k
              (copied a.sgl_writer.sgl)
    unfolding new_cursor new_scatter_list
    execute-IsPage id k m nsid made fresh one size far le ne =
        let fields =
          get_log_page-new id (page_entry_size * k) (page_entry_size * m) nsid size far in
        let len : get_log_page_len cmd ≡ page_entry_size * k = rw made (omega (arith, fields.0)) in
        let start : get_log_page_offset cmd ≡ page_entry_size * m = rw made fields.1 in
        let (v, zeros, _) = new_scatter_list-IsCursor (get_log_page_len cmd) 8192 (omega arith) in
        let room : buffer.capacity ≡ page_entry_size * k = rw fresh (room_of len) in
        let v' : IsCursor (new_cursor buffer) = rw fresh v in
        let zeros' : content (new_cursor buffer) ≡ replicate (get_log_page_len cmd) 0 =
          rw fresh zeros in
        let (ok, written) =
          execute-log_page pack_header pack_entry header_size entry_size log gen fill serves cmd
            cdw10 host buffer v' k one len room m start ne in
        let all = length (content (new_cursor buffer)) in
        let size_of : all ≡ page_entry_size * k =
          ap length zeros' ∙ length-replicate (get_log_page_len cmd) 0 ∙ len in
        let page = copy_at-IsPage k m (content (new_cursor buffer)) one ne le size_of in
        let a = execute pack_header pack_entry (some fill) cmd cdw10 host buffer in
        let full : length (content a.sgl_writer) ≡ a.sgl_writer.sgl.capacity =
          ap length written ∙ page.size ∙ sym (capacity-execute ∙ room) in
        (
          ok,
          len,
          subst (IsPage pack_header pack_entry entry_size header_size entry_of lib u log gen m k)
              (sym (copied-full a.sgl_writer.sgl full ∙ written)) page,
        )
      where
        room_of :
            {n : ℕ}
            → get_log_page_len cmd ≡ n
            → (new_scatter_list (get_log_page_len cmd) 8192).capacity ≡ n
        room_of e = e
