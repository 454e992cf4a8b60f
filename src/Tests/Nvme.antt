-- ===== src/Tests/Nvme.antt =====
-- Scatter lists and log pages (pkg/nvme) on concrete inputs.
use Prim.Native.Nat.{min}
use discovery_client.Prelude.{
  ℕ, ◌+◌, ◌-◌, ◌*◌, ◌/◌, ◌≤◌, String, none, some, List, [], ◌∷◌, ◌≡◌, refl, arith, ltb,
  if◌then◌else◌, length, take, drop, replicate, length-replicate, All,
}
use discovery_client.Nvme.Sgl.{
  ScatterList, Cursor, short_buffer, eof, copy_at, new_cursor, new_scatter_list, make_buffers,
  write, write_from, read,
}
use discovery_client.Nvme.Sgl.Flat.{content, place, IsCursor}
use discovery_client.Nvme.Sgl.Fresh.{new_scatter_list-IsCursor}
use discovery_client.Nvme.Sgl.Writing.{write_lem}
use discovery_client.Nvme.Sgl.Reading.{read_lem}
use discovery_client.Nvme.LogPage.{
  GetLogPageCommand, Answer, nvme_bytes_to_numd, upper32_bits, lower32_bits,
  new_get_log_page_command, get_log_page_len, get_log_page_offset, page_entry_size, status_success,
  status_internal,
}
use discovery_client.Nvme.LogPage.Pages.{answer, log_page, execute-log_page, execute-second_page}

abbrev three : List ℕ
three = 7 ∷ 8 ∷ 9 ∷ []

-- Five bytes in buffers of two.
abbrev list_of_five : ScatterList
list_of_five = new_scatter_list 5 2

abbrev at_start : Cursor
at_start = new_cursor list_of_five

three_written :
    ((write at_start three).1 ≡ 3)
    × (content (write at_start three).0 ≡ 7 ∷ 8 ∷ 9 ∷ 0 ∷ 0 ∷ [])
    × ((write at_start three).0.index ≡ 1)
unfolding write write_from copy_at new_scatter_list make_buffers new_cursor
three_written = (refl, refl, refl)

new_scatter_list-IsCursor_example :
    IsCursor (new_cursor (new_scatter_list 5 2))
    × (content (new_cursor (new_scatter_list 5 2)) ≡ replicate 5 0)
    × All (λ b. length b ≤ 2) (new_cursor (new_scatter_list 5 2)).sgl.buffers
new_scatter_list-IsCursor_example = new_scatter_list-IsCursor 5 2 (omega arith)

at_start-IsCursor : IsCursor at_start
at_start-IsCursor = (new_scatter_list-IsCursor 5 2 (omega arith)).0

write_lem_example :
    let (w', n, err) = write at_start three in
    IsCursor w'
    × (content w' ≡ copy_at (place at_start) three (content at_start))
    × (n ≡ min (length three) (at_start.sgl.capacity - place at_start))
    × (place w' ≡ place at_start + n)
    × (err ≡ (
        if ltb (at_start.sgl.capacity - place at_start) (length three)
        then some short_buffer
        else none))
write_lem_example = write_lem at_start three at_start-IsCursor

read_lem_example :
    let (r', p, err) = read at_start 9 in
    IsCursor r'
    × (p ≡ take 9 (drop (place at_start) (content at_start)))
    × (place r' ≡ place at_start + length p)
    × (err ≡ (if ltb (at_start.sgl.capacity - place at_start) 9 then some eof else none))
read_lem_example = read_lem at_start 9 at_start-IsCursor

-- A server with three entries; an entry is packed as its number, 1024 times.
abbrev entries : List ℕ
entries = 1 ∷ 2 ∷ 3 ∷ []

abbrev pack_header : ℕ → ℕ → List ℕ
pack_header gen n = replicate 1024 n

abbrev pack_entry : ℕ → List ℕ
pack_entry e = replicate 1024 e

abbrev fill : ℕ → ℕ → String → List ℕ × ℕ × ℕ
fill o n host = (take n (drop (o / 1024) entries), 3, 5)

pack_header-size : (gen n : ℕ) → length (pack_header gen n) ≡ page_entry_size
pack_header-size gen n = length-replicate 1024 n

pack_entry-size : (e : ℕ) → length (pack_entry e) ≡ page_entry_size
pack_entry-size e = length-replicate 1024 e

-- A request for two pages.
abbrev request : ℕ → GetLogPageCommand
request offset = new_get_log_page_command 1 2048 offset 0

abbrev two_pages : ScatterList
two_pages = new_scatter_list 2048 1024

two_pages-IsCursor : IsCursor (new_cursor two_pages)
two_pages-IsCursor = (new_scatter_list-IsCursor 2048 1024 (omega arith)).0

abbrev answer_to : ℕ → Answer
answer_to offset =
    answer pack_header pack_entry pack_header-size pack_entry-size entries 5 fill (λ o n host. refl)
      (request offset) 0 "host" two_pages

abbrev whole_page : List ℕ
whole_page =
    log_page pack_header pack_entry pack_header-size pack_entry-size entries 5 fill
      (λ o n host. refl) (request 0) 0 "host" two_pages

execute-log_page_example :
    ((answer_to 2048).status ≡ status_success)
    × (content (answer_to 2048).sgl_writer
        ≡ copy_at 0
            (take (page_entry_size * 2) (drop (page_entry_size * 2) whole_page))
            (content (new_cursor two_pages)))
unfolding new_get_log_page_command get_log_page_len get_log_page_offset nvme_bytes_to_numd
    upper32_bits lower32_bits new_scatter_list
execute-log_page_example =
    execute-log_page pack_header pack_entry pack_header-size pack_entry-size entries 5 fill
      (λ o n host. refl) (request 2048) 0 "host" two_pages two_pages-IsCursor 2 (omega arith) refl
      refl 2 refl (λ e. omega arith)

execute-second_page_example : (answer_to 1024).status ≡ status_internal
unfolding new_get_log_page_command get_log_page_len get_log_page_offset nvme_bytes_to_numd
    upper32_bits lower32_bits new_scatter_list
execute-second_page_example =
    execute-second_page pack_header pack_entry pack_header-size pack_entry-size entries 5 fill
      (λ o n host. refl) (request 1024) 0 "host" two_pages two_pages-IsCursor 2 (omega arith) refl
      refl refl (omega arith)
