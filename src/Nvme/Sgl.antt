-- ===== src/Nvme/Sgl.antt =====
-- pkg/nvme/sgl.go: a scatter list, its writer and its reader. A byte is a number.
pub mod Flat
pub mod Fresh
pub mod Writing
pub mod Reading
use Prim.Native.Nat.{min}
use discovery_client.Prelude.{
  ℕ, zero, suc, ◌+◌, ◌-◌, Bool, true, false, Option, none, some, if◌then◌else◌, List, [], ◌∷◌, ◌++◌,
  ltb, length, take, drop, replicate,
}

-- `ScatterList`; `len` counts the bytes written.
pub record ScatterList : Type 0 where
  pub buffers : List (List ℕ)
  pub len : ℕ
  pub capacity : ℕ

-- The loop of `NewScatterList`. It need not end, if `buffer_len` is 0: it runs on fuel.
unfoldable pub make_buffers : ℕ → ℕ → ℕ → List (List ℕ)
make_buffers zero remaining buffer_len = []
make_buffers (suc fuel) remaining buffer_len =
    let buffer_size = min remaining buffer_len in
    let rest = make_buffers fuel (remaining - buffer_size) buffer_len in
    if ltb 0 remaining then replicate buffer_size 0 ∷ rest else []

-- `NewScatterList`.
unfoldable pub new_scatter_list : ℕ → ℕ → ScatterList
new_scatter_list data_len buffer_len = record {
  buffers = make_buffers data_len data_len buffer_len;
  len = 0;
  capacity = data_len;
}

-- `scatterListWriter` and `scatterListReader`: the list, and the place in it.
pub record Cursor : Type 0 where
  pub sgl : ScatterList
  pub offset : ℕ
  pub index : ℕ

-- `NewScatterListWriter`, `NewScatterListReader`.
unfoldable pub new_cursor : ScatterList → Cursor
new_cursor sgl = record { sgl = sgl; offset = 0; index = 0 }

abbrev pub total_length : List (List ℕ) → ℕ
total_length [] = 0
total_length (b ∷ bs) = length b + total_length bs

-- `Len` of a cursor: what is left of the list.
unfoldable pub cursor_len : Cursor → ℕ
cursor_len c = c.sgl.capacity - (total_length (take c.index c.sgl.buffers) + c.offset)

pub data IoError : Type 0 where
  short_buffer eof : IoError

-- Go's `copy(buffer[offset:], src)`: what does not fit is not copied.
unfoldable pub copy_at : ℕ → List ℕ → List ℕ → List ℕ
copy_at offset src [] = []
copy_at (suc offset) src (b ∷ buffer) = b ∷ copy_at offset src buffer
copy_at zero [] (b ∷ buffer) = b ∷ buffer
copy_at zero (x ∷ src) (b ∷ buffer) = x ∷ copy_at zero src buffer

-- What a loop of `Write` or of `Read` leaves: the buffers from the one it began with, how many of them
-- it went past, the offset in the next one, what was not written or the number of bytes not read, and
-- the bytes that it wrote or read.
pub record Progress (A : Type 0) : Type 0 where
  pub touched : List (List ℕ)
  pub passed : ℕ
  pub at : ℕ
  pub left : A
  pub copied : List ℕ

-- The loop of `Write` from the buffer at the index. A round that does not fill its buffer has written
-- all that was left, and the loop ends.
unfoldable pub write_from : List (List ℕ) → ℕ → List ℕ → Progress (List ℕ)
write_from [] offset p = record { touched = []; passed = 0; at = offset; left = p; copied = [] }
write_from (buffer ∷ buffers) offset [] = record {
  touched = buffer ∷ buffers;
  passed = 0;
  at = offset;
  left = [];
  copied = [];
}
write_from (buffer ∷ buffers) offset (x ∷ p) =
    let left_to_write = min (length buffer - offset) (length (x ∷ p)) in
    let src = take left_to_write (x ∷ p) in
    let written = copy_at offset src buffer in
    let rest = write_from buffers 0 (drop left_to_write (x ∷ p)) in
    if ltb (offset + left_to_write) (length buffer)
    then record {
      touched = written ∷ buffers;
      passed = 0;
      at = offset + left_to_write;
      left = drop left_to_write (x ∷ p);
      copied = src;
    }
    else record {
      touched = written ∷ rest.touched;
      passed = suc rest.passed;
      at = rest.at;
      left = rest.left;
      copied = src ++ rest.copied;
    }

abbrev pub short_if : List ℕ → Option IoError
short_if [] = none
short_if (x ∷ p) = some short_buffer

-- `Write`: the writer after it, the number of bytes written, and the error.
unfoldable pub write : Cursor → List ℕ → Cursor × ℕ × Option IoError
write w p =
    let r = write_from (drop w.index w.sgl.buffers) w.offset p in
    let n = length r.copied in
    (
      record {
        sgl = record w.sgl {
          buffers = take w.index w.sgl.buffers ++ r.touched;
          len = w.sgl.len + n;
        };
        offset = r.at;
        index = w.index + r.passed;
      },
      n,
      short_if r.left,
    )

-- The loop of `Read` from the buffer at the index, for a number of bytes. It ends as that of `Write`.
unfoldable pub read_from : List (List ℕ) → ℕ → ℕ → Progress ℕ
read_from [] offset read_len = record {
  touched = [];
  passed = 0;
  at = offset;
  left = read_len;
  copied = [];
}
read_from (buffer ∷ buffers) offset zero = record {
  touched = buffer ∷ buffers;
  passed = 0;
  at = offset;
  left = 0;
  copied = [];
}
read_from (buffer ∷ buffers) offset (suc read_len) =
    let bytes_to_copy = min (length buffer - offset) (suc read_len) in
    let src = take bytes_to_copy (drop offset buffer) in
    let rest = read_from buffers 0 (suc read_len - bytes_to_copy) in
    if ltb (offset + bytes_to_copy) (length buffer)
    then record {
      touched = buffer ∷ buffers;
      passed = 0;
      at = offset + bytes_to_copy;
      left = suc read_len - bytes_to_copy;
      copied = src;
    }
    else record {
      touched = buffer ∷ rest.touched;
      passed = suc rest.passed;
      at = rest.at;
      left = rest.left;
      copied = src ++ rest.copied;
    }

-- `Read`: the reader after it, the bytes that it put into its buffer, and the error.
unfoldable pub read : Cursor → ℕ → Cursor × List ℕ × Option IoError
read r read_len =
    let p = read_from (drop r.index r.sgl.buffers) r.offset read_len in
    (
      record r { offset = p.at; index = r.index + p.passed },
      p.copied,
      if ltb 0 p.left then some eof else none,
    )
