-- ===== src/Nvme/Sgl/Reading.antt =====
-- `Read` (pkg/nvme/sgl.go) against a flat buffer, and what it reads of what `Write` wrote.
use Prim.Native.Nat.{min}
use discovery_client.Prelude.{
  ℕ, zero, suc, ◌+◌, ◌-◌, ◌≤◌, ◌<◌, none, some, Bool-cases, inl, inr, List, [], ◌∷◌, ◌++◌, ◌≡◌,
  refl, sym, arith, ap, ◌∙◌, ltb, ltb→lt, ltb→ge, if◌then◌else◌, length, take, drop, length-append,
  append-nil, length-take, length-drop,
}
use discovery_client.Nvme.Sgl.{
  Cursor, Progress, eof, copy_at, total_length, read_from, read, write, new_cursor,
}
use discovery_client.Nvme.Sgl.Flat.{
  bytes, place, content, Inside, IsCursor, length-bytes, Inside-zero, take-take_append, take_all,
  drop-drop, drop_all, take_nil, drop_nil, bytes_split, total_split, total_length-append,
  take-append, drop-append,
}
use discovery_client.Nvme.Sgl.Writing.{write_lem}

-- What the loop of `Read` finds from the index on.
record Found (bs : List (List ℕ)) (o k : ℕ) (r : Progress ℕ) : Type 0 where
  copied : r.copied ≡ take k (drop o (bytes bs))
  left : r.left ≡ k - (total_length bs - o)
  moved : total_length (take r.passed bs) + r.at ≡ o + length r.copied
  inside : Inside (drop r.passed bs) r.at
  in_range : r.passed ≤ length bs

take_here :
    (o k : ℕ) (b c : List ℕ) → o + k ≤ length b → take k (drop o (b ++ c)) ≡ take k (drop o b)
take_here o k b c h =
    let e : k - length (drop o b) ≡ 0 = omega (arith, length-drop o b) in
    ap (take k) (drop-append o b c)
    ∙ take-append k (drop o b) (drop (o - length b) c)
    ∙ rw e (append-nil (take k (drop o b)))

take_through :
    (o n k : ℕ) (b c : List ℕ)
    → o + n ≡ length b
    → n ≤ k
    → take k (drop o (b ++ c)) ≡ take n (drop o b) ++ take (k - n) c
take_through o n k b c h le =
    let e : o - length b ≡ 0 = omega arith in
    let size : length (drop o b) ≡ n = omega (arith, length-drop o b) in
    ap (take k) (drop-append o b c)
    ∙ rw e (
        take-append k (drop o b) c
        ∙ rw (size, take_all k (drop o b) (omega arith), take_all n (drop o b) (omega arith)))

read_from-Found : (bs : List (List ℕ)) (o k : ℕ) → Inside bs o → Found bs o k (read_from bs o k)
unfolding read_from
read_from-Found [] o k h = record {
  copied = sym (ap (take k) (drop_nil o) ∙ take_nil k);
  left = omega arith;
  moved = omega arith;
  inside = h;
  in_range = omega arith;
}
read_from-Found (b ∷ bs) o zero h = record {
  copied = refl;
  left = omega arith;
  moved = omega arith;
  inside = h;
  in_range = omega arith;
}
read_from-Found (b ∷ bs) o (suc k) h =
    let n = min (length b - o) (suc k) in
    let size : length (take n (drop o b)) ≡ n =
      omega (arith, length-take n (drop o b), length-drop o b) in
    elim (Bool-cases (ltb (o + n) (length b))) [
      | inl part ↦
          let lt : o + n < length b = ltb→lt _ _ part in
          let all : n ≡ suc k = omega arith in
          rw (part, read_from)
            (record {
              copied = rw all (sym (take_here o (suc k) b (bytes bs) (omega arith)));
              left = omega arith;
              moved = omega (arith, size);
              inside = omega arith;
              in_range = omega arith;
            })
      | inr full ↦
          let rest = read_from-Found bs 0 (suc k - n) (Inside-zero bs) in
          let ge : length b ≤ o + n = ltb→ge _ _ full in
          let exact : o + n ≡ length b = omega arith in
          rw (full, read_from)
            (record {
              copied =
                  ap (take n (drop o b) ++◌) rest.copied
                  ∙ sym (take_through o n (suc k) b (bytes bs) exact (omega arith));
              left = omega (arith, rest.left);
              moved = omega (
                arith,
                size,
                rest.moved,
                length-append (take n (drop o b)) (read_from bs 0 (suc k - n)).copied,
              );
              inside = rest.inside;
              in_range = omega (arith, rest.in_range);
            })
    ]

-- The bytes from the index on.
bytes-drop :
    (i : ℕ) (bs : List (List ℕ)) → bytes (drop i bs) ≡ drop (total_length (take i bs)) (bytes bs)
bytes-drop i bs =
    let b = bytes (take i bs) in
    let e : length b - length b ≡ 0 = omega arith in
    sym (
      rw (
        bytes_split i bs,
        sym (length-bytes (take i bs)),
        drop-append (length b) b (bytes (drop i bs)),
        drop_all (length b) b (omega arith),
        e,
      ))

-- `Read` gives the bytes of the list from the place of the reader on, as many as asked for or as there
-- are; it moves on by that many, and reports the end exactly if there are not enough. The reader stays
-- valid.
pub read_lem :
    (r : Cursor) (k : ℕ)
    → IsCursor r
    → let (r', p, err) = read r k in
      IsCursor r'
      × (p ≡ take k (drop (place r) (content r)))
      × (place r' ≡ place r + length p)
      × (err ≡ (if ltb (r.sgl.capacity - place r) k then some eof else none))
unfolding read
read_lem r k v =
    let i = r.index in
    let bs = r.sgl.buffers in
    let p = read_from (drop i bs) r.offset k in
    let f = read_from-Found (drop i bs) r.offset k v.inside in
    let left : total_length (drop i bs) - r.offset ≡ r.sgl.capacity - place r =
      omega (arith, total_split i bs, v.full) in
    (
      record {
        inside = rw (sym (drop-drop i p.passed bs)) f.inside;
        in_range = omega (arith, length-drop i bs, f.in_range, v.in_range);
        full = v.full;
      },
      f.copied
          ∙ ap (λ x. take k (drop r.offset x)) (bytes-drop i bs)
          ∙ ap (take k) (drop-drop (total_length (take i bs)) r.offset (bytes bs)),
      rw (sym (take-take_append i p.passed bs))
          (omega (arith, total_length-append (take i bs) (take p.passed (drop i bs)), f.moved)),
      ground (arith, f.left, left),
    )

take-copy_at : (p l : List ℕ) → length p ≤ length l → take (length p) (copy_at 0 p l) ≡ p
unfolding copy_at
take-copy_at [] l h = refl
take-copy_at (x ∷ p) [] h = absurd (omega arith)
take-copy_at (x ∷ p) (y ∷ l) h = ap (◌∷◌ x) (take-copy_at p l (omega arith))

pub capacity-write : (w : Cursor) (p : List ℕ) → (write w p).0.sgl.capacity ≡ w.sgl.capacity
unfolding write
capacity-write w p = refl

-- What is written at the start of a list is read back from its start, if it fits, without an error.
pub read-write :
    (w : Cursor) (p : List ℕ)
    → IsCursor (new_cursor w.sgl)
    → length p ≤ w.sgl.capacity
    → let (w', n, err) = write (new_cursor w.sgl) p in
      let (_, q, err') = read (new_cursor w'.sgl) (length p) in
      (q ≡ p) × (err ≡ none) × (err' ≡ none)
unfolding new_cursor
read-write w p v h =
    let (v', flat, _, _, err) = write_lem (new_cursor w.sgl) p v in
    let w' = (write (new_cursor w.sgl) p).0 in
    let again : IsCursor (new_cursor w'.sgl) = record {
      inside = Inside-zero w'.sgl.buffers;
      in_range = omega arith;
      full = v'.full;
    } in
    let (_, q, _, err') = read_lem (new_cursor w'.sgl) (length p) again in
    let room : length p ≤ length (content (new_cursor w.sgl)) =
      omega (arith, length-bytes w.sgl.buffers, v.full) in
    (
      q ∙ ap (take (length p)) flat ∙ take-copy_at p (content (new_cursor w.sgl)) room,
      ground (arith, err),
      ground (arith, err', capacity-write (new_cursor w.sgl) p),
    )
