-- ===== src/Nvme/Sgl/Writing.antt =====
-- `Write` (pkg/nvme/sgl.go) against a flat buffer.
use Prim.Native.Nat.{min}
use discovery_client.Prelude.{
  ℕ, zero, suc, ◌+◌, ◌-◌, ◌≤◌, ◌<◌, none, some, Bool-cases, inl, inr, List, [], ◌∷◌, ◌++◌, ◌≡◌,
  refl, sym, arith, ap, ◌∙◌, ltb, ltb→lt, ltb→ge, if◌then◌else◌, length, take, drop, length-append,
  length-take,
}
use discovery_client.Nvme.Sgl.{
  Cursor, Progress, short_buffer, copy_at, total_length, write_from, write, short_if,
}
use discovery_client.Nvme.Sgl.Flat.{
  bytes, place, content, Inside, IsCursor, length-copy_at, copy_at-nil, copy_at-append,
  length-bytes, Inside-zero, take-take_append, drop-drop, take_all, drop_all, take_nil, drop_nil,
  bytes-append, total_length-append, take_past, copy_at_past, bytes_split, total_split,
}

-- What the loop of `Write` does to the buffers from the index on.
record Wrote (bs : List (List ℕ)) (o : ℕ) (p : List ℕ) (r : Progress (List ℕ)) : Type 0 where
  flat : bytes r.touched ≡ copy_at o p (bytes bs)
  copied : r.copied ≡ take (total_length bs - o) p
  left : r.left ≡ drop (total_length bs - o) p
  moved : total_length (take r.passed r.touched) + r.at ≡ o + length r.copied
  same : total_length r.touched ≡ total_length bs
  count : length r.touched ≡ length bs
  inside : Inside (drop r.passed r.touched) r.at
  in_range : r.passed ≤ length r.touched

write_from-Wrote :
    (bs : List (List ℕ)) (o : ℕ) (p : List ℕ) → Inside bs o → Wrote bs o p (write_from bs o p)
unfolding write_from copy_at
write_from-Wrote [] o p h = record {
  flat = refl;
  copied = let e : 0 - o ≡ 0 = omega arith in rw e;
  left = let e : 0 - o ≡ 0 = omega arith in rw e;
  moved = omega arith;
  same = refl;
  count = refl;
  inside = h;
  in_range = omega arith;
}
write_from-Wrote (b ∷ bs) o [] h = record {
  flat = sym (copy_at-nil o (bytes (b ∷ bs)));
  copied = sym (take_nil (total_length (b ∷ bs) - o));
  left = sym (drop_nil (total_length (b ∷ bs) - o));
  moved = omega arith;
  same = refl;
  count = refl;
  inside = h;
  in_range = omega arith;
}
write_from-Wrote (b ∷ bs) o (x ∷ p) h =
    let n = min (length b - o) (length (x ∷ p)) in
    let split = copy_at-append o (x ∷ p) b (bytes bs) h in
    let size = length-copy_at o (take n (x ∷ p)) b in
    elim (Bool-cases (ltb (o + n) (length b))) [
      | inl part ↦
          let lt : o + n < length b = ltb→lt _ _ part in
          let all : length (x ∷ p) ≤ n = omega arith in
          rw (part, write_from)
            (record {
              flat = rw (split, drop_all n (x ∷ p) all, copy_at-nil 0 (bytes bs));
              copied = take_all n (x ∷ p) all ∙ sym (take_all _ (x ∷ p) (omega arith));
              left = drop_all n (x ∷ p) all ∙ sym (drop_all _ (x ∷ p) (omega arith));
              moved = omega (arith, length-take n (x ∷ p));
              same = omega (arith, size);
              count = refl;
              inside = omega (arith, size);
              in_range = omega arith;
            })
      | inr full ↦
          let rest = write_from-Wrote bs 0 (drop n (x ∷ p)) (Inside-zero bs) in
          let ge : length b ≤ o + n = ltb→ge _ _ full in
          rw (full, write_from)
            (record {
              flat = ap (copy_at o (take n (x ∷ p)) b ++◌) rest.flat ∙ sym split;
              copied =
                  ap (take n (x ∷ p) ++◌) rest.copied
                  ∙ take-take_append n (total_length bs - 0) (x ∷ p)
                  ∙ ap (λ k. take k (x ∷ p)) {x = n + (total_length bs - 0)} (omega arith);
              left =
                  rest.left
                  ∙ drop-drop n (total_length bs - 0) (x ∷ p)
                  ∙ ap (λ k. drop k (x ∷ p)) {x = n + (total_length bs - 0)} (omega arith);
              moved = omega (
                arith,
                size,
                rest.moved,
                length-take n (x ∷ p),
                length-append (take n (x ∷ p)) (write_from bs 0 (drop n (x ∷ p))).copied,
              );
              same = omega (arith, size, rest.same);
              count = ap suc rest.count;
              inside = rest.inside;
              in_range = omega (arith, rest.in_range);
            })
    ]

short_if-drop :
    (n : ℕ) (p : List ℕ)
    → short_if (drop n p) ≡ (if ltb n (length p) then some short_buffer else none)
short_if-drop zero [] = refl
short_if-drop zero (x ∷ p) = ground arith
short_if-drop (suc n) [] = ground arith
short_if-drop (suc n) (x ∷ p) = ground (arith, short_if-drop n p)

-- `Write` is one copy into the bytes of the list, at the place of the writer: it writes as much as
-- fits, moves on by that much, and reports a short buffer exactly if not all fits. The writer stays
-- valid.
pub write_lem :
    (w : Cursor) (p : List ℕ)
    → IsCursor w
    → let (w', n, err) = write w p in
      IsCursor w'
      × (content w' ≡ copy_at (place w) p (content w))
      × (n ≡ min (length p) (w.sgl.capacity - place w))
      × (place w' ≡ place w + n)
      × (err ≡ (if ltb (w.sgl.capacity - place w) (length p) then some short_buffer else none))
unfolding write
write_lem w p v =
    let i = w.index in
    let bs = w.sgl.buffers in
    let r = write_from (drop i bs) w.offset p in
    let g = write_from-Wrote (drop i bs) w.offset p v.inside in
    let (taken, dropped) = take_past i r.passed bs r.touched v.in_range in
    let left : total_length (drop i bs) - w.offset ≡ w.sgl.capacity - place w =
      omega (arith, total_split i bs, v.full) in
    (
      record {
        inside = rw dropped g.inside;
        in_range =
            omega (
              arith,
              length-append (take i bs) r.touched,
              length-take i bs,
              g.in_range,
              v.in_range,
            );
        full =
            omega
              (arith, total_length-append (take i bs) r.touched, g.same, total_split i bs, v.full);
      },
      bytes-append (take i bs) r.touched
          ∙ ap (bytes (take i bs) ++◌) g.flat
          ∙ sym (copy_at_past w.offset p (bytes (take i bs)) (bytes (drop i bs)))
          ∙ rw (length-bytes (take i bs)) (ap (copy_at (place w) p) (sym (bytes_split i bs))),
      ap length g.copied ∙ rw left (length-take _ p ∙ omega arith),
      rw taken (omega (arith, total_length-append (take i bs) (take r.passed r.touched), g.moved)),
      ap short_if g.left ∙ rw left (short_if-drop _ p),
    )
