-- ===== src/Nvme/Sgl/Fresh.antt =====
-- `NewScatterList` (pkg/nvme/sgl.go): the list that it makes.
use Prim.Native.Nat.{min}
use discovery_client.Prelude.{
  ℕ, zero, suc, ◌+◌, ◌-◌, ◌≤◌, ◌<◌, Bool-cases, inl, inr, ◌∷◌, ◌++◌, ◌≡◌, refl, sym, arith, ap, ◌∙◌,
  ltb, ltb→lt, ltb→ge, length, replicate, length-replicate, All,
}
use discovery_client.Nvme.Sgl.{make_buffers, new_scatter_list, new_cursor}
use discovery_client.Nvme.Sgl.Flat.{bytes, content, IsCursor, Inside-zero, length-bytes}

replicate_add : (n m a : ℕ) → replicate n a ++ replicate m a ≡ replicate (n + m) a
replicate_add zero m a = let e : 0 + m ≡ m = omega arith in rw e
replicate_add (suc n) m a =
    let e : suc n + m ≡ suc (n + m) = omega arith in rw e (ap (◌∷◌ a) (replicate_add n m a))

-- The rest of a list of buffers that `NewScatterList` makes.
pub make_buffers_lem :
    (fuel n m : ℕ)
    → n ≤ fuel
    → 1 ≤ m
    → (bytes (make_buffers fuel n m) ≡ replicate n 0)
      × All (λ b. length b ≤ m) (make_buffers fuel n m)
unfolding make_buffers
make_buffers_lem zero n m h pos = let e : n ≡ 0 = omega arith in rw e (refl, tt)
make_buffers_lem (suc fuel) n m h pos = elim (Bool-cases (ltb 0 n)) [
  | inl more ↦
      let lt : 0 < n = ltb→lt _ _ more in
      let k = min n m in
      let (flat, small) = make_buffers_lem fuel (n - k) m (omega arith) pos in
      rw (more, make_buffers)
        (
          ap (replicate k 0 ++◌) flat
              ∙ replicate_add k (n - k) 0
              ∙ ap (λ i. replicate i 0) {x = k + (n - k)} (omega arith),
          (omega (arith, length-replicate {A = ℕ} k 0), small),
        )
  | inr done ↦ let e : n ≡ 0 = omega (arith, ltb→ge _ _ done) in rw (done, make_buffers) (rw e, tt)
]

-- A new list is all zeros, as long as was asked for, in buffers of at most the given length, and a
-- cursor at its start is valid. The buffer length must not be 0.
pub new_scatter_list-IsCursor :
    (n m : ℕ)
    → 1 ≤ m
    → let c = new_cursor (new_scatter_list n m) in
      IsCursor c × (content c ≡ replicate n 0) × All (λ b. length b ≤ m) c.sgl.buffers
unfolding new_scatter_list new_cursor
new_scatter_list-IsCursor n m h =
    let (flat, small) = make_buffers_lem n n m (omega arith) h in
    (
      record {
        inside = Inside-zero (make_buffers n n m);
        in_range = omega arith;
        full = sym (length-bytes (make_buffers n n m)) ∙ ap length flat ∙ length-replicate n 0;
      },
      flat,
      small,
    )
