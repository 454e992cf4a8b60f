-- ===== src/Nvme/LogPage/Entries.antt =====
-- The loop of `execute` over the entries of a log page (pkg/nvme/discovery.go).
use discovery_client.Prelude.{
  ℕ, zero, suc, ◌+◌, ◌-◌, ◌*◌, ◌≤◌, ◌<◌, true, false, none, some, Bool-cases, inl, inr, List, [],
  ◌∷◌, ◌++◌, ◌≡◌, refl, sym, arith, ap, ◌∙◌, ltb, ltb→ge, if◌then◌else◌, length, take, drop,
}
use discovery_client.Nvme.Sgl.{Cursor, short_buffer, copy_at, write}
use discovery_client.Nvme.Sgl.Flat.{
  place, content, IsCursor, take-append, drop-append, take_all, drop_all, copy_at-nil,
}
use discovery_client.Nvme.Sgl.Writing.{write_lem}
use discovery_client.Nvme.Sgl.Reading.{capacity-write}
use discovery_client.Nvme.LogPage.{write_entries, page_entry_size}

pub copy_at-copy_at :
    (o : ℕ) (p q l : List ℕ) → copy_at (o + length p) q (copy_at o p l) ≡ copy_at o (p ++ q) l
unfolding copy_at
copy_at-copy_at zero [] q [] = refl
copy_at-copy_at zero [] q (y ∷ l) = let e : 0 + 0 ≡ 0 = omega arith in rw e
copy_at-copy_at zero (x ∷ p) q [] = refl
copy_at-copy_at zero (x ∷ p) q (y ∷ l) =
    let e : 0 + length (x ∷ p) ≡ suc (0 + length p) = omega arith in
    rw e (ap (◌∷◌ x) (copy_at-copy_at zero p q l))
copy_at-copy_at (suc o) p q [] = refl
copy_at-copy_at (suc o) p q (y ∷ l) =
    let e : suc o + length p ≡ suc (o + length p) = omega arith in
    rw e (ap (◌∷◌ y) (copy_at-copy_at o p q l))

pub drop_exact : (n m : ℕ) (b c : List ℕ) → length b ≡ n → drop (n + m) (b ++ c) ≡ drop m c
drop_exact n m b c h =
    let e : n + m - length b ≡ m = omega arith in
    drop-append (n + m) b c ∙ rw (drop_all (n + m) b (omega arith), e)

pub take_exact : (n m : ℕ) (b c : List ℕ) → length b ≡ n → take (n + m) (b ++ c) ≡ b ++ take m c
take_exact n m b c h =
    let e : n + m - length b ≡ m = omega arith in
    take-append (n + m) b c ∙ rw (take_all (n + m) b (omega arith), e)

-- A write of an entry fails exactly if less than an entry is left.
write-entry :
    (w : Cursor) (p : List ℕ)
    → IsCursor w
    → length p ≡ page_entry_size
    → ((write w p).2
        ≡ (if ltb (w.sgl.capacity - place w) page_entry_size then some short_buffer else none))
      × (place w + page_entry_size ≤ w.sgl.capacity
          → place (write w p).0 ≡ place w + page_entry_size)
write-entry w p v h =
    let (_, _, n, moved, err) = write_lem w p v in
    (ground (arith, err, h), λ le. omega (arith, n, moved, h))

module _ {R : Type 0} (pack_header : ℕ → ℕ → List ℕ) (pack_entry : R → List ℕ)
    (entry_size : (e : R) → length (pack_entry e) ≡ page_entry_size) where
  -- The bytes of entries, one after the other.
  abbrev pub packed : List R → List ℕ
  packed [] = []
  packed (e ∷ es) = pack_entry e ++ packed es

  pub drop-packed :
      (m : ℕ) (es : List R) → drop (page_entry_size * m) (packed es) ≡ packed (drop m es)
  drop-packed zero es = refl
  drop-packed (suc m) [] = drop_all _ [] (omega arith)
  drop-packed (suc m) (e ∷ es) =
      let n : page_entry_size * suc m ≡ page_entry_size + page_entry_size * m = omega arith in
      rw n (
        drop_exact page_entry_size (page_entry_size * m) (pack_entry e) (packed es) (entry_size e)
        ∙ drop-packed m es)

  pub take-packed :
      (m : ℕ) (es : List R) → take (page_entry_size * m) (packed es) ≡ packed (take m es)
  take-packed zero es = refl
  take-packed (suc m) [] = take_all _ [] (omega arith)
  take-packed (suc m) (e ∷ es) =
      let n : page_entry_size * suc m ≡ page_entry_size + page_entry_size * m = omega arith in
      rw n (
        take_exact page_entry_size (page_entry_size * m) (pack_entry e) (packed es) (entry_size e)
        ∙ ap (pack_entry e ++◌) (take-packed m es))

  -- Entries for which there is room are all written.
  pub write_entries-fits :
      (es : List R) (w : Cursor)
      → IsCursor w
      → place w + page_entry_size * length es ≤ w.sgl.capacity
      → ((write_entries pack_header pack_entry w es).1 ≡ false)
        × (content (write_entries pack_header pack_entry w es).0
            ≡ copy_at (place w) (packed es) (content w))
  unfolding write_entries
  write_entries-fits [] w v h = (refl, sym (copy_at-nil (place w) (content w)))
  write_entries-fits (e ∷ es) w v h =
      let p = pack_entry e in
      let (v', flat, n, moved, _) = write_lem w p v in
      let (err, step) = write-entry w p v (entry_size e) in
      let ok : (write w p).2 ≡ none = ground (arith, err) in
      let there : place (write w p).0 ≡ place w + length p = omega (arith, step, entry_size e) in
      let (all, rest) =
        write_entries-fits es (write w p).0 v'
          (omega (arith, there, entry_size e, capacity-write w p)) in
      rw ok (all, rest ∙ rw (there, flat) (copy_at-copy_at (place w) p (packed es) (content w)))

  -- If there is not room for all, the loop fails.
  pub write_entries-short :
      (es : List R) (w : Cursor)
      → IsCursor w
      → place w ≤ w.sgl.capacity
      → w.sgl.capacity < place w + page_entry_size * length es
      → (write_entries pack_header pack_entry w es).1 ≡ true
  unfolding write_entries
  write_entries-short [] w v le h = absurd (omega arith)
  write_entries-short (e ∷ es) w v le h =
      let p = pack_entry e in
      let (v', _, _, _, _) = write_lem w p v in
      let (err, step) = write-entry w p v (entry_size e) in
      elim (Bool-cases (ltb (w.sgl.capacity - place w) page_entry_size)) [
        | inl short ↦ let bad : (write w p).2 ≡ some short_buffer = ground (arith, err) in rw bad
        | inr room ↦
            let ok : (write w p).2 ≡ none = ground (arith, err) in
            let ge = ltb→ge _ _ room in
            rw ok (
              write_entries-short es (write w p).0 v'
                (omega (arith, step (omega arith), capacity-write w p))
                (omega (arith, step (omega arith), capacity-write w p)))
      ]
