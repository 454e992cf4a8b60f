-- ===== src/Nvme/Sgl/Flat.antt =====
-- The scatter list (pkg/nvme/sgl.go) as one flat buffer: its bytes, and the place of a cursor in them.
use Prim.Native.Nat.{min}
use discovery_client.Prelude.{
  ℕ, zero, suc, ◌+◌, ◌-◌, ◌≤◌, List, [], ◌∷◌, ◌++◌, ◌≡◌, refl, sym, arith, ap, ◌∙◌, length, take,
  drop, length-append, append_assoc, take-append-drop,
}
use discovery_client.Nvme.Sgl.{Cursor, copy_at, total_length}

-- The bytes of the buffers.
abbrev pub bytes : List (List ℕ) → List ℕ
bytes [] = []
bytes (b ∷ bs) = b ++ bytes bs

pub length-bytes : (bs : List (List ℕ)) → length (bytes bs) ≡ total_length bs
length-bytes [] = refl
length-bytes (b ∷ bs) = omega (arith, length-append b (bytes bs), length-bytes bs)

-- The place of a cursor in the bytes.
abbrev pub place : Cursor → ℕ
place c = total_length (take c.index c.sgl.buffers) + c.offset

-- The bytes of a scatter list.
abbrev pub content : Cursor → List ℕ
content c = bytes c.sgl.buffers

-- A cursor points into a buffer, or past the last one.
abbrev pub Inside : List (List ℕ) → ℕ → Type 0
Inside [] offset = offset ≡ 0
Inside (b ∷ bs) offset = offset ≤ length b

pub record IsCursor (c : Cursor) : Type 0 where
  pub inside : Inside (drop c.index c.sgl.buffers) c.offset
  pub in_range : c.index ≤ length c.sgl.buffers
  pub full : total_length c.sgl.buffers ≡ c.sgl.capacity

pub length-copy_at : (o : ℕ) (p l : List ℕ) → length (copy_at o p l) ≡ length l
unfolding copy_at
length-copy_at o p [] = refl
length-copy_at (suc o) p (b ∷ l) = ap suc (length-copy_at o p l)
length-copy_at zero [] (b ∷ l) = refl
length-copy_at zero (x ∷ p) (b ∷ l) = ap suc (length-copy_at zero p l)

pub copy_at-nil : (o : ℕ) (l : List ℕ) → copy_at o [] l ≡ l
unfolding copy_at
copy_at-nil o [] = refl
copy_at-nil (suc o) (b ∷ l) = ap (◌∷◌ b) (copy_at-nil o l)
copy_at-nil zero (b ∷ l) = refl

pub take_nil {ℓ} : {A : Type ℓ} (n : ℕ) → take {A = A} n [] ≡ []
take_nil zero = refl
take_nil (suc n) = refl

pub drop_nil {ℓ} : {A : Type ℓ} (n : ℕ) → drop {A = A} n [] ≡ []
drop_nil zero = refl
drop_nil (suc n) = refl

copy_at-append-nil :
    (b c : List ℕ) (n : ℕ)
    → copy_at 0 [] (b ++ c) ≡ copy_at 0 (take n []) b ++ copy_at 0 (drop n []) c
copy_at-append-nil b c n = rw (
  take_nil {A = ℕ} n,
  drop_nil {A = ℕ} n,
  copy_at-nil 0 b,
  copy_at-nil 0 c,
  copy_at-nil 0 (b ++ c),
)

-- A copy that begins in the first of two parts.
pub copy_at-append :
    (o : ℕ) (p b c : List ℕ)
    → o ≤ length b
    → copy_at o p (b ++ c)
      ≡ copy_at o (take (min (length b - o) (length p)) p) b
        ++ copy_at 0 (drop (min (length b - o) (length p)) p) c
unfolding copy_at
copy_at-append zero p [] c h = let e : min (0 - 0) (length p) ≡ 0 = omega arith in rw e
copy_at-append zero [] (y ∷ b) c h = copy_at-append-nil (y ∷ b) c (min (length (y ∷ b) - 0) 0)
copy_at-append zero (x ∷ p) (y ∷ b) c h =
    let e : min (length (y ∷ b) - 0) (length (x ∷ p)) ≡ suc (min (length b - 0) (length p)) =
      omega arith in
    rw e (ap (◌∷◌ x) (copy_at-append zero p b c (omega arith)))
copy_at-append (suc o) p [] c h = absurd (omega arith)
copy_at-append (suc o) p (y ∷ b) c h =
    let e : length (y ∷ b) - suc o ≡ length b - o = omega arith in
    rw e (ap (◌∷◌ y) (copy_at-append o p b c (omega arith)))

pub Inside-zero : (bs : List (List ℕ)) → Inside bs 0
Inside-zero [] = refl
Inside-zero (b ∷ bs) = omega arith

pub take-take_append {ℓ} :
    {A : Type ℓ} (n m : ℕ) (p : List A) → take n p ++ take m (drop n p) ≡ take (n + m) p
take-take_append zero m p = ap (λ k. take k p) (omega arith)
take-take_append (suc n) m [] = rw (take_nil m, take_nil (suc n + m))
take-take_append (suc n) m (x ∷ p) =
    let e : suc n + m ≡ suc (n + m) = omega arith in rw e (ap (◌∷◌ x) (take-take_append n m p))

pub drop-drop {ℓ} : {A : Type ℓ} (n m : ℕ) (p : List A) → drop m (drop n p) ≡ drop (n + m) p
drop-drop zero m p = ap (λ k. drop k p) (omega arith)
drop-drop (suc n) m [] = rw (drop_nil m, drop_nil (suc n + m))
drop-drop (suc n) m (x ∷ p) =
    let e : suc n + m ≡ suc (n + m) = omega arith in rw e (drop-drop n m p)

pub take_all {ℓ} : {A : Type ℓ} (n : ℕ) (p : List A) → length p ≤ n → take n p ≡ p
take_all zero [] h = refl
take_all zero (x ∷ p) h = absurd (omega arith)
take_all (suc n) [] h = refl
take_all (suc n) (x ∷ p) h = ap (◌∷◌ x) (take_all n p (omega arith))

pub drop_all {ℓ} : {A : Type ℓ} (n : ℕ) (p : List A) → length p ≤ n → drop n p ≡ []
drop_all zero [] h = refl
drop_all zero (x ∷ p) h = absurd (omega arith)
drop_all (suc n) [] h = refl
drop_all (suc n) (x ∷ p) h = drop_all n p (omega arith)

pub drop-append {ℓ} :
    {A : Type ℓ} (o : ℕ) (b c : List A) → drop o (b ++ c) ≡ drop o b ++ drop (o - length b) c
drop-append zero b c = let e : 0 - length b ≡ 0 = omega arith in rw e
drop-append (suc o) [] c = let e : suc o - 0 ≡ suc o = omega arith in rw e
drop-append (suc o) (x ∷ b) c =
    let e : suc o - length (x ∷ b) ≡ o - length b = omega arith in rw e (drop-append o b c)

pub take-append {ℓ} :
    {A : Type ℓ} (n : ℕ) (b c : List A) → take n (b ++ c) ≡ take n b ++ take (n - length b) c
take-append zero b c = let e : 0 - length b ≡ 0 = omega arith in rw e
take-append (suc n) [] c = let e : suc n - 0 ≡ suc n = omega arith in rw e
take-append (suc n) (x ∷ b) c =
    let e : suc n - length (x ∷ b) ≡ n - length b = omega arith in
    rw e (ap (◌∷◌ x) (take-append n b c))

pub bytes-append : (bs cs : List (List ℕ)) → bytes (bs ++ cs) ≡ bytes bs ++ bytes cs
bytes-append [] cs = refl
bytes-append (b ∷ bs) cs =
    ap (b ++◌) (bytes-append bs cs) ∙ sym (append_assoc b (bytes bs) (bytes cs))

pub total_length-append :
    (bs cs : List (List ℕ)) → total_length (bs ++ cs) ≡ total_length bs + total_length cs
total_length-append [] cs = omega arith
total_length-append (b ∷ bs) cs = omega (arith, total_length-append bs cs)

-- Past the first `i` of a list of which they are kept.
pub take_past {ℓ} :
    {A : Type ℓ} (i n : ℕ) (bs t : List A)
    → i ≤ length bs
    → (take (i + n) (take i bs ++ t) ≡ take i bs ++ take n t)
      × (drop (i + n) (take i bs ++ t) ≡ drop n t)
take_past zero n bs t h = let e : 0 + n ≡ n = omega arith in rw e (refl, refl)
take_past (suc i) n [] t h = absurd (omega arith)
take_past (suc i) n (b ∷ bs) t h =
    let e : suc i + n ≡ suc (i + n) = omega arith in
    let (p, q) = take_past i n bs t (omega arith) in rw e (ap (◌∷◌ b) p, q)

pub copy_at_past : (o : ℕ) (p b c : List ℕ) → copy_at (length b + o) p (b ++ c) ≡ b ++ copy_at o p c
unfolding copy_at
copy_at_past o p [] c = let e : 0 + o ≡ o = omega arith in rw e
copy_at_past o p (x ∷ b) c =
    let e : length (x ∷ b) + o ≡ suc (length b + o) = omega arith in
    rw e (ap (◌∷◌ x) (copy_at_past o p b c))

-- The buffers before the index, and those from it on.
pub bytes_split : (i : ℕ) (bs : List (List ℕ)) → bytes bs ≡ bytes (take i bs) ++ bytes (drop i bs)
bytes_split i bs = ap bytes (sym (take-append-drop i bs)) ∙ bytes-append (take i bs) (drop i bs)

pub total_split :
    (i : ℕ) (bs : List (List ℕ))
    → total_length bs ≡ total_length (take i bs) + total_length (drop i bs)
total_split i bs =
    ap total_length (sym (take-append-drop i bs)) ∙ total_length-append (take i bs) (drop i bs)
