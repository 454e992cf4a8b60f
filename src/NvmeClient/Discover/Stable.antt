-- ===== src/NvmeClient/Discover/Stable.antt =====
-- The reading of a log page (pkg/nvmeclient/nvme_client.go) from a server whose log may change at any
-- time, also while it is read.
use discovery_client.Prelude.{
  ℕ, zero, suc, true, false, inl, inr, none, some, ◌==◌, ◌≤◌, ℕ_eq, List, [], ◌∷◌, ◌≡◌, refl, ◌∙◌,
  arith, length, ltb, take, if◌then◌else◌, Bool-cases, ltb→ge, eq_self, eq_of_beq,
}
use discovery_client.NvmeClient.Discover.{
  PageHeader, PageEntry, ok, failed, ClientError, Kernel, unpack_entries, check_header,
  discovery_get_log_page,
}

unpack_entries_lem :
    (n : ℕ) (buffer : List PageEntry)
    → unpack_entries n buffer ≡ (if ltb (length buffer) n then none else some (take n buffer))
unfolding unpack_entries
unpack_entries_lem zero buffer =
    let fits : ltb (length buffer) 0 ≡ false = ground arith in rw fits refl
unpack_entries_lem (suc n) [] = let short : ltb 0 (suc n) ≡ true = ground arith in rw short refl
unpack_entries_lem (suc n) (e ∷ buffer) = elim (Bool-cases (ltb (length buffer) n)) [
  | inl short ↦
      let shorter : ltb (suc (length buffer)) (suc n) ≡ true = ground (arith, short) in
      rw (unpack_entries_lem n buffer, short, shorter) refl
  | inr fits ↦
      let fit : ltb (suc (length buffer)) (suc n) ≡ false = ground (arith, fits) in
      rw (unpack_entries_lem n buffer, fits, fit) refl
]

-- The reading where every request is answered, over what the answers hold.
discovery_get_log_page-answered :
    {W : Type 0} (kernel : Kernel W) (w₀ w₁ w₂ w₃ : W) (ctrl : ℕ) (h read now : PageHeader)
    (buffer : List PageEntry)
    → kernel.can_open w₀ ctrl ≡ true
    → kernel.read_header w₀ ctrl ≡ (w₁, some h)
    → kernel.read_log w₁ ctrl h.num_rec ≡ (w₂, some (read, buffer))
    → kernel.read_header w₂ ctrl ≡ (w₃, some now)
    → (discovery_get_log_page kernel w₀ ctrl).1 ≡ (
        if h.num_rec == 0
        then failed (ClientError.nvme_client_error 2)
        else if ltb (length buffer) read.num_rec
        then failed ClientError.unpack_failed
        else check_header read now (take read.num_rec buffer))
unfolding discovery_get_log_page
discovery_get_log_page-answered kernel w₀ w₁ w₂ w₃ ctrl h read now buffer opens first log last =
    let unpacked = unpack_entries_lem read.num_rec buffer in
    ground (arith, opens, first, log, last, unpacked)

-- A server that answers every read of the controller `ctrl`. A header is that of the log after the
-- answer. The log is read in parts, between the states `during`, of which the header is, and
-- `after_log`, into a buffer for `n` entries: if its generation is the same in both, the buffer
-- holds its entries. The generation does not decrease, and tells the logs apart.
pub record Serves {W : Type 0} (kernel : Kernel W) (ctrl : ℕ) : Type 0 where
  pub log : W → List PageEntry
  pub gen : W → ℕ
  pub after_header : W → W
  pub during : W → ℕ → W
  pub after_log : W → ℕ → W
  pub buffer : W → ℕ → List PageEntry
  pub opens : (w : W) → kernel.can_open w ctrl ≡ true
  pub header :
      (w : W)
      → kernel.read_header w ctrl ≡ (
        after_header w,
        some (record { gen_ctr = gen (after_header w); num_rec = length (log (after_header w)) }),
      )
  pub log_page :
      (w : W) (n : ℕ)
      → kernel.read_log w ctrl n ≡ (
        after_log w n,
        some (
          record { gen_ctr = gen (during w n); num_rec = length (log (during w n)) },
          buffer w n,
        ),
      )
  pub buffer_size : (w : W) (n : ℕ) → length (buffer w n) ≡ n
  pub whole :
      (w : W) (n : ℕ)
      → gen (during w n) ≡ gen (after_log w n)
      → length (log (during w n)) ≤ n
      → take (length (log (during w n))) (buffer w n) ≡ log (during w n)
  pub header_forward : (w : W) → gen w ≤ gen (after_header w)
  pub log_forward : (w : W) (n : ℕ) → gen (during w n) ≤ gen (after_log w n)
  pub counts : (w w' : W) → gen w ≡ gen w' → log w ≡ log w'

module _ {W : Type 0} (kernel : Kernel W) (ctrl : ℕ) (server : Serves kernel ctrl) (w₀ : W) where
  -- The states of the server after the header, at the begin and the end of the reading of the log, and
  -- after the header that is read again.
  abbrev w₁ : W
  w₁ = server.after_header w₀

  abbrev announced : ℕ
  announced = length (server.log w₁)

  abbrev w₂ : W
  w₂ = server.during w₁ announced

  abbrev w₃ : W
  w₃ = server.after_header (server.after_log w₁ announced)

  abbrev header_at : W → PageHeader
  header_at w = record { gen_ctr = server.gen w; num_rec = length (server.log w) }

  check_header-Serves :
      length (server.log w₂) ≤ announced
      → check_header
          (header_at w₂)
          (header_at w₃)
          (take (length (server.log w₂)) (server.buffer w₁ announced))
        ≡ (if server.gen w₂ == server.gen w₃
            then ok (server.log w₃)
            else failed (ClientError.nvme_client_error 5))
  unfolding check_header
  check_header-Serves fits = elim (Bool-cases (server.gen w₂ == server.gen w₃)) [
    | inl equal ↦
        let same : server.gen w₂ ≡ server.gen w₃ =
          eq_of_beq (server.gen w₂) (server.gen w₃) equal in
        let logs : server.log w₂ ≡ server.log w₃ = server.counts w₂ w₃ same in
        let still : server.gen w₂ ≡ server.gen (server.after_log w₁ announced) = omega (
          arith,
          same,
          server.log_forward w₁ announced,
          server.header_forward (server.after_log w₁ announced),
        ) in
        let read = server.whole w₁ announced still fits in
        rw (equal, read, logs, eq_self (length (server.log w₃))) refl
    | inr other ↦ rw other refl
  ]

  -- An empty log is an error of its own. Otherwise a log that has grown since its first header is an
  -- error of the unpacking, and one whose generation changes from the begin of its reading to the
  -- last header is the error of the retries; else the result is the whole log of the server, as it is at the end.
  pub discovery_get_log_page_lem : (discovery_get_log_page kernel w₀ ctrl).1 ≡ (
      if announced == 0
      then failed (ClientError.nvme_client_error 2)
      else if ltb announced (length (server.log w₂))
      then failed ClientError.unpack_failed
      else if server.gen w₂ == server.gen w₃
      then ok (server.log w₃)
      else failed (ClientError.nvme_client_error 5))
  discovery_get_log_page_lem =
      let answered =
        discovery_get_log_page-answered kernel w₀ w₁ (server.after_log w₁ announced) w₃ ctrl
          (header_at w₁) (header_at w₂) (header_at w₃) (server.buffer w₁ announced)
          (server.opens w₀) (server.header w₀) (server.log_page w₁ announced)
          (server.header (server.after_log w₁ announced)) in
      let size = server.buffer_size w₁ announced in
      elim (Bool-cases (ltb announced (length (server.log w₂)))) [
        | inl grown ↦ answered ∙ rw (size, grown) refl
        | inr fits ↦ answered ∙ rw (size, fits, check_header-Serves (ltb→ge _ _ fits)) refl
      ]
