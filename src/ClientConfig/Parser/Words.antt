-- ===== src/ClientConfig/Parser/Words.antt =====
-- What `CreateEntries` (pkg/clientconfig/configgen.go) makes and pkg/commonstructs prints is read back
-- by `parse` (pkg/clientconfig/conf_parser.go).
use discovery_client.Prelude.{
  ℕ, String, some, String_eq, List, [], ◌∷◌, ◌≡◌, refl, arith, All, String_discrete, Bool-cases,
  ◌∙◌,
}
use discovery_client.Prelude.Int.{ℤ, pos, ℤ_eq}
use discovery_client.ClientConfig.Entry.{Entry}
use discovery_client.ClientConfig.Parser.{
  GoLib, parsed, and_then, zero_entry, flag_of, set_value, parse_fields, adjust_traddr, takes,
  transport_flag, traddr_flag, trsvcid_flag, hostnqn_flag, subsysnqn_flag, hostid_flag, ValueFlag,
}
use discovery_client.ClientConfig.Configgen.{ConfEntry, words}

-- The entry of the parser that stands for a printed one.
abbrev pub entry_of : ConfEntry → Entry
entry_of e = record zero_entry {
  transport = e.transport;
  traddr = e.traddr;
  trsvcid = pos e.trsvcid;
  hostnqn = e.hostnqn;
  subsysnqn = e.nqn;
  hostid = e.host_id;
}

flags :
    (flag_of "-t" ≡ takes transport_flag)
    × (flag_of "-a" ≡ takes traddr_flag)
    × (flag_of "-s" ≡ takes trsvcid_flag)
    × (flag_of "-q" ≡ takes hostnqn_flag)
    × (flag_of "-n" ≡ takes subsysnqn_flag)
    × (flag_of "--hostid" ≡ takes hostid_flag)
unfolding flag_of String_discrete Bool-cases
flags = (refl, refl, refl, refl, refl, refl)

module _ (lib : GoLib) where
  no_fields : (e : Entry) → parse_fields lib e [] ≡ parsed e
  unfolding parse_fields
  no_fields e = refl

  -- A flag and its value are read.
  take_value :
      (e e' : Entry) (text next : String) (f : ValueFlag) (texts : List String)
      → lib.trim_space text ≡ text
      → flag_of text ≡ takes f
      → set_value lib e f next ≡ parsed e'
      → parse_fields lib e (text ∷ next ∷ texts) ≡ parse_fields lib e' texts
  unfolding parse_fields and_then
  take_value e e' text next f texts t is ok = rw (t, is, ok, parse_fields, and_then) refl

  set_traddr :
      (e : Entry) (w a : String)
      → lib.trim_space w ≡ w
      → adjust_traddr lib w ≡ parsed (some a)
      → set_value lib e traddr_flag w ≡ parsed (record e { traddr = w })
  unfolding set_value and_then
  set_traddr e w a t ok = rw (t, ok, set_value, and_then) refl

  set_transport :
      (e : Entry) (w : String)
      → lib.trim_space w ≡ w
      → w ≡ "tcp"
      → set_value lib e transport_flag w ≡ parsed (record e { transport = w })
  unfolding set_value
  set_transport e w t tcp = ground (arith, t, tcp)

  set_trsvcid :
      (e : Entry) (w : String) (n : ℤ)
      → lib.trim_space w ≡ w
      → lib.parse_int w ≡ some n
      → set_value lib e trsvcid_flag w ≡ parsed (record e { trsvcid = n })
  unfolding set_value and_then
  set_trsvcid e w n t ok = rw (t, ok, set_value, and_then) refl

  set_text :
      (e : Entry) (w : String)
      → lib.trim_space w ≡ w
      → (set_value lib e hostnqn_flag w ≡ parsed (record e { hostnqn = w }))
        × (set_value lib e subsysnqn_flag w ≡ parsed (record e { subsysnqn = w }))
        × (set_value lib e hostid_flag w ≡ parsed (record e { hostid = w }))
  unfolding set_value
  set_text e w t = rw (t, set_value) (refl, refl, refl)

module _ (lib : GoLib) (itoa : ℕ → String) where
  -- What the libraries do on the words of the entry: they have no space around them, and the port
  -- is read as it is printed.
  pub record IsPrintable (e : ConfEntry) : Type 0 where
    pub trimmed : All (λ w. lib.trim_space w ≡ w) (words itoa e)
    pub number : lib.parse_int (itoa e.trsvcid) ≡ some (pos e.trsvcid)

  -- The words of a printed entry are read back as the entry.
  pub parse_fields-words :
      (e : ConfEntry) (a : String)
      → IsPrintable e
      → adjust_traddr lib e.traddr ≡ parsed (some a)
      → e.transport ≡ "tcp"
      → parse_fields lib zero_entry (words itoa e) ≡ parsed (entry_of e)
  unfolding words
  parse_fields-words e a p host tcp =
      let (
        t,
        (transport, (a', (traddr, (s, (port, (q, (hostnqn, (n, (nqn, (i, (host_id, _))))))))))),
      ) =
        p.trimmed in
      let (ft, fa, fs, fq, fn, fi) = flags in
      let e₁ : Entry = record zero_entry { transport = e.transport } in
      let e₂ : Entry = record e₁ { traddr = e.traddr } in
      let e₃ : Entry = record e₂ { trsvcid = pos e.trsvcid } in
      let e₄ : Entry = record e₃ { hostnqn = e.hostnqn } in
      let e₅ : Entry = record e₄ { subsysnqn = e.nqn } in
      take_value lib zero_entry e₁ _ _ _ _ t ft (set_transport lib _ _ transport tcp)
      ∙ take_value lib e₁ e₂ _ _ _ _ a' fa (set_traddr lib _ _ a traddr host)
      ∙ take_value lib e₂ e₃ _ _ _ _ s fs (set_trsvcid lib _ _ _ port p.number)
      ∙ take_value lib e₃ e₄ _ _ _ _ q fq (set_text lib _ _ hostnqn).0
      ∙ take_value lib e₄ e₅ _ _ _ _ n fn (set_text lib _ _ nqn).1
      ∙ take_value lib e₅ (entry_of e) _ _ _ _ i fi (set_text lib _ _ host_id).2
      ∙ no_fields lib (entry_of e)
