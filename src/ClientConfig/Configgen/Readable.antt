-- ===== src/ClientConfig/Configgen/Readable.antt =====
-- A configuration file that is generated (pkg/clientconfig/configgen.go, pkg/commonstructs) is read
-- back by `parse` (pkg/clientconfig/conf_parser.go).
use mathlib.Core.Path.{subst}
use discovery_client.Prelude.{
  ℕ, String, Option, none, some, ◌==◌, String_eq, ℕ_eq, ◌≢◌, if◌then◌else◌, List, [], ◌∷◌, ◌≡◌,
  refl, arith, All, sym, ◌∙◌, get_elem?, zero, suc, ap, is_some, if_cases, eq_of_beq,
}
use discovery_client.Prelude.Int.{pos, ℤ_eq}
use discovery_client.ClientConfig.Entry.{Entry, user, verify}
use discovery_client.ClientConfig.Parser.{
  GoLib, Parsed, parsed, parser_error, panicked, and_then, zero_entry, parse_fields, keep_valid,
  adjust_traddr, trim_string_from_hashtag, parse_line,
}
use discovery_client.ClientConfig.Configgen.{
  ConfEntry, Created, created, failed, create_panicked, and_create, checked_host, create_entry,
  create_loop, create_entries, words,
}
use discovery_client.ClientConfig.Parser.Words.{entry_of, IsPrintable, parse_fields-words}

created_of-and_create :
    {A B : Type 0} (r : Created A) (f : A → Created B) (b : B)
    → and_create r f ≡ created b
    → (a : A) × (r ≡ created a) × (f a ≡ created b)
unfolding and_create
created_of-and_create (created a) f b h = (a, refl, h)
created_of-and_create (failed err) f b h = cc
created_of-and_create create_panicked f b h = cc

host_of-checked_host :
    (r : Parsed (Option String)) (a : String) → checked_host r ≡ created a → r ≡ parsed (some a)
host_of-checked_host (parsed none) a h = cc
host_of-checked_host (parsed (some b)) a h = cc
host_of-checked_host (parser_error msg text) a h = cc
host_of-checked_host panicked a h = cc

created_inj : {A : Type 0} {a b : A} → created a ≡ created b → a ≡ b
created_inj h = cc

some_inj {ℓ} : {A : Type ℓ} {a b : A} → some a ≡ some b → a ≡ b
some_inj h = cc

All-get_elem? {κ} :
    {A : Type 0} (P : A → Type κ) (l : List A) (i : ℕ) (a : A)
    → All P l
    → get_elem? l i ≡ some a
    → P a
All-get_elem? P [] i a h e = cc
All-get_elem? P (x ∷ l) zero a h e = subst P (some_inj e) h.0
All-get_elem? P (x ∷ l) (suc i) a h e = All-get_elem? P l i a h.1 e

-- A valid entry is kept, and an invalid one is not; of these only the port may be wrong.
verify-port :
    (e : Entry)
    → e.subsysnqn ≢ ""
    → e.traddr ≢ ""
    → e.transport ≢ ""
    → e.hostnqn ≢ ""
    → e.ctrl_loss_tmo ≡ none
    → is_some (verify e) ≡ (e.trsvcid == pos 0)
unfolding verify
verify-port e n a t q c = ground (arith, n, a, t, q, c)

tcp_not_empty : ◌≢◌ {A = String} "tcp" ""
tcp_not_empty h = cc

module _ (lib : GoLib) where
  keep_valid-verify : (e : Entry) → keep_valid lib e ≡ (if is_some (verify e) then none else some e)
  unfolding keep_valid
  keep_valid-verify e = ground arith

  -- A line whose fields are read gives the entry, if it is valid.
  parse_line-keep_valid :
      (text : String) (fields : List String) (e : Entry)
      → trim_string_from_hashtag lib (lib.trim_space text) ≢ ""
      → lib.fields_func (trim_string_from_hashtag lib (lib.trim_space text)) ≡ fields
      → parse_fields lib zero_entry fields ≡ parsed e
      → parse_line lib text ≡ parsed (keep_valid lib (record e { entry_source = user }))
  unfolding parse_line and_then
  parse_line-keep_valid text fields e ne f read =
      let line = trim_string_from_hashtag lib (lib.trim_space text) in
      if_cases
        (λ (r : Parsed (Option Entry)).
          r ≡ parsed (keep_valid lib (record e { entry_source = user })))
        (line == "") (λ empty. absurd (ne (eq_of_beq line "" empty)))
        (λ filled. rw (f, read, and_then) refl)

module _ (lib : GoLib) (split_host_port : String → Option (String × String))
    (parse_uint16 : String → Option ℕ) (hostnqn nqn transport hostid : String) where
  -- What `CreateEntries` puts into an entry.
  record IsFor (e : ConfEntry) : Type 0 where
    transport_is : e.transport ≡ transport
    hostnqn_is : e.hostnqn ≡ hostnqn
    nqn_is : e.nqn ≡ nqn
    host : String
    adjusted : adjust_traddr lib e.traddr ≡ parsed (some host)

  create_entry-IsFor :
      (address : String) (e : ConfEntry)
      → create_entry lib split_host_port parse_uint16 hostnqn nqn transport hostid address
        ≡ created e
      → IsFor e
  unfolding create_entry
  create_entry-IsFor address e h =
      let (split, _, h₁) = created_of-and_create _ _ e h in
      let (host, ok, h₂) = created_of-and_create _ _ e h₁ in
      let (n, _, h₃) = created_of-and_create _ _ e h₂ in
      let same = created_inj h₃ in
      record {
        transport_is = ap (λ x. x.transport) (sym same);
        hostnqn_is = ap (λ x. x.hostnqn) (sym same);
        nqn_is = ap (λ x. x.nqn) (sym same);
        host = host;
        adjusted =
            subst (λ (x : ConfEntry). adjust_traddr lib x.traddr ≡ parsed (some host)) same
              (host_of-checked_host _ host ok);
      }

  create_loop-IsFor :
      (addresses : List String) (entries : List ConfEntry)
      → create_loop lib split_host_port parse_uint16 hostnqn nqn transport hostid addresses
        ≡ created entries
      → All IsFor entries
  unfolding create_loop
  create_loop-IsFor [] entries h = subst (All IsFor) (created_inj h) tt
  create_loop-IsFor (address ∷ addresses) entries h =
      let (first, ok, h₁) = created_of-and_create _ _ entries h in
      let (rest, ok', h₂) = created_of-and_create _ _ entries h₁ in
      subst (All IsFor) (created_inj h₂)
        (create_entry-IsFor address first ok, create_loop-IsFor addresses rest ok')

  create_entries-loop :
      (addresses : List String) (entries : List ConfEntry)
      → create_entries lib split_host_port parse_uint16 hostnqn nqn transport hostid addresses
        ≡ created entries
      → (hostnqn ≢ "")
        × (nqn ≢ "")
        × (create_loop lib split_host_port parse_uint16 hostnqn nqn transport hostid addresses
            ≡ created entries)
  unfolding create_entries
  create_entries-loop addresses entries h =
      (λ e. ground (arith, h, e), λ e. ground (arith, h, e), ground (arith, h))

  module _ (itoa : ℕ → String) where
    -- The text is a line that shows the entry.
    pub record Shows (text : String) (e : ConfEntry) : Type 0 where
      pub printable : IsPrintable lib itoa e
      pub not_empty : trim_string_from_hashtag lib (lib.trim_space text) ≢ ""
      pub fields :
          lib.fields_func (trim_string_from_hashtag lib (lib.trim_space text)) ≡ words itoa e

    -- Whatever `CreateEntries` makes for the transport "tcp", a line that shows one of its entries
    -- is read back as that entry, as one of the user's, if its port is not 0; with port 0, which
    -- `CreateEntries` allows, the line is skipped.
    pub create_entries-parse_line :
        (addresses : List String) (entries : List ConfEntry) (i : ℕ) (e : ConfEntry) (text : String)
        → create_entries lib split_host_port parse_uint16 hostnqn nqn transport hostid addresses
          ≡ created entries
        → get_elem? entries i ≡ some e
        → transport ≡ "tcp"
        → e.traddr ≢ ""
        → Shows text e
        → parse_line lib text
          ≡ parsed
              (if e.trsvcid == 0 then none else some (record (entry_of e) { entry_source = user }))
    create_entries-parse_line addresses entries i e text h at_i tcp host shown =
        let (q, n, loop) = create_entries-loop addresses entries h in
        let c = All-get_elem? IsFor entries i e (create_loop-IsFor addresses entries loop) at_i in
        let read =
          parse_fields-words lib itoa e c.host shown.printable c.adjusted (c.transport_is ∙ tcp) in
        let e' : Entry = record (entry_of e) { entry_source = user } in
        let valid =
          verify-port e' (λ x. n (sym c.nqn_is ∙ x)) host
            (λ x. tcp_not_empty (sym tcp ∙ sym c.transport_is ∙ x)) (λ x. q (sym c.hostnqn_is ∙ x))
            refl in
        parse_line-keep_valid lib text (words itoa e) (entry_of e) shown.not_empty shown.fields read
        ∙ ground (arith, valid, keep_valid-verify lib e')
