-- ===== src/ClientConfig/Parser/Lines.antt =====
-- `parse` as a whole (pkg/clientconfig/conf_parser.go): which entries it accepts.
use mathlib.Core.Bool.{Bool-set}
use mathlib.Core.List.{Perm, Permᴰ}
use mathlib.Core.Logic.{∥∥₁_elim}
use discovery_client.Prelude.{
  String, Bool, true, false, Option, none, some, ◌&&◌, ◌==◌, not, String_eq, is_some, List, [], ◌∷◌,
  ◌++◌, ◌≡◌, refl, arith, inl, inr, if_both, sym, ◌∙◌, All, Option-cases,
}
use discovery_client.Prelude.Int.{ℤ_eq}
use discovery_client.ClientConfig.Entry.{Entry, EntrySource_eq, user, is_user, verify}
use discovery_client.ClientConfig.Parser.{
  GoLib, parsed, zero_entry, add_to_set, entries_set, remove_dup_entries, parse_fields, keep_valid,
  parse_line, append_some, parse_lines, parse, trim_string_from_hashtag,
}
use discovery_client.ClientConfig.Parser.Fields.{
  Holds, Holds-and_then, IsFresh, parse_fields-IsFresh,
}

-- The entry passes the checks, names the only transport, and comes from the user.
unfoldable pub accepted : Entry → Bool
accepted e =
    not (is_some (verify e))
    && (e.transport == "tcp" && (is_user e.entry_source && e.effective_hostid == ""))

unfoldable pub all_accepted : List Entry → Bool
all_accepted [] = true
all_accepted (e ∷ entries) = accepted e && all_accepted entries

abbrev pub IsAccepted : Entry → Type 0
IsAccepted e =
    (verify e ≡ none)
    × (e.transport ≡ "tcp")
    × (is_user e.entry_source ≡ true)
    × (e.effective_hostid ≡ "")

IsAccepted-accepted : (e : Entry) → accepted e ≡ true → IsAccepted e
unfolding accepted
IsAccepted-accepted e h = (ground arith, ground arith, ground arith, ground arith)

All-IsAccepted : (entries : List Entry) → all_accepted entries ≡ true → All IsAccepted entries
unfolding all_accepted
All-IsAccepted [] h = tt
All-IsAccepted (e ∷ entries) h =
    (IsAccepted-accepted e (ground arith), All-IsAccepted entries (ground arith))

all_accepted-append :
    (entries : List Entry) (e : Entry)
    → all_accepted (entries ++ e ∷ []) ≡ (all_accepted entries && accepted e)
unfolding all_accepted
all_accepted-append [] e = ground arith
all_accepted-append (f ∷ entries) e = ground (arith, all_accepted-append entries e)

all_acceptedᴰ-perm : {a b : List Entry} → Permᴰ a b → all_accepted a ≡ all_accepted b
unfolding all_accepted
all_acceptedᴰ-perm Permᴰ.nil = refl
all_acceptedᴰ-perm (Permᴰ.cons e p) = ground (arith, all_acceptedᴰ-perm p)
all_acceptedᴰ-perm (Permᴰ.swap e f) = ground arith
all_acceptedᴰ-perm (Permᴰ.trans p q) = all_acceptedᴰ-perm p ∙ all_acceptedᴰ-perm q

all_accepted-perm : {a b : List Entry} → Perm a b → all_accepted a ≡ all_accepted b
all_accepted-perm p = ∥∥₁_elim p (Bool-set _ _) all_acceptedᴰ-perm

all_accepted-add_to_set :
    (e : Entry) (set : List Entry)
    → accepted e ≡ true
    → all_accepted set ≡ true
    → all_accepted (add_to_set e set) ≡ true
unfolding add_to_set all_accepted
all_accepted-add_to_set e [] h k = ground arith
all_accepted-add_to_set e (f ∷ set) h k = ground (arith, all_accepted-add_to_set e set h)

all_accepted-entries_set :
    (entries set : List Entry)
    → all_accepted entries ≡ true
    → all_accepted set ≡ true
    → all_accepted (entries_set entries set) ≡ true
unfolding entries_set all_accepted
all_accepted-entries_set [] set h k = k
all_accepted-entries_set (e ∷ entries) set h k =
    all_accepted-entries_set entries (add_to_set e set) (ground arith)
      (all_accepted-add_to_set e set (ground arith) k)

-- Without a transport an entry is not valid.
verify-transport : (e : Entry) → verify e ≡ none → (e.transport == "") ≡ false
unfolding verify
verify-transport e h = ground arith

abbrev SomeAccepted : Option Entry → Type 0
SomeAccepted none = Unit
SomeAccepted (some e) = accepted e ≡ true

module _ (lib : GoLib) where
  keep_valid-accepted :
      (e : Entry) → IsFresh lib e → SomeAccepted (keep_valid lib (record e { entry_source = user }))
  unfolding keep_valid accepted is_user
  keep_valid-accepted e fresh =
      let e' = record e { entry_source = user } in
      elim (Option-cases (verify e')) [
        | inl ok ↦
            rw (ok, keep_valid) (ground (arith, verify-transport e' ok, fresh.0, fresh.1, ok))
        | inr (err, bad) ↦ rw (bad, keep_valid) tt
      ]

  parse_line-accepted : (text : String) → Holds SomeAccepted (parse_line lib text)
  unfolding parse_line
  parse_line-accepted text =
      let line = trim_string_from_hashtag lib (lib.trim_space text) in
      if_both (Holds SomeAccepted) (line == "") tt (
        Holds-and_then (IsFresh lib) SomeAccepted
          (parse_fields lib zero_entry (lib.fields_func line)) _
          (parse_fields-IsFresh lib zero_entry (lib.fields_func line) (inl refl, refl))
          (λ e fresh. keep_valid-accepted e fresh))

  append_some-accepted :
      (entries : List Entry) (o : Option Entry)
      → all_accepted entries ≡ true
      → SomeAccepted o
      → all_accepted (append_some lib entries o) ≡ true
  append_some-accepted entries none h k = h
  append_some-accepted entries (some e) h k = ground (arith, all_accepted-append entries e)

  parse_lines-accepted :
      (entries : List Entry) (texts : List String)
      → all_accepted entries ≡ true
      → Holds (λ l. all_accepted l ≡ true) (parse_lines lib entries texts)
  unfolding parse_lines
  parse_lines-accepted entries [] h = h
  parse_lines-accepted entries (text ∷ texts) h =
      Holds-and_then SomeAccepted (λ (l : List Entry). all_accepted l ≡ true) (parse_line lib text)
        _ (parse_line-accepted text)
        (λ o k.
          parse_lines-accepted (append_some lib entries o) texts
            (append_some-accepted entries o h k))

  abbrev IfEntries : Option (List Entry) → Type 0
  IfEntries none = Unit
  IfEntries (some entries) = all_accepted entries ≡ true

  parse-all_accepted :
      (order : List Entry → List Entry) (texts : List String) (failed : Bool)
      → ((l : List Entry) → Perm l (order l))
      → Holds IfEntries (parse lib order texts failed)
  unfolding parse remove_dup_entries all_accepted
  parse-all_accepted order texts failed same =
      Holds-and_then (λ (l : List Entry). all_accepted l ≡ true) IfEntries
        (parse_lines lib [] texts) _ (parse_lines-accepted [] texts refl)
        (λ l h. if_both IfEntries failed tt (
          sym (all_accepted-perm (same (entries_set l []))) ∙ all_accepted-entries_set l [] h refl))

  -- Every entry that `parse` returns passes `verify`, has the transport "tcp", is marked as the
  -- user's, and has no host id of its own yet. The order in which the set is visited may be any.
  pub parse-IsAccepted :
      (order : List Entry → List Entry) (texts : List String) (failed : Bool) (entries : List Entry)
      → ((l : List Entry) → Perm l (order l))
      → parse lib order texts failed ≡ parsed (some entries)
      → All IsAccepted entries
  parse-IsAccepted order texts failed entries same h =
      All-IsAccepted entries (rw h at (parse-all_accepted order texts failed same))
