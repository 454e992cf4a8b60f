-- ===== src/Tests/Parser.antt =====
-- The parser (pkg/clientconfig/conf_parser.go) and the generator (pkg/clientconfig/configgen.go) on
-- concrete inputs.
use mathlib.Core.List.Perm
use discovery_client.Prelude.{
  ℕ, String, false, none, some, ◌==◌, String_eq, ℕ_eq, if◌then◌else◌, [], ◌∷◌, ◌++◌, ◌≡◌, ◌≢◌, refl,
  All, ℕ_discrete, String_discrete, Bool_discrete, Bool-cases,
}
use discovery_client.Prelude.Int.{pos, ℤ_discrete}
use discovery_client.ClientConfig.Entry.{Entry, EntrySource_discrete, user, verify}
use discovery_client.ClientConfig.Parser.{
  GoLib, parsed, panicked, and_then, flag_of, zero_entry, traddr_flag, same_entry, add_to_set,
  entries_set, remove_dup_entries, trim_string_from_hashtag, adjust_traddr, set_value, last_field,
  parse_fields, keep_valid, parse_line, parse_lines, parse,
}
use discovery_client.ClientConfig.Parser.Fields.{parse_fields-panicked}
use discovery_client.ClientConfig.Parser.Lines.{IsAccepted, parse-IsAccepted}
use discovery_client.ClientConfig.Parser.Words.{entry_of}
use discovery_client.ClientConfig.Configgen.{
  ConfEntry, and_create, create_entry, create_loop, create_entries, words,
}
use discovery_client.ClientConfig.Configgen.Readable.{create_entries-parse_line}

program : Unit {0}
unfolding ℕ_discrete String_discrete Bool_discrete ℤ_discrete EntrySource_discrete Bool-cases verify
    and_then flag_of same_entry add_to_set entries_set remove_dup_entries trim_string_from_hashtag
    adjust_traddr set_value last_field parse_fields keep_valid parse_line parse_lines parse
    and_create create_entry create_loop create_entries words
program = tt

abbrev itoa : ℕ → String
itoa n = if n == 8009 then "8009" else "0"

abbrev written : ConfEntry
written = record {
  transport = "tcp";
  traddr = "10.0.0.1";
  trsvcid = 8009;
  hostnqn = "host";
  nqn = "cluster";
  host_id = "id";
}

abbrev line : String
line = "-t tcp -a 10.0.0.1 -s 8009 -q host -n cluster --hostid id"

-- Go's functions on the texts of these tests.
abbrev lib : GoLib
lib = record {
  index = λ s t. none;
  trim_space = λ s. s;
  fields_func = λ s. if s == line then words itoa written else [];
  parse_int = λ s. if s == "8009" then some (pos 8009) else none;
  is_ip4 = λ s. s == "10.0.0.1";
  is_ip16 = λ s. false;
  lookup_ip = λ s. none;
}

abbrev read_entry : Entry
read_entry = record (entry_of written) { entry_source = user }

-- The line is there twice, and is kept once.
read_once : parse lib (λ l. l) (line ∷ "" ∷ line ∷ []) false ≡ parsed (some (read_entry ∷ []))
unfolding program
read_once = refl

parse_fields-panicked_example :
    parse_fields lib zero_entry (("-t" ∷ "tcp" ∷ []) ++ "-a" ∷ []) ≡ panicked
unfolding program
parse_fields-panicked_example =
    parse_fields-panicked lib zero_entry (record zero_entry { transport = "tcp" })
      ("-t" ∷ "tcp" ∷ []) "-a" traddr_flag refl refl

parse-IsAccepted_example : All IsAccepted (read_entry ∷ [])
parse-IsAccepted_example =
    parse-IsAccepted lib (λ l. l) (line ∷ "" ∷ line ∷ []) false (read_entry ∷ []) (λ l. Perm.refl l)
      read_once

host_not_empty : ◌≢◌ {A = String} "10.0.0.1" ""
host_not_empty e = cc

line_not_empty : ◌≢◌ {A = String} line ""
line_not_empty e = cc

create_entries-parse_line_example :
    parse_line lib line
    ≡ parsed (
        if written.trsvcid == 0
        then none
        else some (record (entry_of written) { entry_source = user }))
unfolding program
create_entries-parse_line_example =
    create_entries-parse_line lib (λ a. some ("10.0.0.1", "8009")) (λ s. some 8009) "host" "cluster"
      "tcp" "id" itoa ("10.0.0.1:8009" ∷ []) (written ∷ []) 0 written line refl refl refl
      host_not_empty
      (record {
        printable = record {
          trimmed = (
            refl,
            (
              refl,
              (refl, (refl, (refl, (refl, (refl, (refl, (refl, (refl, (refl, (refl, tt)))))))))),
            ),
          );
          number = refl;
        };
        not_empty = line_not_empty;
        fields = refl;
      })
