-- ===== src/ClientConfig/Parser.antt =====
-- pkg/clientconfig/conf_parser.go: the parser of a configuration file, and `AdjustTraddr` of
-- pkg/nvme/utils.go. The functions of Go's libraries are arguments.
pub mod Fields
pub mod Lines
pub mod Words
use Prim.Native.String.{slice}
use discovery_client.Prelude.{
  ℕ, String, Bool, true, false, Option, none, some, ◌&&◌, ◌||◌, ◌==◌, not, String_eq, Bool_eq, ℕ_eq,
  is_some, if◌then◌else◌, List, [], ◌∷◌, ◌++◌,
}
use discovery_client.Prelude.Int.{ℤ, pos, ℤ_eq}
use discovery_client.ClientConfig.Entry.{
  Entry, EntrySource, EntrySource_eq, no_source, user, verify,
}

-- What the parser calls: `strings.Index` (`none` is -1), `TrimSpace` and `FieldsFunc` with
-- `splitSpacesAndEqualSign`, `ParseInt` with base 10 and 32 bits, whether `ParseIP` gives an address
-- that `To4` or `To16` converts, and `LookupIP`.
pub record GoLib : Type 0 where
  pub index : String → String → Option ℕ
  pub trim_space : String → String
  pub fields_func : String → List String
  pub parse_int : String → Option ℤ
  pub is_ip4 : String → Bool
  pub is_ip16 : String → Bool
  pub lookup_ip : String → Option (List String)

-- The messages of a `ParserError`.
pub data ParserMsg : Type 0 where
  bad_address bad_transport bad_port bad_ctrl_loss_tmo unknown_flag : ParserMsg

-- A result, an error with its message and the offending text, or a panic.
pub data Parsed {ℓ} (A : Type ℓ) : Type ℓ where
  parsed : A → Parsed A
  parser_error : ParserMsg → String → Parsed A
  panicked : Parsed A

unfoldable pub and_then {ℓ κ} : {A : Type ℓ} {B : Type κ} → Parsed A → (A → Parsed B) → Parsed B
and_then (parsed a) f = f a
and_then (parser_error msg details) f = parser_error msg details
and_then panicked f = panicked

-- The flags of a line that take a value, and the others.
pub data ValueFlag : Type 0 where
  traddr_flag transport_flag trsvcid_flag hostnqn_flag hostid_flag : ValueFlag
  subsysnqn_flag ctrl_loss_tmo_flag : ValueFlag

pub data Flag : Type 0 where
  takes : ValueFlag → Flag
  persistent_flag no_flag : Flag

-- The cases of the switch of `parse`.
unfoldable pub flag_of : String → Flag
flag_of field =
    if field == "-a" || field == "--traddr"
    then takes traddr_flag
    else if field == "-t" || field == "--transport"
    then takes transport_flag
    else if field == "-s" || field == "--trsvcid"
    then takes trsvcid_flag
    else if field == "-q" || field == "--hostnqn"
    then takes hostnqn_flag
    else if field == "-I" || field == "--hostid"
    then takes hostid_flag
    else if field == "-n" || field == "--subsysnqn"
    then takes subsysnqn_flag
    else if field == "-p" || field == "--persistent"
    then persistent_flag
    else if field == "-l" || field == "--ctrl-loss-tmo"
    then takes ctrl_loss_tmo_flag
    else no_flag

-- `&Entry{}`.
abbrev pub zero_entry : Entry
zero_entry = record {
  transport = "";
  trsvcid = pos 0;
  traddr = "";
  hostnqn = "";
  hostid = "";
  subsysnqn = "";
  persistent = false;
  hostaddr = "";
  entry_source = no_source;
  ctrl_loss_tmo = none;
  effective_hostid = "";
}

-- The comparison of two `Entry` structs as keys of a map: `CtrlLossTMO` is compared as a pointer,
-- and two lines never share one.
unfoldable pub same_entry : Entry → Entry → Bool
same_entry e f =
    e.transport == f.transport
    && (e.trsvcid == f.trsvcid
        && (e.traddr == f.traddr
            && (e.hostnqn == f.hostnqn
                && (e.hostid == f.hostid
                    && (e.subsysnqn == f.subsysnqn
                        && (e.persistent == f.persistent
                            && (e.hostaddr == f.hostaddr
                                && (e.entry_source == f.entry_source
                                    && (e.effective_hostid == f.effective_hostid
                                        && not (is_some e.ctrl_loss_tmo)
                                        && not (is_some f.ctrl_loss_tmo))))))))))

-- `entriesSet[*e] = true`.
unfoldable pub add_to_set : Entry → List Entry → List Entry
add_to_set e [] = e ∷ []
add_to_set e (f ∷ set) = let rest = add_to_set e set in if same_entry f e then f ∷ set else f ∷ rest

unfoldable pub entries_set : List Entry → List Entry → List Entry
entries_set [] set = set
entries_set (e ∷ entries) set = entries_set entries (add_to_set e set)

-- `removeDupEntries`: `order` is the order in which the loop visits the map.
unfoldable pub remove_dup_entries : (List Entry → List Entry) → List Entry → List Entry
remove_dup_entries order entries = order (entries_set entries [])

module _ (lib : GoLib) where
  -- `trimStringFromHashtag`.
  unfoldable pub trim_string_from_hashtag : String → String
  trim_string_from_hashtag s = elim (lib.index s "#") [ none ↦ s | some idx ↦ slice s 0 idx ]

  abbrev first_address : List String → Parsed (Option String)
  first_address [] = panicked
  first_address (a ∷ addrs) = parsed (some a)

  -- `AdjustTraddr`: `none` is its error.
  unfoldable pub adjust_traddr : String → Parsed (Option String)
  adjust_traddr traddr =
      if lib.is_ip4 traddr
      then parsed (some traddr)
      else if lib.is_ip16 traddr
      then parsed (some traddr)
      else elim (lib.lookup_ip traddr) [ none ↦ parsed none | some addrs ↦ first_address addrs ]

  abbrev checked : {A : Type 0} → ParserMsg → String → Option A → Parsed A
  checked msg text none = parser_error msg text
  checked msg text (some a) = parsed a

  -- The body of the case for a flag with a value, which is the text `s[i]`.
  unfoldable pub set_value : Entry → ValueFlag → String → Parsed Entry
  set_value e traddr_flag text = and_then (adjust_traddr (lib.trim_space text)) (λ adjusted.
      and_then (checked bad_address text adjusted)
        (λ _. parsed (record e { traddr = lib.trim_space text })))
  set_value e transport_flag text =
      if lib.trim_space text == "tcp"
      then parsed (record e { transport = lib.trim_space text })
      else parser_error bad_transport text
  set_value e trsvcid_flag text =
      and_then (checked bad_port text (lib.parse_int (lib.trim_space text)))
        (λ port. parsed (record e { trsvcid = port }))
  set_value e hostnqn_flag text = parsed (record e { hostnqn = lib.trim_space text })
  set_value e hostid_flag text = parsed (record e { hostid = lib.trim_space text })
  set_value e subsysnqn_flag text = parsed (record e { subsysnqn = lib.trim_space text })
  set_value e ctrl_loss_tmo_flag text =
      and_then (checked bad_ctrl_loss_tmo text (lib.parse_int (lib.trim_space text)))
        (λ tmo. parsed (record e { ctrl_loss_tmo = some tmo }))

  -- The last field of a line: a flag that takes a value reads past the end of the slice.
  unfoldable pub last_field : Entry → String → Flag → Parsed Entry
  last_field e field (takes f) = panicked
  last_field e field persistent_flag = parsed (record e { persistent = true })
  last_field e field no_flag = parser_error unknown_flag field

  -- The loop over the fields of a line.
  unfoldable pub parse_fields : Entry → List String → Parsed Entry
  parse_fields e [] = parsed e
  parse_fields e (text ∷ []) = last_field e (lib.trim_space text) (flag_of (lib.trim_space text))
  parse_fields e (text ∷ next ∷ texts) = elim (flag_of (lib.trim_space text)) [
    | takes f ↦ and_then (set_value e f next) (λ e'. parse_fields e' texts)
    | persistent_flag ↦ parse_fields (record e { persistent = true }) (next ∷ texts)
    | no_flag ↦ parser_error unknown_flag (lib.trim_space text)
  ]

  -- An entry that is not valid is skipped with a warning.
  unfoldable pub keep_valid : Entry → Option Entry
  keep_valid e = elim (verify e) [ none ↦ some e | some err ↦ none ]

  -- The body of the loop over the lines: `none` where the line gives no entry.
  unfoldable pub parse_line : String → Parsed (Option Entry)
  parse_line text =
      let line = trim_string_from_hashtag (lib.trim_space text) in
      if line == ""
      then parsed none
      else and_then (parse_fields zero_entry (lib.fields_func line))
          (λ e. parsed (keep_valid (record e { entry_source = user })))

  abbrev pub append_some : List Entry → Option Entry → List Entry
  append_some entries none = entries
  append_some entries (some e) = entries ++ (e ∷ [])

  unfoldable pub parse_lines : List Entry → List String → Parsed (List Entry)
  parse_lines entries [] = parsed entries
  parse_lines entries (text ∷ texts) =
      and_then (parse_line text) (λ o. parse_lines (append_some entries o) texts)

  -- `parse`, once the file is open: its lines, and whether the scanner failed after them, which is
  -- the error `none`.
  unfoldable pub parse :
      (List Entry → List Entry) → List String → Bool → Parsed (Option (List Entry))
  parse order texts failed =
      and_then (parse_lines [] texts)
        (λ entries. parsed (if failed then none else some (remove_dup_entries order entries)))
