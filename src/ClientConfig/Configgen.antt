-- ===== src/ClientConfig/Configgen.antt =====
-- pkg/clientconfig/configgen.go: `CreateEntries`, which makes the entries that a configuration file is
-- written from, and pkg/commonstructs, which prints them.
pub mod Readable
use discovery_client.Prelude.{
  ℕ, String, Bool, true, false, Option, none, some, ◌==◌, String_eq, ◌&&◌, ◌||◌, if◌then◌else◌,
  List, [], ◌∷◌, ◌++◌,
}
use discovery_client.ClientConfig.Parser.{
  GoLib, Parsed, parsed, parser_error, panicked, adjust_traddr,
}

-- `commonstructs.Entry`.
pub record ConfEntry : Type 0 where
  pub transport : String
  pub traddr : String
  pub trsvcid : ℕ
  pub hostnqn : String
  pub nqn : String
  pub host_id : String

-- The errors of `CreateEntries`.
pub data CreateError : Type 0 where
  no_hostnqn no_transport no_nqn no_hostid bad_split bad_host bad_port_number : CreateError

-- The result of `CreateEntries`.
pub data Created (A : Type 0) : Type 0 where
  created : A → Created A
  failed : CreateError → Created A
  create_panicked : Created A

unfoldable pub and_create : {A B : Type 0} → Created A → (A → Created B) → Created B
and_create (created a) f = f a
and_create (failed err) f = failed err
and_create create_panicked f = create_panicked

abbrev pub or_fail : {A : Type 0} → CreateError → Option A → Created A
or_fail err none = failed err
or_fail err (some a) = created a

-- The check of the host: the adjusted address is dropped.
abbrev pub checked_host : Parsed (Option String) → Created String
checked_host (parsed none) = failed bad_host
checked_host (parsed (some a)) = created a
checked_host (parser_error msg text) = failed bad_host
checked_host panicked = create_panicked

-- `net.SplitHostPort` and `ParseUint` with base 10 and 16 bits are arguments.
module _ (lib : GoLib) (split_host_port : String → Option (String × String))
    (parse_uint16 : String → Option ℕ) (hostnqn nqn transport hostid : String) where
  -- The body of the loop.
  unfoldable pub create_entry : String → Created ConfEntry
  create_entry address = and_create (or_fail bad_split (split_host_port address)) (λ (host, port).
      and_create (checked_host (adjust_traddr lib host)) (λ _.
        and_create (or_fail bad_port_number (parse_uint16 port)) (λ n. created (record {
          transport = transport;
          traddr = host;
          trsvcid = n;
          hostnqn = hostnqn;
          nqn = nqn;
          host_id = hostid;
        }))))

  unfoldable pub create_loop : List String → Created (List ConfEntry)
  create_loop [] = created []
  create_loop (address ∷ addresses) =
      and_create (create_entry address)
        (λ e. and_create (create_loop addresses) (λ entries. created (e ∷ entries)))

  -- `CreateEntries`.
  unfoldable pub create_entries : List String → Created (List ConfEntry)
  create_entries addresses =
      if hostnqn == ""
      then failed no_hostnqn
      else if transport == ""
      then failed no_transport
      else if nqn == ""
      then failed no_nqn
      else if hostid == ""
      then failed no_hostid
      else create_loop addresses

-- The words of a printed entry, in the order of the format; `itoa` prints a number for `%d`.
unfoldable pub words : (ℕ → String) → ConfEntry → List String
words itoa e =
    "-t"
    ∷ e.transport
    ∷ "-a"
    ∷ e.traddr
    ∷ "-s"
    ∷ itoa e.trsvcid
    ∷ "-q"
    ∷ e.hostnqn
    ∷ "-n"
    ∷ e.nqn
    ∷ "--hostid"
    ∷ e.host_id
    ∷ []

-- The two answers about a directory: whether it is empty, or an error.
abbrev pub empty_or_error : Option Bool → Bool
empty_or_error none = true
empty_or_error (some empty) = empty

-- `ShouldGenerateAutoDetectedEntries`, on the two answers of `isDirectoryEmpty`.
unfoldable pub should_generate_auto_detected_entries : Option Bool → Option Bool → Bool
should_generate_auto_detected_entries client_dir internal_dir =
    empty_or_error client_dir && empty_or_error internal_dir
