-- ===== src/ClientConfig/Entry.antt =====
-- pkg/clientconfig/conf_parser.go: an entry of the configuration, its comparison and its checks.
use discovery_client.Prelude.{
  String, Bool, true, false, Option, none, some, ◌&&◌, ◌==◌, String_eq, Bool_eq, ℕ_eq,
  if◌then◌else◌, Eq,
}
use discovery_client.Prelude.Int.{ℤ, pos, negsuc, ltb_ℤ, ℤ_eq}

-- `EntrySource`: where an entry comes from; `no_source` is the empty string.
pub data EntrySource : Type 0 where
  no_source user referral internal : EntrySource

unfoldable pub EntrySource_discrete : Discrete EntrySource
EntrySource_discrete = hlevel

instance abbrev pub EntrySource_eq : Eq EntrySource
EntrySource_eq = record { eq_dec = EntrySource_discrete }

unfoldable pub is_user : EntrySource → Bool
is_user no_source = false
is_user user = true
is_user referral = false
is_user internal = false

unfoldable pub is_referral : EntrySource → Bool
is_referral no_source = false
is_referral referral = true
is_referral user = false
is_referral internal = false

-- `Entry`. A nil `CtrlLossTMO` is `none`.
pub record Entry : Type 0 where
  pub transport : String
  pub trsvcid : ℤ
  pub traddr : String
  pub hostnqn : String
  pub hostid : String
  pub subsysnqn : String
  pub persistent : Bool
  pub hostaddr : String
  pub entry_source : EntrySource
  pub ctrl_loss_tmo : Option ℤ
  pub effective_hostid : String

-- `compare`: the parameter is a pointer, so it may be nil.
unfoldable pub compare : Entry → Option Entry → Bool
compare e none = false
compare e (some other) =
    e.traddr == other.traddr
    && (e.persistent == other.persistent
        && (e.hostnqn == other.hostnqn
            && (e.trsvcid == other.trsvcid
                && (e.transport == other.transport && e.subsysnqn == other.subsysnqn))))

-- The errors of `verify`.
pub data VerifyError : Type 0 where
  subsysnqn_mandatory traddr_mandatory trsvcid_mandatory transport_mandatory : VerifyError
  hostnqn_mandatory ctrl_loss_tmo_too_small : VerifyError

abbrev tmo_too_small : Option ℤ → Bool
tmo_too_small none = false
tmo_too_small (some t) = ltb_ℤ t (negsuc 0)

-- `verify`: `none` is the nil error.
unfoldable pub verify : Entry → Option VerifyError
verify e =
    if e.subsysnqn == ""
    then some subsysnqn_mandatory
    else if e.traddr == ""
    then some traddr_mandatory
    else if e.trsvcid == pos 0
    then some trsvcid_mandatory
    else if e.transport == ""
    then some transport_mandatory
    else if e.hostnqn == ""
    then some hostnqn_mandatory
    else if tmo_too_small e.ctrl_loss_tmo
    then some ctrl_loss_tmo_too_small
    else none

-- `GetEffectiveHostId`.
unfoldable pub get_effective_host_id : Entry → String
get_effective_host_id e = if e.effective_hostid == "" then e.hostid else e.effective_hostid
