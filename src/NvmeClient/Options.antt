-- ===== src/NvmeClient/Options.antt =====
-- The options of a connection, and what of them is logged (pkg/nvmeclient/nvme_client.go).
use discovery_client.Prelude.{
  String, false, not, ◌&&◌, ◌==◌, String_eq, String_discrete, Bool-cases, inl, inr, eq_self, ◌++◌,
  if◌then◌else◌, ◌≡◌, refl,
}
use discovery_client.NvmeClient.{ConnectRequest, when, text_option, text, to_options, to_string}

-- A secret that is not empty, replaced.
abbrev pub hide : String → String
hide s = if s == "" then "" else "redacted"

abbrev pub hide_secrets : ConnectRequest → ConnectRequest
hide_secrets c = record c {
  dh_chap_secret = hide c.dh_chap_secret;
  dh_chap_controller_secret = hide c.dh_chap_controller_secret;
}

redacted_not_empty : ◌==◌ {A = String} "redacted" "" ≡ false
unfolding String_discrete Bool-cases
redacted_not_empty = refl

hide-empty : (s : String) → (hide s == "") ≡ (s == "")
hide-empty s = elim (Bool-cases (s == "")) [
  | inl e ↦ rw e (eq_self {A = String} "")
  | inr e ↦ rw e redacted_not_empty
]

-- The options of the two secrets, in the log and for the kernel.
secrets :
    (s t : String)
    → when (not (s == "")) "dhchap_secret" (text "redacted")
        ++ when (not (s == "") && not (t == "")) "dhchap_ctrl_secret" (text "redacted")
      ≡ text_option "dhchap_secret" (hide s)
        ++ when (not (hide s == "") && not (hide t == "")) "dhchap_ctrl_secret" (text (hide t))
secrets s t =
    rw (hide-empty s, hide-empty t)
      (elim (Bool-cases (s == "")) [
        | inl e ↦ rw e refl
        | inr e ↦ elim (Bool-cases (t == "")) [ inl d ↦ rw (e, d) refl | inr d ↦ rw (e, d) refl ]
      ])

-- The text for the log has the options for the kernel, with each secret replaced: two requests that
-- differ in their secrets alone, none of them empty, are logged alike.
pub to_string-to_options : (c : ConnectRequest) → to_string c ≡ to_options (hide_secrets c)
unfolding to_string to_options
to_string-to_options c = rw (secrets c.dh_chap_secret c.dh_chap_controller_secret) refl
