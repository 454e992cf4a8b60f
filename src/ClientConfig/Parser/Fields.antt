-- ===== src/ClientConfig/Parser/Fields.antt =====
-- The loop of `parse` over the fields of a line (pkg/clientconfig/conf_parser.go).
use discovery_client.Prelude.{
  String, true, ◌==◌, String_eq, List, [], ◌∷◌, ◌++◌, ◌≡◌, refl, arith, inl, inr, ◌⊎◌, if_cases,
  ◌∙◌, ap, ◌≢◌,
}
use discovery_client.ClientConfig.Entry.{Entry}
use discovery_client.ClientConfig.Parser.{
  GoLib, ParserMsg, Parsed, parsed, parser_error, panicked, and_then, Flag, ValueFlag, takes,
  persistent_flag, no_flag, flag_of, set_value, last_field, parse_fields, adjust_traddr, checked,
  traddr_flag, transport_flag, trsvcid_flag, hostnqn_flag, hostid_flag, subsysnqn_flag,
  ctrl_loss_tmo_flag, bad_address, bad_port, bad_ctrl_loss_tmo,
}

-- What holds of a result, if there is one.
abbrev pub Holds {ℓ κ} : {A : Type ℓ} → (A → Type κ) → Parsed A → Type κ
Holds P (parsed a) = P a
Holds P (parser_error msg details) = Unit
Holds P panicked = Unit

pub Holds-and_then {ℓ κ ι ο} :
    {A : Type ℓ} {B : Type κ} (P : A → Type ι) (Q : B → Type ο) (r : Parsed A) (f : A → Parsed B)
    → Holds P r
    → ((a : A) → P a → Holds Q (f a))
    → Holds Q (and_then r f)
unfolding and_then
Holds-and_then P Q (parsed a) f h g = g a h
Holds-and_then P Q (parser_error msg details) f h g = tt
Holds-and_then P Q panicked f h g = tt

Flag-cases :
    (f : Flag) → ((v : ValueFlag) × (f ≡ takes v)) ⊎ ((f ≡ persistent_flag) ⊎ (f ≡ no_flag))
Flag-cases (takes v) = inl (v, refl)
Flag-cases persistent_flag = inr (inl refl)
Flag-cases no_flag = inr (inr refl)

Holds-and_then_any {ℓ κ ο} :
    {A : Type ℓ} {B : Type κ} (Q : B → Type ο) (r : Parsed A) (f : A → Parsed B)
    → ((a : A) → Holds Q (f a))
    → Holds Q (and_then r f)
unfolding and_then
Holds-and_then_any Q (parsed a) f g = g a
Holds-and_then_any Q (parser_error msg details) f g = tt
Holds-and_then_any Q panicked f g = tt

-- A chain that has a result had one at its first step.
parsed_of-and_then :
    {A B : Type 0} (r : Parsed A) (f : A → Parsed B) (b : B)
    → and_then r f ≡ parsed b
    → (a : A) × (r ≡ parsed a) × (f a ≡ parsed b)
unfolding and_then
parsed_of-and_then (parsed a) f b h = (a, refl, h)
parsed_of-and_then (parser_error msg details) f b h = cc
parsed_of-and_then panicked f b h = cc

parsed_inj {ℓ} : {A : Type ℓ} {a b : A} → parsed a ≡ parsed b → a ≡ b
parsed_inj h = cc

panicked_not_parsed {ℓ} : {A : Type ℓ} {a : A} → panicked ≢ parsed a
panicked_not_parsed h = cc

error_not_parsed {ℓ} :
    {A : Type ℓ} {a : A} {msg : ParserMsg} {text : String} → parser_error msg text ≢ parsed a
error_not_parsed h = cc

module _ (lib : GoLib) where
  -- What is known of an entry while its line is read.
  abbrev pub IsFresh : Entry → Type 0
  IsFresh e = ((e.transport ≡ "") ⊎ (e.transport ≡ "tcp")) × (e.effective_hostid ≡ "")

  unset_or_tcp :
      (e : Entry) (text : String) → IsFresh e → Holds IsFresh (set_value lib e transport_flag text)
  unfolding set_value
  unset_or_tcp e text h =
      if_cases (Holds IsFresh) (lib.trim_space text == "tcp") (λ tcp. (inr (ground arith), h.1))
        (λ other. tt)

  set_value-IsFresh :
      (e : Entry) (f : ValueFlag) (text : String)
      → IsFresh e
      → Holds IsFresh (set_value lib e f text)
  unfolding set_value
  set_value-IsFresh e traddr_flag text h =
      Holds-and_then_any IsFresh (adjust_traddr lib (lib.trim_space text)) _
        (λ o. Holds-and_then_any IsFresh (checked lib bad_address text o) _ (λ a. h))
  set_value-IsFresh e transport_flag text h = unset_or_tcp e text h
  set_value-IsFresh e trsvcid_flag text h =
      Holds-and_then_any IsFresh (checked lib bad_port text (lib.parse_int (lib.trim_space text))) _
        (λ n. h)
  set_value-IsFresh e hostnqn_flag text h = h
  set_value-IsFresh e hostid_flag text h = h
  set_value-IsFresh e subsysnqn_flag text h = h
  set_value-IsFresh e ctrl_loss_tmo_flag text h =
      Holds-and_then_any IsFresh
        (checked lib bad_ctrl_loss_tmo text (lib.parse_int (lib.trim_space text))) _ (λ n. h)

  pub parse_fields-IsFresh :
      (e : Entry) (texts : List String) → IsFresh e → Holds IsFresh (parse_fields lib e texts)
  unfolding parse_fields last_field
  parse_fields-IsFresh e [] h = h
  parse_fields-IsFresh e (text ∷ []) h = elim (Flag-cases (flag_of (lib.trim_space text))) [
    | inl (f, is) ↦ rw (is, parse_fields, last_field) tt
    | inr (inl is) ↦ rw (is, parse_fields, last_field) h
    | inr (inr is) ↦ rw (is, parse_fields, last_field) tt
  ]
  parse_fields-IsFresh e (text ∷ next ∷ texts) h =
      elim (Flag-cases (flag_of (lib.trim_space text))) [
        | inl (f, is) ↦
            rw (is, parse_fields)
              (Holds-and_then IsFresh IsFresh (set_value lib e f next) _
                (set_value-IsFresh e f next h) (λ e' h'. parse_fields-IsFresh e' texts h'))
        | inr (inl is) ↦
            rw (is, parse_fields)
              (parse_fields-IsFresh (record e { persistent = true }) (next ∷ texts) h)
        | inr (inr is) ↦ rw (is, parse_fields) tt
      ]

  -- A line whose first fields are read without an error goes on as if those were all.
  pub parse_fields-append :
      (e e' : Entry) (texts more : List String)
      → parse_fields lib e texts ≡ parsed e'
      → parse_fields lib e (texts ++ more) ≡ parse_fields lib e' more
  unfolding parse_fields last_field and_then
  parse_fields-append e e' [] more h = ap (λ x. parse_fields lib x more) (parsed_inj h)
  parse_fields-append e e' (text ∷ []) [] h = h
  parse_fields-append e e' (text ∷ []) (m ∷ more) h =
      elim (Flag-cases (flag_of (lib.trim_space text))) [
        | inl (f, is) ↦ absurd (panicked_not_parsed (rw (is, parse_fields, last_field) at h))
        | inr (inl is) ↦
            rw (is, parse_fields)
              (ap (λ x. parse_fields lib x (m ∷ more))
                (parsed_inj (rw (is, parse_fields, last_field) at h)))
        | inr (inr is) ↦ absurd (error_not_parsed (rw (is, parse_fields, last_field) at h))
      ]
  parse_fields-append e e' (text ∷ next ∷ texts) more h =
      elim (Flag-cases (flag_of (lib.trim_space text))) [
        | inl (f, is) ↦
            let (e₁, ok, rest) =
              parsed_of-and_then (set_value lib e f next) (λ x. parse_fields lib x texts) e'
                (rw (is, parse_fields) at h) in
            rw (is, parse_fields, ok, and_then) (parse_fields-append e₁ e' texts more rest)
        | inr (inl is) ↦
            rw (is, parse_fields)
              (parse_fields-append (record e { persistent = true }) e' (next ∷ texts) more
                (rw (is, parse_fields) at h))
        | inr (inr is) ↦ absurd (error_not_parsed (rw (is, parse_fields) at h))
      ]

  -- A line whose last field is a flag that takes a value makes the parser panic, if the fields
  -- before it are read without an error.
  pub parse_fields-panicked :
      (e e' : Entry) (texts : List String) (text : String) (f : ValueFlag)
      → parse_fields lib e texts ≡ parsed e'
      → flag_of (lib.trim_space text) ≡ takes f
      → parse_fields lib e (texts ++ text ∷ []) ≡ panicked
  unfolding parse_fields last_field
  parse_fields-panicked e e' texts text f h is =
      parse_fields-append e e' texts (text ∷ []) h ∙ (rw (is, parse_fields, last_field) refl)
