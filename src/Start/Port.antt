-- ===== src/Start/Port.antt =====
-- The port that the server starts on.
use mathlib.Core.Path.{subst}
use distributed_im.Common.{
  ℕ, if◌then◌else◌, ◌≡◌, inl, inr, true, List, [], ◌∷◌, Option, none, some, Bytes, is_empty,
  if_both, Bool-cases, Option-cases,
}
use distributed_im.Common.Decimal.{ℤ, negsuc, stoi}
use distributed_im.Common.Text.{codes}
use distributed_im.Json.{JsonValue, JsonLibrary}
use distributed_im.Config.{Config, default_config}
use distributed_im.Config.Values.{between}
use distributed_im.Config.Document.{is_positive}
use distributed_im.Config.Sane.{IsSane}
use distributed_im.Config.Valid.{load-IsSane, default_config-IsSane}
use distributed_im.Start.{
  Options, Switch, config_switch, port_switch, help_switch, other_switch, switch_of, port_value,
  bare_port, last_arg, parse_args, no_options, load_file, load_config, start_port,
}

-- -1, or a port.
abbrev IsPort : ℤ → Type 0
IsPort v = is_positive v ≡ true → between 1 65_535 v ≡ true

abbrev AllPorts : Option Options → Type 0
AllPorts none = Unit {0}
AllPorts (some o) = IsPort o.cmd_port

guarded-IsPort : (v old : ℤ) → IsPort old → IsPort (if between 1 65_535 v then v else old)
guarded-IsPort v old h = elim (Bool-cases (between 1 65_535 v)) [
  | inl e ↦ rw (e) (λ x. e)
  | inr e ↦ rw (e) h
]

minus_one-IsPort : IsPort (negsuc 0)
unfolding is_positive
minus_one-IsPort e = absurd (cc (e))

port_value-IsPort : (value : Bytes) → IsPort (port_value value)
unfolding port_value
port_value-IsPort value = elim (Option-cases (stoi value)) [
  | inl e ↦ rw (e, port_value) minus_one-IsPort
  | inr (v, e) ↦ rw (e, port_value) (guarded-IsPort v (negsuc 0) minus_one-IsPort)
]

bare_port-IsPort : (arg : Bytes) (old : ℤ) → IsPort old → IsPort (bare_port arg old)
unfolding bare_port
bare_port-IsPort arg old h = elim (Option-cases (stoi arg)) [
  | inl e ↦ rw (e, bare_port) h
  | inr (v, e) ↦ rw (e, bare_port) (guarded-IsPort v old h)
]

-- What holds in every case of a switch.
switch_both {ℓ} :
    {A : Type ℓ} (Q : A → Type 0) (s : Switch) (c p h o : A)
    → Q c
    → Q p
    → Q h
    → Q o
    → Q (elim s [ config_switch ↦ c | port_switch ↦ p | help_switch ↦ h | other_switch ↦ o ])
switch_both Q config_switch c p h o hc hp hh ho = hc
switch_both Q port_switch c p h o hc hp hh ho = hp
switch_both Q help_switch c p h o hc hp hh ho = hh
switch_both Q other_switch c p h o hc hp hh ho = ho

parse_args-AllPorts :
    (args : List Bytes) (o : Options) → IsPort o.cmd_port → AllPorts (parse_args args o)
unfolding parse_args last_arg
parse_args-AllPorts [] o h = h
parse_args-AllPorts (arg ∷ []) o h =
    switch_both AllPorts (switch_of arg) _ _ _ _ h h tt (bare_port-IsPort arg o.cmd_port h)
parse_args-AllPorts (arg ∷ value ∷ rest) o h =
    switch_both AllPorts (switch_of arg) _ _ _ _
      (parse_args-AllPorts rest (record o { config_path = value }) h)
      (parse_args-AllPorts rest (record o { cmd_port = port_value value })
        (port_value-IsPort value))
      tt
      (parse_args-AllPorts (value ∷ rest) (record o { cmd_port = bare_port arg o.cmd_port })
        (bare_port-IsPort arg o.cmd_port h))

module _ (json : JsonLibrary) (to_uint64 : JsonValue → ℕ) (files : Bytes → Option Bytes) where
  load_file-IsSane :
      (path : Bytes) (c : Config) → IsSane c → IsSane (load_file json to_uint64 files path c).1
  unfolding load_file
  load_file-IsSane path c h = load-IsSane json to_uint64 path (files path) c h

  load_config-IsSane :
      (path : Bytes) (c : Config) → IsSane c → IsSane (load_config json to_uint64 files path c)
  unfolding load_config
  load_config-IsSane path c h =
      let (found, c1) = load_file json to_uint64 files (codes "../config.ini") c in
      let h1 = load_file-IsSane (codes "../config.ini") c h in
      if_both IsSane (is_empty path) _ _
        (if_both IsSane found _ _ h1 (load_file-IsSane (codes "../config.json") c1 h1))
        (load_file-IsSane path c h)

  -- Whatever the command line and the configuration files are, if the program does not end with the help, the server starts
  -- on a port from 1 to 65535.
  pub start_port_lem :
      (args : List Bytes) (o : Options)
      → parse_args args no_options ≡ some o
      → between 1 65_535 (start_port json to_uint64 files o) ≡ true
  unfolding start_port
  start_port_lem args o e =
      let given : IsPort o.cmd_port =
        subst AllPorts e (parse_args-AllPorts args no_options minus_one-IsPort) in
      let sane = load_config-IsSane o.config_path default_config default_config-IsSane in
      elim (Bool-cases (is_positive o.cmd_port)) [
        | inl f ↦ rw (f, start_port) (given f)
        | inr f ↦ rw (f, start_port) sane.0.0
      ]
