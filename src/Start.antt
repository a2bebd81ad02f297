-- ===== src/Start.antt =====
-- gateway/src/main.cpp: the command line, the configuration files, and the port that the server starts on. The files are a
-- function from a path to the text, `none` where it does not open. The log and the server's run are left out.
pub mod Port
use distributed_im.Common.{
  ◌≡◌, inl, inr, Bool, true, false, ◌||◌, List, [], ◌∷◌, Option, none, some, Bytes, is_empty,
  if_both, Bool-cases, Option-cases, if◌then◌else◌, ℕ,
}
use distributed_im.Common.Decimal.{ℤ, pos, negsuc, stoi}
use distributed_im.Common.Text.{codes}
use distributed_im.Json.{JsonValue, JsonLibrary}
use distributed_im.Config.{Config, default_config}
use distributed_im.Config.Values.{equals, between}
use distributed_im.Config.Document.{is_positive}
use distributed_im.Config.Load.{load}
use distributed_im.Config.Sane.{IsSane}
use distributed_im.Config.Valid.{load-IsSane}

-- `cmd_port` is -1 where no port is given.
pub record Options : Type 0 where
  pub config_path : Bytes
  pub cmd_port : ℤ

pub data Switch : Type 0 where
  config_switch port_switch help_switch other_switch : Switch

unfoldable pub switch_of : Bytes → Switch
switch_of arg =
    if equals arg (codes "--config") || equals arg (codes "-c")
    then config_switch
    else if equals arg (codes "--port") || equals arg (codes "-p")
    then port_switch
    else if equals arg (codes "--help") || equals arg (codes "-h")
    then help_switch
    else other_switch

-- The value of `--port`; -1 for a value out of range and for a text that is no number.
unfoldable pub port_value : Bytes → ℤ
unfolding stoi between
port_value value = elim (stoi value) [
  | none ↦ negsuc 0
  | some v ↦ if between 1 65_535 v then v else negsuc 0
]

-- The old form: a number that is a port, anything else is ignored.
unfoldable pub bare_port : Bytes → ℤ → ℤ
unfolding stoi between
bare_port arg old = elim (stoi arg) [ none ↦ old | some v ↦ if between 1 65_535 v then v else old ]

unfoldable pub last_arg : Bytes → Options → Option Options
unfolding switch_of bare_port
last_arg arg o = elim (switch_of arg) [
  | config_switch ↦ some o
  | port_switch ↦ some o
  | help_switch ↦ none
  | other_switch ↦ some (record o { cmd_port = bare_port arg o.cmd_port })
]

-- The loop over the arguments; `none` where the help is printed and the program ends.
unfoldable pub parse_args : List Bytes → Options → Option Options
unfolding switch_of port_value bare_port last_arg
parse_args [] o = some o
parse_args (arg ∷ []) o = last_arg arg o
parse_args (arg ∷ value ∷ rest) o = elim (switch_of arg) [
  | config_switch ↦ parse_args rest (record o { config_path = value })
  | port_switch ↦ parse_args rest (record o { cmd_port = port_value value })
  | help_switch ↦ none
  | other_switch ↦ parse_args (value ∷ rest) (record o { cmd_port = bare_port arg o.cmd_port })
]

abbrev pub no_options : Options
no_options = record { config_path = []; cmd_port = negsuc 0 }

module _ (json : JsonLibrary) (to_uint64 : JsonValue → ℕ) (files : Bytes → Option Bytes) where
  unfoldable pub load_file : Bytes → Config → Bool × Config
  unfolding load
  load_file path c = load json to_uint64 path (files path) c

  -- The given file, or else the two default files.
  unfoldable pub load_config : Bytes → Config → Config
  unfolding load_file
  load_config path c =
      let (found, c1) = load_file (codes "../config.ini") c in
      if is_empty path
      then (if found then c1 else (load_file (codes "../config.json") c1).1)
      else (load_file path c).1

  unfoldable pub start_port : Options → ℤ
  unfolding load_config is_positive
  start_port o =
      if is_positive o.cmd_port
      then o.cmd_port
      else (load_config o.config_path default_config).server.port
