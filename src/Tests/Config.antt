-- ===== src/Tests/Config.antt =====
-- An INI file with a port out of range.
use distributed_im.Common.{List, [], ℕ, ◌≡◌, refl, true, none, ◌∷◌, ◌++◌, some, Bytes}
use distributed_im.Common.Assoc.{bytes_discrete, ℕ_discrete}
use distributed_im.Common.Text.{codes, find_text, lines, trim_right, starts_with}
use distributed_im.Common.Decimal.{negsuc, pos, stoi, signed_value, read_digits, skip_spaces}
use distributed_im.Json.{JsonLibrary, JsonValue}
use distributed_im.Config.{default_config}
use distributed_im.Config.Values.{
  lower, trim, between, parse_int_safe, is_valid_log_level, one_of, starts_at, ends_at,
}
use distributed_im.Config.Ini.{
  load_ini, ini_lines, ini_line, key_line, set_key, set_server, set_log, without_comment,
}
use distributed_im.Config.Load.{load, extension, validate_config, validate_server, validate_log}
use distributed_im.Config.Sane.{IsSane}
use distributed_im.Start.{Options, parse_args, switch_of, port_value, no_options, start_port}
use distributed_im.Start.Port.{start_port_lem}
use distributed_im.Config.Valid.{IsValid, default_config-IsSane, load-IsValid, load-IsSane}

abbrev no_json : JsonLibrary
no_json = record { parse = λ s. none; dump = λ members. codes "{}" }

abbrev no_number : JsonValue → ℕ
no_number v = 0

abbrev content : Bytes
content =
    codes "[Server]"
    ++ (10
        ∷ (codes " port = 70000 ; too large"
            ++ (10
                ∷ (codes "timeout_seconds=60"
                    ++ (10 ∷ (codes "[log]" ++ (10 ∷ codes "level = WARN")))))))

loads : (load no_json no_number (codes "c.INI") (some content) default_config).0 ≡ true
unfolding load extension lower load_ini bytes_discrete ℕ_discrete
loads = refl

load_run :
    let c = (load no_json no_number (codes "c.INI") (some content) default_config).1 in
    (c.server.port ≡ pos 8888) × (c.server.timeout_seconds ≡ pos 60) × (c.log.level ≡ codes "warn")
unfolding load extension lower load_ini bytes_discrete ℕ_discrete ini_lines ini_line key_line
    set_key set_server set_log without_comment find_text starts_with lines trim trim_right
    skip_spaces starts_at ends_at parse_int_safe stoi signed_value read_digits between
    is_valid_log_level one_of validate_config validate_server validate_log
load_run = (refl, refl, refl)

load-IsValid_example :
    IsValid (load no_json no_number (codes "c.INI") (some content) default_config).1
load-IsValid_example =
    load-IsValid no_json no_number (codes "c.INI") (some content) default_config loads

load-IsSane_example :
    IsSane (load no_json no_number (codes "c.INI") (some content) default_config).1
load-IsSane_example =
    load-IsSane no_json no_number (codes "c.INI") (some content) default_config
      default_config-IsSane

-- A port out of range on the command line, behind a file that sets none.
abbrev args : List Bytes
args = codes "-c" ∷ codes "c.ini" ∷ codes "-p" ∷ codes "70000" ∷ []

abbrev parsed : Options
parsed = record { config_path = codes "c.ini"; cmd_port = negsuc 0 }

parses : parse_args args no_options ≡ some parsed
unfolding parse_args switch_of port_value stoi skip_spaces signed_value read_digits between
    bytes_discrete ℕ_discrete
parses = refl

start_port_lem_example :
    between 1 65_535 (start_port no_json no_number (λ path. some content) parsed) ≡ true
start_port_lem_example = start_port_lem no_json no_number (λ path. some content) args parsed parses
