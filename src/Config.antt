-- ===== src/Config.antt =====
-- gateway/include/Config.h: the sections of the configuration, with the values that they start from. An `int` is an integer
-- of 32 bits.
pub mod Values
pub mod Ini
pub mod Document
pub mod Load
pub mod Sane
pub mod Kept
pub mod Valid
use distributed_im.Common.{ℕ, Bool, true, false, [], Bytes}
use distributed_im.Common.Decimal.{ℤ, pos}
use distributed_im.Common.Text.{codes}
use distributed_im.Json.{JsonValue, seconds}

pub record ServerConfig : Type 0 where
  pub port : ℤ
  pub max_connections : ℤ
  pub timeout_seconds : ℤ

pub record RedisConfig : Type 0 where
  pub host : Bytes
  pub port : ℤ
  pub password : Bytes
  pub db : ℤ

pub record LogConfig : Type 0 where
  pub level : Bytes
  pub file : Bytes
  pub console_output : Bool
  pub file_output : Bool
  pub max_file_size : ℤ
  pub max_files : ℤ
  pub console_pattern : Bytes
  pub file_pattern : Bytes

pub record DebugConfig : Type 0 where
  pub enabled : Bool
  pub show_source : Bool

pub record E2eeConfig : Type 0 where
  pub enabled : Bool
  pub key_dir : Bytes

pub record AiConfig : Type 0 where
  pub enabled : Bool
  pub api_url : Bytes
  pub audit_api_url : Bytes
  pub timeout_ms : ℤ
  pub max_context_messages : ℤ

pub record RegionConfig : Type 0 where
  pub region : Bytes
  pub prefer_local : Bool

-- `messages_per_second` is a `double`, kept as the number of the document.
pub record RateLimitConfig : Type 0 where
  pub enabled : Bool
  pub messages_per_second : JsonValue
  pub bucket_capacity : ℤ

pub record WebSocketConfig : Type 0 where
  pub enabled : Bool
  pub max_frame_size : ℕ
  pub max_message_size : ℤ

-- The static members.
pub record Config : Type 0 where
  pub server : ServerConfig
  pub redis : RedisConfig
  pub log : LogConfig
  pub debug : DebugConfig
  pub e2ee : E2eeConfig
  pub ai : AiConfig
  pub region : RegionConfig
  pub rate_limit : RateLimitConfig
  pub websocket : WebSocketConfig

abbrev pub default_config : Config
default_config = record {
  server = record { port = pos 8888; max_connections = pos 1024; timeout_seconds = pos 300 };
  redis = record { host = codes "127.0.0.1"; port = pos 6379; password = []; db = pos 0 };
  log = record {
    level = codes "info";
    file = codes "gateway.log";
    console_output = true;
    file_output = true;
    max_file_size = pos 10;
    max_files = pos 5;
    console_pattern = codes "[%Y-%m-%d %H:%M:%S.%e] [%^%7l%$] [%25s:%-4#] %v";
    file_pattern = codes "[%Y-%m-%d %H:%M:%S.%e] [%l] [PID:%P] [TID:%t] [%s:%#] [%!] %v";
  };
  debug = record { enabled = false; show_source = true };
  e2ee = record { enabled = false; key_dir = codes "./keys" };
  ai = record {
    enabled = false;
    api_url = codes "http://ai-service:8000";
    audit_api_url = codes "http://http-api:8080";
    timeout_ms = pos 30_000;
    max_context_messages = pos 20;
  };
  region = record { region = codes "default"; prefer_local = true };
  rate_limit = record {
    enabled = true;
    messages_per_second = seconds 10;
    bucket_capacity = pos 20;
  };
  websocket = record { enabled = true; max_frame_size = 65_536; max_message_size = pos 1_048_576 };
}
