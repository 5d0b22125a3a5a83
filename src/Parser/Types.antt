-- ===== src/Parser/Types.antt =====
-- internal/parser/types.go, and the errors of the package. A nil pointer is `none`; a nil slice and
-- an empty one are both `[]`. An error or a note is a constructor in place of its text.
use sing_box_helper.Prelude.{Bool, false, List, [], Option, none, String, ℤ, pos}

pub record Utls : Type 0 where
  pub enabled : Bool
  pub fingerprint : String

pub record Reality : Type 0 where
  pub enabled : Bool
  pub public_key : String
  pub short_id : String

pub record TlsConfig : Type 0 where
  pub enabled : Bool
  pub server_name : String
  pub insecure : Bool
  pub alpn : List String
  pub utls : Option Utls
  pub reality : Option Reality

pub record ObfsConfig : Type 0 where
  pub kind : String
  pub password : String

pub record Transport : Type 0 where
  pub kind : String
  pub host : String
  pub path : String
  pub service_name : String

-- `kind` is the field `Type`.
pub record Outbound : Type 0 where
  pub kind : String
  pub tag : String
  pub server : String
  pub server_port : ℤ
  pub password : String
  pub uuid : String
  pub flow : String
  pub version : String
  pub username : String
  pub tls : Option TlsConfig
  pub obfs : Option ObfsConfig
  pub transport : Option Transport

-- The zero values that a literal leaves.
abbrev pub zero_outbound : Outbound
zero_outbound = record {
  kind = "";
  tag = "";
  server = "";
  server_port = pos 0;
  password = "";
  uuid = "";
  flow = "";
  version = "";
  username = "";
  tls = none;
  obfs = none;
  transport = none;
}

abbrev pub zero_tls : TlsConfig
zero_tls = record {
  enabled = false;
  server_name = "";
  insecure = false;
  alpn = [];
  utls = none;
  reality = none;
}

pub data Note : Type 0 where
  xhttp_mapped : String → Note
  socks4_auth_ignored local_upstream remote_plaintext : Note

pub record Display : Type 0 where
  pub protocol : String
  pub server : String
  pub port : ℤ
  pub sni : String
  pub tls_verify : Bool
  pub transport : String
  pub notes : List Note

pub record ParsedNode : Type 0 where
  pub outbound : Outbound
  pub label : String
  pub display : Display

-- The prefix of an error's text.
pub data Proto : Type 0 where
  hysteria2 vless socks : Proto

pub data ParseError : Type 0 where
  empty_uri empty_password unexpected_colon missing_pbk missing_fp : ParseError
  missing_obfs_password username_without_password : ParseError
  bad_url unsupported_scheme invalid_uuid unsupported_transport : String → ParseError
  unsupported_security unsupported_flow unsupported_obfs unknown_socks_scheme : String → ParseError
  missing_user missing_host missing_port : Proto → ParseError
  unexpected_scheme invalid_port : Proto → String → ParseError
