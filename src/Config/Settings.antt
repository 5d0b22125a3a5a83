-- ===== src/Config/Settings.antt =====
-- internal/config/settings.go
use sing_box_helper.Prelude.{Bool, true, String, ℤ, pos}

pub record Settings : Type 0 where
  pub log_level : String
  pub log_timestamp : Bool
  pub upstream_dns : String
  pub dns_strategy : String
  pub tun_interface_name : String
  pub tun_address : String
  pub tun_mtu : ℤ
  pub tun_stack : String
  pub enable_mixed : Bool
  pub mixed_listen : String
  pub mixed_listen_port : ℤ
  pub enable_clash_api : Bool
  pub clash_api_listen : String
  pub clash_api_ui_dir : String

-- `DefaultSettings`
abbrev pub default_settings : Settings
default_settings = record {
  log_level = "info";
  log_timestamp = true;
  upstream_dns = "1.1.1.1";
  dns_strategy = "ipv4_only";
  tun_interface_name = "singtun";
  tun_address = "198.18.0.1/30";
  tun_mtu = pos 1500;
  tun_stack = "gvisor";
  enable_mixed = true;
  mixed_listen = "0.0.0.0";
  mixed_listen_port = pos 7891;
  enable_clash_api = true;
  clash_api_listen = "0.0.0.0:9090";
  clash_api_ui_dir = "/opt/share/dashboard";
}
