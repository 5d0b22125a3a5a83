-- ===== src/Config/Types.antt =====
-- internal/config/types.go. The elements of the slices of `any` are the cases of a data type.
use sing_box_helper.Prelude.{Bool, List, Option, String, ℤ}
use sing_box_helper.Parser.Types.{Outbound}

pub record Log : Type 0 where
  pub level : String
  pub timestamp : Bool

pub record DnsServer : Type 0 where
  pub kind : String
  pub tag : String
  pub server : String

pub record Dns : Type 0 where
  pub servers : List DnsServer
  pub strategy : String

pub record TunInbound : Type 0 where
  pub kind : String
  pub tag : String
  pub interface_name : String
  pub address : List String
  pub mtu : ℤ
  pub auto_route : Bool
  pub strict_route : Bool
  pub stack : String
  pub sniff : Bool

pub record MixedInbound : Type 0 where
  pub kind : String
  pub tag : String
  pub listen : String
  pub listen_port : ℤ

pub record DirectOutbound : Type 0 where
  pub kind : String
  pub tag : String

pub data AnyInbound : Type 0 where
  tun : TunInbound → AnyInbound
  mixed : MixedInbound → AnyInbound

pub data AnyOutbound : Type 0 where
  node : Outbound → AnyOutbound
  direct : DirectOutbound → AnyOutbound

pub record RouteRule : Type 0 where
  pub action : String
  pub protocol : String

pub record Route : Type 0 where
  pub final : String
  pub rules : List RouteRule

pub record ClashApi : Type 0 where
  pub external_controller : String
  pub external_ui : String

pub record Experimental : Type 0 where
  pub clash_api : Option ClashApi

pub record Config : Type 0 where
  pub log : Option Log
  pub dns : Option Dns
  pub inbounds : List AnyInbound
  pub outbounds : List AnyOutbound
  pub route : Option Route
  pub experimental : Option Experimental
