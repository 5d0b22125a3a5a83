-- ===== src/Config/Encode.antt =====
-- The JSON of the structs, by their tags: names, order and `omitempty` as declared in
-- internal/parser/types.go and internal/config/types.go.
use sing_box_helper.Prelude.{[], ◌∷◌, ◌++◌}
use sing_box_helper.Json.{
  Json, boolean, int, str, object, list_of, Fields, field, str_omit, int_omit, bool_omit,
  pointer_omit, list_omit,
}
use sing_box_helper.Parser.Types.{Utls, Reality, TlsConfig, ObfsConfig, Transport, Outbound}
use sing_box_helper.Config.Types.{
  Log, DnsServer, Dns, AnyInbound, tun, mixed, AnyOutbound, node, direct, RouteRule, Route,
  ClashApi, Experimental, Config,
}

pub utls_json : Utls → Json
utls_json c = object (field "enabled" (boolean c.enabled) ++ str_omit "fingerprint" c.fingerprint)

pub reality_json : Reality → Json
reality_json c = object (
    field "enabled" (boolean c.enabled)
    ++ (field "public_key" (str c.public_key) ++ str_omit "short_id" c.short_id))

pub tls_json : TlsConfig → Json
tls_json c = object (
    field "enabled" (boolean c.enabled)
    ++ (str_omit "server_name" c.server_name
        ++ (bool_omit "insecure" c.insecure
            ++ (list_omit str "alpn" c.alpn
                ++ (pointer_omit utls_json "utls" c.utls
                    ++ pointer_omit reality_json "reality" c.reality)))))

pub obfs_json : ObfsConfig → Json
obfs_json c = object (field "type" (str c.kind) ++ str_omit "password" c.password)

pub transport_json : Transport → Json
transport_json c = object (
    field "type" (str c.kind)
    ++ (str_omit "host" c.host
        ++ (str_omit "path" c.path ++ str_omit "service_name" c.service_name)))

unfoldable pub outbound_fields : Outbound → Fields
outbound_fields c =
    field "type" (str c.kind)
    ++ (field "tag" (str c.tag)
        ++ (str_omit "server" c.server
            ++ (int_omit "server_port" c.server_port
                ++ (str_omit "password" c.password
                    ++ (str_omit "uuid" c.uuid
                        ++ (str_omit "flow" c.flow
                            ++ (str_omit "version" c.version
                                ++ (str_omit "username" c.username
                                    ++ (pointer_omit tls_json "tls" c.tls
                                        ++ (pointer_omit obfs_json "obfs" c.obfs
                                            ++ pointer_omit transport_json "transport"
                                                c.transport))))))))))

pub log_json : Log → Json
log_json c = object (str_omit "level" c.level ++ field "timestamp" (boolean c.timestamp))

pub dns_server_json : DnsServer → Json
dns_server_json c =
    object (str_omit "type" c.kind ++ (str_omit "tag" c.tag ++ str_omit "server" c.server))

pub dns_json : Dns → Json
dns_json c =
    object (list_omit dns_server_json "servers" c.servers ++ str_omit "strategy" c.strategy)

pub inbound_json : AnyInbound → Json
inbound_json (tun c) = object (
    ("type", str c.kind)
    ∷ ("tag", str c.tag)
    ∷ ("interface_name", str c.interface_name)
    ∷ ("address", list_of str c.address)
    ∷ ("mtu", int c.mtu)
    ∷ ("auto_route", boolean c.auto_route)
    ∷ ("strict_route", boolean c.strict_route)
    ∷ ("stack", str c.stack)
    ∷ ("sniff", boolean c.sniff)
    ∷ [])
inbound_json (mixed c) = object (
    ("type", str c.kind)
    ∷ ("tag", str c.tag)
    ∷ ("listen", str c.listen)
    ∷ ("listen_port", int c.listen_port)
    ∷ [])

unfoldable pub any_outbound_json : AnyOutbound → Json
any_outbound_json (node c) = object (outbound_fields c)
any_outbound_json (direct c) = object (("type", str c.kind) ∷ ("tag", str c.tag) ∷ [])

pub rule_json : RouteRule → Json
rule_json c = object (str_omit "action" c.action ++ str_omit "protocol" c.protocol)

pub route_json : Route → Json
route_json c = object (field "final" (str c.final) ++ list_omit rule_json "rules" c.rules)

pub clash_json : ClashApi → Json
clash_json c = object (
    field "external_controller" (str c.external_controller) ++ str_omit "external_ui" c.external_ui)

pub experimental_json : Experimental → Json
experimental_json c = object (pointer_omit clash_json "clash_api" c.clash_api)

unfoldable pub config_json : Config → Json
config_json c = object (
    pointer_omit log_json "log" c.log
    ++ (pointer_omit dns_json "dns" c.dns
        ++ (list_omit inbound_json "inbounds" c.inbounds
            ++ (list_omit any_outbound_json "outbounds" c.outbounds
                ++ (pointer_omit route_json "route" c.route
                    ++ pointer_omit experimental_json "experimental" c.experimental)))))
