-- ===== src/Radius/Context.antt =====
-- crates/radius-client/src/context.rs: the attributes that every request carries.
use usg_authenticator.Prelude.{ℕ, List, Text, Option, none, some, Result, ok, ◌>>=◌, map_err}
use usg_authenticator.Pacp.Ethernet.{MacAddr, format_mac}
use usg_authenticator.Radius.Consts
use usg_authenticator.Radius.Proto.{Attribute, AttributeType, Packet, RadiusProto}
use usg_authenticator.Radius.Error.{proto}
use usg_authenticator.Radius.EapMessage.{R}

pub record RequestContext : Type 0 where
  pub nas_ip : Option (List ℕ)
  pub nas_identifier : Text
  pub nas_port_id : Text
  pub nas_port : Option ℕ
  pub calling_station : MacAddr
  pub called_station : MacAddr

module _ (P : RadiusProto) where
  -- `packet.add_attribute(attribute?)`
  abbrev pub push : Packet → Result P.PacketError Attribute → R P Packet
  push packet made = map_err proto made >>= λ a. ok (P.add_attribute packet a)

  abbrev pub push_ip : Option (List ℕ) → Packet → R P Packet
  push_ip none packet = ok packet
  push_ip (some ip) packet =
      push packet (P.attribute_ipv4 (P.type_as_u8 AttributeType.nas_ip_address) ip)

  abbrev pub push_port : Option ℕ → Packet → R P Packet
  push_port none packet = ok packet
  push_port (some port) packet =
      push packet (P.attribute_integer (P.type_as_u8 AttributeType.nas_port) port)

  unfoldable pub append_nas_attributes : RequestContext → Packet → R P Packet
  append_nas_attributes ctx p0 = do
    p1 ← push_ip ctx.nas_ip p0
    p2 ← push p1 (P.attribute_string (P.type_as_u8 AttributeType.nas_identifier) ctx.nas_identifier)
    p3 ← push p2 (P.attribute_string Consts.nas_port_id ctx.nas_port_id)
    p4 ← push p3 (
        P.attribute_integer (P.type_as_u8 AttributeType.nas_port_type)
          Consts.nas_port_type_ethernet)
    p5 ← push_port ctx.nas_port p4
    p6 ← push p5 (
        P.attribute_string (P.type_as_u8 AttributeType.calling_station_id)
          (format_mac ctx.calling_station))
    push p6 (
        P.attribute_string (P.type_as_u8 AttributeType.called_station_id)
          (format_mac ctx.called_station))
