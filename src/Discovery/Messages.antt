-- ===== src/Discovery/Messages.antt =====
-- pkg/natdiscovery/proto/natdiscovery.proto: the messages, which a generated package encodes. A
-- message field that is a pointer may be nil; the getters answer "" for what a nil message lacks.
use submariner.Base.{ℕ, String, Bool, Option}

pub data ResponseType : Type 0 where
  response_ok nat_detected unknown_dst_cluster unknown_dst_endpoint malformed : ResponseType
  -- a number that the protocol does not name
  other_response : ℕ → ResponseType

pub record EndpointDetails : Type 0 where
  pub cluster_id : String
  pub endpoint_id : String

pub record IpPortPair : Type 0 where
  pub ip : String
  pub port : ℕ

pub record NatRequest : Type 0 where
  pub request_number : ℕ
  pub sender : Option EndpointDetails
  pub receiver : Option EndpointDetails
  pub using_src : Option IpPortPair
  pub using_dst : Option IpPortPair

pub record NatResponse : Type 0 where
  pub request_number : ℕ
  pub response : ResponseType
  pub sender : Option EndpointDetails
  pub receiver : Option EndpointDetails
  pub src_ip_nat_detected : Bool
  pub src_port_nat_detected : Bool
  pub dst_ip_nat_detected : Bool
  pub received_src : Option IpPortPair

-- `net.UDPAddr`, with the text of its IP.
pub record UdpAddr : Type 0 where
  pub ip : String
  pub port : ℕ
