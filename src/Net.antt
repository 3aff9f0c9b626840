-- ===== src/Net.antt =====
-- What the server uses of Go's package net, as an interface: the text forms of IP addresses.
use burnout_paradise_server.Common.{◌≡◌, Bool, Option, some, Bytes, codes}

-- An `IP` is its bytes. The one law is that the address which the server falls back on parses.
pub record Net : Type 0 where
  pub parse_ip : Bytes → Option Bytes
  pub ip_string : Bytes → Bytes
  pub is_loopback : Bytes → Bool
  pub ip_equal : Bytes → Bytes → Bool
  pub split_host_port : Bytes → Option (Bytes × Bytes)
  pub loopback_one : Bytes
  pub parse_ip-loopback_one : parse_ip (codes "127.0.0.1") ≡ some loopback_one
