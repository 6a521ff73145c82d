-- ===== src/GoLib/Ip.antt =====
-- net.IP and net.IPNet with the predicates that the program asks. An address is a number, of 32
-- bits or of 128; an IPv4 address in IPv6 form is the IPv4 address, as net.IP.To4 makes it.
use mcp_searxng_relay.Base.{ℕ, ◌+◌, ◌-◌, ◌*◌, ◌/◌, ◌%◌, ◌^◌, Bool, false, not, ◌&&◌, ◌||◌, ◌==◌}

pub data Ip : Type 0 where
  v4 v6 : ℕ → Ip

-- A network by its first bits: `net4 p n` is the IPv4 network whose first `n` bits are the number
-- `p`, as the prefix `n` of its network number, and `mapped p n` the same network as net.ParseCIDR
-- reads it from IPv6 form, where its prefix has 96 bits more.
pub data IpNet : Type 0 where
  net4 net6 mapped : ℕ → ℕ → IpNet

-- IPNet.Contains
abbrev pub contains : IpNet → Ip → Bool
contains (net4 prefix ones) (v4 a) = a / 2 ^ (32 - ones) == prefix
contains (net6 prefix ones) (v6 a) = a / 2 ^ (128 - ones) == prefix
contains (mapped prefix ones) (v4 a) = a / 2 ^ (32 - ones) == prefix
contains (mapped prefix ones) (v6 a) = false
contains (net4 prefix ones) (v6 a) = false
contains (net6 prefix ones) (v4 a) = false

-- The number of leading ones of the network's mask.
abbrev pub ones : IpNet → ℕ
ones (net4 prefix n) = n
ones (net6 prefix n) = n
ones (mapped prefix n) = 96 + n

abbrev pub is_loopback : Ip → Bool
is_loopback (v4 a) = a / 2 ^ 24 == 127
is_loopback (v6 a) = a == 1

abbrev pub is_link_local_unicast : Ip → Bool
is_link_local_unicast (v4 a) = a / 2 ^ 16 == 169 * 256 + 254
is_link_local_unicast (v6 a) = a / 2 ^ 118 == 0xFE80 / 2 ^ 6

abbrev pub is_link_local_multicast : Ip → Bool
is_link_local_multicast (v4 a) = a / 2 ^ 8 == 224 * 256 * 256
is_link_local_multicast (v6 a) = a / 2 ^ 120 == 0xFF && a / 2 ^ 112 % 16 == 2

abbrev pub is_private : Ip → Bool
is_private (v4 a) =
    a / 2 ^ 24 == 10 || a / 2 ^ 20 == (172 * 256 + 16) / 16 || a / 2 ^ 16 == 192 * 256 + 168
is_private (v6 a) = a / 2 ^ 121 == 0xFC / 2

abbrev pub is_unspecified : Ip → Bool
is_unspecified (v4 a) = a == 0
is_unspecified (v6 a) = a == 0

abbrev pub is_multicast : Ip → Bool
is_multicast (v4 a) = a / 2 ^ 28 == 14
is_multicast (v6 a) = a / 2 ^ 120 == 0xFF

abbrev pub is_broadcast : Ip → Bool
is_broadcast (v4 a) = a == 2 ^ 32 - 1
is_broadcast (v6 a) = false

abbrev pub is_global_unicast : Ip → Bool
is_global_unicast ip =
    not (is_broadcast ip)
    && not (is_unspecified ip)
    && not (is_loopback ip)
    && not (is_multicast ip)
    && not (is_link_local_unicast ip)
