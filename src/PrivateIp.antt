-- ===== src/PrivateIp.antt =====
-- The protection of outgoing requests against internal addresses: isPrivateIP, isPrivateHost and
-- the DialContext of safeHTTPClient in internal/pingclaw/handlers.go. Name resolution and the
-- parsing of addresses and of "host:port" are arguments.
pub mod Ranges
pub mod Dialing
use pingclaw_server.Prelude.{
  ℕ, ◌+◌, ◌*◌, ◌-◌, ◌/◌, ◌%◌, Bool, true, false, not, ◌&&◌, ◌||◌, Option, none, some, List, [], ◌∷◌,
  ◌++◌, map, Text, codes, leb, nat_beq, if◌then◌else◌, ◌==◌, all, any, drop, length, ltb, get_or,
}

-- A parsed address. An IPv4-mapped IPv6 address is the IPv4 address (net.IP.To4); any other IPv6
-- address is its 16 bytes.
pub data Ip : Type 0 where
  v4 : ℕ → ℕ → ℕ → ℕ → Ip
  v6 : List ℕ → Ip

-- The byte at an index; an IPv6 address has 16.
abbrev pub byte : List ℕ → ℕ → ℕ
byte bs n = get_or bs n 0

-- net.IP.IsLoopback, IsPrivate, IsLinkLocalUnicast, IsLinkLocalMulticast and IsUnspecified; a mask
-- of the high bits of a byte is a division, a mask of the low ones a remainder.
abbrev pub is_loopback : Ip → Bool
is_loopback (v4 a b c d) = nat_beq a 127
is_loopback (v6 bs) = bs == 0 ∷ 0 ∷ 0 ∷ 0 ∷ 0 ∷ 0 ∷ 0 ∷ 0 ∷ 0 ∷ 0 ∷ 0 ∷ 0 ∷ 0 ∷ 0 ∷ 0 ∷ 1 ∷ []

abbrev pub is_private : Ip → Bool
is_private (v4 a b c d) =
    nat_beq a 10 || (nat_beq a 172 && nat_beq (b / 16) 1) || (nat_beq a 192 && nat_beq b 168)
is_private (v6 bs) = nat_beq (byte bs 0 / 2) 126

abbrev pub is_link_local_unicast : Ip → Bool
is_link_local_unicast (v4 a b c d) = nat_beq a 169 && nat_beq b 254
is_link_local_unicast (v6 bs) = nat_beq (byte bs 0) 0xfe && nat_beq (byte bs 1 / 64) 2

abbrev pub is_link_local_multicast : Ip → Bool
is_link_local_multicast (v4 a b c d) = nat_beq a 224 && nat_beq b 0 && nat_beq c 0
is_link_local_multicast (v6 bs) = nat_beq (byte bs 0) 0xff && nat_beq (byte bs 1 % 16) 2

abbrev pub is_unspecified : Ip → Bool
is_unspecified (v4 a b c d) = nat_beq a 0 && nat_beq b 0 && nat_beq c 0 && nat_beq d 0
is_unspecified (v6 bs) = bs == 0 ∷ 0 ∷ 0 ∷ 0 ∷ 0 ∷ 0 ∷ 0 ∷ 0 ∷ 0 ∷ 0 ∷ 0 ∷ 0 ∷ 0 ∷ 0 ∷ 0 ∷ 0 ∷ []

unfoldable pub is_private_ip : Ip → Bool
is_private_ip ip =
    is_loopback ip
    || is_private ip
    || is_link_local_unicast ip
    || is_link_local_multicast ip
    || is_unspecified ip

-- The resolver, net.ParseIP, and unicode.ToLower beyond ASCII.
pub record Net : Type 0 where
  pub lookup_host : Text → Option (List Text)
  pub parse_ip : Text → Option Ip
  pub wide_lower : ℕ → ℕ

abbrev lower : Net → ℕ → ℕ
lower net c =
    if ltb c 128 then (if leb b'A' c && leb c b'Z' then c + 32 else c) else net.wide_lower c

-- strings.HasSuffix
abbrev has_suffix : Text → Text → Bool
has_suffix s t = leb (length t) (length s) && drop (length s - length t) s == t

abbrev pub is_local_name : Net → Text → Bool
is_local_name net hostname =
    let name = map (lower net) hostname in
    name == codes "localhost"
    || has_suffix name (codes ".local")
    || has_suffix name (codes ".internal")

-- An address that does not parse is passed over.
abbrev pub is_blocked : Option Ip → Bool
is_blocked none = false
is_blocked (some ip) = is_private_ip ip

abbrev pub any_blocked : Net → List Text → Bool
any_blocked net ips = any (λ s. is_blocked (net.parse_ip s)) ips

abbrev resolves_private : Net → Option (List Text) → Bool
resolves_private net none = true
resolves_private net (some ips) = any_blocked net ips

unfoldable pub is_private_host : Net → Text → Bool
is_private_host net hostname =
    if is_local_name net hostname then true else resolves_private net (net.lookup_host hostname)

-- What the transport dials: nothing, the address that it was given, or a resolved address and a
-- port.
pub data Dialled : Type 0 where
  refused : Dialled
  given : Dialled
  pinned : Text → Text → Dialled

abbrev pub pin : List Text → Text → Dialled
pin [] port = given
pin (ip ∷ ips) port = pinned ip port

abbrev dial_resolved : Net → Text → Option (List Text) → Dialled
dial_resolved net port none = refused
dial_resolved net port (some ips) = if any_blocked net ips then refused else pin ips port

-- DialContext; the argument is what net.SplitHostPort makes of the address.
unfoldable pub dial_context : Net → Bool → Option (Text × Text) → Dialled
dial_context net local_mode none = refused
dial_context net local_mode (some (host, port)) =
    if local_mode then given else dial_resolved net port (net.lookup_host host)
