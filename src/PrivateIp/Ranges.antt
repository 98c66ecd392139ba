-- ===== src/PrivateIp/Ranges.antt =====
-- isPrivateIP of internal/pingclaw/handlers.go on IPv4 addresses as 32-bit numbers.
use pingclaw_server.Prelude.{ℕ, ◌+◌, ◌*◌, ◌/◌, ◌^◌, nat_beq, ◌<◌, ◌≡◌, Bool, ◌&&◌, ◌||◌, arith, leb}
use pingclaw_server.PrivateIp.{v4, is_private_ip}

abbrev pub address : ℕ → ℕ → ℕ → ℕ → ℕ
address a b c d = a * 2 ^ 24 + b * 2 ^ 16 + c * 2 ^ 8 + d

abbrev between : ℕ → ℕ → ℕ → Bool
between lo hi n = leb lo n && leb n hi

-- 127.0.0.0/8, 10.0.0.0/8, 172.16.0.0/12, 192.168.0.0/16, 169.254.0.0/16, 224.0.0.0/24 and 0.0.0.0.
abbrev pub blocked_range : ℕ → Bool
blocked_range n =
    between 0x7f000000 0x7fffffff n
    || (between 0x0a000000 0x0affffff n
        || between 0xac100000 0xac1fffff n
        || between 0xc0a80000 0xc0a8ffff n)
    || between 0xa9fe0000 0xa9feffff n
    || between 0xe0000000 0xe00000ff n
    || leb n 0

module _ (a b c d : ℕ) (p : a < 256) (q : b < 256) (r : c < 256) (t : d < 256) where
  loopback : nat_beq a 127 ≡ between 0x7f000000 0x7fffffff (address a b c d)
  loopback = ground arith

  ten : nat_beq a 10 ≡ between 0x0a000000 0x0affffff (address a b c d)
  ten = ground arith

  one_seven_two :
      (nat_beq a 172 && nat_beq (b / 16) 1) ≡ between 0xac100000 0xac1fffff (address a b c d)
  one_seven_two = ground arith

  one_nine_two : (nat_beq a 192 && nat_beq b 168) ≡ between 0xc0a80000 0xc0a8ffff (address a b c d)
  one_nine_two = ground arith

  link_local : (nat_beq a 169 && nat_beq b 254) ≡ between 0xa9fe0000 0xa9feffff (address a b c d)
  link_local = ground arith

  multicast :
      (nat_beq a 224 && nat_beq b 0 && nat_beq c 0)
      ≡ between 0xe0000000 0xe00000ff (address a b c d)
  multicast = ground arith

  unspecified : (nat_beq a 0 && nat_beq b 0 && nat_beq c 0 && nat_beq d 0) ≡ leb (address a b c d) 0
  unspecified = ground arith

-- An IPv4 address is treated as private exactly if it lies in 127.0.0.0/8, 10.0.0.0/8,
-- 172.16.0.0/12, 192.168.0.0/16, 169.254.0.0/16 or 224.0.0.0/24, or is 0.0.0.0.
pub is_private_ip-range :
    (a b c d : ℕ)
    → a < 256
    → b < 256
    → c < 256
    → d < 256
    → is_private_ip (v4 a b c d) ≡ blocked_range (address a b c d)
unfolding is_private_ip
is_private_ip-range a b c d p q r s = rw (
  loopback a b c d p q r s,
  ten a b c d p q r s,
  one_seven_two a b c d p q r s,
  one_nine_two a b c d p q r s,
  link_local a b c d p q r s,
  multicast a b c d p q r s,
  unspecified a b c d p q r s,
)
