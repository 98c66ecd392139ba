-- ===== src/PrivateIp/Dialing.antt =====
-- isPrivateHost and the DialContext of safeHTTPClient (internal/pingclaw/handlers.go) for every
-- resolver.
use pingclaw_server.Prelude.{
  ◌≡◌, refl, true, false, none, some, List, [], ◌∷◌, All, arith, Text, if◌then◌else◌, Bool-cases,
  Option-cases, ◌⊎◌, inl, inr,
}
use pingclaw_server.PrivateIp.{
  Ip, Net, is_private_ip, is_blocked, any_blocked, is_local_name, is_private_host, Dialled, refused,
  given, pinned, pin, dial_context,
}

-- A resolved address that keeps a connection from being made: it parses, and is private.
abbrev pub IsBlocked : Net → Text → Type 0
IsBlocked net s = (a : Ip) × (net.parse_ip s ≡ some a) × (is_private_ip a ≡ true)

-- Any other: it does not parse, or is public.
abbrev pub IsFree : Net → Text → Type 0
IsFree net s =
    (net.parse_ip s ≡ none) ⊎ ((a : Ip) × (net.parse_ip s ≡ some a) × (is_private_ip a ≡ false))

-- One of the addresses is blocked.
abbrev pub Blocks : Net → List Text → Type 0
Blocks net [] = ⊥
Blocks net (s ∷ ips) = IsBlocked net s ⊎ Blocks net ips

-- What a connection that was or was not made says of the name's resolution.
abbrev pub Allows : Net → Text → Text → Dialled → Type 0
Allows net host port refused =
    (net.lookup_host host ≡ none)
    ⊎ ((ips : List Text) × (net.lookup_host host ≡ some ips) × Blocks net ips)
Allows net host port given = net.lookup_host host ≡ some []
Allows net host port (pinned ip port') =
    (port' ≡ port)
    × ((ips : List Text) × (net.lookup_host host ≡ some (ip ∷ ips)) × All (IsFree net) (ip ∷ ips))

module _ (net : Net) where
  address_cases : (s : Text) → IsBlocked net s ⊎ IsFree net s
  address_cases s = elim (Option-cases (net.parse_ip s)) [
    | inl unparsed ↦ inr (inl unparsed)
    | inr (a, parsed) ↦ elim (Bool-cases (is_private_ip a)) [
      | inl private ↦ inl (a, parsed, private)
      | inr public ↦ inr (inr (a, parsed, public))
    ]
  ]

  is_blocked-IsBlocked : (s : Text) → IsBlocked net s → is_blocked (net.parse_ip s) ≡ true
  is_blocked-IsBlocked s (a, parsed, private) = rw (parsed, private) refl

  is_blocked-IsFree : (s : Text) → IsFree net s → is_blocked (net.parse_ip s) ≡ false
  is_blocked-IsFree s (inl unparsed) = rw unparsed refl
  is_blocked-IsFree s (inr (a, parsed, public)) = rw (parsed, public) refl

  -- The test of the code decides.
  any_blocked-cases :
      (ips : List Text)
      → ((any_blocked net ips ≡ true) × Blocks net ips)
        ⊎ ((any_blocked net ips ≡ false) × All (IsFree net) ips)
  any_blocked-cases [] = inr (refl, tt)
  any_blocked-cases (s ∷ ips) = elim (address_cases s) [
    | inl b ↦ inl (rw (is_blocked-IsBlocked s b) refl, inl b)
    | inr f ↦ elim (any_blocked-cases ips) [
      | inl (e, bs) ↦ inl (rw (is_blocked-IsFree s f, e) refl, inr bs)
      | inr (e, fs) ↦ inr (rw (is_blocked-IsFree s f, e) refl, (f, fs))
    ]
  ]

  module _ (host port : Text) where
    resolved-Allows :
        (ips : List Text)
        → net.lookup_host host ≡ some ips
        → Allows net host port (if any_blocked net ips then refused else pin ips port)
    resolved-Allows [] found = found
    resolved-Allows (ip ∷ ips) found = elim (any_blocked-cases (ip ∷ ips)) [
      | inl (e, blocks) ↦ rw e (inr (ip ∷ ips, found, blocks))
      | inr (e, free) ↦ rw e (refl, (ips, found, free))
    ]

-- Outside local mode a connection is made to the first resolved address, pinned, with the port that
-- was asked for, and only if no resolved address that parses is private. It is refused only if the
-- name does not resolve or some resolved address parses and is private. It is left to the dialer's
-- own resolution, unpinned, only if the resolver reports no error and no address.
pub dial_context_pinned :
    (net : Net) (host port : Text)
    → Allows net host port (dial_context net false (some (host, port)))
unfolding dial_context
dial_context_pinned net host port = elim (Option-cases (net.lookup_host host)) [
  | inl failed ↦ rw failed (inl failed)
  | inr (ips, found) ↦ rw found (resolved-Allows net host port ips found)
]

-- A host passes the check at registration only if it is no local name and resolves to addresses of
-- which none that parses is private; a name that does not resolve is rejected.
pub is_private_host_passes :
    (net : Net) (host : Text)
    → is_private_host net host ≡ false
    → (is_local_name net host ≡ false)
      × (ips : List Text) × (net.lookup_host host ≡ some ips)
      × (any_blocked net ips ≡ false)
unfolding is_private_host
is_private_host_passes net host e = elim (Option-cases (net.lookup_host host)) [
  | inl failed ↦ absurd (ground arith)
  | inr (ips, found) ↦ (ground arith, ips, found, ground arith)
]

-- An address that net.ParseIP does not parse, such as one with an IPv6 zone, is never blocked: if it
-- is all that a host resolves to, the connection is made to it outside local mode too.
pub dial_context_unparsed :
    (net : Net) (host port ip : Text)
    → net.lookup_host host ≡ some (ip ∷ [])
    → net.parse_ip ip ≡ none
    → (dial_context net false (some (host, port)) ≡ pinned ip port)
      × (is_private_host net host ≡ is_local_name net host)
unfolding dial_context is_private_host
dial_context_unparsed net host port ip found unparsed = (rw (found, unparsed), ground arith)
