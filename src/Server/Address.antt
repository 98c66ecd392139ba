-- ===== src/Server/Address.antt =====
-- lanIP and printLocalURLs of cmd/pingclaw-server/main.go. The interfaces of the machine, and what the
-- net package says of their addresses, are given.
use pingclaw_server.Prelude.{
  ◌≡◌, refl, Bool, true, false, not, ◌&&◌, Option, none, some, List, [], ◌∷◌, ◌++◌, Text, codes,
  if◌then◌else◌,
}

-- An address of an interface: whether it is an *net.IPNet, whether To4 gives an address, IsLoopback
-- and String.
pub record Address : Type 0 where
  pub is_net : Bool
  pub is_v4 : Bool
  pub is_loopback : Bool
  pub shown : Text

pub record Interface : Type 0 where
  pub is_up : Bool
  pub is_loopback : Bool
  pub addresses : List Address

abbrev pub is_lan : Address → Bool
is_lan a = a.is_net && a.is_v4 && not a.is_loopback

-- The first address of an interface that serves.
abbrev pub lan_of : List Address → Option Text
lan_of [] = none
lan_of (a ∷ more) = if is_lan a then some a.shown else lan_of more

abbrev or_else : Option Text → Option Text → Option Text
or_else none o = o
or_else (some a) o = some a

abbrev pub reachable : Interface → Bool
reachable i = i.is_up && not i.is_loopback

-- `none` is the empty text.
unfoldable pub lan_ip : List Interface → Option Text
lan_ip [] = none
lan_ip (i ∷ rest) =
    let further = lan_ip rest in
    if reachable i then or_else (lan_of i.addresses) further else further

abbrev lan_line : Text → Option Text → List Text
lan_line port none = []
lan_line port (some ip) =
    (codes "  http://" ++ ip ++ codes ":" ++ port ++ codes "  (use this in the app)") ∷ []

-- The lines that are printed.
unfoldable pub local_urls : Text → List Interface → List Text
unfolding lan_ip
local_urls port interfaces =
    []
    ∷ codes "Listening on:"
    ∷ (codes "  http://localhost:" ++ port)
    ∷ (lan_line port (lan_ip interfaces) ++ ([] ∷ []))

abbrev wifi : Interface
wifi = record {
  is_up = true;
  is_loopback = false;
  addresses =
      record { is_net = true; is_v4 = false; is_loopback = false; shown = codes "fe80::1" }
      ∷ record { is_net = true; is_v4 = true; is_loopback = false; shown = codes "192.168.1.5" }
      ∷ [];
}

lan_ip-wifi : lan_ip (record wifi { is_loopback = true } ∷ wifi ∷ []) ≡ some (codes "192.168.1.5")
unfolding lan_ip
lan_ip-wifi = refl
