-- ===== src/ClientIp.antt =====
-- clientIP of internal/pingclaw/handlers.go: the address that sign-in attempts are counted by.
use pingclaw_server.Prelude.{
  ℕ, ◌≡◌, refl, Bool, true, ◌||◌, Option, none, some, [], ◌∷◌, ◌++◌, Text, codes, if◌then◌else◌,
  nat_beq, ◌==◌, any,
}
use pingclaw_server.Text.{cut_last, cut_first, trim_space}
use pingclaw_server.Text.Cut.{lacks, cut_last-append}

pub record Request : Type 0 where
  pub forwarded_for : Text
  pub remote_addr : Text

abbrev occurs : ℕ → Text → Bool
occurs c s = any (λ x. nat_beq x c) s

-- The first "]" closes the host, and nothing stands between it and the last colon.
abbrev closed : Option (Text × Text) → Option Text
closed none = none
closed (some (host, rest)) = if rest == [] then some host else none

-- The host of net.SplitHostPort from what stands before and after the last colon; `none` is an
-- error.
abbrev host_of : Option (Text × Text) → Option Text
host_of none = none
host_of (some ([], port)) = if occurs b'[' port || occurs b']' port then none else some []
host_of (some (c ∷ host, port)) =
    if occurs b'[' port || occurs b']' port || occurs b'[' host
    then none
    else if nat_beq c b'['
    then closed (cut_first b']' host)
    else if occurs b':' (c ∷ host) || occurs b']' (c ∷ host)
    then none
    else some (c ∷ host)

abbrev or_whole : Text → Option Text → Text
or_whole addr none = addr
or_whole addr (some host) = host

abbrev last_entry : Text → Option (Text × Text) → Text
last_entry xff none = trim_space xff
last_entry xff (some (before, last)) = trim_space last

-- The last entry of X-Forwarded-For, or the host of RemoteAddr if there is no such header.
unfoldable pub client_ip : Request → Text
client_ip r =
    if r.forwarded_for == []
    then or_whole r.remote_addr (host_of (cut_last b':' r.remote_addr))
    else last_entry r.forwarded_for (cut_last b',' r.forwarded_for)

-- Whatever a client puts in front of what the load balancer appends to X-Forwarded-For, and
-- wherever it connects from, the address is the one that the load balancer appended.
pub client_ip-append :
    (forged appended remote : Text)
    → lacks b',' appended ≡ true
    → client_ip (record { forwarded_for = forged ++ b',' ∷ appended; remote_addr = remote })
      ≡ trim_space appended
unfolding client_ip
client_ip-append [] appended remote h = rw (cut_last-append b',' [] appended h)
client_ip-append (c ∷ forged) appended remote h = rw (cut_last-append b',' (c ∷ forged) appended h)

remote_v6 :
    client_ip (record { forwarded_for = []; remote_addr = codes "[::1]:5000" }) ≡ codes "::1"
unfolding client_ip cut_last cut_first
remote_v6 = refl

remote_v4 :
    client_ip (record { forwarded_for = []; remote_addr = codes "10.0.0.7:5000" })
    ≡ codes "10.0.0.7"
unfolding client_ip cut_last
remote_v4 = refl
