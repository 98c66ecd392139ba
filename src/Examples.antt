-- ===== src/Examples.antt =====
-- A concrete server on which the theorems are applied: one user with one API key.
mod Tokens
mod Local
mod Gateways
mod Places
mod Stores
mod Hosts
mod Codes
mod Races
mod Exports
mod Start
mod Served
use pingclaw_server.Prelude.{
  ℕ, ◌≡◌, refl, Bool, true, false, Option, none, some, List, [], ◌∷◌, Text, codes,
}
use pingclaw_server.Prelude.Int.{ℤ, pos}
use pingclaw_server.Kv.{Kv, Entry}
use pingclaw_server.Db.{Db, User, Token}
use pingclaw_server.Db.Keys.{IsValid}
use pingclaw_server.World.{World}
use pingclaw_server.World.Laws.{IsHealthy}
use pingclaw_server.Token.{Env, hash_token}
use pingclaw_server.Auth.{Session}
use pingclaw_server.Auth.Cache.{IsCoherent}
use pingclaw_server.RateLimit.{Limiter}
use pingclaw_server.Account.{Config}

-- Hashing is the identity here.
abbrev pub env : Env
env = record { sha256 = λ t. t; wide_upper = λ c. c; rfc3339 = λ t. codes "now" }

abbrev pub alice : Text
alice = codes "usr_a"

abbrev pub api_key : Text
api_key = codes "api_key"

abbrev pub old_authorization : Text
old_authorization = codes "Bearer ak_00"

abbrev pub alice_row : User
alice_row = record { user_id = alice; created_at = 0; updated_at = 0 }

-- "ak_00" is hashed to the hexadecimal digits of its characters.
abbrev pub key_row : Token
key_row = record {
  token_hash = codes "616b5f3030";
  user_id = alice;
  kind = api_key;
  label = none;
  created_at = 0;
  last_used_at = none;
}

abbrev pub db : Db
db = record {
  users = alice_row ∷ [];
  identities = [];
  tokens = key_row ∷ [];
  webhooks = [];
  destinations = [];
}

abbrev pub world : World
world = record { clock = 1000; works = λ n. true; kv = λ k. none; db = db }

abbrev pub session : Session
session = record { user_id = alice; kind = codes "web_session" }

abbrev pub config : Config
config = record {
  limiter = record { window = pos 1000000 };
  limiter_fast = record { window = pos 1000 };
  per_ip_per_hour = 10;
  location_post_per_minute = 10;
  location_get_per_minute = 10;
  chatgpt_url = [];
  local_mode = false;
}

pub world-IsHealthy : IsHealthy world
world-IsHealthy = record { up = λ n. refl }

pub world-IsCoherent : IsCoherent world
world-IsCoherent = record {
  valid = record {
    user_keys = (refl, tt);
    token_keys = (refl, tt);
    token_rows = ((refl, refl), tt);
    webhook_keys = tt;
  };
  agrees = λ h. tt;
}
