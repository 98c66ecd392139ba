-- ===== src/Examples/Exports.antt =====
-- The data export at concrete values.
use pingclaw_server.Prelude.{ℕ, ◌≡◌, refl, none, some, List, [], ◌∷◌, map, Text, codes, ◌==◌}
use mathlib.Core.List.{Perm}
use pingclaw_server.Db.{User, Identity, Token, Destination}
use pingclaw_server.Db.Table.{select}
use pingclaw_server.World.{World}
use pingclaw_server.Http.{Response, str}
use pingclaw_server.Http.Reading.{body_of, at, elements, column}
use pingclaw_server.Location.{LocationJson}
use pingclaw_server.Export.{get_my_data}
use pingclaw_server.Export.Order.{IsSorted}
use pingclaw_server.Export.Rows.{get_my_data_private, get_my_data_complete}
use pingclaw_server.Examples.{alice, alice_row, key_row, db, world, session}

-- Locations are never stored here.
abbrev no_json : LocationJson
no_json = record { marshal = λ loc. []; unmarshal = λ t. none }

abbrev scanned : ℕ → Text
scanned t = codes "then"

abbrev bob_row : User
bob_row = record { user_id = codes "usr_b"; created_at = 5; updated_at = 5 }

-- The same server with a second user, who has an API key.
abbrev crowded : World
crowded = record world {
  db = record db {
    users = bob_row ∷ alice_row ∷ [];
    tokens = record key_row { token_hash = codes "6b"; user_id = codes "usr_b" } ∷ key_row ∷ [];
  };
}

-- Two servers that differ in the secrets of the gateway of one user, and in that of the other.
abbrev gateway : Text → Text → Destination
gateway user_id secret = record {
  destination_id = codes "dest_1";
  user_id = user_id;
  gateway_url = codes "https://h";
  hook_token = secret;
  hook_path = codes "pingclaw";
  action = codes "wake";
  session_key = secret;
  created_at = 7;
  updated_at = 8;
}

abbrev one : World
one = record world { db = record db { destinations = gateway alice (codes "s1") ∷ [] } }

abbrev two : World
two = record crowded {
  db = record crowded.db {
    destinations = gateway (codes "usr_b") (codes "s3") ∷ gateway alice (codes "s2") ∷ [];
  };
}

get_my_data_private_example :
    (get_my_data scanned no_json session two).0 ≡ (get_my_data scanned no_json session one).0
get_my_data_private_example = get_my_data_private scanned no_json session two one (record {
  works = refl;
  user = refl;
  identities = refl;
  tokens = refl;
  webhook = refl;
  gateway = (refl, (refl, (refl, (refl, (refl, refl)))));
  location = refl;
})

abbrev answered : Response
answered = (get_my_data scanned no_json session crowded).0

get_my_data_complete_example :
    (ids : List Identity) × (tokens : List Token) × (answered.status ≡ 200)
    × (column "provider" (elements (at "identities" (body_of answered)))
        ≡ map (λ (r : Identity). some (str r.provider)) ids)
    × (column "provider_sub" (elements (at "identities" (body_of answered)))
        ≡ map (λ (r : Identity). some (str r.provider_sub)) ids)
    × Perm ids (select (λ r. r.user_id == alice) crowded.db.identities)
    × IsSorted (λ (r : Identity). r.created_at) ids
    × (column "token_hash" (elements (at "tokens" (body_of answered)))
        ≡ map (λ (t : Token). some (str t.token_hash)) tokens)
    × (column "kind" (elements (at "tokens" (body_of answered)))
        ≡ map (λ (t : Token). some (str t.kind)) tokens)
    × Perm tokens (select (λ t. t.user_id == alice) crowded.db.tokens)
    × IsSorted (λ (t : Token). t.created_at) tokens
get_my_data_complete_example =
    get_my_data_complete scanned no_json session crowded alice_row (record { up = λ n. refl }) refl
