-- ===== src/Token.antt =====
-- GenerateToken, hashToken and generateWebCode of internal/pingclaw/handlers.go. The bytes that
-- rand.Read fills in are an argument, and so is SHA-256.
pub mod Codes
use pingclaw_server.Prelude.{ℕ, ◌%◌, List, ◌++◌, map, Text, codes, get_or}
use pingclaw_server.Text.{hex_encode}

-- What the server takes from the libraries that it does not implement.
pub record Env : Type 0 where
  pub sha256 : Text → List ℕ
  pub wide_upper : ℕ → ℕ
  -- time.Time.UTC().Format(time.RFC3339)
  pub rfc3339 : ℕ → Text

unfoldable pub generate_token : Text → List ℕ → Text
generate_token prefix bytes = prefix ++ hex_encode bytes

unfoldable pub hash_token : Env → Text → Text
hash_token env token = hex_encode (env.sha256 token)

abbrev pub alphabet : Text
alphabet = codes "ABCDEFGHJKLMNPQRSTUVWXYZ23456789"

-- alphabet[b % len(alphabet)]
unfoldable pub symbol : ℕ → ℕ
symbol b = get_or alphabet (b % 32) 0

unfoldable pub generate_web_code : List ℕ → Text
unfolding symbol
generate_web_code bytes = map symbol bytes
