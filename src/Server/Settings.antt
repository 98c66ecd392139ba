-- ===== src/Server/Settings.antt =====
-- What main of cmd/pingclaw-server/main.go reads from its flags and the environment.
use pingclaw_server.Prelude.{
  ℕ, Bool, zero, suc, ◌+◌, ◌-◌, ◌*◌, ◌%◌, ◌^◌, ◌≤◌, ◌<◌, ◌≡◌, refl, Option, none, some, List, [],
  ◌∷◌, map, arith, Text, String, codes, nat_beq, ltb, leb, if◌then◌else◌,
}
use pingclaw_server.Prelude.Int.{ℤ, pos, negsuc}
use pingclaw_server.Text.{trim_space}
use pingclaw_server.Text.Number.{
  Parsed, value, range, syntax, parse_uint, max_int64, max_uint64, format_int, format_uint,
}
use pingclaw_server.Text.Number.RoundTrip.{
  InInt64, StartsWithDigit, format_uint-StartsWithDigit, parse_uint-format_uint,
}
use pingclaw_server.Auth.{minutes}
use pingclaw_server.Account.{Config}
use pingclaw_server.OAuth.{OAuthConfig}

-- os.Getenv: a variable that is not set reads as the empty text.
abbrev pub Environment : Type 0
Environment = Text → Text

abbrev text_or : Text → Text → Text
text_or fallback [] = fallback
text_or fallback (c ∷ v) = c ∷ v

unfoldable pub env_or_default : Environment → String → String → Text
env_or_default getenv key fallback = text_or (codes fallback) (getenv (codes key))

-- strconv.Atoi; `none` is its error.
abbrev above : Parsed → Option ℤ
above (value n) = if ltb max_int64 n then none else some (pos n)
above range = none
above syntax = none

abbrev below : Parsed → Option ℤ
below (value zero) = some (pos 0)
below (value (suc n)) = if ltb max_int64 n then none else some (negsuc n)
below range = none
below syntax = none

unfoldable pub atoi : Text → Option ℤ
atoi [] = none
atoi (c ∷ s) =
    if nat_beq c b'-'
    then below (parse_uint s)
    else if nat_beq c b'+'
    then above (parse_uint s)
    else above (parse_uint (c ∷ s))

abbrev number_or : ℤ → Option ℤ → ℤ
number_or fallback none = fallback
number_or fallback (some n) = n

-- An empty value is no number either.
unfoldable pub env_int : Environment → String → ℤ → ℤ
unfolding atoi
env_int getenv key fallback = number_or fallback (atoi (getenv (codes key)))

-- strings.Split at a comma.
abbrev first_longer : ℕ → List Text → List Text
first_longer c [] = (c ∷ []) ∷ []
first_longer c (s ∷ parts) = (c ∷ s) ∷ parts

unfoldable pub split_commas : Text → List Text
split_commas [] = [] ∷ []
split_commas (c ∷ s) =
    let parts = split_commas s in if nat_beq c b',' then [] ∷ parts else first_longer c parts

-- An int64 that a computation without overflow check leaves.
abbrev pub to_int64 : ℕ → ℤ
to_int64 n = let r = n % 2 ^ 64 in if leb r max_int64 then pos r else negsuc (max_uint64 - r)

-- time.Duration(v) * time.Second, if v is positive.
abbrev pub seconds_if_positive : ℤ → Option ℤ
seconds_if_positive (pos zero) = none
seconds_if_positive (pos (suc n)) = some (to_int64 (suc n * 10 ^ 9))
seconds_if_positive (negsuc n) = none

pub record Settings : Type 0 where
  pub port : Text
  pub per_ip_per_hour : ℤ
  pub location_post_per_minute : ℤ
  pub location_get_per_minute : ℤ
  pub chatgpt_url : Text
  pub oauth : OAuthConfig
  pub delivery_timeout : Option ℤ
  pub delivery_retry_delay : Option ℤ
  pub apple_audiences : List Text
  pub google_audiences : List Text

-- `port_flag` is the value of --port, empty if it is not given.
unfoldable pub settings : Text → Environment → Settings
unfolding env_or_default env_int split_commas
settings port_flag getenv = record {
  port = text_or (env_or_default getenv "PORT" "8080") port_flag;
  per_ip_per_hour = env_int getenv "RATE_LIMIT_IP_PER_HOUR" (pos 10);
  location_post_per_minute = env_int getenv "RATE_LIMIT_LOC_POST_PER_MIN" (pos 30);
  location_get_per_minute = env_int getenv "RATE_LIMIT_LOC_GET_PER_MIN" (pos 60);
  chatgpt_url = env_or_default getenv "CHATGPT_GPT_URL" "";
  oauth = record {
    client_id = getenv (codes "OAUTH_CLIENT_ID");
    client_secret = getenv (codes "OAUTH_CLIENT_SECRET");
    redirect_uri = getenv (codes "OAUTH_REDIRECT_URI");
  };
  delivery_timeout =
      seconds_if_positive (env_int getenv "OPENCLAW_DELIVERY_TIMEOUT_SECONDS" (pos 0));
  delivery_retry_delay =
      seconds_if_positive (env_int getenv "OPENCLAW_DELIVERY_RETRY_DELAY_SECONDS" (pos 0));
  apple_audiences =
      map trim_space (split_commas (env_or_default getenv "APPLE_BUNDLE_ID" "me.pingclaw.app"));
  google_audiences = getenv (codes "GOOGLE_CLIENT_ID") ∷ getenv (codes "GOOGLE_IOS_CLIENT_ID") ∷ [];
}

settings_unset : (settings [] (λ key. [])).location_get_per_minute ≡ pos 60
unfolding settings
settings_unset = refl

split_two : map trim_space (split_commas (codes "a.b, c")) ≡ codes "a.b" ∷ codes "c" ∷ []
unfolding split_commas trim_space
split_two = refl

atoi_unsigned :
    (t : Text) (n : ℕ)
    → StartsWithDigit t
    → parse_uint t ≡ value n
    → n ≤ max_int64
    → atoi t ≡ some (pos n)
unfolding atoi
atoi_unsigned [] n (d, s, e, h) p q = ground arith
atoi_unsigned (c ∷ t) n (d, s, e, h) p q = ground arith

pub atoi-format_int : (z : ℤ) → InInt64 z → atoi (format_int z) ≡ some z
unfolding format_int
atoi-format_int (pos n) h =
    atoi_unsigned (format_uint n) n (format_uint-StartsWithDigit n)
      (parse_uint-format_uint n (omega arith)) h
atoi-format_int (negsuc n) h =
    unfold atoi in rw (parse_uint-format_uint (n + 1) (omega arith)) (ground arith)

-- A variable that holds an int64 in decimal is read as that number, each by its own key, whatever
-- the flags and the other variables are.
pub settings_limits :
    (port_flag : Text) (getenv : Environment) (a b c : ℤ)
    → InInt64 a
    → InInt64 b
    → InInt64 c
    → getenv (codes "RATE_LIMIT_IP_PER_HOUR") ≡ format_int a
    → getenv (codes "RATE_LIMIT_LOC_POST_PER_MIN") ≡ format_int b
    → getenv (codes "RATE_LIMIT_LOC_GET_PER_MIN") ≡ format_int c
    → ((settings port_flag getenv).per_ip_per_hour ≡ a)
      × ((settings port_flag getenv).location_post_per_minute ≡ b)
      × ((settings port_flag getenv).location_get_per_minute ≡ c)
unfolding settings env_int
settings_limits port_flag getenv a b c ia ib ic ea eb ec = (
  rw (ea, atoi-format_int a ia) refl,
  rw (eb, atoi-format_int b ib) refl,
  rw (ec, atoi-format_int c ic) refl,
)

-- A delivery timeout of up to 292 years is set to that many seconds and is not negative.
pub settings_timeout :
    (port_flag : Text) (getenv : Environment) (n : ℕ)
    → 0 < n
    → n * 10 ^ 9 ≤ max_int64
    → getenv (codes "OPENCLAW_DELIVERY_TIMEOUT_SECONDS") ≡ format_int (pos n)
    → (settings port_flag getenv).delivery_timeout ≡ some (pos (n * 10 ^ 9))
unfolding settings env_int
settings_timeout port_flag getenv zero p q e = absurd (omega arith)
settings_timeout port_flag getenv (suc n) p q e =
    rw (e, atoi-format_int (pos (suc n)) (omega arith)) (ground arith)

-- NewHandler: a limit that is not positive is replaced.
abbrev pub limit_or : ℕ → ℤ → ℕ
limit_or default (pos zero) = default
limit_or default (pos (suc n)) = suc n
limit_or default (negsuc n) = default

-- The limiters count per hour and per minute.
unfoldable pub new_handler : Settings → Bool → Config
new_handler st local_mode = record {
  limiter = record { window = minutes 60 };
  limiter_fast = record { window = minutes 1 };
  per_ip_per_hour = limit_or 10 st.per_ip_per_hour;
  location_post_per_minute = limit_or 30 st.location_post_per_minute;
  location_get_per_minute = limit_or 60 st.location_get_per_minute;
  chatgpt_url = st.chatgpt_url;
  local_mode = local_mode;
}

limit_or_positive : (default : ℕ) (z : ℤ) → 0 < default → 0 < limit_or default z
limit_or_positive default (pos zero) p = p
limit_or_positive default (pos (suc n)) p = omega arith
limit_or_positive default (negsuc n) p = p

-- Whatever the environment holds, each limit of the handler lets at least one event through.
pub new_handler_limits :
    (port_flag : Text) (getenv : Environment) (local_mode : Bool)
    → (0 < (new_handler (settings port_flag getenv) local_mode).per_ip_per_hour)
      × (0 < (new_handler (settings port_flag getenv) local_mode).location_post_per_minute)
      × (0 < (new_handler (settings port_flag getenv) local_mode).location_get_per_minute)
unfolding new_handler
new_handler_limits port_flag getenv local_mode = (
  limit_or_positive 10 (settings port_flag getenv).per_ip_per_hour (omega arith),
  limit_or_positive 30 (settings port_flag getenv).location_post_per_minute (omega arith),
  limit_or_positive 60 (settings port_flag getenv).location_get_per_minute (omega arith),
)
