-- ===== src/Account/WebCode.antt =====
-- WebCode and WebLogin of internal/pingclaw/handlers.go together.
use pingclaw_server.Prelude.{
  ℕ, suc, ◌+◌, ◌*◌, ◌^◌, ◌≤◌, ◌≡◌, ◌≢◌, refl, ◌∙◌, ap, true, false, none, some, List, [], ◌∷◌, map,
  arith, Text, codes, ==_iff, Bool-cases, inl, inr,
}
use pingclaw_server.Kv.{Entry, expired, Reply, found, key_not_found, failed}
use pingclaw_server.World.{World, at, kv_set, kv_get_del}
use pingclaw_server.World.Laws.{IsHealthy}
use pingclaw_server.RateLimit.{Verdict, allow}
use pingclaw_server.RateLimit.Frame.{allow-frame, allow-db, allow-clock, allow-IsHealthy}
use pingclaw_server.Token.{Env, hash_token, generate_token, generate_web_code, symbol}
use pingclaw_server.Token.Codes.{web_code_normal}
use pingclaw_server.Auth.Rotation.{rotate_token-frame, rotate_token_works}
use pingclaw_server.Db.{is_some, user_with, token_with}
use pingclaw_server.Http.{str, obj, end, field, write_json}
use pingclaw_server.Auth.{rotate_token}
use pingclaw_server.Account.{
  Config, session_issued, ip_key, redeem, login_checked, login_with, web_code, web_login,
  web_code_key, normal_code,
}

redeem-frame :
    (env : Env) (bytes : List ℕ) (r : Reply Text) (w : World) (code : Text)
    → (redeem env bytes r w).1.kv (web_code_key code) ≡ w.kv (web_code_key code)
unfolding redeem
redeem-frame env bytes (found []) w code = refl
redeem-frame env bytes (found (c ∷ user)) w code =
    rotate_token-frame env bytes (c ∷ user) (codes "web_session") (codes "ws_") w
      (web_code_key code) (λ h. refl)
redeem-frame env bytes key_not_found w code = refl
redeem-frame env bytes failed w code = refl

-- Past the limiter the code is taken out of the store, whatever comes of it.
login_checked_consumes :
    (env : Env) (bytes : List ℕ) (code : Text) (v : Verdict) (w : World)
    → w.works 0 ≡ true
    → v.allowed ≡ true
    → (login_checked env bytes code v w).1.kv (web_code_key code) ≡ none
unfolding login_checked kv_get_del
login_checked_consumes env bytes code v w up ok = rw ok (
    redeem-frame env bytes (kv_get_del (web_code_key code) w).0 (kv_get_del (web_code_key code) w).1
      code
    ∙ ground (arith, ==_iff (web_code_key code) (web_code_key code)))

-- After a sign-in that succeeded, the code is not in the store any more.
code_consumed :
    (env : Env) (cfg : Config) (bytes : List ℕ) (ip code : Text) (w : World)
    → IsHealthy w
    → (login_with env cfg bytes ip code w).0.status ≡ 200
    → (login_with env cfg bytes ip code w).1.kv (web_code_key code) ≡ none
unfolding login_with
code_consumed env cfg bytes ip [] w u e = absurd (omega arith)
code_consumed env cfg bytes ip (c ∷ code) w u e =
    let m = allow cfg.limiter (ip_key ip) cfg.per_ip_per_hour w in
    elim (Bool-cases m.0.allowed) [
      | inl ok ↦
          login_checked_consumes env bytes (c ∷ code) m.0 m.1
            ((allow-IsHealthy cfg.limiter cfg.per_ip_per_hour (ip_key ip) w u).up 0) ok
      | inr refused ↦ absurd (unfold login_checked in (omega (arith, rw refused at e)))
    ]

login_checked_absent :
    (env : Env) (bytes : List ℕ) (code : Text) (v : Verdict) (w : World)
    → w.kv (web_code_key code) ≡ none
    → (login_checked env bytes code v w).0.status ≢ 200
unfolding login_checked redeem kv_get_del
login_checked_absent env bytes code v w e = ground arith

-- A code that is not in the store signs nobody in, under any schedule of failures.
login_absent :
    (env : Env) (cfg : Config) (bytes : List ℕ) (ip code : Text) (w : World)
    → w.kv (web_code_key code) ≡ none
    → (login_with env cfg bytes ip code w).0.status ≢ 200
unfolding login_with
login_absent env cfg bytes ip [] w e = λ s. absurd (omega arith)
login_absent env cfg bytes ip (c ∷ code) w e =
    login_checked_absent env bytes (c ∷ code) _ _
      (allow-frame cfg.limiter cfg.per_ip_per_hour (ip_key ip) w (web_code_key (c ∷ code)) refl ∙ e)

-- A web code signs in once: when a sign-in has succeeded, while every call works, the next request
-- with the same code does not, from whatever address and however the code was typed.
pub web_login_once :
    (env : Env) (cfg : Config) (bytes bytes' : List ℕ) (ip ip' typed typed' : Text) (w : World)
    → IsHealthy w
    → normal_code env typed ≡ normal_code env typed'
    → (web_login env cfg bytes ip (some typed) w).0.status ≡ 200
    → (web_login env cfg bytes' ip'
        (some typed')
        (web_login env cfg bytes ip (some typed) w).1).0.status
      ≢ 200
unfolding web_login
web_login_once env cfg bytes bytes' ip ip' typed typed' w u same e =
    login_absent env cfg bytes' ip' (normal_code env typed') _
      (rw (← same) (code_consumed env cfg bytes ip (normal_code env typed) w u e))

redeem_live :
    (env : Env) (bytes : List ℕ) (c : ℕ) (code user : Text) (e : Entry) (v : Verdict) (w : World)
    → w.works 0 ≡ true
    → v.allowed ≡ true
    → w.kv (web_code_key code) ≡ some e
    → expired e w.clock ≡ false
    → e.value ≡ c ∷ user
    → (login_checked env bytes code v w).0
      ≡ session_issued
          (c ∷ user)
          (rotate_token env bytes
            (c ∷ user)
            (codes "web_session")
            (codes "ws_")
            (kv_get_del (web_code_key code) w).1).0
unfolding login_checked redeem kv_get_del
redeem_live env bytes c code user e v w up ok p q r = rw (ok, up, p, q, r)

login_live :
    (env : Env) (cfg : Config) (bytes : List ℕ) (ip : Text) (c d : ℕ) (code user : Text) (e : Entry)
    (w : World)
    → IsHealthy w
    → (allow cfg.limiter (ip_key ip) cfg.per_ip_per_hour w).0.allowed ≡ true
    → w.kv (web_code_key (d ∷ code)) ≡ some e
    → expired e w.clock ≡ false
    → e.value ≡ c ∷ user
    → (w' : World) × ((login_with env cfg bytes ip (d ∷ code) w).0
        ≡ session_issued
            (c ∷ user)
            (rotate_token env bytes (c ∷ user) (codes "web_session") (codes "ws_") w').0)
      × IsHealthy w'
      × (w'.db ≡ w.db)
unfolding login_with kv_get_del
login_live env cfg bytes ip c d code user e w u ok p q r =
    let l = cfg.limiter in
    let max = cfg.per_ip_per_hour in
    let m = allow l (ip_key ip) max w in
    (
      (kv_get_del (web_code_key (d ∷ code)) m.1).1,
      redeem_live env bytes c (d ∷ code) user e m.0 m.1
          ((allow-IsHealthy l max (ip_key ip) w u).up 0) ok
          (allow-frame l max (ip_key ip) w (web_code_key (d ∷ code)) refl ∙ p)
          (rw (allow-clock l max (ip_key ip) w) q) r,
      unfold kv_get_del in record { up = λ n. (allow-IsHealthy l max (ip_key ip) w u).up (suc n) },
      allow-db l max (ip_key ip) w,
    )

module _ (env : Env) (cfg : Config) (b c : ℕ) (bytes bytes' : List ℕ) (ip user kind : Text)
    (later : ℕ) (w : World) where
  -- After the session has asked for the code.
  abbrev asked : World
  asked = at later (web_code (b ∷ bytes) (record { user_id = c ∷ user; kind = kind }) w).1

  code_accepted :
      IsHealthy w
      → later ≤ w.clock + 300 * 10 ^ 9
      → (allow cfg.limiter (ip_key ip) cfg.per_ip_per_hour asked).0.allowed ≡ true
      → (w' : World) × ((web_login env cfg bytes' ip (some (generate_web_code (b ∷ bytes))) asked).0
          ≡ session_issued
              (c ∷ user)
              (rotate_token env bytes' (c ∷ user) (codes "web_session") (codes "ws_") w').0)
        × IsHealthy w'
        × (w'.db ≡ w.db)
  unfolding web_login web_code kv_set
  code_accepted u within ok = rw (web_code_normal env.wide_upper (b ∷ bytes)) (
      unfold generate_web_code in
      login_live env cfg bytes' ip c (symbol b) (map symbol bytes) user
        (record { value = c ∷ user; expires_at = some (w.clock + 300 * 10 ^ 9) }) _
        (record { up = λ n. u.up (suc n) }) ok
        (ground (
          arith,
          u.up 0,
          ==_iff (web_code_key (symbol b ∷ map symbol bytes))
              (web_code_key (symbol b ∷ map symbol bytes)),
        ))
        (ground arith) refl)

-- The code that a session of a user whose identifier is not empty asks for signs in that user, within
-- five minutes, while every call works and the limiter lets the request pass: the answer is 200 with
-- the new web session and the user's identifier, if the user is still there and no token has the hash
-- of the new one.
pub web_code-web_login :
    (env : Env) (cfg : Config) (b c : ℕ) (bytes bytes' : List ℕ) (ip user kind : Text) (later : ℕ)
    (w : World)
    → IsHealthy w
    → w.clock ≤ later
    → later ≤ w.clock + 300 * 10 ^ 9
    → (allow cfg.limiter (ip_key ip) cfg.per_ip_per_hour (
        at later (web_code (b ∷ bytes) (record { user_id = c ∷ user; kind = kind }) w).1)).0.allowed
      ≡ true
    → is_some (user_with (c ∷ user) w.db) ≡ true
    → token_with (hash_token env (generate_token (codes "ws_") bytes')) w.db ≡ none
    → (web_login env cfg bytes' ip
        (some (generate_web_code (b ∷ bytes)))
        (at later (web_code (b ∷ bytes) (record { user_id = c ∷ user; kind = kind }) w).1)).0
      ≡ write_json 200 (
          obj (
            field "web_session"
              (str (generate_token (codes "ws_") bytes'))
              (field "user_id" (str (c ∷ user)) end)))
web_code-web_login env cfg b c bytes bytes' ip user kind later w u start within ok known fresh =
    let (w', answered, healthy, same) =
      code_accepted env cfg b c bytes bytes' ip user kind later w u within ok in
    answered
    ∙ ap (session_issued (c ∷ user)) (
        rotate_token_works env bytes' (c ∷ user) (codes "web_session") (codes "ws_") w' healthy
          (rw same known) refl (rw same fresh))
