-- ===== src/Webhook/Cache.antt =====
-- The webhook of internal/pingclaw/handlers.go: PutWebhook, the cache of lookupWebhook, and
-- GetWebhook together.
use pingclaw_server.Prelude.{
  ℕ, suc, ◌≡◌, refl, ap, Bool, Option, none, some, List, [], ◌∷◌, arith, Text, ==_iff, Bool-cases,
  Option-cases, inl, inr,
}
use pingclaw_server.Text.{trim_space}
use pingclaw_server.Db.{
  Webhook, webhook_key, webhook_of, user_with, retarget, is_some, upsert_webhook,
  put_webhook as put_row,
}
use pingclaw_server.Db.Table.{find_by, find_by-map, find_by-key}
use pingclaw_server.World.{World, kv_get, kv_set, kv_del, db_query, db_exec}
use pingclaw_server.World.Laws.{IsHealthy}
use pingclaw_server.Auth.{Session}
use pingclaw_server.PrivateIp.{Net}
use pingclaw_server.Http.{Response, write_error}
use pingclaw_server.Account.{webhook_cache_key}
use pingclaw_server.Webhook.{
  save_webhook, save_unless, Url, WebhookRequest, Target, refusal, put_webhook, get_webhook,
  lookup_webhook, shown,
}

abbrev target_of : Option Webhook → Option Target
target_of none = none
target_of (some r) = some (record { url = r.url; secret = r.secret })

retarget-user_id :
    (now : ℕ) (id url secret : Text) (r : Webhook)
    → webhook_key (retarget now id url secret r) ≡ webhook_key r
retarget-user_id now id url secret r = ground arith

put_webhook_row :
    (now : ℕ) (id url secret : Text) (old : Option Webhook) (rows : List Webhook)
    → find_by webhook_key id rows ≡ old
    → target_of (find_by webhook_key id (put_row now id url secret old rows))
      ≡ some (record { url = url; secret = secret })
put_webhook_row now id url secret none rows e = ground (arith, ==_iff id id)
put_webhook_row now id url secret (some r) rows e =
    rw
      (
        find_by-map webhook_key (retarget now id url secret) (retarget-user_id now id url secret) id
            rows,
        e,
      )
      (ground (arith, find_by-key webhook_key id rows {x = r} e, ==_iff r.user_id id))

-- A webhook that is not cached is read from the database.
lookup_uncached :
    (id : Text) (c : ℕ) (url secret : Text) (w : World)
    → IsHealthy w
    → w.kv (webhook_cache_key id) ≡ none
    → target_of (webhook_of id w.db) ≡ some (record { url = c ∷ url; secret = secret })
    → (lookup_webhook id w).0 ≡ some (record { url = c ∷ url; secret = secret })
unfolding lookup_webhook kv_get kv_set db_query
lookup_uncached id c url secret w u e t = elim (Option-cases (webhook_of id w.db)) [
  | inl none_there ↦ absurd (ground arith)
  | inr (r, there) ↦
      let same : r.url ≡ c ∷ url = ground arith in
      let same' : r.secret ≡ secret = ground arith in rw (u.up 0, e, u.up 1, there, same, same')
]

-- After the registration was saved.
saved_lookup :
    (id : Text) (c : ℕ) (url secret : Text) (w : World)
    → IsHealthy w
    → (save_webhook id (c ∷ url) secret w).0.status ≡ 200
    → (lookup_webhook id (save_webhook id (c ∷ url) secret w).1).0
      ≡ some (record { url = c ∷ url; secret = secret })
unfolding save_webhook db_exec upsert_webhook kv_del
saved_lookup id c url secret w u e = elim (Bool-cases (is_some (user_with id w.db))) [
  | inl known ↦
      rw (u.up 0, known, u.up 1)
        (lookup_uncached id c url secret _ (record { up = λ n. u.up (suc (suc n)) })
          (ground (arith, ==_iff id id))
          (put_webhook_row w.clock id (c ∷ url) secret (webhook_of id w.db) w.db.webhooks refl))
  | inr unknown ↦ absurd (ground arith)
]

save_unless_lookup :
    (id url secret : Text) (r : Option Response) (w : World)
    → IsHealthy w
    → (url ≡ [] → r ≡ some (write_error 400 "url is required"))
    → ((x : Response) → r ≡ some x → x.status ≡ 400)
    → (save_unless r id url secret w).0.status ≡ 200
    → (lookup_webhook id (save_unless r id url secret w).1).0
      ≡ some (record { url = url; secret = secret })
unfolding save_unless
save_unless_lookup id url secret (some x) w u empty bad e = absurd (omega (arith, bad x refl))
save_unless_lookup id [] secret none w u empty bad e = absurd (cc (empty refl))
save_unless_lookup id (c ∷ url) secret none w u empty bad e = saved_lookup id c url secret w u e

refusal_status :
    (net : Net) (parse_url : Text → Option Url) (local_mode : Bool) (url secret : Text)
    (x : Response)
    → refusal net parse_url local_mode url secret ≡ some x
    → x.status ≡ 400
refusal_status net parse_url local_mode url secret x e = ground arith

module _ (net : Net) (parse_url : Text → Option Url) (local_mode : Bool) (req : WebhookRequest)
    (s : Session) (w : World) (u : IsHealthy w)
    (e : (put_webhook net parse_url local_mode (some req) s w).0.status ≡ 200) where
  -- The webhook that the server finds after it saved one.
  pub put_webhook-lookup_webhook :
      (lookup_webhook s.user_id (put_webhook net parse_url local_mode (some req) s w).1).0
      ≡ some (record { url = trim_space req.url; secret = trim_space req.secret })
  unfolding put_webhook
  put_webhook-lookup_webhook =
      save_unless_lookup s.user_id (trim_space req.url) (trim_space req.secret)
        (refusal net parse_url local_mode (trim_space req.url) (trim_space req.secret)) w u
        (λ p. rw p)
        (refusal_status net parse_url local_mode (trim_space req.url) (trim_space req.secret)) e

-- A registration that was answered with 200, while every call works, is what the user then reads
-- back: the URL and the secret without the white space around them, whatever was cached before.
pub put_webhook-get_webhook :
    (net : Net) (parse_url : Text → Option Url) (local_mode : Bool) (req : WebhookRequest)
    (s : Session) (w : World)
    → IsHealthy w
    → (put_webhook net parse_url local_mode (some req) s w).0.status ≡ 200
    → (get_webhook s (put_webhook net parse_url local_mode (some req) s w).1).0
      ≡ shown (some (record { url = trim_space req.url; secret = trim_space req.secret }))
unfolding put_webhook get_webhook
put_webhook-get_webhook net parse_url local_mode req s w u e =
    ap shown (put_webhook-lookup_webhook net parse_url local_mode req s w u e)
