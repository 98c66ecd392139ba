-- ===== src/Db/Outlets.antt =====
-- The constraints of the tables (applySchema of cmd/pingclaw-server/main.go) and the statements on
-- identities, webhooks and gateways.
use pingclaw_server.Prelude.{
  ℕ, ◌≡◌, refl, not, Option, none, some, arith, Text, ◌==◌, Bool-cases, inl, inr, ◌||◌, ◌&&◌, codes,
}
use pingclaw_server.Db.{
  Db, Webhook, Destination, webhook_key, webhook_of, user_with, is_some, identity_in, retarget,
  put_webhook, insert_identity, upsert_webhook, delete_webhook, upsert_destination,
  delete_destination,
}
use pingclaw_server.Db.Table.{DistinctBy, select-DistinctBy, map-DistinctBy}
use pingclaw_server.Db.Keys.{Keeps}

pub insert_identity-Keeps : (now : ℕ) (p s id : Text) → Keeps (insert_identity now p s id)
unfolding insert_identity
insert_identity-Keeps now p s id = record {
  at = λ db v.
      elim (Bool-cases
        (is_some (identity_in p s db.identities) || not (is_some (user_with id db)))) [
          | inl refused ↦ rw refused tt
          | inr accepted ↦ rw accepted (record {
            user_keys = v.user_keys;
            token_keys = v.token_keys;
            token_rows = v.token_rows;
            webhook_keys = v.webhook_keys;
          })
        ];
}

retarget-user_id :
    (now : ℕ) (id url secret : Text) (r : Webhook)
    → webhook_key (retarget now id url secret r) ≡ webhook_key r
retarget-user_id now id url secret r = ground arith

put_webhook-DistinctBy :
    (now : ℕ) (id url secret : Text) (db : Db) (old : Option Webhook)
    → webhook_of id db ≡ old
    → DistinctBy webhook_key db.webhooks
    → DistinctBy webhook_key (put_webhook now id url secret old db.webhooks)
put_webhook-DistinctBy now id url secret db none e d = (e, d)
put_webhook-DistinctBy now id url secret db (some old) e d =
    map-DistinctBy webhook_key (retarget now id url secret) (retarget-user_id now id url secret)
      db.webhooks d

pub upsert_webhook-Keeps :
    (now : ℕ) (id url secret : Text) → Keeps (upsert_webhook now id url secret)
unfolding upsert_webhook
upsert_webhook-Keeps now id url secret = record {
  at = λ db v. elim (Bool-cases (is_some (user_with id db))) [
    | inr refused ↦ rw refused tt
    | inl accepted ↦ rw accepted (record {
      user_keys = v.user_keys;
      token_keys = v.token_keys;
      token_rows = v.token_rows;
      webhook_keys =
          put_webhook-DistinctBy now id url secret db (webhook_of id db) refl v.webhook_keys;
    })
  ];
}

pub delete_webhook-Keeps : (id : Text) → Keeps (delete_webhook id)
unfolding delete_webhook
delete_webhook-Keeps id = record {
  at = λ db v. record {
    user_keys = v.user_keys;
    token_keys = v.token_keys;
    token_rows = v.token_rows;
    webhook_keys =
        select-DistinctBy webhook_key (λ r. not (r.user_id == id)) db.webhooks v.webhook_keys;
  };
}

pub upsert_destination-Keeps : (now : ℕ) (d : Destination) → Keeps (upsert_destination now d)
unfolding upsert_destination
upsert_destination-Keeps now d = record {
  at = λ db v.
      elim (Bool-cases (
        is_some (user_with d.user_id db)
        && (d.action == codes "wake" || d.action == codes "agent"))) [
          | inr refused ↦ rw refused tt
          | inl accepted ↦ rw accepted (record {
            user_keys = v.user_keys;
            token_keys = v.token_keys;
            token_rows = v.token_rows;
            webhook_keys = v.webhook_keys;
          })
        ];
}

pub delete_destination-Keeps : (id : Text) → Keeps (delete_destination id)
unfolding delete_destination
delete_destination-Keeps id = record {
  at = λ db v. record {
    user_keys = v.user_keys;
    token_keys = v.token_keys;
    token_rows = v.token_rows;
    webhook_keys = v.webhook_keys;
  };
}
