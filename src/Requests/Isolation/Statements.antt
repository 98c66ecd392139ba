-- ===== src/Requests/Isolation/Statements.antt =====
-- The statements of the handlers (internal/pingclaw) about one user, and the rows of another.
use pingclaw_server.Prelude.{
  ℕ, ◌≡◌, refl, ap, true, false, not, Option, none, some, arith, Text, ◌==◌, ==_iff, Bool-cases,
  inl, inr, ◌||◌, ◌&&◌, codes, map, subst,
}
use pingclaw_server.Db.{
  Db, User, Identity, Webhook, Destination, webhook_of, destination_of, user_with, token_with,
  is_kind, is_some, identity_in, stamp, is_token_of, retarget, put_webhook, redirect_dest,
  put_destination, insert_user, insert_identity, insert_token, delete_tokens, touch_user,
  touch_token, delete_user, upsert_webhook, delete_webhook, upsert_destination, delete_destination,
}
use pingclaw_server.World.Log.{
  Statement, create_user, link_identity, issue_token, revoke_tokens, stamp_user, use_token,
  remove_user, set_webhook, remove_webhook, set_gateway, remove_gateway, Log, unchanged, did,
}
use pingclaw_server.Requests.Isolation.Rows.{
  own, own-select, own-map, unused, token_owner, own-mark_used, SameRows, SameRows-refl,
  SameRows-trans, new_users, new_identities, new_tokens, new_webhooks, new_gateways,
}

abbrev IfSame : Text → Db → Option Db → Type 0
IfSame v a none = Unit {0}
IfSame v a (some b) = SameRows v a b

-- Statements about another user.
module _ (v id : Text) (other : (id == v) ≡ false) (now : ℕ) (db : Db) where
  create_user-SameRows : IfSame v db (insert_user now id db)
  unfolding insert_user
  create_user-SameRows = elim (Bool-cases (is_some (user_with id db))) [
    | inl refused ↦ rw refused tt
    | inr accepted ↦ rw accepted (new_users v db _ (rw other refl))
  ]

  link_identity-SameRows : (p s : Text) → IfSame v db (insert_identity now p s id db)
  unfolding insert_identity
  link_identity-SameRows p s =
      elim (Bool-cases
        (is_some (identity_in p s db.identities) || not (is_some (user_with id db)))) [
          | inl refused ↦ rw refused tt
          | inr accepted ↦ rw accepted (new_identities v db _ (rw other refl))
        ]

  issue_token-SameRows :
      (hash kind label : Text) → IfSame v db (insert_token now hash id kind label db)
  unfolding insert_token
  issue_token-SameRows hash kind label =
      elim (Bool-cases
        (is_some (token_with hash db) || not (is_some (user_with id db)) || not (is_kind kind))) [
          | inl refused ↦ rw refused tt
          | inr accepted ↦ rw accepted (new_tokens v db _ (rw other refl))
        ]

  -- A row of the one user is none of the other's.
  foreign : (owner : Text) → (owner == v) ≡ true → (owner == id) ≡ false
  foreign owner e = ground (arith, other, ==_iff owner v, ==_iff owner id, ==_iff id v)

  revoke_tokens-SameRows : (kind : Text) → IfSame v db (delete_tokens id kind db)
  unfolding delete_tokens
  revoke_tokens-SameRows kind = new_tokens v db _ (
      ap (λ ts. map unused ts)
        (own-select token_owner v (λ t. not (is_token_of id kind t)) db.tokens
          (λ t e. rw (foreign t.user_id e) refl)))

  stamp_user-SameRows : IfSame v db (touch_user now id db)
  unfolding touch_user
  stamp_user-SameRows = new_users v db _ (
      own-map (λ (r : User). r.user_id) v (stamp now id) db.users (λ u. ground arith)
        (λ u e. rw (foreign u.user_id e) refl))

  remove_user-SameRows : IfSame v db (delete_user id db)
  unfolding delete_user
  remove_user-SameRows = record {
    users =
        own-select (λ (r : User). r.user_id) v (λ r. not (r.user_id == id)) db.users
          (λ r e. rw (foreign r.user_id e) refl);
    identities =
        own-select (λ (r : Identity). r.user_id) v (λ r. not (r.user_id == id)) db.identities
          (λ r e. rw (foreign r.user_id e) refl);
    tokens =
        ap (λ ts. map unused ts)
          (own-select token_owner v (λ r. not (r.user_id == id)) db.tokens
            (λ r e. rw (foreign r.user_id e) refl));
    webhooks =
        own-select (λ (r : Webhook). r.user_id) v (λ r. not (r.user_id == id)) db.webhooks
          (λ r e. rw (foreign r.user_id e) refl);
    gateways =
        own-select (λ (r : Destination). r.user_id) v (λ r. not (r.user_id == id)) db.destinations
          (λ r e. rw (foreign r.user_id e) refl);
  }

  own-put_webhook :
      (url secret : Text) (old : Option Webhook)
      → own (λ (r : Webhook). r.user_id) v (put_webhook now id url secret old db.webhooks)
        ≡ own (λ (r : Webhook). r.user_id) v db.webhooks
  own-put_webhook url secret none = rw other refl
  own-put_webhook url secret (some old) =
      own-map (λ (r : Webhook). r.user_id) v (retarget now id url secret) db.webhooks
        (λ r. ground arith) (λ r e. rw (foreign r.user_id e) refl)

  set_webhook-SameRows : (url secret : Text) → IfSame v db (upsert_webhook now id url secret db)
  unfolding upsert_webhook
  set_webhook-SameRows url secret = elim (Bool-cases (is_some (user_with id db))) [
    | inr refused ↦ rw refused tt
    | inl accepted ↦
        rw accepted (new_webhooks v db _ (own-put_webhook url secret (webhook_of id db)))
  ]

  remove_webhook-SameRows : IfSame v db (delete_webhook id db)
  unfolding delete_webhook
  remove_webhook-SameRows = new_webhooks v db _ (
      own-select (λ (r : Webhook). r.user_id) v (λ r. not (r.user_id == id)) db.webhooks
        (λ r e. rw (foreign r.user_id e) refl))

  remove_gateway-SameRows : IfSame v db (delete_destination id db)
  unfolding delete_destination
  remove_gateway-SameRows = new_gateways v db _ (
      own-select (λ (r : Destination). r.user_id) v (λ r. not (r.user_id == id)) db.destinations
        (λ r e. rw (foreign r.user_id e) refl))

use_token-SameRows :
    (v : Text) (now : ℕ) (db : Db) (hash : Text) → IfSame v db (touch_token now hash db)
unfolding touch_token
use_token-SameRows v now db hash = new_tokens v db _ (own-mark_used v now hash db.tokens)

-- A gateway of another user.
module _ (v : Text) (now : ℕ) (d : Destination) (other : (d.user_id == v) ≡ false) (db : Db) where
  redirected : (r : Destination) → (r.user_id == v) ≡ true → redirect_dest now d r ≡ r
  redirected r e = rw (foreign v d.user_id other now db r.user_id e) refl

  redirect_dest-user_id : (r : Destination) → (redirect_dest now d r).user_id ≡ r.user_id
  redirect_dest-user_id r = ground (arith, ==_iff r.user_id d.user_id)

  own-put_destination :
      (old : Option Destination)
      → own (λ (r : Destination). r.user_id) v (put_destination now d old db.destinations)
        ≡ own (λ (r : Destination). r.user_id) v db.destinations
  own-put_destination none = rw other refl
  own-put_destination (some old) =
      own-map (λ (r : Destination). r.user_id) v (redirect_dest now d) db.destinations
        redirect_dest-user_id redirected

  set_gateway-SameRows : IfSame v db (upsert_destination now d db)
  unfolding upsert_destination
  set_gateway-SameRows =
      elim (Bool-cases (
        is_some (user_with d.user_id db)
        && (d.action == codes "wake" || d.action == codes "agent"))) [
          | inr refused ↦ rw refused tt
          | inl accepted ↦
              rw accepted (new_gateways v db _ (own-put_destination (destination_of d.user_id db)))
        ]

abbrev pub IsNot : Text → Text → Type 0
IsNot v id = (id == v) ≡ false

Statement-SameRows :
    (v : Text) {f : ℕ → Db → Option Db}
    → Statement (IsNot v) f
    → (now : ℕ) (db : Db) → IfSame v db (f now db)
Statement-SameRows v (create_user id p) now db = create_user-SameRows v id p now db
Statement-SameRows v (link_identity p s id q) now db = link_identity-SameRows v id q now db p s
Statement-SameRows v (issue_token hash id kind label p) now db =
    issue_token-SameRows v id p now db hash kind label
Statement-SameRows v (revoke_tokens id kind p) now db = revoke_tokens-SameRows v id p now db kind
Statement-SameRows v (stamp_user id p) now db = stamp_user-SameRows v id p now db
Statement-SameRows v (use_token hash) now db = use_token-SameRows v now db hash
Statement-SameRows v (remove_user id p) now db = remove_user-SameRows v id p now db
Statement-SameRows v (set_webhook id url secret p) now db =
    set_webhook-SameRows v id p now db url secret
Statement-SameRows v (remove_webhook id p) now db = remove_webhook-SameRows v id p now db
Statement-SameRows v (set_gateway d p) now db = set_gateway-SameRows v now d p db
Statement-SameRows v (remove_gateway id p) now db = remove_gateway-SameRows v id p now db

-- Statements about others leave the rows of a user as they are.
pub Log-SameRows : (v : Text) {a b : Db} → Log (IsNot v) a b → SameRows v a b
Log-SameRows v {a} unchanged = SameRows-refl v a
Log-SameRows v {a} (did {db' = db'} {db'' = db''} l f time s e) =
    SameRows-trans v a db' db'' (Log-SameRows v l)
      (subst (IfSame v db') e (Statement-SameRows v s time db'))
