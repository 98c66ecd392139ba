-- ===== src/World/Log/Constraints.antt =====
-- The constraints of the tables under the statements of the handlers of internal/pingclaw.
use pingclaw_server.Prelude.{ℕ, Option, Text, subst}
use pingclaw_server.Db.{Db}
use pingclaw_server.Db.Keys.{
  IsValid, IfDone, Keeps, insert_user-Keeps, insert_token-Keeps, delete_tokens-Keeps,
  touch_user-Keeps, touch_token-Keeps, delete_user-Keeps,
}
use pingclaw_server.Db.Outlets.{
  insert_identity-Keeps, upsert_webhook-Keeps, delete_webhook-Keeps, upsert_destination-Keeps,
  delete_destination-Keeps,
}
use pingclaw_server.World.Log.{
  Statement, create_user, link_identity, issue_token, revoke_tokens, stamp_user, use_token,
  remove_user, set_webhook, remove_webhook, set_gateway, remove_gateway, Log, unchanged, did,
}

module _ (Who : Text → Type 0) where
  pub Statement-Keeps : {f : ℕ → Db → Option Db} → Statement Who f → (now : ℕ) → Keeps (f now)
  Statement-Keeps (create_user id p) now = insert_user-Keeps now id
  Statement-Keeps (link_identity p s id q) now = insert_identity-Keeps now p s id
  Statement-Keeps (issue_token hash id kind label p) now = insert_token-Keeps now hash id kind label
  Statement-Keeps (revoke_tokens id kind p) now = delete_tokens-Keeps id kind
  Statement-Keeps (stamp_user id p) now = touch_user-Keeps now id
  Statement-Keeps (use_token hash) now = touch_token-Keeps now hash
  Statement-Keeps (remove_user id p) now = delete_user-Keeps id
  Statement-Keeps (set_webhook id url secret p) now = upsert_webhook-Keeps now id url secret
  Statement-Keeps (remove_webhook id p) now = delete_webhook-Keeps id
  Statement-Keeps (set_gateway d p) now = upsert_destination-Keeps now d
  Statement-Keeps (remove_gateway id p) now = delete_destination-Keeps id

  pub Log-IsValid : {a b : Db} → Log Who a b → IsValid a → IsValid b
  Log-IsValid unchanged v = v
  Log-IsValid (did {db' = db'} l f time s e) v =
      subst IfDone e ((Statement-Keeps s time).at db' (Log-IsValid l v))
