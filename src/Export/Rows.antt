-- ===== src/Export/Rows.antt =====
-- Whose rows GetMyData (internal/pingclaw/handlers.go) shows, and the export of an account that
-- DeleteAccount removed.
use pingclaw_server.Prelude.{
  ℕ, ◌≡◌, refl, ◌∙◌, Bool, true, false, not, Option, none, some, List, [], ◌∷◌, map, arith, Text,
  ◌==◌, if◌then◌else◌, Bool-cases, Option-cases, inl, inr,
}
use mathlib.Core.List.{Perm}
use pingclaw_server.Kv.{get, live}
use pingclaw_server.Db.{
  Db, User, Identity, Token, Destination, user_key, user_with, webhook_of, destination_of,
}
use pingclaw_server.Db.Table.{select, find_by}
use pingclaw_server.World.{World, kv_get, db_query}
use pingclaw_server.World.Laws.{IsHealthy}
use pingclaw_server.Http.{str, items, write_error}
use pingclaw_server.Http.Reading.{body_of, at, listed, elements, column}
use pingclaw_server.Auth.{Session}
use pingclaw_server.Account.{delete_account, location_key}
use pingclaw_server.Account.Deletion.{delete_account_erases, gone-IsHealthy}
use pingclaw_server.Location.{LocationJson, read_location}
use pingclaw_server.Export.{
  identities_of, tokens_by_age, identity_row, token_row, gateway_row, get_my_data, export_user,
}
use pingclaw_server.Export.Order.{IsSorted, order_by-perm, order_by-IsSorted}

abbrev own_identities : Text → Db → List Identity
own_identities user_id db = select (λ r. r.user_id == user_id) db.identities

abbrev own_tokens : Text → Db → List Token
own_tokens user_id db = select (λ t. t.user_id == user_id) db.tokens

-- Two rows of a gateway, or none, that agree but for the hook token and the session key.
abbrev pub SameGateway : Option Destination → Option Destination → Type 0
SameGateway none none = Unit {0}
SameGateway (some a) (some b) =
    (a.destination_id ≡ b.destination_id)
    × ((a.gateway_url ≡ b.gateway_url)
        × ((a.hook_path ≡ b.hook_path)
            × ((a.action ≡ b.action)
                × ((a.created_at ≡ b.created_at) × (a.updated_at ≡ b.updated_at)))))
SameGateway _ _ = ⊥

-- The two worlds hold the same of a user: the rows, the location, and of the gateway what is not
-- secret. The calls fail alike.
pub record SameAccount (user_id : Text) (v w : World) : Type 0 where
  pub works : v.works ≡ w.works
  pub user : user_with user_id v.db ≡ user_with user_id w.db
  pub identities : own_identities user_id v.db ≡ own_identities user_id w.db
  pub tokens : own_tokens user_id v.db ≡ own_tokens user_id w.db
  pub webhook : webhook_of user_id v.db ≡ webhook_of user_id w.db
  pub gateway : SameGateway (destination_of user_id v.db) (destination_of user_id w.db)
  pub location :
      live v.clock (v.kv (location_key user_id)) ≡ live w.clock (w.kv (location_key user_id))

module _ (scanned : ℕ → Text) where
  gateway_row-same :
      (o p : Option Destination)
      → SameGateway o p
      → gateway_row scanned (some o) ≡ gateway_row scanned (some p)
  gateway_row-same none none e = refl
  gateway_row-same (some a) (some b) (id, (url, (path, (action, (created, updated))))) =
      rw (id, url, path, action, created, updated) refl
  gateway_row-same none (some b) e = absurd e
  gateway_row-same (some a) none e = absurd e

  gateway_reply-same :
      (b : Bool) (o p : Option Destination)
      → SameGateway o p
      → gateway_row scanned (if b then some o else none)
        ≡ gateway_row scanned (if b then some p else none)
  gateway_reply-same true o p e = gateway_row-same o p e
  gateway_reply-same false o p e = refl

  module _ (lj : LocationJson) (s : Session) (v w : World) (a : SameAccount s.user_id v w) where
    private_found :
        (user : User)
        → w.works 0 ≡ true
        → user_with s.user_id w.db ≡ some user
        → (get_my_data scanned lj s v).0 ≡ (get_my_data scanned lj s w).0
    unfolding get_my_data export_user db_query read_location kv_get get
    private_found user up e =
        let seen : user_with s.user_id v.db ≡ some user = a.user ∙ e in
        rw (a.works, up, e, seen, a.identities, a.tokens, a.location, a.webhook)
          (rw (gateway_reply-same (w.works 5) _ _ a.gateway) refl)

    private_missing :
        w.works 0 ≡ true
        → user_with s.user_id w.db ≡ none
        → (get_my_data scanned lj s v).0 ≡ (get_my_data scanned lj s w).0
    unfolding get_my_data export_user db_query
    private_missing up e =
        let seen : user_with s.user_id v.db ≡ none = a.user ∙ e in rw (a.works, up, e, seen) refl

    private_down :
        w.works 0 ≡ false → (get_my_data scanned lj s v).0 ≡ (get_my_data scanned lj s w).0
    unfolding get_my_data export_user db_query
    private_down down = rw (a.works, down) refl

-- The export of a user shows nothing else of the world than that user's own rows and location, and
-- neither the hook token nor the session key of the gateway: two worlds that agree on the former, and
-- in which the same calls fail, answer alike, whatever all other rows and keys hold.
pub get_my_data_private :
    (scanned : ℕ → Text) (lj : LocationJson) (s : Session) (v w : World)
    → SameAccount s.user_id v w
    → (get_my_data scanned lj s v).0 ≡ (get_my_data scanned lj s w).0
get_my_data_private scanned lj s v w a = elim (Bool-cases (w.works 0)) [
  | inr down ↦ private_down scanned lj s v w a down
  | inl up ↦ elim (Option-cases (user_with s.user_id w.db)) [
    | inl missing ↦ private_missing scanned lj s v w a up missing
    | inr (user, e) ↦ private_found scanned lj s v w a user up e
  ]
]

module _ (scanned : ℕ → Text) where
  identity_row-column :
      (ids : List Identity)
      → (column "provider" (listed (items (identity_row scanned) ids))
          ≡ map (λ (r : Identity). some (str r.provider)) ids)
        × (column "provider_sub" (listed (items (identity_row scanned) ids))
            ≡ map (λ (r : Identity). some (str r.provider_sub)) ids)
  identity_row-column [] = (refl, refl)
  identity_row-column (r ∷ ids) =
      let (providers, subjects) = identity_row-column ids in (rw providers refl, rw subjects refl)

  token_row-column :
      (ts : List Token)
      → (column "token_hash" (listed (items (token_row scanned) ts))
          ≡ map (λ (t : Token). some (str t.token_hash)) ts)
        × (column "kind" (listed (items (token_row scanned) ts))
            ≡ map (λ (t : Token). some (str t.kind)) ts)
  token_row-column [] = (refl, refl)
  token_row-column (t ∷ ts) =
      let (hashes, kinds) = token_row-column ts in (rw hashes refl, rw kinds refl)

-- While every call works, the export of a user whose row is there answers 200, and a client that
-- reads the arrays of the body finds the provider and the subject of each identity of that user and
-- the hash and the kind of each token of that user, each row exactly once and the oldest first.
pub get_my_data_complete :
    (scanned : ℕ → Text) (lj : LocationJson) (s : Session) (w : World) (user : User)
    → IsHealthy w
    → user_with s.user_id w.db ≡ some user
    → let response = (get_my_data scanned lj s w).0 in
      let identities = elements (at "identities" (body_of response)) in
      let hashes = elements (at "tokens" (body_of response)) in
      (ids : List Identity) × (tokens : List Token) × (response.status ≡ 200)
      × (column "provider" identities ≡ map (λ (r : Identity). some (str r.provider)) ids)
      × (column "provider_sub" identities ≡ map (λ (r : Identity). some (str r.provider_sub)) ids)
      × Perm ids (select (λ r. r.user_id == s.user_id) w.db.identities)
      × IsSorted (λ (r : Identity). r.created_at) ids
      × (column "token_hash" hashes ≡ map (λ (t : Token). some (str t.token_hash)) tokens)
      × (column "kind" hashes ≡ map (λ (t : Token). some (str t.kind)) tokens)
      × Perm tokens (select (λ t. t.user_id == s.user_id) w.db.tokens)
      × IsSorted (λ (t : Token). t.created_at) tokens
unfolding get_my_data export_user db_query read_location kv_get
get_my_data_complete scanned lj s w user u e =
    let ids = identities_of s.user_id w.db in
    let tokens = tokens_by_age s.user_id w.db in
    (
      ids,
      tokens,
      rw (u.up 0, e) refl,
      rw (u.up 0, e, u.up 1) (identity_row-column scanned ids).0,
      rw (u.up 0, e, u.up 1) (identity_row-column scanned ids).1,
      order_by-perm (λ (r : Identity). r.created_at) (own_identities s.user_id w.db),
      order_by-IsSorted (λ (r : Identity). r.created_at) (own_identities s.user_id w.db),
      rw (u.up 0, e, u.up 2) (token_row-column scanned tokens).0,
      rw (u.up 0, e, u.up 2) (token_row-column scanned tokens).1,
      order_by-perm (λ (t : Token). t.created_at) (own_tokens s.user_id w.db),
      order_by-IsSorted (λ (t : Token). t.created_at) (own_tokens s.user_id w.db),
    )

find_by-erased :
    (id : Text) (users : List User)
    → find_by user_key id (select (λ r. not (r.user_id == id)) users) ≡ none
find_by-erased id [] = refl
find_by-erased id (x ∷ users) = ground (arith, find_by-erased id users)

-- While every call works, the export of a user who has deleted the account answers 500.
pub get_my_data_after_delete :
    (scanned : ℕ → Text) (lj : LocationJson) (s : Session) (w : World)
    → IsHealthy w
    → (get_my_data scanned lj s (delete_account s w).1).0 ≡ write_error 500 "internal error"
unfolding get_my_data export_user db_query
get_my_data_after_delete scanned lj s w u =
    let gone : World = (delete_account s w).1 in
    let up : gone.works 0 ≡ true = (gone-IsHealthy s w u).up 0 in
    let db = (delete_account_erases s w u).1 in
    rw (up, db, find_by-erased s.user_id w.db.users) refl
