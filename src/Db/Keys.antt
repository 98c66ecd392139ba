-- ===== src/Db/Keys.antt =====
-- The primary keys of users, tokens and webhooks and the conditions on a token's row, of those that
-- applySchema (cmd/pingclaw-server/main.go) states, as an invariant of the tables, and the statements
-- of the handlers.
use pingclaw_server.Prelude.{
  ℕ, ◌≡◌, inl, inr, Bool, true, not, ◌||◌, Option, none, some, List, ◌∷◌, map, All, arith, Text,
  ◌==◌, Bool-cases, Option-cases,
}
use pingclaw_server.Db.Table.{
  select, find_by, DistinctBy, find_by-select, find_by-map, select-DistinctBy, map-DistinctBy,
  find_by-key, All-select_imp, All-map_imp, All-imp,
}
use pingclaw_server.Db.{
  User, user_key, token_key, webhook_key, stamp, mark_used, Token, Db, is_some, is_kind,
  is_token_of, user_with, token_with, insert_user, insert_token, delete_tokens, touch_user,
  touch_token, delete_user,
}

-- A row of user_tokens: its user exists, and its kind is one of the three.
abbrev pub IsSound : List User → Token → Type 0
IsSound users t = (is_some (find_by user_key t.user_id users) ≡ true) × (is_kind t.kind ≡ true)

pub record IsValid (db : Db) : Type 0 where
  pub user_keys : DistinctBy user_key db.users
  pub token_keys : DistinctBy token_key db.tokens
  pub token_rows : All (IsSound db.users) db.tokens
  pub webhook_keys : DistinctBy webhook_key db.webhooks

-- The tables after a statement, if it was not refused.
abbrev pub IfDone : Option Db → Type 0
IfDone none = Unit {0}
IfDone (some db) = IsValid db

-- A statement that keeps the constraints.
pub record Keeps (f : Db → Option Db) : Type 0 where
  pub at : (db : Db) → IsValid db → IfDone (f db)

found_in_more : (u : User) (users : List User) (t : Token) → IsSound users t → IsSound (u ∷ users) t
found_in_more u users t h = (ground (arith, h.0), h.1)

pub insert_user-Keeps : (now : ℕ) (id : Text) → Keeps (insert_user now id)
unfolding insert_user
insert_user-Keeps now id = record {
  at = λ db v. elim (Option-cases (user_with id db)) [
    | inl fresh ↦
        let u : User = record { user_id = id; created_at = now; updated_at = now } in
        rw fresh (record {
          user_keys = (fresh, v.user_keys);
          token_keys = v.token_keys;
          token_rows =
              All-imp (IsSound db.users) (IsSound (u ∷ db.users)) (found_in_more u db.users)
                db.tokens v.token_rows;
          webhook_keys = v.webhook_keys;
        })
    | inr (u, old) ↦ rw old tt
  ];
}

abbrev is_refused : Text → Text → Text → Db → Bool
is_refused hash id kind db =
    is_some (token_with hash db) || not (is_some (user_with id db)) || not (is_kind kind)

pub insert_token-Keeps :
    (now : ℕ) (hash id kind label : Text) → Keeps (insert_token now hash id kind label)
unfolding insert_token
insert_token-Keeps now hash id kind label = record {
  at = λ db v. elim (Bool-cases (is_refused hash id kind db)) [
    | inl refused ↦ rw refused tt
    | inr accepted ↦ rw accepted (record {
      user_keys = v.user_keys;
      token_keys = (ground arith, v.token_keys);
      token_rows = ((ground arith, ground arith), v.token_rows);
      webhook_keys = v.webhook_keys;
    })
  ];
}

pub delete_tokens-Keeps : (id kind : Text) → Keeps (delete_tokens id kind)
unfolding delete_tokens
delete_tokens-Keeps id kind = record {
  at = λ db v.
      let others = λ (t : Token). not (is_token_of id kind t) in
      record {
        user_keys = v.user_keys;
        token_keys = select-DistinctBy token_key others db.tokens v.token_keys;
        token_rows =
            All-select_imp (IsSound db.users) (IsSound db.users) others (λ t p s. s) db.tokens
              v.token_rows;
        webhook_keys = v.webhook_keys;
      };
}

stamp-user_id : (now : ℕ) (id : Text) (u : User) → user_key (stamp now id u) ≡ user_key u
stamp-user_id now id u = ground arith

stamped-IsSound :
    (now : ℕ) (id : Text) (users : List User) (t : Token)
    → IsSound users t
    → IsSound (map (stamp now id) users) t
stamped-IsSound now id users t h = (
  rw (find_by-map user_key (stamp now id) (stamp-user_id now id) t.user_id users) (ground arith),
  h.1,
)

pub touch_user-Keeps : (now : ℕ) (id : Text) → Keeps (touch_user now id)
unfolding touch_user
touch_user-Keeps now id = record {
  at = λ db v. record {
    user_keys = map-DistinctBy user_key (stamp now id) (stamp-user_id now id) db.users v.user_keys;
    token_keys = v.token_keys;
    token_rows =
        All-imp (IsSound db.users) (IsSound (map (stamp now id) db.users))
          (stamped-IsSound now id db.users) db.tokens v.token_rows;
    webhook_keys = v.webhook_keys;
  };
}

pub mark_used-token_hash :
    (now : ℕ) (hash : Text) (t : Token) → token_key (mark_used now hash t) ≡ token_key t
mark_used-token_hash now hash t = ground arith

marked-IsSound :
    (now : ℕ) (hash : Text) (users : List User) (t : Token)
    → IsSound users t
    → IsSound users (mark_used now hash t)
marked-IsSound now hash users t h = ground arith

pub touch_token-Keeps : (now : ℕ) (hash : Text) → Keeps (touch_token now hash)
unfolding touch_token
touch_token-Keeps now hash = record {
  at = λ db v. record {
    user_keys = v.user_keys;
    token_keys =
        map-DistinctBy token_key (mark_used now hash) (mark_used-token_hash now hash) db.tokens
          v.token_keys;
    token_rows =
        All-map_imp (IsSound db.users) (IsSound db.users) (mark_used now hash)
          (marked-IsSound now hash db.users) db.tokens v.token_rows;
    webhook_keys = v.webhook_keys;
  };
}

survivor-IsSound :
    (id : Text) (users : List User) (t : Token)
    → DistinctBy user_key users
    → not (t.user_id == id) ≡ true
    → IsSound users t
    → IsSound (select (λ u. not (u.user_id == id)) users) t
survivor-IsSound id users t d p h = (
  rw (find_by-select user_key (λ u. not (u.user_id == id)) t.user_id users d)
      (elim (Option-cases (find_by user_key t.user_id users)) [
        | inl e ↦ ground arith
        | inr (u, e) ↦ ground (arith, find_by-key user_key t.user_id users {x = u})
      ]),
  h.1,
)

pub delete_user-Keeps : (id : Text) → Keeps (delete_user id)
unfolding delete_user
delete_user-Keeps id = record {
  at = λ db v.
      let others = λ (u : User). not (u.user_id == id) in
      record {
        user_keys = select-DistinctBy user_key others db.users v.user_keys;
        token_keys =
            select-DistinctBy token_key (λ t. not (t.user_id == id)) db.tokens v.token_keys;
        token_rows =
            All-select_imp (IsSound db.users) (IsSound (select others db.users))
              (λ t. not (t.user_id == id)) (λ t. survivor-IsSound id db.users t v.user_keys)
              db.tokens v.token_rows;
        webhook_keys =
            select-DistinctBy webhook_key (λ r. not (r.user_id == id)) db.webhooks v.webhook_keys;
      };
}
