-- ===== src/Requests/Isolation/Rows.antt =====
-- The rows of a user in the tables of applySchema (cmd/pingclaw-server/main.go), and changes of one
-- table.
use pingclaw_server.Prelude.{
  ℕ, ◌≡◌, refl, ◌∙◌, Bool, true, none, List, [], ◌∷◌, arith, Text, ◌==◌, map,
}
use pingclaw_server.Db.{Db, User, Identity, Token, Webhook, Destination, mark_used}
use pingclaw_server.Db.Table.{select}

-- The rows that are a user's own, of a table.
module _ {ℓ} {A : Type ℓ} (owner : A → Text) (v : Text) where
  abbrev pub own : List A → List A
  own xs = select (λ x. owner x == v) xs

  -- Deleting rows of others.
  pub own-select :
      (p : A → Bool) (xs : List A)
      → ((x : A) → (owner x == v) ≡ true → p x ≡ true)
      → own (select p xs) ≡ own xs
  own-select p [] h = refl
  own-select p (x ∷ xs) h = ground (arith, own-select p xs h, h x)

  -- Changing rows of others.
  pub own-map :
      (f : A → A) (xs : List A)
      → ((x : A) → owner (f x) ≡ owner x)
      → ((x : A) → (owner x == v) ≡ true → f x ≡ x)
      → own (map f xs) ≡ own xs
  own-map f [] h k = refl
  own-map f (x ∷ xs) h k = ground (arith, own-map f xs h k, h x, k x)

-- A token without the time of its last use.
abbrev pub unused : Token → Token
unused t = record t { last_used_at = none }

abbrev pub token_owner : Token → Text
token_owner t = t.user_id

pub own-mark_used :
    (v : Text) (now : ℕ) (hash : Text) (ts : List Token)
    → map unused (own token_owner v (map (mark_used now hash) ts))
      ≡ map unused (own token_owner v ts)
own-mark_used v now hash [] = refl
own-mark_used v now hash (t ∷ ts) = ground (arith, own-mark_used v now hash ts)

-- The same rows of a user in every table, but for the times of last use of the tokens.
pub record SameRows (v : Text) (a b : Db) : Type 0 where
  pub users : own (λ (r : User). r.user_id) v b.users ≡ own (λ (r : User). r.user_id) v a.users
  pub identities :
      own (λ (r : Identity). r.user_id) v b.identities
      ≡ own (λ (r : Identity). r.user_id) v a.identities
  pub tokens : map unused (own token_owner v b.tokens) ≡ map unused (own token_owner v a.tokens)
  pub webhooks :
      own (λ (r : Webhook). r.user_id) v b.webhooks ≡ own (λ (r : Webhook). r.user_id) v a.webhooks
  pub gateways :
      own (λ (r : Destination). r.user_id) v b.destinations
      ≡ own (λ (r : Destination). r.user_id) v a.destinations

pub SameRows-refl : (v : Text) (a : Db) → SameRows v a a
SameRows-refl v a = record {
  users = refl;
  identities = refl;
  tokens = refl;
  webhooks = refl;
  gateways = refl;
}

pub SameRows-trans : (v : Text) (a b c : Db) → SameRows v a b → SameRows v b c → SameRows v a c
SameRows-trans v a b c p q = record {
  users = q.users ∙ p.users;
  identities = q.identities ∙ p.identities;
  tokens = q.tokens ∙ p.tokens;
  webhooks = q.webhooks ∙ p.webhooks;
  gateways = q.gateways ∙ p.gateways;
}

-- A change of one table.
module _ (v : Text) (db : Db) where
  pub new_users :
      (users : List User)
      → own (λ (r : User). r.user_id) v users ≡ own (λ (r : User). r.user_id) v db.users
      → SameRows v db (record db { users = users })
  new_users users e = record {
    users = e;
    identities = refl;
    tokens = refl;
    webhooks = refl;
    gateways = refl;
  }

  pub new_identities :
      (rows : List Identity)
      → own (λ (r : Identity). r.user_id) v rows ≡ own (λ (r : Identity). r.user_id) v db.identities
      → SameRows v db (record db { identities = rows })
  new_identities rows e = record {
    users = refl;
    identities = e;
    tokens = refl;
    webhooks = refl;
    gateways = refl;
  }

  pub new_tokens :
      (tokens : List Token)
      → map unused (own token_owner v tokens) ≡ map unused (own token_owner v db.tokens)
      → SameRows v db (record db { tokens = tokens })
  new_tokens tokens e = record {
    users = refl;
    identities = refl;
    tokens = e;
    webhooks = refl;
    gateways = refl;
  }

  pub new_webhooks :
      (rows : List Webhook)
      → own (λ (r : Webhook). r.user_id) v rows ≡ own (λ (r : Webhook). r.user_id) v db.webhooks
      → SameRows v db (record db { webhooks = rows })
  new_webhooks rows e = record {
    users = refl;
    identities = refl;
    tokens = refl;
    webhooks = e;
    gateways = refl;
  }

  pub new_gateways :
      (rows : List Destination)
      → own (λ (r : Destination). r.user_id) v rows
        ≡ own (λ (r : Destination). r.user_id) v db.destinations
      → SameRows v db (record db { destinations = rows })
  new_gateways rows e = record {
    users = refl;
    identities = refl;
    tokens = refl;
    webhooks = refl;
    gateways = e;
  }
