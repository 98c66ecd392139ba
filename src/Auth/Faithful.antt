-- ===== src/Auth/Faithful.antt =====
-- Programs that keep the authentication cache of requireAuthKinds (internal/pingclaw/handlers.go) in
-- agreement with the tables while every call works.
use pingclaw_server.Prelude.{
  ℕ, suc, ◌≡◌, refl, ◌∙◌, subst, not, ◌||◌, ◌&&◌, Bool, true, false, Option, none, some, ◌∷◌, arith,
  Text, codes, nat_beq, ◌==◌, Bool-cases, Option-cases, inl, inr,
}
use pingclaw_server.Prelude.Int.{ℤ}
use pingclaw_server.Kv.{Entry, live, set, del, get_del, incr, expire}
use pingclaw_server.Db.{
  Db, Token, token_with, token_key, mark_used, insert_user, insert_identity, touch_user,
  touch_token, upsert_webhook, delete_webhook, upsert_destination, delete_destination, is_some,
  user_with, identity_in, Destination,
}
use pingclaw_server.Db.Single.{OneEach, StillOneEach, mark_used-length}
use pingclaw_server.Db.Table.{find_by-map, opt_map}
use pingclaw_server.Db.Keys.{IfDone, mark_used-token_hash}
use pingclaw_server.World.Log.Constraints.{Statement-Keeps}
use pingclaw_server.World.{
  World, ◌>>=◌, now, kv_set, kv_get_del, kv_del, kv_incr, kv_expire, db_exec,
}
use pingclaw_server.World.Laws.{IsHealthy}
use pingclaw_server.World.Log.{
  Statement, create_user, link_identity, issue_token, revoke_tokens, stamp_user, use_token,
  remove_user, set_webhook, remove_webhook, set_gateway, remove_gateway,
}
use pingclaw_server.Auth.{auth_cache_key}
use pingclaw_server.Auth.Cache.{Agrees, IsCoherent}

-- A key that is none of the authentication cache.
pub record IsForeign (k : Text) : Type 0 where
  pub apart : (hash : Text) → (k == auth_cache_key hash) ≡ false

-- Such as any that does not begin with an a.
pub letter-IsForeign : (c : ℕ) (k : Text) → nat_beq c b'a' ≡ false → IsForeign (c ∷ k)
letter-IsForeign c k e = record { apart = λ hash. ground (arith, e) }

pub record IsFaithful {A : Type 0} (m : World → A × World) : Type 0 where
  pub healthy : (w : World) → IsHealthy w → IsHealthy (m w).1
  pub coherent : (w : World) → IsHealthy w → IsCoherent w → IsCoherent (m w).1
  pub same_clock : (w : World) → (m w).1.clock ≡ w.clock
  pub one_each : (w : World) → OneEach w.db.tokens → OneEach (m w).1.db.tokens

-- Calls that change no key of the cache.
module _ (k : Text) (f : IsForeign k) where
  pub kv_set-IsFaithful : (v : Text) (d : ℤ) → IsFaithful (kv_set k v d)
  unfolding kv_set set
  kv_set-IsFaithful v d = record {
    same_clock = λ w. refl;
    one_each = λ w h. h;
    healthy = λ w h. record { up = λ n. h.up (suc n) };
    coherent = λ w h c. record {
      valid = c.valid;
      agrees = λ hash. rw (h.up 0) (rw (f.apart hash) (c.agrees hash));
    };
  }

  pub kv_get_del-IsFaithful : IsFaithful (kv_get_del k)
  unfolding kv_get_del get_del
  kv_get_del-IsFaithful = record {
    same_clock = λ w. refl;
    one_each = λ w h. h;
    healthy = λ w h. record { up = λ n. h.up (suc n) };
    coherent = λ w h c. record {
      valid = c.valid;
      agrees = λ hash. rw (h.up 0) (rw (f.apart hash) (c.agrees hash));
    };
  }

  pub kv_del-IsFaithful : IsFaithful (kv_del k)
  unfolding kv_del del
  kv_del-IsFaithful = record {
    same_clock = λ w. refl;
    one_each = λ w h. h;
    healthy = λ w h. record { up = λ n. h.up (suc n) };
    coherent = λ w h c. record {
      valid = c.valid;
      agrees = λ hash. rw (h.up 0) (rw (f.apart hash) (c.agrees hash));
    };
  }

  pub kv_incr-IsFaithful : IsFaithful (kv_incr k)
  unfolding kv_incr incr
  kv_incr-IsFaithful = record {
    same_clock = λ w. refl;
    one_each = λ w h. h;
    healthy = λ w h. record { up = λ n. h.up (suc n) };
    coherent = λ w h c. record {
      valid = c.valid;
      agrees = λ hash. rw (h.up 0) (rw (f.apart hash) (c.agrees hash));
    };
  }

  pub kv_expire-IsFaithful : (d : ℤ) → IsFaithful (kv_expire k d)
  unfolding kv_expire expire
  kv_expire-IsFaithful d = record {
    same_clock = λ w. refl;
    one_each = λ w h. h;
    healthy = λ w h. record { up = λ n. h.up (suc n) };
    coherent = λ w h c. record {
      valid = c.valid;
      agrees = λ hash. rw (h.up 0) (rw (f.apart hash) (c.agrees hash));
    };
  }

pub bind-IsFaithful :
    {A B : Type 0} (m : World → A × World) (f : A → World → B × World)
    → IsFaithful m
    → ((a : A) → IsFaithful (f a))
    → IsFaithful (m >>= f)
bind-IsFaithful m f p q = record {
  one_each = λ w h. (q (m w).0).one_each (m w).1 (p.one_each w h);
  same_clock = λ w. (q (m w).0).same_clock (m w).1 ∙ p.same_clock w;
  healthy = λ w h. (q (m w).0).healthy (m w).1 (p.healthy w h);
  coherent = λ w h c. (q (m w).0).coherent (m w).1 (p.healthy w h) (p.coherent w h c);
}

-- A call that reads.
pub read-IsFaithful :
    {A : Type 0} (m : World → A × World)
    → ((w : World) → (m w).1.kv ≡ w.kv)
    → ((w : World) → (m w).1.db ≡ w.db)
    → ((w : World) → (m w).1.clock ≡ w.clock)
    → ((w : World) → IsHealthy w → IsHealthy (m w).1)
    → IsFaithful m
read-IsFaithful m kv db clock h = record {
  same_clock = clock;
  one_each = λ w h. rw (db w) h;
  healthy = h;
  coherent = λ w u c. record {
    valid = rw (db w) c.valid;
    agrees = λ hash. rw (kv w, db w, clock w) (c.agrees hash);
  };
}

-- Statements that leave the tokens alone, but for the time of their last use.
abbrev pub harmless : {Who : Text → Type 0} {f : ℕ → Db → Option Db} → Statement Who f → Bool
harmless (issue_token hash id kind label p) = false
harmless (revoke_tokens id kind p) = false
harmless (remove_user id p) = false
harmless _ = true

Agrees-used :
    (now : ℕ) (hash : Text) (e : Option Entry) (t : Option Token)
    → Agrees e t
    → Agrees e (opt_map (mark_used now hash) t)
Agrees-used now hash none t a = tt
Agrees-used now hash (some e) none a = a
Agrees-used now hash (some e) (some t) a = elim (Bool-cases (t.token_hash == hash)) [
  | inl hit ↦ rw hit a
  | inr miss ↦ rw miss a
]

-- The agreement after a statement, if it was not refused.
abbrev StillAgrees : Option Entry → Text → Option Db → Type 0
StillAgrees e hash none = Unit {0}
StillAgrees e hash (some db) = Agrees e (token_with hash db)

module _ (hash : Text) (now : ℕ) (db : Db) (e : Option Entry)
    (a : Agrees e (token_with hash db)) where
  create_user-Agrees : (id : Text) → StillAgrees e hash (insert_user now id db)
  unfolding insert_user
  create_user-Agrees id = elim (Bool-cases (is_some (user_with id db))) [
    | inl refused ↦ rw refused tt
    | inr accepted ↦ rw accepted a
  ]

  link_identity-Agrees : (p s id : Text) → StillAgrees e hash (insert_identity now p s id db)
  unfolding insert_identity
  link_identity-Agrees p s id =
      elim (Bool-cases
        (is_some (identity_in p s db.identities) || not (is_some (user_with id db)))) [
          | inl refused ↦ rw refused tt
          | inr accepted ↦ rw accepted a
        ]

  use_token-Agrees : (used : Text) → StillAgrees e hash (touch_token now used db)
  unfolding touch_token
  use_token-Agrees used =
      rw (find_by-map token_key (mark_used now used) (mark_used-token_hash now used) hash db.tokens)
        (Agrees-used now used e (token_with hash db) a)

  set_webhook-Agrees :
      (id url secret : Text) → StillAgrees e hash (upsert_webhook now id url secret db)
  unfolding upsert_webhook
  set_webhook-Agrees id url secret = elim (Bool-cases (is_some (user_with id db))) [
    | inr refused ↦ rw refused tt
    | inl accepted ↦ rw accepted a
  ]

  set_gateway-Agrees : (d : Destination) → StillAgrees e hash (upsert_destination now d db)
  unfolding upsert_destination
  set_gateway-Agrees d =
      elim (Bool-cases (
        is_some (user_with d.user_id db)
        && (d.action == codes "wake" || d.action == codes "agent"))) [
          | inr refused ↦ rw refused tt
          | inl accepted ↦ rw accepted a
        ]

  harmless-Agrees :
      {Who : Text → Type 0} {f : ℕ → Db → Option Db} (s : Statement Who f)
      → harmless s ≡ true
      → StillAgrees e hash (f now db)
  unfolding touch_user delete_webhook delete_destination
  harmless-Agrees (create_user id p) q = create_user-Agrees id
  harmless-Agrees (link_identity p s id w) q = link_identity-Agrees p s id
  harmless-Agrees (issue_token hash id kind label p) q = absurd cc
  harmless-Agrees (revoke_tokens id kind p) q = absurd cc
  harmless-Agrees (stamp_user id p) q = a
  harmless-Agrees (use_token used) q = use_token-Agrees used
  harmless-Agrees (remove_user id p) q = absurd cc
  harmless-Agrees (set_webhook id url secret p) q = set_webhook-Agrees id url secret
  harmless-Agrees (remove_webhook id p) q = a
  harmless-Agrees (set_gateway d p) q = set_gateway-Agrees d
  harmless-Agrees (remove_gateway id p) q = a

harmless-OneEach :
    (time : ℕ) (db : Db)
    → OneEach db.tokens
    → {Who : Text → Type 0} {f : ℕ → Db → Option Db} (s : Statement Who f) → harmless s ≡ true
    → StillOneEach (f time db)
unfolding insert_user insert_identity touch_user touch_token upsert_webhook delete_webhook
    upsert_destination delete_destination
harmless-OneEach time db o (create_user id p) q = elim (Bool-cases (is_some (user_with id db))) [
  | inl holds ↦ rw holds tt
  | inr fails ↦ rw fails o
]
harmless-OneEach time db o (link_identity p s id w) q =
    elim (Bool-cases (is_some (identity_in p s db.identities) || not (is_some (user_with id db)))) [
      | inl holds ↦ rw holds tt
      | inr fails ↦ rw fails o
    ]
harmless-OneEach time db o (issue_token hash id kind label p) q = absurd cc
harmless-OneEach time db o (revoke_tokens id kind p) q = absurd cc
harmless-OneEach time db o (stamp_user id p) q = o
harmless-OneEach time db o (use_token used) q =
    λ user_id kind. rw (mark_used-length time used user_id kind db.tokens) (o user_id kind)
harmless-OneEach time db o (remove_user id p) q = absurd cc
harmless-OneEach time db o (set_webhook id url secret p) q =
    elim (Bool-cases (is_some (user_with id db))) [
      | inl holds ↦ rw holds o
      | inr fails ↦ rw fails tt
    ]
harmless-OneEach time db o (remove_webhook id p) q = o
harmless-OneEach time db o (set_gateway d p) q =
    elim (Bool-cases (
      is_some (user_with d.user_id db)
      && (d.action == codes "wake" || d.action == codes "agent"))) [
        | inl holds ↦ rw holds o
        | inr fails ↦ rw fails tt
      ]
harmless-OneEach time db o (remove_gateway id p) q = o

pub db_exec-IsFaithful :
    {Who : Text → Type 0} (f : ℕ → Db → Option Db) (s : Statement Who f)
    → harmless s ≡ true
    → IsFaithful (db_exec f)
unfolding db_exec
db_exec-IsFaithful {Who} f s q = record {
  same_clock = λ w. refl;
  one_each = λ w o. elim (Bool-cases (w.works 0)) [
    | inr down ↦ rw down o
    | inl up ↦ elim (Option-cases (f w.clock w.db)) [
      | inl refused ↦ rw (up, refused) o
      | inr (db', done) ↦
          rw (up, done) (subst StillOneEach done (harmless-OneEach w.clock w.db o s q))
    ]
  ];
  healthy = λ w h. record { up = λ n. h.up (suc n) };
  coherent = λ w h c. elim (Option-cases (f w.clock w.db)) [
    | inl refused ↦ rw (h.up 0, refused) (record { valid = c.valid; agrees = c.agrees })
    | inr (db', done) ↦
        rw (h.up 0, done)
          (record {
            valid = subst IfDone done ((Statement-Keeps Who s w.clock).at w.db c.valid);
            agrees = λ hash.
                let entry = live w.clock (w.kv (auth_cache_key hash)) in
                subst (StillAgrees entry hash) done
                  (harmless-Agrees hash w.clock w.db entry (c.agrees hash) s q);
          })
  ];
}
