-- ===== src/SignIn/Users.antt =====
-- findOrCreateSocialUser of internal/pingclaw/handlers.go: identities and their users.
use pingclaw_server.Prelude.{
  ◌≡◌, ◌∙◌, true, Option, none, some, arith, Text, suc, ==_iff, Option-cases, ◌⊎◌, inl, inr,
}
use pingclaw_server.Db.{Identity, identity_in, is_some, insert_user, insert_identity, touch_user}
use pingclaw_server.World.{World, db_query, db_exec}
use pingclaw_server.World.Laws.{IsHealthy}
use pingclaw_server.SignIn.{find_or_create_social_user}

abbrev pub identity_user : Option Identity → Option Text
identity_user none = none
identity_user (some r) = some r.user_id

module _ (uuid provider sub : Text) (w : World) where
  abbrev after : World
  after = (find_or_create_social_user uuid provider sub w).1

  -- Under any schedule of failures: when the server has found or created a user for an identity,
  -- the identity is linked to that user; when it reports an error, the identities are as before.
  pub find_or_create_links :
      ((is_some (find_or_create_social_user uuid provider sub w).0 ≡ true)
        × (identity_user (
              identity_in provider sub
                (find_or_create_social_user uuid provider sub w).1.db.identities)
            ≡ (find_or_create_social_user uuid provider sub w).0))
      ⊎ (((find_or_create_social_user uuid provider sub w).0 ≡ none)
          × ((find_or_create_social_user uuid provider sub w).1.db.identities ≡ w.db.identities))
  unfolding find_or_create_social_user db_query db_exec insert_user insert_identity touch_user
  find_or_create_links = elim (Option-cases (identity_in provider sub w.db.identities)) [
    | inl fresh ↦ ground (arith, ==_iff provider provider, ==_iff sub sub)
    | inr (r, known) ↦ ground arith
  ]

  find_or_create-IsHealthy : IsHealthy w → IsHealthy after
  unfolding find_or_create_social_user db_query db_exec
  find_or_create-IsHealthy h = record {
    up = λ n. ground (arith, h.up (suc n), h.up (suc (suc n)), h.up (suc (suc (suc n))));
  }

-- An identity that is linked to a user signs in as that user, whatever identifier was drawn.
find_known :
    (uuid provider sub user : Text) (w : World)
    → IsHealthy w
    → identity_user (identity_in provider sub w.db.identities) ≡ some user
    → (find_or_create_social_user uuid provider sub w).0 ≡ some user
unfolding find_or_create_social_user db_query db_exec touch_user
find_known uuid provider sub user w h e = ground (arith, h.up 0)

-- Signing in again with the same identity finds the same user, while every call works.
pub find_or_create_again :
    (uuid uuid' provider sub user : Text) (w : World)
    → IsHealthy w
    → (find_or_create_social_user uuid provider sub w).0 ≡ some user
    → (find_or_create_social_user uuid' provider sub
        (find_or_create_social_user uuid provider sub w).1).0
      ≡ some user
find_or_create_again uuid uuid' provider sub user w h e =
    elim (find_or_create_links uuid provider sub w) [
      | inl (_, linked) ↦
          find_known uuid' provider sub user (after uuid provider sub w)
            (find_or_create-IsHealthy uuid provider sub w h) (linked ∙ e)
      | inr (failed, _) ↦ absurd (cc (failed, e))
    ]
