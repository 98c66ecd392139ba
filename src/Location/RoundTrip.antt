-- ===== src/Location/RoundTrip.antt =====
-- PostLocation and GetLocation of internal/pingclaw/handlers.go together.
use pingclaw_server.Prelude.{
  ℕ, suc, ◌+◌, ◌*◌, ◌^◌, ◌≤◌, ◌≡◌, refl, subst, ◌∙◌, true, false, Option, none, some, ◌++◌, arith,
  Text, codes, ==_iff, if◌then◌else◌,
}
use pingclaw_server.Kv.{Entry, expired}
use pingclaw_server.World.{World, at, kv_get, kv_set, db_query}
use pingclaw_server.World.Laws.{IsHealthy}
use pingclaw_server.RateLimit.{Verdict, allow}
use pingclaw_server.RateLimit.Frame.{allow-frame, allow-clock, allow-IsHealthy}
use pingclaw_server.Token.{Env}
use pingclaw_server.Auth.{Session}
use pingclaw_server.Account.{Config, location_key}
use pingclaw_server.Integration.{record_integration_activity}
use pingclaw_server.Webhook.{Target, lookup_webhook}
use pingclaw_server.OpenClaw.{
  DestJson, Lookup, lookup_error, no_destination, destination, lookup_openclaw_dest,
}
use pingclaw_server.Location.{
  CachedLocation, LocationJson, LocationRequest, notify_webhook, notify_openclaw, notify,
  location_of, stamped, write_location, read_location, above_zero, timestamp_or, post_location,
  post_checked, post_decoded, post_saved, get_location, get_checked, show_location, located,
}

-- What a program does to one key, and to the calls that work.
record Spares {ℓ} {A : Type ℓ} (k : Text) (m : World → A × World) : Type ℓ where
  same : (w : World) → (m w).1.kv k ≡ w.kv k
  healthy : (w : World) → IsHealthy w → IsHealthy (m w).1

module _ (env : Env) (id : Text) where
  lookup_webhook-Spares : Spares (location_key id) (lookup_webhook id)
  unfolding lookup_webhook kv_get kv_set db_query
  lookup_webhook-Spares = record {
    same = λ w. ground arith;
    healthy = λ w h. record {
      up = λ n. ground (arith, h.up (suc n), h.up (suc (suc n)), h.up (suc (suc (suc n))));
    };
  }

  lookup_openclaw_dest-Spares :
      (dj : DestJson) → Spares (location_key id) (lookup_openclaw_dest dj id)
  unfolding lookup_openclaw_dest kv_get kv_set db_query
  lookup_openclaw_dest-Spares dj = record {
    same = λ w. ground arith;
    healthy = λ w h. record {
      up = λ n. ground (arith, h.up (suc n), h.up (suc (suc n)), h.up (suc (suc (suc n))));
    };
  }

  notify_webhook-Spares :
      (req : LocationRequest) (t : Option Target)
      → Spares (location_key id) (notify_webhook env id req t)
  unfolding notify_webhook record_integration_activity kv_set
  notify_webhook-Spares req none = record { same = λ w. refl; healthy = λ w h. h }
  notify_webhook-Spares req (some t) = record {
    same = λ w. ground arith;
    healthy = λ w h. record { up = λ n. h.up (suc n) };
  }

  notify_openclaw-Spares :
      (req : LocationRequest) (d : Lookup) → Spares (location_key id) (notify_openclaw env id req d)
  unfolding notify_openclaw record_integration_activity kv_set
  notify_openclaw-Spares req lookup_error = record { same = λ w. refl; healthy = λ w h. h }
  notify_openclaw-Spares req no_destination = record { same = λ w. refl; healthy = λ w h. h }
  notify_openclaw-Spares req (destination d) = record {
    same = λ w. ground arith;
    healthy = λ w h. record { up = λ n. h.up (suc n) };
  }

  notify-Spares :
      (dj : DestJson) (req : LocationRequest) → Spares (location_key id) (notify env dj id req)
  unfolding notify
  notify-Spares dj req = record {
    same = λ w.
        let a = lookup_webhook id w in
        let b = notify_webhook env id req a.0 a.1 in
        let c = lookup_openclaw_dest dj id b.1 in
        (notify_openclaw-Spares req c.0).same c.1
        ∙ (lookup_openclaw_dest-Spares dj).same b.1
        ∙ (notify_webhook-Spares req a.0).same a.1
        ∙ lookup_webhook-Spares.same w;
    healthy = λ w h.
        let a = lookup_webhook id w in
        let b = notify_webhook env id req a.0 a.1 in
        let c = lookup_openclaw_dest dj id b.1 in
        (notify_openclaw-Spares req c.0).healthy c.1 (
          (lookup_openclaw_dest-Spares dj).healthy b.1
            ((notify_webhook-Spares req a.0).healthy a.1 (lookup_webhook-Spares.healthy w h)));
  }

-- The entry that a post leaves.
abbrev kept : LocationJson → CachedLocation → ℕ → Entry
kept lj loc t = record { value = lj.marshal loc; expires_at = some (t + 24 * 60 * 60 * 10 ^ 9) }

-- A world in which a location is kept and every call works.
record Holds (id : Text) (e : Entry) (w : World) : Type 0 where
  entry : w.kv (location_key id) ≡ some e
  up : IsHealthy w

post_decoded-Holds :
    (env : Env) (lj : LocationJson) (dj : DestJson) (id : Text) (req : LocationRequest) (w : World)
    → IsHealthy w
    → Holds id
        (kept lj (location_of (env.rfc3339 w.clock) req) w.clock)
        (post_decoded env lj dj id (some req) w).1
unfolding post_decoded post_saved write_location kv_set
post_decoded-Holds env lj dj id req w h =
    let spared = notify-Spares env id dj (stamped (env.rfc3339 w.clock) req) in
    rw (h.up 0) (record {
      entry = spared.same _ ∙ ground (arith, ==_iff id id, h.up 0);
      up = spared.healthy _ (record { up = λ n. h.up (suc n) });
    })

module _ (env : Env) (cfg : Config) (lj : LocationJson) (id : Text) (w : World) where
  abbrev limited : Verdict × World
  limited = allow cfg.limiter_fast (codes "rl:loc:get:" ++ id) cfg.location_get_per_minute w

  get_location_found :
      (kind : Text) (loc : CachedLocation) (t : ℕ)
      → Holds id (kept lj loc t) w
      → lj.unmarshal (lj.marshal loc) ≡ some loc
      → w.clock ≤ t + 24 * 60 * 60 * 10 ^ 9
      → limited.0.allowed ≡ true
      → (get_location env cfg lj (record { user_id = id; kind = kind }) w).0
        ≡ located (env.rfc3339 w.clock) loc
  unfolding get_location get_checked show_location read_location record_integration_activity kv_get
      kv_set
  get_location_found kind loc t h codec within ok =
      let l = cfg.limiter_fast in
      let max = cfg.location_get_per_minute in
      let key = codes "rl:loc:get:" ++ id in
      let up = (allow-IsHealthy l max key w h.up).up 0 in
      let there = allow-frame l max key w (location_key id) refl ∙ h.entry in
      let fresh : expired (kept lj loc t) w.clock ≡ false = ground arith in
      rw (ok, up, there, allow-clock l max key w, fresh, codec) refl

module _ (env : Env) (cfg : Config) (lj : LocationJson) (dj : DestJson) (req : LocationRequest)
    (s : Session) (w : World) where
  post_location-Holds :
      IsHealthy w
      → (allow cfg.limiter_fast
          (codes "rl:loc:post:" ++ s.user_id)
          cfg.location_post_per_minute
          w).0.allowed
        ≡ true
      → Holds s.user_id
          (kept lj (location_of (env.rfc3339 w.clock) req) w.clock)
          (post_location env cfg lj dj (some req) s w).1
  unfolding post_location post_checked
  post_location-Holds h ok =
      let l = cfg.limiter_fast in
      let max = cfg.location_post_per_minute in
      let key = codes "rl:loc:post:" ++ s.user_id in
      let v = allow l key max w in
      rw ok (
        subst
          (λ t.
            Holds s.user_id (kept lj (location_of (env.rfc3339 t) req) t)
              (post_decoded env lj dj s.user_id (some req) v.1).1)
          (allow-clock l max key w)
          (post_decoded-Holds env lj dj s.user_id req v.1 (allow-IsHealthy l max key w h)))

  -- A location that was posted when the limiter let the request pass is answered to every reader
  -- that the limiter lets pass within the next 24 hours, while every call works and the codec reads
  -- back what it wrote: the coordinates, the accuracy if it is above zero, and the time of the
  -- request or, if it had none, of the post.
  pub post_location-get_location :
      (later : ℕ)
      → IsHealthy w
      → (allow cfg.limiter_fast
          (codes "rl:loc:post:" ++ s.user_id)
          cfg.location_post_per_minute
          w).0.allowed
        ≡ true
      → lj.unmarshal (lj.marshal (location_of (env.rfc3339 w.clock) req))
        ≡ some (location_of (env.rfc3339 w.clock) req)
      → later ≤ w.clock + 24 * 60 * 60 * 10 ^ 9
      → (allow cfg.limiter_fast
          (codes "rl:loc:get:" ++ s.user_id)
          cfg.location_get_per_minute
          (at later (post_location env cfg lj dj (some req) s w).1)).0.allowed
        ≡ true
      → (get_location env cfg lj s (at later (post_location env cfg lj dj (some req) s w).1)).0
        ≡ located (env.rfc3339 later) (record {
          lat = req.lat;
          lng = req.lng;
          accuracy_metres =
              if above_zero req.accuracy_metres then some req.accuracy_metres else none;
          timestamp = timestamp_or (env.rfc3339 w.clock) req.timestamp;
          received_at = env.rfc3339 w.clock;
        })
  post_location-get_location later h ok codec within ok' =
      let posted = post_location-Holds h ok in
      let held : Holds s.user_id (kept lj (location_of (env.rfc3339 w.clock) req) w.clock)
          (at later (post_location env cfg lj dj (some req) s w).1) =
        record { entry = posted.entry; up = record { up = λ n. posted.up.up n } } in
      get_location_found env cfg lj s.user_id _ s.kind (location_of (env.rfc3339 w.clock) req)
        w.clock held codec within ok'
