-- ===== src/OpenClaw/Registered.antt =====
-- The OpenClaw destination of internal/pingclaw/handlers.go: RegisterOpenClawDest, the cache of
-- lookupOpenClawDest, and GetOpenClawDest together.
use pingclaw_server.Prelude.{
  ℕ, suc, ◌≡◌, refl, ap, Bool, ◌&&◌, ◌||◌, Option, none, some, List, [], ◌∷◌, nat_beq,
  if◌then◌else◌, ◌++◌, arith, Text, codes, ◌==◌, ==_iff, Bool-cases, Option-cases, inl, inr,
}
use pingclaw_server.Db.{
  Destination, destination_key, destination_of, user_with, is_some, redirect_dest, put_destination,
  upsert_destination,
}
use pingclaw_server.Db.Table.{find_by, find_by-map, find_by-key}
use pingclaw_server.World.{World, kv_get, kv_set, kv_del, db_query, db_exec}
use pingclaw_server.World.Laws.{IsHealthy}
use pingclaw_server.Text.{trim_space, trim_right}
use pingclaw_server.Http.{Json, Response, str}
use pingclaw_server.Http.Reading.{body_of, at}
use pingclaw_server.Auth.{Session}
use pingclaw_server.PrivateIp.{Net}
use pingclaw_server.Webhook.{Url}
use pingclaw_server.Account.{openclaw_dest_cache_key}
use pingclaw_server.OpenClaw.{
  Dest, DestJson, dest_of, row_of, destination, lookup_openclaw_dest, save_dest, verify_and_save,
  register_openclaw_dest, get_openclaw_dest, refusal, cleaned, or_default, probe_refusal,
}

abbrev dest_in : Option Destination → Option Dest
dest_in none = none
dest_in (some r) = some (dest_of r)

redirect_dest-user_id :
    (now : ℕ) (new r : Destination) → destination_key (redirect_dest now new r) ≡ destination_key r
redirect_dest-user_id now new r = ground (arith, ==_iff r.user_id new.user_id)

put_destination_row :
    (now : ℕ) (new : Destination) (old : Option Destination) (rows : List Destination)
    → find_by destination_key new.user_id rows ≡ old
    → dest_in (find_by destination_key new.user_id (put_destination now new old rows))
      ≡ some (dest_of new)
put_destination_row now new none rows e = ground (arith, ==_iff new.user_id new.user_id)
put_destination_row now new (some r) rows e =
    rw
      (
        find_by-map destination_key (redirect_dest now new) (redirect_dest-user_id now new)
            new.user_id rows,
        e,
      )
      (ground (
        arith,
        find_by-key destination_key new.user_id rows {x = r} e,
        ==_iff r.user_id new.user_id,
      ))

lookup_uncached :
    (dj : DestJson) (id : Text) (d : Dest) (w : World)
    → IsHealthy w
    → w.kv (openclaw_dest_cache_key id) ≡ none
    → dest_in (destination_of id w.db) ≡ some d
    → (lookup_openclaw_dest dj id w).0 ≡ destination d
unfolding lookup_openclaw_dest kv_get kv_set db_query
lookup_uncached dj id d w u e t = elim (Option-cases (destination_of id w.db)) [
  | inl none_there ↦ absurd (ground arith)
  | inr (r, there) ↦
      let same : dest_of r ≡ d = ground arith in rw (u.up 0, e, u.up 1, there) (ap destination same)
]

saved_lookup :
    (dj : DestJson) (id : Text) (d : Dest) (w : World)
    → IsHealthy w
    → (save_dest id d w).0.status ≡ 201
    → (lookup_openclaw_dest dj id (save_dest id d w).1).0 ≡ destination d
unfolding save_dest db_exec upsert_destination kv_del
saved_lookup dj id d w u e =
    elim (Bool-cases
      (is_some (user_with id w.db) && (d.action == codes "wake" || d.action == codes "agent"))) [
        | inl known ↦
            rw (u.up 0, known, u.up 1)
              (lookup_uncached dj id d _ (record { up = λ n. u.up (suc (suc n)) })
                (ground (arith, ==_iff id id))
                (put_destination_row w.clock (row_of id d) (destination_of id w.db)
                  w.db.destinations refl))
        | inr unknown ↦ absurd (ground arith)
      ]

refused_status :
    (net : Net) (parse_url : Text → Option Url) (local_mode : Bool) (d : Dest) (x : Response)
    → refusal net parse_url local_mode d ≡ some x
    → x.status ≡ 400
refused_status net parse_url local_mode d x e = ground arith

probed_status : (a : Option ℕ) (x : Response) → probe_refusal a ≡ some x → x.status ≡ 422
probed_status none x e = ground arith
probed_status (some status) x e = ground arith

verified_lookup :
    (dj : DestJson) (probe : Dest → Option ℕ) (id : Text) (d : Dest) (r : Option Response)
    (w : World)
    → IsHealthy w
    → ((x : Response) → r ≡ some x → x.status ≡ 400)
    → (verify_and_save probe id d r w).0.status ≡ 201
    → (lookup_openclaw_dest dj id (verify_and_save probe id d r w).1).0 ≡ destination d
unfolding verify_and_save
verified_lookup dj probe id d (some x) w u bad e = absurd (omega (arith, bad x refl))
verified_lookup dj probe id d none w u bad e = elim (Option-cases (probe_refusal (probe d))) [
  | inl passed ↦ rw passed (saved_lookup dj id d w u (rw passed at e))
  | inr (x, refused) ↦
      absurd (let e' = rw refused at e in omega (arith, probed_status (probe d) x refused))
]

-- What the user sees of a destination, read from the JSON.
abbrev pub Shows : Text → Dest → Option Json → Type 0
Shows uuid req shown =
    (at "destination_id" shown ≡ some (str (codes "dest_" ++ uuid)))
    × (at "gateway_url" shown
        ≡ some (str (trim_space (trim_right (λ c. nat_beq c b'/') (trim_space req.gateway_url)))))
    × (at "hook_path" shown
        ≡ some (
            str (
              if trim_space req.hook_path == []
              then codes "pingclaw"
              else trim_space req.hook_path)))
    × (at "action" shown
        ≡ some (str (if trim_space req.action == [] then codes "wake" else trim_space req.action)))
    × (at "session_key" shown ≡ some (str (trim_space req.session_key)))
    × (at "hook_token" shown ≡ none)

defaulted : (default t : Text) → or_default default t ≡ (if t == [] then default else t)
defaulted default [] = refl
defaulted default (c ∷ t) = refl

-- After a registration that was answered with 201, while every call works, the user reads back, with
-- 200 and whatever was cached or registered before: the new identifier; the URL without the white
-- space around it, the slashes at the end of what is left, and the white space before those; the
-- path, the action and the session key without the white space around them, and "pingclaw" and "wake"
-- in place of an empty path and action; but not the hook token.
pub register-get_openclaw_dest :
    (net : Net) (parse_url : Text → Option Url) (probe : Dest → Option ℕ) (local_mode : Bool)
    (uuid : Text) (req : Dest) (dj : DestJson) (s : Session) (w : World)
    → IsHealthy w
    → (register_openclaw_dest net parse_url probe local_mode uuid (some req) s w).0.status ≡ 201
    → let response =
        (get_openclaw_dest dj s
          (register_openclaw_dest net parse_url probe local_mode uuid (some req) s w).1).0 in
      (response.status ≡ 200) × Shows uuid req (at "destination" (body_of response))
unfolding register_openclaw_dest get_openclaw_dest
register-get_openclaw_dest net parse_url probe local_mode uuid req dj s w u e =
    let d = record (cleaned req) { destination_id = codes "dest_" ++ uuid } in
    rw
      (verified_lookup dj probe s.user_id d (refusal net parse_url local_mode d) w u
        (refused_status net parse_url local_mode d) e)
      (
        refl,
        (
          refl,
          refl,
          rw (defaulted (codes "pingclaw") (trim_space req.hook_path)) refl,
          rw (defaulted (codes "wake") (trim_space req.action)) refl,
          refl,
          refl,
        ),
      )
