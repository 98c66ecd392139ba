-- ===== src/OpenClaw/Traced.antt =====
-- The statements and the store calls of the OpenClaw handlers in internal/pingclaw/handlers.go.
use pingclaw_server.Prelude.{ℕ, Bool, Option, none, some, Text, codes, ◌++◌, Option-cases, inl, inr}
use pingclaw_server.Db.{Destination}
use pingclaw_server.Auth.Traced.{IsTraced, traced_rules}
use pingclaw_server.Http.{Response}
use pingclaw_server.Auth.{Session}
use pingclaw_server.PrivateIp.{Net}
use pingclaw_server.Webhook.{Url}
use pingclaw_server.OpenClaw.{
  Dest, DestJson, Hit, no_dest, dest, miss, load_dest, use_cache, lookup_openclaw_dest, cleaned,
  refusal, probe_refusal, save_dest, verify_and_save, register_openclaw_dest, get_openclaw_dest,
  delete_openclaw_dest, test_openclaw_dest,
}

module _ (Who : Text → Type 0) where
  load_dest-IsTraced :
      (dj : DestJson) (user_id : Text) (row : Option (Option Destination))
      → IsTraced Who (load_dest dj user_id row)
  unfolding load_dest
  load_dest-IsTraced dj user_id none = search traced_rules
  load_dest-IsTraced dj user_id (some none) = search traced_rules depth 6
  load_dest-IsTraced dj user_id (some (some r)) = search traced_rules depth 6

  use_cache-IsTraced :
      (dj : DestJson) (user_id : Text) (h : Hit) → IsTraced Who (use_cache dj user_id h)
  unfolding use_cache
  use_cache-IsTraced dj user_id no_dest = search traced_rules
  use_cache-IsTraced dj user_id (dest d) = search traced_rules
  use_cache-IsTraced dj user_id miss = search (traced_rules, load_dest-IsTraced) depth 6

  pub lookup_openclaw_dest-IsTraced :
      (dj : DestJson) (user_id : Text) → IsTraced Who (lookup_openclaw_dest dj user_id)
  unfolding lookup_openclaw_dest
  lookup_openclaw_dest-IsTraced dj user_id = search (traced_rules, use_cache-IsTraced) depth 6

  pub get_openclaw_dest-IsTraced :
      (dj : DestJson) (s : Session) → IsTraced Who (get_openclaw_dest dj s)
  unfolding get_openclaw_dest
  get_openclaw_dest-IsTraced dj s = search (traced_rules, lookup_openclaw_dest-IsTraced) depth 6

  pub test_openclaw_dest-IsTraced :
      (dj : DestJson) (probe : Dest → Option ℕ) (s : Session)
      → IsTraced Who (test_openclaw_dest dj probe s)
  unfolding test_openclaw_dest
  test_openclaw_dest-IsTraced dj probe s =
      search (traced_rules, lookup_openclaw_dest-IsTraced) depth 6

  module _ (s : Session) (own : Who s.user_id) where
    save_dest-IsTraced : (d : Dest) → IsTraced Who (save_dest s.user_id d)
    unfolding save_dest
    save_dest-IsTraced d = search traced_rules depth 10

    verify_and_save-IsTraced :
        (probe : Dest → Option ℕ) (d : Dest) (r : Option Response)
        → IsTraced Who (verify_and_save probe s.user_id d r)
    unfolding verify_and_save
    verify_and_save-IsTraced probe d (some r) = search traced_rules
    verify_and_save-IsTraced probe d none = elim (Option-cases (probe_refusal (probe d))) [
      | inl fine ↦ rw fine (save_dest-IsTraced d)
      | inr (r, bad) ↦ rw bad (search traced_rules)
    ]

    pub register_openclaw_dest-IsTraced :
        (net : Net) (parse_url : Text → Option Url) (probe : Dest → Option ℕ) (local_mode : Bool)
        (uuid : Text) (req : Option Dest)
        → IsTraced Who (register_openclaw_dest net parse_url probe local_mode uuid req s)
    unfolding register_openclaw_dest
    register_openclaw_dest-IsTraced net parse_url probe local_mode uuid none = search traced_rules
    register_openclaw_dest-IsTraced net parse_url probe local_mode uuid (some req) =
        let d : Dest = record (cleaned req) { destination_id = codes "dest_" ++ uuid } in
        verify_and_save-IsTraced probe d (refusal net parse_url local_mode d)

    pub delete_openclaw_dest-IsTraced : IsTraced Who (delete_openclaw_dest s)
    unfolding delete_openclaw_dest
    delete_openclaw_dest-IsTraced = search traced_rules depth 10
