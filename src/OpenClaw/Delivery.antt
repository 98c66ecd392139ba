-- ===== src/OpenClaw/Delivery.antt =====
-- What is sent to an OpenClaw gateway: deliverToOpenClaw with its retry loop, and
-- testOpenClawDelivery, of internal/pingclaw/handlers.go. What comes of each request is an argument.
use pingclaw_server.Prelude.{
  ℕ, zero, suc, ◌≤◌, ◌<◌, ◌≢◌, ◌⊎◌, inl, inr, nat_beq_iff, ◌≡◌, refl, ◌++◌, Bool, true, false, ◌||◌,
  Option, none, some, List, [], ◌∷◌, arith, Text, codes, ltb, nat_beq, if◌then◌else◌,
}
use pingclaw_server.Text.{trim_right}
use pingclaw_server.Http.{Float, str, obj, end, field}
use pingclaw_server.OpenClaw.{Dest}
use pingclaw_server.Outgoing.{
  Post, Sent, unbuilt, unreachable, answered, post, Format, format_location_text, hook_url,
  hook_payload,
}

-- Whether the loop ends after an attempt.
abbrev pub ends : Sent → Bool
ends unbuilt = true
ends unreachable = false
ends (answered status) = nat_beq status 401 || nat_beq status 404 || ltb status 300

-- The loop over the attempts, with what came of each that was made. `send` gives what comes of a
-- request at each attempt.
pub attempts : ℕ → ℕ → (ℕ → Post → Sent) → Post → List Sent
attempts zero n send p = []
attempts (suc left) n send p =
    let rest = attempts left (suc n) send p in
    if ends (send n p) then send n p ∷ [] else send n p ∷ rest

-- The source of the location comes last.
unfoldable pub deliver_to_openclaw :
    Format → (ℕ → Post → Sent) → Dest → Float → Float → Float → Text → List Sent
unfolding attempts
deliver_to_openclaw fmt send d lat lon accuracy source =
    let text = format_location_text fmt lat lon accuracy source in
    attempts 2 0 send (post (hook_url d) d.hook_token (hook_payload d text))

-- The status of the answer to a first message, if there was one.
abbrev status_of : Sent → Option ℕ
status_of unbuilt = none
status_of unreachable = none
status_of (answered status) = some status

unfoldable pub test_openclaw_delivery : (Post → Sent) → Dest → Option ℕ
test_openclaw_delivery send d = status_of (
    send (
      post (hook_url d) d.hook_token (
        obj (
          field "text" (str (codes "PingClaw connected. Location updates will appear here."))
            (field "mode" (str (codes "now")) end)))))

-- The first attempt ends the delivery: the request was not built, the gateway took it, or it answered
-- that the token or the path is wrong.
abbrev pub IsFinal : Sent → Type 0
IsFinal unbuilt = Unit {0}
IsFinal unreachable = ⊥
IsFinal (answered status) = (status < 300) ⊎ ((status ≡ 401) ⊎ (status ≡ 404))

-- It is tried again: there was no response, or any other status.
abbrev pub IsRetried : Sent → Type 0
IsRetried unbuilt = ⊥
IsRetried unreachable = Unit {0}
IsRetried (answered status) = (300 ≤ status) × ((status ≢ 401) × (status ≢ 404))

-- What came of the attempts with a request.
abbrev pub Deliveries : (ℕ → Post → Sent) → Post → List Sent → Type 0
Deliveries send p outcomes =
    (IsFinal (send 0 p) × (outcomes ≡ send 0 p ∷ []))
    ⊎ (IsRetried (send 0 p) × (outcomes ≡ send 0 p ∷ send 1 p ∷ []))

ends-cases : (o : Sent) → (IsFinal o × (ends o ≡ true)) ⊎ (IsRetried o × (ends o ≡ false))
ends-cases unbuilt = inl (tt, refl)
ends-cases unreachable = inr (tt, refl)
ends-cases (answered status) = ground (arith, nat_beq_iff status 401, nat_beq_iff status 404)

attempts-Deliveries : (send : ℕ → Post → Sent) (p : Post) → Deliveries send p (attempts 2 0 send p)
unfolding attempts
attempts-Deliveries send p = elim (ends-cases (send 0 p)) [
  | inl (final, e) ↦ inl (final, ground (arith, e))
  | inr (retried, e) ↦ inr (retried, ground (arith, e))
]

-- A delivery posts to the gateway's URL without the slashes at its end, with the hook's path and
-- token and the location's text. It makes one attempt if the request cannot be built, or the gateway
-- answers with a status below 300, with 401 or with 404; on no response or any other status it makes
-- exactly two, with the same request.
pub deliver_to_openclaw-retries :
    (fmt : Format) (send : ℕ → Post → Sent) (d : Dest) (lat lon accuracy : Float) (source : Text)
    → Deliveries send
        (record {
          url = trim_right (λ c. nat_beq c b'/') d.gateway_url ++ (codes "/hooks/" ++ d.hook_path);
          authorization = codes "Bearer " ++ d.hook_token;
          body = hook_payload d (format_location_text fmt lat lon accuracy source);
        })
        (deliver_to_openclaw fmt send d lat lon accuracy source)
unfolding deliver_to_openclaw
deliver_to_openclaw-retries fmt send d lat lon accuracy source = attempts-Deliveries send (
    post (hook_url d) d.hook_token
      (hook_payload d (format_location_text fmt lat lon accuracy source)))
