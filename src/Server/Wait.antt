-- ===== src/Server/Wait.antt =====
-- The loops of initDB and initRedis in cmd/pingclaw-server/main.go, which wait until the database or
-- Redis answers.
use pingclaw_server.Prelude.{
  ℕ, zero, suc, ◌+◌, ◌*◌, ◌^◌, ◌≤◌, ◌<◌, ◌≡◌, refl, Bool, true, false, Option, none, some, arith,
  leb, if◌then◌else◌, Bool-cases, inl, inr,
}

-- What a ping that starts at a time gives, and how long it takes. Times are in nanoseconds.
pub record Ping : Type 0 where
  pub works : Bool
  pub takes : ℕ

abbrev pub second : ℕ
second = 10 ^ 9

-- context.WithTimeout(…, 30*time.Second)
abbrev pub patience : ℕ
patience = 30 * second

-- How the loop ends, and when.
pub data Outcome : Type 0 where
  ready given_up : ℕ → Outcome

-- One round for each unit of fuel; `none` means that the fuel ran out. When the deadline and the
-- timer of the pause fall together, the deadline is taken.
unfoldable pub rounds : (ℕ → Ping) → ℕ → ℕ → ℕ → Option Outcome
rounds ping zero deadline t = none
rounds ping (suc fuel) deadline t =
    let p = ping t in
    let after = t + p.takes in
    let again = rounds ping fuel deadline (after + second) in
    if p.works
    then some (ready after)
    else if leb deadline after
    then some (given_up after)
    else if leb deadline (after + second)
    then some (given_up deadline)
    else again

-- Thirty rounds are enough, since each takes a second at least.
unfoldable pub wait_for : (ℕ → Ping) → ℕ → Option Outcome
unfolding rounds
wait_for ping start = rounds ping 30 (start + patience) start

-- When a wait has ended.
abbrev pub end_of : Outcome → ℕ
end_of (ready t) = t
end_of (given_up t) = t

abbrev IsOver : ℕ → ℕ → Option Outcome → Type 0
IsOver deadline slack none = ⊥
IsOver deadline slack (some r) = end_of r ≤ deadline + slack

module _ (ping : ℕ → Ping) (slack : ℕ) (quick : (t : ℕ) → (ping t).takes ≤ slack) where
  rounds-IsOver :
      (fuel deadline t : ℕ)
      → t < deadline
      → deadline ≤ t + fuel * second
      → IsOver deadline slack (rounds ping fuel deadline t)
  unfolding rounds
  rounds-IsOver zero deadline t early enough = absurd (omega arith)
  rounds-IsOver (suc fuel) deadline t early enough =
      let short = quick t in
      let after = t + (ping t).takes in
      elim (Bool-cases (ping t).works) [
        | inl up ↦ rw up (omega arith)
        | inr down ↦ elim (Bool-cases (leb deadline after)) [
          | inl late ↦ rw (down, late) (omega arith)
          | inr in_time ↦ elim (Bool-cases (leb deadline (after + second))) [
            | inl late ↦ rw (down, in_time, late) (omega arith)
            | inr more ↦
                let left : after + second < deadline = ground arith in
                rw (down, in_time, more)
                  (rounds-IsOver fuel deadline (after + second) left (omega arith))
          ]
        ]
      ]

  module _ (from : ℕ) (up : (t : ℕ) → from ≤ t → (ping t).works ≡ true) where
    abbrev IsReady : Option Outcome → Type 0
    IsReady none = ⊥
    IsReady (some (ready t)) = Unit {0}
    IsReady (some (given_up t)) = ⊥

    rounds-IsReady :
        (fuel deadline t : ℕ)
        → t < deadline
        → deadline ≤ t + fuel * second
        → from + slack + second < deadline
        → IsReady (rounds ping fuel deadline t)
    unfolding rounds
    rounds-IsReady zero deadline t early enough p = absurd (omega arith)
    rounds-IsReady (suc fuel) deadline t early enough p =
        let short = quick t in
        let after = t + (ping t).takes in
        elim (Bool-cases (leb from t)) [
          | inl since ↦ let q : from ≤ t = ground arith in rw (up t q) tt
          | inr before ↦
              let q : t < from = ground arith in
              let in_time : leb deadline after ≡ false = ground arith in
              let more : leb deadline (after + second) ≡ false = ground arith in
              elim (Bool-cases (ping t).works) [
                | inl works ↦ rw works tt
                | inr down ↦
                    rw (down, in_time, more)
                      (rounds-IsReady fuel deadline (after + second) (omega arith) (omega arith) p)
              ]
        ]

over_result :
    (deadline slack : ℕ) (o : Option Outcome)
    → IsOver deadline slack o
    → (r : Outcome) × (o ≡ some r) × (end_of r ≤ deadline + slack)
over_result deadline slack none h = absurd h
over_result deadline slack (some r) h = (r, refl, h)

-- The wait always ends, in at most thirty rounds, and at the latest half a minute and one ping after
-- it began, if no ping takes longer than a given time.
pub wait_for_ends :
    (ping : ℕ → Ping) (slack start : ℕ)
    → ((t : ℕ) → (ping t).takes ≤ slack)
    → (r : Outcome) × (wait_for ping start ≡ some r) × (end_of r ≤ start + patience + slack)
unfolding wait_for
wait_for_ends ping slack start quick =
    over_result (start + patience) slack (rounds ping 30 (start + patience) start)
      (rounds-IsOver ping slack quick 30 (start + patience) start (omega arith) (omega arith))

ready_result :
    (ping : ℕ → Ping) (slack : ℕ) (quick : (t : ℕ) → (ping t).takes ≤ slack) (from : ℕ)
    (up : (t : ℕ) → from ≤ t → (ping t).works ≡ true) (o : Option Outcome)
    → IsReady ping slack quick from up o
    → (t : ℕ) × (o ≡ some (ready t))
ready_result ping slack quick from up none h = absurd h
ready_result ping slack quick from up (some (ready t)) h = (t, refl)
ready_result ping slack quick from up (some (given_up t)) h = absurd h

-- If each ping from some time on works, and that time is more than a ping and a second before the
-- deadline, then the wait ends with the connection and is not given up.
pub wait_for_ready :
    (ping : ℕ → Ping) (slack from start : ℕ)
    → ((t : ℕ) → (ping t).takes ≤ slack)
    → ((t : ℕ) → from ≤ t → (ping t).works ≡ true)
    → from + slack + second < start + patience
    → (t : ℕ) × (wait_for ping start ≡ some (ready t))
unfolding wait_for
wait_for_ready ping slack from start quick up p =
    ready_result ping slack quick from up (rounds ping 30 (start + patience) start) (
      rounds-IsReady ping slack quick from up 30 (start + patience) start (omega arith)
        (omega arith) p)
