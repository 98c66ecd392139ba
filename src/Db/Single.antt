-- ===== src/Db/Single.antt =====
-- How many tokens of a kind a user has, under the statements of the handlers in
-- internal/pingclaw/handlers.go.
use pingclaw_server.Prelude.{
  ℕ, ◌≤◌, ◌≡◌, refl, subst, Bool, not, Option, none, some, List, [], ◌∷◌, map, length, arith, Text,
  ◌==◌, ==_iff, Bool-cases, inl, inr,
}
use pingclaw_server.Db.{Db, Token, is_token_of, mark_used, delete_user}
use pingclaw_server.Db.Table.{select}

-- No user has two tokens of a kind.
abbrev pub OneEach : List Token → Type 0
OneEach ts = (user_id kind : Text) → length (select (is_token_of user_id kind) ts) ≤ 1

pub select-length :
    (p q : Token → Bool) (ts : List Token) → length (select p (select q ts)) ≤ length (select p ts)
select-length p q [] = omega arith
select-length p q (t ∷ ts) = ground (arith, select-length p q ts)

pub mark_used-length :
    (now : ℕ) (hash user_id kind : Text) (ts : List Token)
    → length (select (is_token_of user_id kind) (map (mark_used now hash) ts))
      ≡ length (select (is_token_of user_id kind) ts)
mark_used-length now hash user_id kind [] = refl
mark_used-length now hash user_id kind (t ∷ ts) =
    ground (arith, mark_used-length now hash user_id kind ts)

none_left :
    (user_id kind : Text) (ts : List Token)
    → length (select (is_token_of user_id kind) (select (λ t. not (is_token_of user_id kind t)) ts))
      ≡ 0
none_left user_id kind [] = refl
none_left user_id kind (t ∷ ts) = ground (arith, none_left user_id kind ts)

one_left :
    (u k user_id kind : Text) (ts : List Token)
    → u ≡ user_id
    → k ≡ kind
    → length (select (is_token_of user_id kind) (select (λ t. not (is_token_of u k t)) ts)) ≡ 0
one_left u k user_id kind ts p q =
    subst (λ x. length (select (is_token_of x kind) (select (λ t. not (is_token_of u k t)) ts)) ≡ 0)
      p
      (subst (λ y. length (select (is_token_of u y) (select (λ t. not (is_token_of u k t)) ts)) ≡ 0)
        q (none_left u k ts))

-- A token in place of all others of its user and kind.
pub replaced-OneEach :
    (row : Token) (ts : List Token)
    → OneEach ts
    → OneEach (row ∷ select (λ t. not (is_token_of row.user_id row.kind t)) ts)
replaced-OneEach row ts h user_id kind = elim (Bool-cases (is_token_of user_id kind row)) [
  | inr other ↦ rw other (
      omega (
        arith,
        h user_id kind,
        select-length (is_token_of user_id kind) (λ t. not (is_token_of row.user_id row.kind t)) ts,
      ))
  | inl same ↦
      let user : row.user_id ≡ user_id = ground (arith, ==_iff row.user_id user_id) in
      let its_kind : row.kind ≡ kind = ground (arith, ==_iff row.kind kind) in
      rw same (omega (arith, one_left row.user_id row.kind user_id kind ts user its_kind))
]

-- The tokens after a statement, if it was not refused.
abbrev pub StillOneEach : Option Db → Type 0
StillOneEach none = Unit {0}
StillOneEach (some db) = OneEach db.tokens

pub delete_user-OneEach :
    (id : Text) (db : Db) → OneEach db.tokens → StillOneEach (delete_user id db)
unfolding delete_user
delete_user-OneEach id db h user_id kind = omega (
  arith,
  h user_id kind,
  select-length (is_token_of user_id kind) (λ t. not (t.user_id == id)) db.tokens,
)
