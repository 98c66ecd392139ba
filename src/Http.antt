-- ===== src/Http.antt =====
-- Responses: the JSON values that the handlers write, and writeJSON, writeError and http.Error of
-- internal/pingclaw/handlers.go.
pub mod Reading
use pingclaw_server.Prelude.{ℕ, Bool, List, [], ◌∷◌, String, Text, codes}
use pingclaw_server.Prelude.Int.{ℤ}
use pingclaw_server.Text.Number.{format_int}

-- A float64 is its bit pattern.
abbrev pub Float : Type 0
Float = ℕ

mutual
  pub data Json : Type 0 where
    null : Json
    str : Text → Json
    number : ℕ → Json
    float : Float → Json
    bool : Bool → Json
    obj : Fields → Json
    arr : Items → Json

  pub data Fields : Type 0 where
    end : Fields
    field : String → Json → Fields → Fields

  pub data Items : Type 0 where
    done : Items
    item : Json → Items → Items

pub data Body : Type 0 where
  json : Json → Body
  plain : Text → Body
  page : Fields → Body
  no_body : Body

pub record Response : Type 0 where
  pub status : ℕ
  pub headers : List (Text × Text)
  pub body : Body

abbrev pub items {ℓ} : {A : Type ℓ} → (A → Json) → List A → Items
items f [] = done
items f (x ∷ xs) = item (f x) (items f xs)

abbrev pub write_json : ℕ → Json → Response
write_json status v = record {
  status = status;
  headers = (codes "Content-Type", codes "application/json") ∷ [];
  body = json v;
}

abbrev pub write_error : ℕ → String → Response
write_error status msg = write_json status (obj (field "error" (str (codes msg)) end))

abbrev pub http_error : String → ℕ → Response
http_error msg status = record {
  status = status;
  headers =
      (codes "Content-Type", codes "text/plain; charset=utf-8")
      ∷ (codes "X-Content-Type-Options", codes "nosniff")
      ∷ [];
  body = plain (codes msg);
}

abbrev pub with_header : String → Text → Response → Response
with_header k v r = record r { headers = (codes k, v) ∷ r.headers }

-- 429 with the Retry-After header.
abbrev pub too_many : ℤ → String → Response
too_many retry_after msg = with_header "Retry-After" (format_int retry_after) (write_error 429 msg)
