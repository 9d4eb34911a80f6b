-- ===== src/Http.antt =====
-- cpp/src/handlers/common.hpp, the response helpers: requests and responses as the handlers see
-- them. Reading, writing and the framing of a message are Boost.Beast's.
use loglite.Prelude.{Bool, List, Option, String, Text, [], codes, some, ℕ, ◌>>=◌, ◌∷◌}
use loglite.Json.{Json, end, field, object, string}

pub data Verb : Type 0 where
  get post options other_verb : Verb

pub record Request : Type 0 where
  pub verb : Verb
  pub target : Text
  pub keeps_alive : Bool
  pub body : Text

pub record Response : Type 0 where
  pub status : ℕ
  pub headers : List (Text × Text)
  pub keeps_alive : Bool
  pub body : Text

-- The headers that let a page of another origin read the response.
abbrev pub cors_headers : Text → List (Text × Text)
cors_headers origin =
    (codes "Access-Control-Allow-Origin", origin)
    ∷ (codes "Access-Control-Allow-Methods", codes "GET, POST, OPTIONS")
    ∷ (codes "Access-Control-Allow-Headers", codes "Content-Type")
    ∷ []

-- An object of one member.
abbrev pub one_field : String → Json → Json
one_field key v = object (field (codes key) v end)

-- `dump` is the JSON library's printer, which throws on text that is not UTF-8 (`none`); the
-- exception is the helper's.
module _ (dump : Json → Option Text) (origin : Text) where
  unfoldable pub make_json_response : ℕ → Json → Request → Option Response
  make_json_response status body req = do
    text ← dump body
    some (record {
      status = status;
      headers = (codes "Content-Type", codes "application/json") ∷ cors_headers origin;
      keeps_alive = req.keeps_alive;
      body = text;
    })

  unfoldable pub make_ok_resp : Json → Request → Option Response
  unfolding make_json_response
  make_ok_resp body req = make_json_response 200 body req

  unfoldable pub make_fail_resp : ℕ → Text → Request → Option Response
  unfolding make_json_response
  make_fail_resp status_code msg req =
      make_json_response status_code (one_field "error" (string msg)) req

  unfoldable pub make_not_available_resp : Json → Request → Option Response
  unfolding make_json_response
  make_not_available_resp body req = make_json_response 503 body req
