-- ===== src/Api/Http.antt =====
-- What the handlers of internal/manager/api share: their replies, their authentication, and JSON as
-- a parameter.
use synergia.Prelude.{
  ℕ, String, Bool, false, ◌||◌, Option, str_eq, str_append, trim_prefix, strip_prefix, none, some,
}
use synergia.Protocol.{ChatCompletionRequest, ChatCompletionResponse}

-- A reply with a body, or an error with its status, as http.Error and writeError write it.
pub data Reply (B : Type 0) : Type 0 where
  reply : ℕ → B → Reply B
  error : ℕ → String → Reply B

pub data Method : Type 0 where
  get post other : Method

-- The headers that the handlers read; a missing one is empty.
pub record Headers : Type 0 where
  pub x_api_key : String
  pub authorization : String

-- CompletionsHandler.authenticate and BatchHandler.authenticate
unfoldable pub authenticate_api_key : String → Headers → Bool
authenticate_api_key api_key h =
    str_eq h.x_api_key api_key || str_eq (trim_prefix "Bearer " h.authorization) api_key

-- ConsentAPI.authenticate, for the current worker key, which is empty in TOFU mode.
unfoldable pub authenticate_worker : String → Headers → Bool
authenticate_worker key h =
    str_eq key "" || str_eq h.x_api_key key || (elim (strip_prefix "Bearer " h.authorization) [
      | none ↦ false
      | some String.[] ↦ false
      | some (String.◌∷◌ c token) ↦ str_eq (String.◌∷◌ c token) key
    ])

-- RolesAPI.authenticate
unfoldable pub authenticate_roles : String → String → Headers → Bool
authenticate_roles api_key key h =
    str_eq key ""
    || str_eq h.authorization (str_append "Bearer " key)
    || str_eq h.authorization (str_append "Bearer " api_key)

-- encoding/json, and the texts of its errors.
pub record Codec : Type 0 where
  pub decode_request : String → Option ChatCompletionRequest
  pub decode_response : String → Option ChatCompletionResponse
  pub encode_response : ChatCompletionResponse → String
  pub request_error : String → String
