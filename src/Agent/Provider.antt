-- ===== src/Agent/Provider.antt =====
-- crates/paraegox-agent/src/provider.rs: the model's messages, the deterministic responder and
-- the checks around a DeepSeek completion. The HTTP exchange and serde_json are arguments.
use para_egox.Prelude.{
  ℕ, ◌-◌, Bool, true, false, ◌&&◌, ◌||◌, not, Option, none, some, List, [], ◌∷◌, ◌++◌, reverse, ltb,
  leb, ◌==◌, ◌=?◌, if◌then◌else◌, Result, ok, err, ◌>>=◌, ◌>>◌, reject_if, any, length, nat_eq,
  list_eq,
}
use para_egox.Text.{Text, text, len, trim, is_empty, is_control}
use para_egox.Agent.Types.{
  TurnFailure, provider_rejected, provider_unavailable, invalid_provider_response, context_limit,
  builtin_agent_definition, deepseek_v4_flash_agent_definition,
}

abbrev pub max_model_content_bytes : ℕ
max_model_content_bytes = 16384

abbrev pub max_provider_request_bytes : ℕ
max_provider_request_bytes = 524288

abbrev pub max_provider_response_bytes : ℕ
max_provider_response_bytes = 65536

pub data ModelRole : Type 0 where
  system user assistant : ModelRole

pub record ModelMessage : Type 0 where
  pub role : ModelRole
  pub content : Text

pub record ModelContext : Type 0 where
  pub messages : List ModelMessage

-- Which of the two providers the service owns; the HTTP client is not state of the model.
pub data CompletionProvider : Type 0 where
  deterministic : CompletionProvider
  deepseek_v4_flash : CompletionProvider

unfoldable pub card_definition : CompletionProvider → Text
card_definition deterministic = builtin_agent_definition
card_definition deepseek_v4_flash = deepseek_v4_flash_agent_definition

abbrev pub is_user : ModelRole → Bool
is_user user = true
is_user _ = false

-- The `filter` and `map` over the reversed messages.
unfoldable pub user_inputs : List ModelMessage → List Text
user_inputs [] = []
user_inputs (m ∷ ms) = if is_user m.role then m.content ∷ user_inputs ms else user_inputs ms

-- `none` is the panic of the `expect`.
unfoldable pub answer : List Text → Option Text
answer [] = none
answer (current ∷ []) = some (text "current: " ++ current)
answer (current ∷ previous ∷ _) =
    some (text "previous: " ++ (previous ++ (text "; current: " ++ current)))

unfoldable pub deterministic_final : ModelContext → Option Text
deterministic_final context = answer (user_inputs (reverse context.messages))

unfoldable pub is_safe_model_content : Text → Bool
is_safe_model_content content =
    not (is_empty (trim content))
    && leb (len content) max_model_content_bytes
    && not (any (λ c. is_control c && (not (c == 10) && not (c == 9))) content)

-- The status code of a response that is no success.
unfoldable pub classify_provider_status : ℕ → TurnFailure
classify_provider_status status =
    if status == 429 || (leb 500 status && ltb status 600)
    then provider_unavailable
    else provider_rejected

-- `to_vec` is the size of the encoded request, if it could be encoded.
unfoldable pub encode_deepseek_request :
    {Body : Type 0}
    → (List ModelMessage → Option (Body × ℕ))
    → ModelContext
    → Result TurnFailure Body
encode_deepseek_request to_vec context = elim (to_vec context.messages) [
  | none ↦ err invalid_provider_response
  | some (body, size) ↦ if ltb max_provider_request_bytes size then err context_limit else ok body
]

pub record DeepSeekChoice : Type 0 where
  pub content : Option Text
  pub finish_reason : Text

unfoldable pub decode_choice : DeepSeekChoice → Result TurnFailure Text
decode_choice choice =
    if choice.finish_reason =? text "stop"
    then elim choice.content [
      | none ↦ err invalid_provider_response
      | some content ↦
          if is_safe_model_content content then ok content else err invalid_provider_response
    ]
    else err invalid_provider_response

unfoldable pub only_choice : List DeepSeekChoice → Result TurnFailure Text
unfolding decode_choice
only_choice (choice ∷ []) = decode_choice choice
only_choice _ = err invalid_provider_response

-- `from_slice` is serde_json's decoder.
unfoldable pub decode_deepseek_response :
    (List ℕ → Option (List DeepSeekChoice)) → List ℕ → Result TurnFailure Text
unfolding only_choice
decode_deepseek_response from_slice payload = elim (from_slice payload) [
  | none ↦ err invalid_provider_response
  | some choices ↦ only_choice choices
]

-- The body of a successful response: its chunks in order, `none` where the transfer breaks off.
unfoldable pub read_chunks : List ℕ → List (Option (List ℕ)) → Result TurnFailure (List ℕ)
read_chunks payload [] = ok payload
read_chunks payload (none ∷ _) = err provider_unavailable
read_chunks payload (some chunk ∷ chunks) =
    let rest = read_chunks (payload ++ chunk) chunks in
    if ltb max_provider_response_bytes (length payload)
    then err invalid_provider_response
    else if ltb (max_provider_response_bytes - length payload) (length chunk)
    then err invalid_provider_response
    else rest

pub record HttpResponse : Type 0 where
  pub status : ℕ
  pub content_length : Option ℕ
  pub chunks : List (Option (List ℕ))

abbrev longer_than : ℕ → Option ℕ → Bool
longer_than bound none = false
longer_than bound (some n) = ltb bound n

-- What follows the request: `none` is a request that could not be sent.
unfoldable pub receive :
    (List ℕ → Option (List DeepSeekChoice)) → Option HttpResponse → Result TurnFailure Text
receive from_slice none = err provider_unavailable
receive from_slice (some response) =
    if not (leb 200 response.status && ltb response.status 300)
    then err (classify_provider_status response.status)
    else if longer_than max_provider_response_bytes response.content_length
    then err invalid_provider_response
    else do payload ← read_chunks [] response.chunks; decode_deepseek_response from_slice payload

-- The bearer token is a header value, or it is refused; `send` is the HTTP exchange.
unfoldable pub complete :
    {Body : Type 0}
    → (List ModelMessage → Option (Body × ℕ))
    → (List ℕ → Option (List DeepSeekChoice))
    → Bool
    → (Body → Option HttpResponse)
    → ModelContext
    → Result TurnFailure Text
complete to_vec from_slice header_valid send context = do
  body ← encode_deepseek_request to_vec context
  reject_if (not header_valid) provider_rejected
  receive from_slice (send body)
