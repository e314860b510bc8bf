-- ===== src/Llm.antt =====
-- internal/llm/llm.go: the chat capability. The repository, the adapters of the providers and
-- `utf8.ValidString` are parameters; a time is its number of nanoseconds, and a limit or a count of
-- 0 stands for one that is not positive.
pub mod Rates
pub mod Chat
pub mod Permits
pub mod Reconciled
use tinkercloud.Prelude.{
  ℕ, ◌+◌, ◌*◌, Bool, true, false, not, ◌&&◌, ◌||◌, Option, none, some, List, [], ◌∷◌, Text, text_eq,
  codes, length, ltb, leb, ◌==◌, if◌then◌else◌,
}

pub record Message : Type 0 where
  pub role : Text
  pub content : Text

pub record Request : Type 0 where
  pub messages : List Message
  pub max_output_tokens : ℕ

pub record Limits : Type 0 where
  pub max_messages : ℕ
  pub max_message_bytes : ℕ
  pub max_input_bytes : ℕ
  pub max_output_tokens : ℕ
  pub timeout : ℕ
  pub viewer_requests : ℕ
  pub app_requests : ℕ
  pub rate_window : ℕ

abbrev pub second : ℕ
second = 1000000000

abbrev pub default_limits : Limits
default_limits = record {
  max_messages = 32;
  max_message_bytes = 16384;
  max_input_bytes = 65536;
  max_output_tokens = 1024;
  timeout = 30 * second;
  viewer_requests = 20;
  app_requests = 120;
  rate_window = 60 * second;
}

abbrev pub absolute_limits : Limits
absolute_limits = record {
  max_messages = 128;
  max_message_bytes = 262144;
  max_input_bytes = 1048576;
  max_output_tokens = 16384;
  timeout = 120 * second;
  viewer_requests = 10000;
  app_requests = 100000;
  rate_window = 3600 * second;
}

abbrev pub within : ℕ → ℕ → ℕ → Bool
within low high n = leb low n && leb n high

-- `validLimits`.
unfoldable pub valid_limits : Limits → Bool
valid_limits l =
    let a = absolute_limits in
    within 1 a.max_messages l.max_messages
    && within 1 a.max_message_bytes l.max_message_bytes
    && within 1 a.max_input_bytes l.max_input_bytes
    && within 1 a.max_output_tokens l.max_output_tokens
    && within second a.timeout l.timeout
    && within 1 a.viewer_requests l.viewer_requests
    && within 1 a.app_requests l.app_requests
    && within second a.rate_window l.rate_window

-- `sameLimits`.
unfoldable pub same_limits : Limits → Limits → Bool
same_limits l k =
    l.max_messages == k.max_messages
    && l.max_message_bytes == k.max_message_bytes
    && l.max_input_bytes == k.max_input_bytes
    && l.max_output_tokens == k.max_output_tokens
    && l.timeout == k.timeout
    && l.viewer_requests == k.viewer_requests
    && l.app_requests == k.app_requests
    && l.rate_window == k.rate_window

-- A message that may stand behind the one of the role before, which is `none` at the beginning.
abbrev pub valid_message : (Text → Bool) → Limits → Option Text → Message → Bool
valid_message utf8_valid l before m =
    (text_eq m.role (codes "user") || text_eq m.role (codes "assistant"))
    && not (length m.content == 0)
    && utf8_valid m.content
    && leb (length m.content) l.max_message_bytes
    && not (elim before [ none ↦ false | some r ↦ text_eq r m.role ])

-- The loop of `validateRequest`, with the role before and the bytes so far; the last role is the
-- user's.
unfoldable pub valid_messages : (Text → Bool) → Limits → Option Text → ℕ → List Message → Bool
unfolding text_eq
valid_messages utf8_valid l none total [] = false
valid_messages utf8_valid l (some r) total [] = text_eq r (codes "user")
valid_messages utf8_valid l before total (m ∷ ms) =
    let rest = valid_messages utf8_valid l (some m.role) (total + length m.content) ms in
    valid_message utf8_valid l before m && leb (total + length m.content) l.max_input_bytes && rest

abbrev pub limits_or_default : Limits → Limits
limits_or_default l = if l.max_messages == 0 then default_limits else l

-- `validateRequest`; `max_output_tokens` is not negative.
unfoldable pub validate_request : (Text → Bool) → Request → Limits → Bool
unfolding valid_messages
validate_request utf8_valid r limits =
    let l = limits_or_default limits in
    not (length r.messages == 0)
    && leb (length r.messages) l.max_messages
    && leb r.max_output_tokens l.max_output_tokens
    && valid_messages utf8_valid l none 0 r.messages

unfoldable pub content_bytes : List Message → ℕ
content_bytes [] = 0
content_bytes (m ∷ ms) = length m.content + content_bytes ms

-- `estimateInputTokens`.
unfoldable pub estimate_input_tokens : Request → ℕ
unfolding content_bytes
estimate_input_tokens r = content_bytes r.messages + length r.messages * 16
