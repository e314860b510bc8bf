-- ===== src/Tests/Llm.antt =====
-- internal/llm/llm.go: instances.
use tinkercloud.Prelude.{ℕ, refl, ◌*◌, true, false, some, [], ◌∷◌, codes}
use tinkercloud.Llm.{Request, default_limits, second}
use tinkercloud.Llm.Rates.{Service, app_key}
use tinkercloud.Llm.Chat.{World, Binding, Response, Auth, known, quota_exhausted, ok, err, complete}
use tinkercloud.Llm.Reconciled.{IsSettled, complete-IsSettled}
use tinkercloud.Llm.Permits.{KeepsMarks, complete-marks}

abbrev request : Request
request = record {
  messages = (record { role = codes "user"; content = codes "hi" }) ∷ [];
  max_output_tokens = 10;
}

abbrev auth : Auth
auth = record { app = codes "app"; viewer = codes "v"; request_id = codes "r" }

abbrev binding : Binding
binding = record {
  app = codes "app";
  profile = codes "p";
  connection = codes "c";
  model = codes "m";
  reservation = codes "res";
  credential = codes "secret";
  provider = codes "gemini";
  limits = default_limits;
  reserved_tokens = 28;
}

abbrev response : Response
response = record {
  role = codes "assistant";
  content = codes "hello";
  usage = record { input_tokens = 2; output_tokens = 3; negative = false };
  finish_reason = codes "stop";
  request_id = [];
}

abbrev world : World
world = record {
  utf8_valid = λ t. true;
  admission_limits = λ app. ok default_limits;
  admit = λ app viewer input output now. ok binding;
  reconciles = λ b u k. true;
  adapter = λ p. some (λ b r. (ok response, false));
}

-- A world without quota.
abbrev exhausted : World
exhausted = record world { admit = λ app viewer input output now. err (known quota_exhausted) }

abbrev idle : Service
idle = record { rates = []; rate_seq = 0 }

abbrev now_here : ℕ
now_here = 7200 * second

complete-IsSettled_example :
    IsSettled world (codes "app") (complete world idle (some auth) request now_here).1
complete-IsSettled_example = complete-IsSettled world idle auth request now_here

complete-marks_example :
    KeepsMarks default_limits idle
      (codes "app")
      (codes "v")
      now_here
      (app_key (codes "app"))
      (complete exhausted idle (some auth) request now_here).0
complete-marks_example =
    complete-marks exhausted idle auth request now_here default_limits (known quota_exhausted)
      (app_key (codes "app")) refl refl
