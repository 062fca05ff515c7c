-- ===== src/Explain/Examples.antt =====
-- A finding that is explained, at the second attempt.
use getvul.Prelude.{◌/◌, String, Option, none, some, [], str_eq}
use getvul.Explain.{Usage, Candidate, AiState, AiSettings, Assistant}
use getvul.Explain.Stream.{Request}

abbrev parse_sample : String → Option Candidate
parse_sample raw =
    some
      (record { summary = raw; business_risk = ""; citations = []; grounded = str_eq raw "good" })

abbrev assistant : Assistant
assistant = record {
  parse = parse_sample;
  lower = λ s. s;
  is_in = str_eq;
  marker = λ s. s;
  dangerous = λ c. none;
  month_start = λ now. 0;
  round = λ n. n / 10;
}

abbrev settings : AiSettings
settings = record { api_key = some "key"; model = none; monthly_budget_usd = some 5000000 }

abbrev request : Request
request = record {
  tenant_id = 1;
  resource_type = "vulnerability";
  resource_id = "7";
  system_prompt = "You are an assistant";
  record_hash = "d41d";
  prompt_version = "v1";
  allowed_source_fields = none;
}

abbrev usage : Usage
usage = record { input_tokens = 1200; output_tokens = 300 }

abbrev fresh : AiState
fresh = record { rows = []; cache = []; inflight = []; notified = [] }
