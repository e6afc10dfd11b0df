-- ===== src/Metrics/Server.antt =====
-- The HTTP surface: apps/api/metrics-endpoint/internal/server/server.go.
use openllm_metrics.Prelude.{ℕ, Bool, false, Option, none, some, Text, text, if◌then◌else◌}
use openllm_metrics.Metrics.{Floats}
use openllm_metrics.Metrics.Aggregator.{State, series_count, snapshot}
use openllm_metrics.Metrics.Exposition.{write}

pub record Response : Type 0 where
  pub status : ℕ
  pub content_type : Option Text
  pub body : Text

abbrev pub exposition_content_type : Text
exposition_content_type = text "text/plain; version=0.0.4; charset=utf-8"

-- metricsHandler
unfoldable pub serve_metrics : {C : Type 0} → Floats C → State C → Response
serve_metrics floats s = record {
  status = 200;
  content_type = some exposition_content_type;
  body = write floats (snapshot floats s) (record {
    rejected = s.rejected;
    processed = s.processed;
    series_count = series_count s.counters;
  });
}

-- healthzHandler
unfoldable pub serve_healthz : Response
serve_healthz = record { status = 200; content_type = none; body = text "ok" }

-- readyzHandler; `none` is the nil checker
unfoldable pub serve_readyz : Option Bool → Response
serve_readyz ready =
    if elim ready [ none ↦ false | some r ↦ r ]
    then record {
      status = 200;
      content_type = some (text "application/json");
      body = text "{\"ready\":true}";
    }
    else record {
      status = 503;
      content_type = some (text "application/json");
      body = text "{\"ready\":false,\"reason\":\"warming\"}";
    }
