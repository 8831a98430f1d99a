-- ===== src/RequestLog/Tests.antt =====
-- netstack2/http_request_log.go: runs of the request logger.
use newt.Prelude.{◌≡◌, refl, String, true, false, some, List, [], ◌∷◌, ◌++◌, pos, arith}
use newt.RequestLog.{
  HttpRequestLog, HttpRequestLogger, Delivery, deliver, settle, sent_of, deliver-keeps,
}

abbrev unreachable : Delivery
unreachable = record { compress = λ l. some "x"; send = λ s. false }

abbrev request : String → HttpRequestLog
request id = record {
  request_id = id;
  resource_id = pos 1;
  timestamp = 5;
  method = "GET";
  scheme = "http";
  host = "h";
  path = "/";
  raw_query = "";
  user_agent = "";
  source_addr = "10.0.0.1:5";
  tls = false;
}

abbrev logger : HttpRequestLogger
logger = record { pending = request "b" ∷ []; has_send = true; stopped = false }

abbrev batch : List HttpRequestLog
batch = request "a" ∷ []

deliver-keeps_example :
    sent_of (deliver unreachable true batch)
      ++ (settle (deliver unreachable true batch) logger).pending
    ≡ request "a" ∷ request "b" ∷ []
deliver-keeps_example = deliver-keeps unreachable batch logger refl (omega arith)
