-- ===== src/Network/Tests.antt =====
-- URLs, headers and the interceptor at concrete requests.
use mathlib.Core.List.{map}
use crossa.Prelude.{
  if◌then◌else◌, ℕ, ◌==◌, ◌≤◌, ◌≢◌, true, false, List, [], ◌∷◌, none, some, Bytes, not, ◌||◌, ◌++◌,
  codes, ok, err, ◌≡◌, refl, arith,
}
use crossa.Network.Url.{
  join, starts_with, is_absolute_http_url, contains_word, ends_with_slash, unsupported_scheme,
  base_url_required, encode_component, encode_byte, hex, before, from, contains_byte, query_loop,
  append_query_parameters,
}
use crossa.Network.Url.Encoding.{decode, decode-encode_component, append_query_parameters_lem}
use crossa.Network.Header.{HttpHeader, header_names_equal, set_header, has_header}
use crossa.Network.Header.Laws.{get_header, get-set_header, set_header-Distinct, Distinct}
use crossa.Network.Header.Added.{Fresh}
use crossa.Network.Interceptor.{
  Settings, Request, before_request, format_headers, build_curl_command, escape_shell_argument,
  escape_loop, curl_headers, curl_body, curl_payload, is_header_excluded, name_in,
}
use crossa.Network.Interceptor.Privacy.{has_body, redact, logs-redact, before_request-keeps}
use crossa.Network.Engine.{
  get, post, Retry, Reply, replied, Environment, sent, response_logged, error_logged, telemetry,
  after_response, on_error, emit_telemetry, handle, allows_status, completed, failed, retry,
  returned, thrown, exhausted, out_of_fuel, status_failure, execute_prepared, attempts, try_once,
  respond, reject, refreshing, conclude, status_in, is_idempotent,
}
use crossa.Network.Engine.Attempts.{sends, execute_prepared-IsBounded, execute_prepared-once}
use crossa.Network.Engine.Events.{count, is_completed, is_failed, is_response, is_returned, one_if}
use crossa.Network.Engine.Reports.{Stems, failures}
use crossa.Network.Engine.Outcome.{execute_prepared-Stems}
use crossa.Network.Interceptor.Shell.{plain, read_word, read_word-escape_shell_argument}

join_test :
    (join (codes "https://a.b/") (codes "/v1") ≡ ok (codes "https://a.b/v1"))
    × (join (codes "https://a.b") (codes "v1") ≡ ok (codes "https://a.b/v1"))
    × (join (codes "a") (codes "ftp://b") ≡ err unsupported_scheme)
    × (join (codes "a") (codes "b") ≡ err base_url_required)
unfolding join starts_with is_absolute_http_url contains_word ends_with_slash
join_test = (refl, refl, refl, refl)

decode-encode_component_example : decode (encode_component (codes "a b/")) ≡ some (codes "a b/")
decode-encode_component_example =
    decode-encode_component (codes "a b/")
      (omega arith, (omega arith, (omega arith, (omega arith, tt))))

append_query_parameters_lem_example :
    let result =
      append_query_parameters (codes "http://a?x=1#top") ((codes "q", codes "a&b") ∷ []) in
    (from b'#' result ≡ codes "#top") × (before b'#' result ≡ codes "http://a?x=1&q=a%26b")
unfolding from before contains_byte query_loop encode_component encode_byte hex
append_query_parameters_lem_example =
    append_query_parameters_lem (codes "http://a?x=1#top") ((codes "q", codes "a&b") ∷ [])

abbrev header : Bytes → Bytes → HttpHeader
header name value = record { name = name; value = value }

abbrev two_headers : List HttpHeader
two_headers =
    header (codes "Accept") (codes "text/xml")
    ∷ header (codes "Authorization") (codes "secret")
    ∷ []

abbrev settings : Settings
settings = record {
  common_headers = header (codes "accept") (codes "x") ∷ [];
  log_headers = true;
  log_body = true;
  excluded_log_headers = [];
}

abbrev request : Request
request = record {
  method = codes "POST";
  url = codes "https://a";
  headers = two_headers;
  body = some (codes "it's");
  multipart = none;
}

get-set_header_example :
    get_header (codes "ACCEPT") (set_header (header (codes "accept") (codes "x")) false two_headers)
    ≡ some (codes "text/xml")
unfolding header_names_equal
get-set_header_example =
    get-set_header (header (codes "accept") (codes "x")) false (codes "ACCEPT") two_headers

set_header-Distinct_example :
    Distinct (set_header (header (codes "accept") (codes "x")) true two_headers)
unfolding has_header header_names_equal
set_header-Distinct_example =
    set_header-Distinct (header (codes "accept") (codes "x")) true two_headers (refl, (refl, tt))

before_request-keeps_example :
    let after = (before_request settings request).headers in
    (added : List HttpHeader) × (after ≡ two_headers ++ added)
    × Fresh two_headers added
    × (has_header (codes "Accept") after ≡ true)
    × ((not (has_body request.body) || has_header (codes "Content-Type") after) ≡ true)
before_request-keeps_example = before_request-keeps settings request

logs-redact_example :
    (format_headers settings (map (redact settings) two_headers)
      ≡ format_headers settings two_headers)
    × (build_curl_command settings (record request { headers = map (redact settings) two_headers })
        ≡ build_curl_command settings request)
logs-redact_example = logs-redact settings request

curl_test :
    build_curl_command settings request
    ≡ codes "curl -X 'POST' -H 'Accept: text/xml' --data-raw 'it'\"'\"'s' 'https://a'"
unfolding build_curl_command curl_headers curl_body curl_payload escape_shell_argument escape_loop
    is_header_excluded name_in header_names_equal
curl_test = refl

read_word-escape_shell_argument_example :
    read_word plain (escape_shell_argument (codes "it's")) ≡ some (codes "it's")
read_word-escape_shell_argument_example = read_word-escape_shell_argument (codes "it's")

abbrev policy : Retry
policy = record {
  max_attempts = 3;
  retryable_status_codes = 503 ∷ [];
  retry_non_idempotent = false;
}

-- The transport answers 503, 401, 200; the token can be refreshed.
abbrev answers : ℕ → Reply ℕ
answers n = if n == 1 then replied 503 else if n == 2 then replied 401 else replied 200

abbrev environment : Environment
environment = record {
  cancelled_at = λ n. false;
  cancelled_in_wait = λ n. false;
  transport = answers;
  can_refresh = true;
  refresh = λ n. replied tt;
  interceptor_enabled = true;
  should_log_responses = true;
  telemetry_enabled = true;
}

abbrev unavailable : Environment
unavailable = record environment { transport = λ n. replied 503; can_refresh = false }

attempts_test : execute_prepared policy get environment ≡ (
  sent ∷ error_logged ∷ telemetry retry ∷ sent ∷ sent ∷ response_logged ∷ telemetry completed ∷ [],
  returned 200,
)
unfolding execute_prepared attempts try_once respond reject refreshing conclude status_in
    is_idempotent after_response on_error emit_telemetry
attempts_test = refl

execute_prepared-IsBounded_example :
    let result = execute_prepared policy get environment in
    (result.1 ≢ exhausted) × (result.1 ≢ out_of_fuel) × (sends result.0 ≤ 4)
execute_prepared-IsBounded_example = execute_prepared-IsBounded policy get environment (omega arith)

execute_prepared-once_example : sends (execute_prepared policy post environment).0 ≤ 2
unfolding is_idempotent
execute_prepared-once_example = execute_prepared-once policy post environment (omega arith) refl

execute_prepared-Stems_example :
    let result = execute_prepared policy post unavailable in
    (stems : Stems unavailable result.1) × (count is_failed result.0 ≡ failures unavailable stems)
    × (count is_completed result.0 ≡ one_if (is_returned result.1))
    × (count is_response result.0 ≤ sends result.0)
execute_prepared-Stems_example = execute_prepared-Stems unavailable policy post (omega arith)

-- A status that may not be repeated is logged as a response and as an error.
rejected_test : execute_prepared policy post unavailable ≡ (
  sent ∷ response_logged ∷ telemetry failed ∷ error_logged ∷ telemetry failed ∷ [],
  thrown (status_failure 503),
)
unfolding execute_prepared attempts try_once respond reject handle conclude status_in is_idempotent
    after_response on_error emit_telemetry allows_status
rejected_test = refl

-- With everything switched off, the request is only sent.
silent_test :
    execute_prepared policy post
      (record unavailable { interceptor_enabled = false; telemetry_enabled = false })
    ≡ (sent ∷ [], thrown (status_failure 503))
unfolding execute_prepared attempts try_once respond reject handle conclude status_in is_idempotent
    after_response on_error emit_telemetry allows_status
silent_test = refl
