-- ===== src/Network/Interceptor.antt =====
-- src/network/NetworkInterceptor.cpp: the headers that the interceptor adds to a request, and the
-- texts that it logs.
pub mod Privacy
pub mod Shell
use crossa.Prelude.{
  ℕ, Bool, true, false, not, ◌||◌, List, [], ◌∷◌, ◌++◌, Option, none, some, Bytes, codes, ◌==◌,
  if◌then◌else◌,
}
use crossa.Network.Header.{HttpHeader, header_names_equal, set_header, has_header}

-- The part of the configuration that the interceptor reads.
pub record Settings : Type 0 where
  pub common_headers : List HttpHeader
  pub log_headers : Bool
  pub log_body : Bool
  pub excluded_log_headers : List Bytes

-- `NetworkPolicy::MultipartPart`
pub record MultipartPart : Type 0 where
  pub part_name : Bytes
  pub file_path : Option Bytes
  pub data_value : Option Bytes
  pub filename : Option Bytes
  pub content_type : Option Bytes

-- A prepared request, as far as the interceptor reads or changes it. Its multipart text is the
-- parts that `NetworkPolicy::parseMultipart` reads from it.
pub record Request : Type 0 where
  pub method : Bytes
  pub url : Bytes
  pub headers : List HttpHeader
  pub body : Option Bytes
  pub multipart : Option (List MultipartPart)

abbrev header : Bytes → Bytes → HttpHeader
header name value = record { name = name; value = value }

-- for (header : commonHeaders) request.setHeader(header, false)
unfoldable pub add_all : List HttpHeader → List HttpHeader → List HttpHeader
add_all [] headers = headers
add_all (h ∷ common) headers = add_all common (set_header h false headers)

abbrev pub add_default : Bytes → Bytes → List HttpHeader → List HttpHeader
add_default name value headers =
    if not (has_header name headers) then set_header (header name value) false headers else headers

unfoldable pub add_content_type : Option Bytes → List HttpHeader → List HttpHeader
add_content_type none headers = headers
add_content_type (some body) headers =
    add_default (codes "Content-Type") (codes "application/json") headers

-- The headers of the request after `beforeRequest`.
unfoldable pub before_request : Settings → Request → Request
unfolding add_all add_content_type
before_request settings request = record request {
  headers =
      add_default (codes "Accept") (codes "application/json")
        (add_content_type request.body (add_all settings.common_headers request.headers));
}

abbrev sensitive_headers : List Bytes
sensitive_headers =
    codes "authorization"
    ∷ codes "proxy-authorization"
    ∷ codes "cookie"
    ∷ codes "set-cookie"
    ∷ codes "x-api-key"
    ∷ codes "api-key"
    ∷ codes "x-auth-token"
    ∷ codes "x-access-token"
    ∷ codes "x-refresh-token"
    ∷ []

unfoldable pub name_in : Bytes → List Bytes → Bool
name_in name [] = false
name_in name (n ∷ ns) = header_names_equal name n || name_in name ns

-- `isHeaderExcluded`
unfoldable pub is_header_excluded : Settings → Bytes → Bool
unfolding name_in
is_header_excluded settings name =
    name_in name sensitive_headers || name_in name settings.excluded_log_headers

-- The loop of `formatHeaders`, with its flag.
unfoldable pub format_loop : Settings → Bool → List HttpHeader → Bytes
format_loop settings first [] = []
format_loop settings first (h ∷ rest) =
    if is_header_excluded settings h.name
    then format_loop settings first rest
    else (if first then [] else codes ", ")
      ++ (h.name ++ (b'=' ∷ (h.value ++ format_loop settings false rest)))

-- `formatHeaders`
unfoldable pub format_headers : Settings → List HttpHeader → Bytes
unfolding format_loop
format_headers settings headers = b'[' ∷ (format_loop settings true headers ++ b']' ∷ [])

-- The loop of `escapeShellArgument`.
unfoldable pub escape_loop : Bytes → Bytes
escape_loop [] = []
escape_loop (c ∷ cs) = (if c == b'\'' then codes "'\"'\"'" else c ∷ []) ++ escape_loop cs

-- `escapeShellArgument`
unfoldable pub escape_shell_argument : Bytes → Bytes
unfolding escape_loop
escape_shell_argument value = b'\'' ∷ (escape_loop value ++ b'\'' ∷ [])

-- The header options of `buildCurlCommand`.
unfoldable pub curl_headers : Settings → List HttpHeader → Bytes
curl_headers settings [] = []
curl_headers settings (h ∷ rest) =
    if is_header_excluded settings h.name
    then curl_headers settings rest
    else codes " -H "
      ++ (escape_shell_argument (h.name ++ (codes ": " ++ h.value)) ++ curl_headers settings rest)

unfoldable pub curl_body : Settings → Option Bytes → Bytes
curl_body settings none = []
curl_body settings (some body) =
    if settings.log_body then codes " --data-raw " ++ escape_shell_argument body else []

abbrev labelled : Bytes → Option Bytes → Bytes
labelled label none = []
labelled label (some text) = label ++ text

-- The value of one -F option.
unfoldable pub part_value : MultipartPart → Bytes
part_value part =
    part.part_name
    ++ (b'='
        ∷ (elim part.file_path [ some path ↦ b'@' ∷ path | none ↦ labelled [] part.data_value ]
            ++ (labelled (codes ";filename=") part.filename
                ++ labelled (codes ";type=") part.content_type)))

unfoldable pub curl_parts : List MultipartPart → Bytes
unfolding part_value
curl_parts [] = []
curl_parts (part ∷ rest) =
    codes " -F " ++ (escape_shell_argument (part_value part) ++ curl_parts rest)

unfoldable pub curl_payload : Settings → Option (List MultipartPart) → Option Bytes → Bytes
unfolding curl_parts curl_body
curl_payload settings none body = curl_body settings body
curl_payload settings (some parts) body =
    if settings.log_body then curl_parts parts else curl_body settings body

-- `buildCurlCommand`
unfoldable pub build_curl_command : Settings → Request → Bytes
unfolding curl_headers curl_payload
build_curl_command settings request =
    codes "curl -X "
    ++ (escape_shell_argument request.method
        ++ ((if settings.log_headers then curl_headers settings request.headers else [])
            ++ (curl_payload settings request.multipart request.body
                ++ (b' ' ∷ escape_shell_argument request.url))))
