-- ===== src/Network/Interceptor/Privacy.antt =====
-- What the interceptor's logs can reveal of the headers, and what it adds to a request.
use mathlib.Core.List.{map}
use crossa.Prelude.{
  Bool, true, false, not, ◌||◌, ◌++◌, List, [], ◌∷◌, Option, none, some, Bytes, codes,
  if◌then◌else◌, ◌≡◌, refl, ◌∙◌, inl, inr, Bool-cases,
}
use crossa.Network.Header.{HttpHeader, set_header, has_header}
use crossa.Network.Header.Laws.{has-set_header, names_equal_refl}
use crossa.Network.Header.Added.{
  Fresh, Extends, Extends-refl, Extends-trans, set_header-Extends, has_header-append,
}
use crossa.Network.Interceptor.{
  Settings, Request, before_request, add_all, add_default, add_content_type, is_header_excluded,
  format_loop, format_headers, curl_headers, build_curl_command,
}

pub has_body : Option Bytes → Bool
has_body none = false
has_body (some body) = true

module _ (settings : Settings) where
  -- A header whose name is excluded loses its value.
  pub redact : HttpHeader → HttpHeader
  redact h = if is_header_excluded settings h.name then record h { value = [] } else h

  format_loop-redact :
      (first : Bool) (headers : List HttpHeader)
      → format_loop settings first (map redact headers) ≡ format_loop settings first headers
  unfolding format_loop redact
  format_loop-redact first [] = refl
  format_loop-redact first (h ∷ rest) = elim (Bool-cases (is_header_excluded settings h.name)) [
    | inl hidden ↦ rw hidden (rw hidden (format_loop-redact first rest))
    | inr shown ↦ rw shown (rw shown (rw (format_loop-redact false rest)))
  ]

  curl_headers-redact :
      (headers : List HttpHeader)
      → curl_headers settings (map redact headers) ≡ curl_headers settings headers
  unfolding curl_headers redact
  curl_headers-redact [] = refl
  curl_headers-redact (h ∷ rest) = elim (Bool-cases (is_header_excluded settings h.name)) [
    | inl hidden ↦ rw hidden (rw hidden (curl_headers-redact rest))
    | inr shown ↦ rw shown (rw shown (rw (curl_headers-redact rest)))
  ]

  -- The logged headers and the logged curl command are the same if every value of an excluded
  -- header is erased first: they tell nothing about such a value.
  pub logs-redact :
      (request : Request)
      → (format_headers settings (map redact request.headers)
          ≡ format_headers settings request.headers)
        × (build_curl_command settings (record request { headers = map redact request.headers })
            ≡ build_curl_command settings request)
  unfolding format_headers build_curl_command
  logs-redact request =
      (rw (format_loop-redact true request.headers), rw (curl_headers-redact request.headers))

  add_default-Extends :
      (n v : Bytes) (headers : List HttpHeader) → Extends headers (add_default n v headers)
  add_default-Extends n v headers = elim (Bool-cases (has_header n headers)) [
    | inl old ↦ rw old (Extends-refl headers)
    | inr new ↦ rw new (set_header-Extends _ headers)
  ]

  add_content_type-Extends :
      (body : Option Bytes) (headers : List HttpHeader)
      → Extends headers (add_content_type body headers)
  unfolding add_content_type
  add_content_type-Extends none headers = Extends-refl headers
  add_content_type-Extends (some body) headers = add_default-Extends _ _ headers

  add_all-Extends : (common headers : List HttpHeader) → Extends headers (add_all common headers)
  unfolding add_all
  add_all-Extends [] headers = Extends-refl headers
  add_all-Extends (h ∷ common) headers =
      Extends-trans (set_header-Extends h headers)
        (add_all-Extends common (set_header h false headers))

  add_default-has :
      (n v : Bytes) (headers : List HttpHeader) → has_header n (add_default n v headers) ≡ true
  add_default-has n v headers = elim (Bool-cases (has_header n headers)) [
    | inl old ↦ rw old old
    | inr new ↦ rw new (has-set_header _ false n headers ∙ rw (names_equal_refl n))
  ]

  add_content_type-has :
      (body : Option Bytes) (headers : List HttpHeader)
      → (not (has_body body) || has_header (codes "Content-Type") (add_content_type body headers))
        ≡ true
  unfolding add_content_type has_body
  add_content_type-has none headers = refl
  add_content_type-has (some body) headers = add_default-has _ _ headers

  last-has :
      (body : Option Bytes) (before after : List HttpHeader)
      → Extends before after
      → (not (has_body body) || has_header (codes "Content-Type") before) ≡ true
      → (not (has_body body) || has_header (codes "Content-Type") after) ≡ true
  unfolding has_body
  last-has none before after x h = refl
  last-has (some body) before after x h = rw (x.splits) (has_header-append _ before x.added h)

  -- `beforeRequest` leaves the headers of any request as they are, in their places. What it adds stands
  -- behind them, and no added header has the name of an earlier one, whatever the case of its letters.
  -- The request has an Accept header then, and a Content-Type header if it has a body.
  pub before_request-keeps :
      (request : Request)
      → let after = (before_request settings request).headers in
        (added : List HttpHeader) × (after ≡ request.headers ++ added)
        × Fresh request.headers added
        × (has_header (codes "Accept") after ≡ true)
        × ((not (has_body request.body) || has_header (codes "Content-Type") after) ≡ true)
  unfolding before_request
  before_request-keeps request =
      let all = add_all settings.common_headers request.headers in
      let typed = add_content_type request.body all in
      let last = add_default-Extends (codes "Accept") (codes "application/json") typed in
      let whole =
        Extends-trans
          (Extends-trans (add_all-Extends settings.common_headers request.headers)
            (add_content_type-Extends request.body all))
          last in
      (
        whole.added,
        whole.splits,
        whole.is_fresh,
        add_default-has (codes "Accept") (codes "application/json") typed,
        last-has request.body typed _ last (add_content_type-has request.body all),
      )
