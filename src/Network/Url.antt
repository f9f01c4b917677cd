-- ===== src/Network/Url.antt =====
-- src/network/utils/UrlUtils.cpp, and `appendQueryParameters` of src/network/request/RequestBuilder.cpp.
pub mod Encoding
use crossa.Prelude.{
  ℕ, suc, ◌+◌, ◌/◌, ◌%◌, Bool, true, false, not, ◌&&◌, ◌||◌, List, [], ◌∷◌, ◌++◌, Bytes, ◌==◌,
  within, codes, get_or, if◌then◌else◌, Result, ok, err, ◌≡◌, refl,
}

-- text.starts_with(word)
unfoldable pub starts_with : Bytes → Bytes → Bool
starts_with text [] = true
starts_with [] (c ∷ word) = false
starts_with (d ∷ text) (c ∷ word) = d == c && starts_with text word

-- text.find(word) != npos
unfoldable pub contains_word : Bytes → Bytes → Bool
unfolding starts_with
contains_word [] word = starts_with [] word
contains_word (c ∷ text) word = starts_with (c ∷ text) word || contains_word text word

pub data UrlError : Type 0 where
  unsupported_scheme base_url_required : UrlError

-- `isAbsoluteHttpUrl`
unfoldable pub is_absolute_http_url : Bytes → Bool
unfolding starts_with
is_absolute_http_url url = starts_with url (codes "http://") || starts_with url (codes "https://")

-- url.back() == '/', of a text that is not empty
unfoldable pub ends_with_slash : Bytes → Bool
ends_with_slash [] = false
ends_with_slash (c ∷ []) = c == b'/'
ends_with_slash (c ∷ d ∷ cs) = ends_with_slash (d ∷ cs)

-- The end of `join`, on a path that is not empty.
unfoldable pub join_path : Bytes → ℕ → Bytes → Bytes
join_path base c path =
    if ends_with_slash base && c == b'/'
    then base ++ path
    else if not (ends_with_slash base) && not (c == b'/')
    then base ++ (b'/' ∷ c ∷ path)
    else base ++ (c ∷ path)

-- `join`
unfoldable pub join : Bytes → Bytes → Result UrlError Bytes
unfolding is_absolute_http_url contains_word ends_with_slash join_path
join base relative =
    if is_absolute_http_url relative
    then ok relative
    else if contains_word relative (codes "://")
    then err unsupported_scheme
    else if not (is_absolute_http_url base)
    then err base_url_required
    else elim relative [ [] ↦ ok base | ◌∷◌ c path ↦ ok (join_path base c path) ]

-- `isUnreserved`
abbrev pub is_unreserved : ℕ → Bool
is_unreserved c =
    within b'a' b'z' c
    || within b'A' b'Z' c
    || within b'0' b'9' c
    || c == b'-'
    || c == b'.'
    || c == b'_'
    || c == b'~'

-- Hex[n]
unfoldable pub hex : ℕ → ℕ
hex n = get_or (codes "0123456789ABCDEF") n 0

-- What `encodeComponent` appends for one byte.
unfoldable pub encode_byte : ℕ → Bytes
encode_byte c = if is_unreserved c then c ∷ [] else b'%' ∷ hex (c / 16 % 16) ∷ hex (c % 16) ∷ []

-- `encodeComponent`
unfoldable pub encode_component : Bytes → Bytes
unfolding encode_byte
encode_component [] = []
encode_component (c ∷ cs) = encode_byte c ++ encode_component cs

-- url.substr(0, url.find(stop)), the whole text if `stop` is not in it
unfoldable pub before : ℕ → Bytes → Bytes
before stop [] = []
before stop (c ∷ cs) = let rest = before stop cs in if c == stop then [] else c ∷ rest

-- url.substr(url.find(stop)), empty if `stop` is not in it
unfoldable pub from : ℕ → Bytes → Bytes
from stop [] = []
from stop (c ∷ cs) = let rest = from stop cs in if c == stop then c ∷ cs else rest

-- url.find(c) != npos
unfoldable pub contains_byte : ℕ → Bytes → Bool
contains_byte b [] = false
contains_byte b (c ∷ cs) = c == b || contains_byte b cs

-- `stripQuery`
unfoldable pub strip_query : Bytes → Bytes
unfolding before
strip_query = before b'?'

abbrev pub Parameters : Type 0
Parameters = List (Bytes × Bytes)

-- The loop of `appendQueryParameters`: what it appends, by the flag `hasQuery`.
unfoldable pub query_loop : Bool → Parameters → Bytes
unfolding encode_component
query_loop has_query [] = []
query_loop has_query ((name, value) ∷ rest) =
    (if has_query then b'&' else b'?')
    ∷ (encode_component name ++ (b'=' ∷ (encode_component value ++ query_loop true rest)))

-- `appendQueryParameters`
unfoldable pub append_query_parameters : Bytes → Parameters → Bytes
unfolding before from contains_byte query_loop
append_query_parameters url parameters =
    let path = before b'#' url in
    path ++ (query_loop (contains_byte b'?' path) parameters ++ from b'#' url)
