-- ===== src/Network/Header.antt =====
-- src/network/request/PreparedRequest.cpp: the headers of a request, and `validateHeader` of
-- src/network/request/RequestBuilder.cpp.
pub mod Laws
pub mod Added
use crossa.Prelude.{
  ℕ, ◌+◌, ◌-◌, ◌≤◌, Bool, true, false, not, ◌&&◌, ◌||◌, List, [], ◌∷◌, ◌++◌, Bytes, bytes_eq, ◌==◌,
  within, if◌then◌else◌, ◌≡◌, ◌≢◌, refl, ap, arith, ◌⊎◌, inl, inr, Bool-cases,
}
use crossa.Network.Url.{contains_byte}

pub record HttpHeader : Type 0 where
  pub name : Bytes
  pub value : Bytes

-- static_cast<char>(c - 'A' + 'a')
abbrev pub lower : ℕ → ℕ
lower c = if within b'A' b'Z' c then c - b'A' + b'a' else c

-- `headerNamesEqual`, here and in NetworkInterceptor.cpp; texts of different sizes differ
unfoldable pub header_names_equal : Bytes → Bytes → Bool
header_names_equal [] [] = true
header_names_equal (a ∷ left) (b ∷ right) = lower a == lower b && header_names_equal left right
header_names_equal _ _ = false

-- `setHeader` on the list of headers
unfoldable pub set_header : HttpHeader → Bool → List HttpHeader → List HttpHeader
set_header header overwrite [] = header ∷ []
set_header header overwrite (existing ∷ rest) =
    if header_names_equal existing.name header.name
    then (if overwrite then header ∷ rest else existing ∷ rest)
    else existing ∷ set_header header overwrite rest

-- `hasHeader`
unfoldable pub has_header : Bytes → List HttpHeader → Bool
has_header name [] = false
has_header name (header ∷ rest) = header_names_equal header.name name || has_header name rest

-- whether `validateHeader` accepts a header
unfoldable pub validate_header : HttpHeader → Bool
validate_header header =
    not (
      bytes_eq header.name []
      || contains_byte b':' header.name
      || contains_byte b'\r' header.name
      || contains_byte b'\n' header.name)
    && not (contains_byte b'\r' header.value || contains_byte b'\n' header.value)
