-- ===== src/HttpFormat.antt =====
-- src/net/http/HttpFormat.h: the text of requests and responses. Strings are lists of bytes; the order in
-- which an `unordered_map` is gone through and `std::to_string` are parameters.
pub mod Heads
pub mod Results
pub mod ReadBack
pub mod RoundTrip
mod Query
mod Tests
use Prim.Native.String.{String}
use Prim.Native.Char.{code}
use netxy.Base.{
  ℕ, ◌+◌, Bool, true, false, ◌&&◌, Option, none, some, List, [], ◌∷◌, ◌++◌, ◌==◌, length,
  if◌then◌else◌,
}

-- the bytes of a string literal
abbrev pub bytes_of : String → List ℕ
bytes_of String.[] = []
bytes_of (String.◌∷◌ c s) = code c ∷ bytes_of s

abbrev pub is_empty : List ℕ → Bool
is_empty [] = true
is_empty (c ∷ s) = false

-- equality of strings
unfoldable pub same : List ℕ → List ℕ → Bool
same [] [] = true
same [] (c ∷ t) = false
same (c ∷ s) [] = false
same (c ∷ s) (d ∷ t) = c == d && same s t

-- `mHeadField`, as the pairs that it has, each field once
abbrev pub HeadFields : Type 0
HeadFields = List (List ℕ × List ℕ)

-- `addHeadValue`
unfoldable pub add_head_value : List ℕ → List ℕ → HeadFields → HeadFields
add_head_value field value [] = (field, value) ∷ []
add_head_value field value ((k, v) ∷ heads) =
    if same k field then (k, value) ∷ heads else (k, v) ∷ add_head_value field value heads

-- the loop over the fields in `getResult`
unfoldable pub heads_text : HeadFields → List ℕ
heads_text [] = []
heads_text ((k, v) ∷ heads) = (k ++ bytes_of ": " ++ v ++ bytes_of "\r\n") ++ heads_text heads

-- `HttpQueryParameter::add` of a key and a value, on `mParameter`
unfoldable pub add_parameter : List ℕ → List ℕ → List ℕ → List ℕ
add_parameter k v parameter =
    (if is_empty parameter then parameter else parameter ++ bytes_of "&") ++ k ++ bytes_of "=" ++ v

-- `HTTP_METHOD`
pub data HttpMethod : Type 0 where
  head get post put delete method_max : HttpMethod

-- `HttpMethodString`, with the test of `getResult`
unfoldable pub method_text : HttpMethod → List ℕ
method_text head = bytes_of "HEAD"
method_text get = bytes_of "GET"
method_text post = bytes_of "POST"
method_text put = bytes_of "PUT"
method_text delete = bytes_of "DELETE"
method_text method_max = []

pub record HttpRequest : Type 0 where
  pub url : List ℕ
  pub query : List ℕ
  pub body : List ℕ
  pub method : HttpMethod
  pub head_field : HeadFields

-- `setMethod`; `none` is the failed assert
unfoldable pub set_method : HttpMethod → HttpRequest → Option HttpRequest
set_method head r = none
set_method get r = some (record r { method = get })
set_method post r = some (record r { method = post })
set_method put r = some (record r { method = put })
set_method delete r = some (record r { method = delete })
set_method method_max r = none

-- `setQuery`
unfoldable pub set_query : List ℕ → HttpRequest → HttpRequest
set_query q r = record r { query = q }

-- `HTTP_RESPONSE_STATUS`
pub data HttpStatus : Type 0 where
  no_status ok_status : HttpStatus

unfoldable pub status_code : HttpStatus → ℕ
status_code no_status = 0
status_code ok_status = 200

-- the `switch` of `getResult`, whose first case goes on into the second
unfoldable pub status_text : HttpStatus → List ℕ
status_text ok_status = bytes_of " OK" ++ bytes_of "UNKNOWN"
status_text no_status = bytes_of "UNKNOWN"

pub record HttpResponse : Type 0 where
  pub status : HttpStatus
  pub head_field : HeadFields
  pub body : List ℕ

module _ (order : HeadFields → HeadFields) (to_string : ℕ → List ℕ) where
  -- `HttpRequest::setBody`
  unfoldable pub set_body : List ℕ → HttpRequest → HttpRequest
  set_body b r = record r {
    body = b;
    head_field = add_head_value (bytes_of "Content-Length") (to_string (length b)) r.head_field;
  }

  -- `HttpRequest::getResult`
  unfoldable pub request_text : HttpRequest → List ℕ
  request_text r =
      method_text r.method
      ++ (bytes_of " "
          ++ (r.url
              ++ ((if is_empty r.query then bytes_of "?" ++ r.query else [])
                  ++ (bytes_of " HTTP/1.1\r\n"
                      ++ (heads_text (order r.head_field) ++ (bytes_of "\r\n" ++ r.body))))))

  -- `HttpResponse::setBody`
  unfoldable pub set_response_body : List ℕ → HttpResponse → HttpResponse
  set_response_body b r = record r {
    body = b;
    head_field = add_head_value (bytes_of "Content-Length") (to_string (length b)) r.head_field;
  }

  -- `HttpResponse::getResult`
  unfoldable pub response_text : HttpResponse → List ℕ
  response_text r =
      bytes_of "HTTP/1.1 "
      ++ (to_string (status_code r.status)
          ++ (status_text r.status
              ++ (bytes_of "\r\n"
                  ++ (heads_text (order r.head_field) ++ (bytes_of "\r\n" ++ r.body)))))
