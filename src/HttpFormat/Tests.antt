-- ===== src/HttpFormat/Tests.antt =====
-- Requests and responses with the fields in the order in which they were set, and a number in one digit.
use netxy.Base.{ℕ, ◌+◌, ◌≡◌, refl, List, [], ◌∷◌}
use netxy.HttpFormat.{
  bytes_of, same, HeadFields, add_head_value, heads_text, method_text, get, HttpRequest, set_body,
  request_text,
}

abbrev as_set : HeadFields → HeadFields
as_set heads = heads

abbrev one_digit : ℕ → List ℕ
one_digit n = (48 + n) ∷ []

abbrev home : HttpRequest
home = record {
  url = bytes_of "/";
  query = [];
  body = [];
  method = get;
  head_field = (bytes_of "Host", bytes_of "a") ∷ [];
}

home_text :
    request_text as_set one_digit (set_body as_set one_digit (bytes_of "hey") home)
    ≡ bytes_of "GET /? HTTP/1.1\r\nHost: a\r\nContent-Length: 3\r\n\r\nhey"
unfolding request_text set_body add_head_value same heads_text method_text
home_text = refl

break_bytes : bytes_of "\r\n" ≡ 13 ∷ 10 ∷ []
break_bytes = refl
