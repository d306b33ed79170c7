-- ===== src/HttpFormat/RoundTrip.antt =====
-- A request is read back as it was set, with the body that `setBody` gave it and the length of it.
use netxy.Base.{ℕ, List, [], ◌∷◌, ◌++◌, if◌then◌else◌}
use netxy.HttpFormat.{bytes_of, is_empty, HeadFields, method_text, HttpRequest}
use netxy.HttpFormat.ReadBack.{ReadRequest}

-- What follows the method in the first line: the path and what is made of the query.
abbrev pub target_of : HttpRequest → List ℕ
target_of r = r.url ++ (if is_empty r.query then bytes_of "?" ++ r.query else [])

first_line : HttpRequest → List ℕ
first_line r = method_text r.method ++ 32 ∷ (target_of r ++ 32 ∷ bytes_of "HTTP/1.1")

module _ (order : HeadFields → HeadFields) (to_string : ℕ → List ℕ) where
  -- the request, as it is read
  abbrev pub as_read : HttpRequest → ReadRequest
  as_read r = record {
    method = method_text r.method;
    target = target_of r;
    version = bytes_of "HTTP/1.1";
    heads = order r.head_field;
    body = r.body;
  }
