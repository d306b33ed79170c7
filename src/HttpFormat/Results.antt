-- ===== src/HttpFormat/Results.antt =====
-- What the text of a request or a response has, and what it lacks.
use netxy.Base.{ℕ, ◌≡◌, refl, ap, ◌∙◌, false, List, ◌++◌, append_assoc, length, if_true}
use netxy.HttpFormat.{
  bytes_of, is_empty, HeadFields, add_head_value, heads_text, HttpRequest, set_query, HttpResponse,
  ok_status, request_text, set_response_body, response_text, status_text, status_code,
}
use netxy.HttpFormat.Heads.{
  find_head, find_head-add_head_value, same_self, line, heads_text-find_head,
}

module _ (order : HeadFields → HeadFields) (to_string : ℕ → List ℕ)
    (kept : (field : List ℕ) (heads : HeadFields)
      → find_head field (order heads) ≡ find_head field heads) where
  -- the field for the length among those of a head
  counted_body :
      (b : List ℕ) (heads : HeadFields)
      → (before : List ℕ) × (after : List ℕ) × (heads_text
            (order (add_head_value (bytes_of "Content-Length") (to_string (length b)) heads))
          ≡ before ++ (line (bytes_of "Content-Length") (to_string (length b)) ++ after))
  counted_body b heads = heads_text-find_head (bytes_of "Content-Length") _ (
      kept (bytes_of "Content-Length") _
      ∙ find_head-add_head_value (bytes_of "Content-Length") (bytes_of "Content-Length")
          (to_string (length b)) heads
      ∙ if_true _ _ (same_self (bytes_of "Content-Length")))

  -- A response with a body has the line that gives its length, and ends with a blank line and the body,
  -- whatever the order of the fields.
  response_text-set_response_body :
      (b : List ℕ) (r : HttpResponse)
      → (before : List ℕ) × (after : List ℕ) × (response_text order to_string
            (set_response_body order to_string b r)
          ≡ before
            ++ (line (bytes_of "Content-Length") (to_string (length b))
                ++ (after ++ (bytes_of "\r\n" ++ b))))
  unfolding response_text set_response_body
  response_text-set_response_body b r =
      let (before, after, e) = counted_body b r.head_field in
      (
        bytes_of "HTTP/1.1 "
            ++ (to_string (status_code r.status)
                ++ (status_text r.status ++ (bytes_of "\r\n" ++ before))),
        after,
        simp (e, append_assoc),
      )

module _ (order : HeadFields → HeadFields) (to_string : ℕ → List ℕ) where
  -- The query of a request is not in its text: any two that are not empty give the same.
  request_text-set_query :
      (p q : List ℕ) (r : HttpRequest)
      → is_empty p ≡ false
      → is_empty q ≡ false
      → request_text order to_string (set_query p r) ≡ request_text order to_string (set_query q r)
  unfolding request_text set_query
  request_text-set_query p q r h k = rw (h, k) refl

  -- The status line of a response that is all right says that its status is unknown too.
  response_text-ok :
      (r : HttpResponse)
      → r.status ≡ ok_status
      → (rest : List ℕ) × (response_text order to_string r
          ≡ bytes_of "HTTP/1.1 " ++ (to_string 200 ++ (bytes_of " OKUNKNOWN\r\n" ++ rest)))
  unfolding response_text status_text status_code
  response_text-ok r e = (
    heads_text (order r.head_field) ++ (bytes_of "\r\n" ++ r.body),
    ap
        (λ s.
          bytes_of "HTTP/1.1 "
          ++ (to_string (status_code s)
              ++ (status_text s
                  ++ (bytes_of "\r\n"
                      ++ (heads_text (order r.head_field) ++ (bytes_of "\r\n" ++ r.body))))))
        e,
  )
