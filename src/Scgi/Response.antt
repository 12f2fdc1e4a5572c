-- ===== src/Scgi/Response.antt =====
-- `response` of src/scgi/response.cpp and include/decof/scgi/response.h. The headers stand in the
-- order of the `std::map`, each name once.
use de_co_f.Base.{
  ℕ, Bool, ◌&&◌, ◌||◌, none, some, [], ◌∷◌, ◌++◌, ◌==◌, ltb, leb, if◌then◌else◌, length, Bytes,
  codes,
}
use de_co_f.Base.Decimal.{decimal}
use de_co_f.Except.{Except, out_of_range, ◌>>=◌}
use de_co_f.Scgi.Request.{Headers, at}

pub data StatusCode : Type 0 where
  continue_ switching_protocols : StatusCode
  ok created accepted no_content partial_content : StatusCode
  multiple_choices moved_permanently moved_temporarily not_modified : StatusCode
  bad_request unauthorized forbidden not_found not_supported not_acceptable : StatusCode
  request_timeout precondition_failed unsatisfiable_range : StatusCode
  internal_server_error not_implemented bad_gateway service_unavailable : StatusCode
  space_unavailable : StatusCode

unfoldable pub status_number : StatusCode → ℕ
status_number continue_ = 100
status_number switching_protocols = 101
status_number StatusCode.ok = 200
status_number created = 201
status_number accepted = 202
status_number no_content = 204
status_number partial_content = 206
status_number multiple_choices = 300
status_number moved_permanently = 301
status_number moved_temporarily = 302
status_number not_modified = 304
status_number bad_request = 400
status_number unauthorized = 401
status_number forbidden = 403
status_number not_found = 404
status_number not_supported = 405
status_number not_acceptable = 406
status_number request_timeout = 408
status_number precondition_failed = 412
status_number unsatisfiable_range = 416
status_number internal_server_error = 500
status_number not_implemented = 501
status_number bad_gateway = 502
status_number service_unavailable = 503
status_number space_unavailable = 507

-- `status_text`, a lookup in `http_response_texts`.
unfoldable pub status_text : StatusCode → Except Bytes
status_text StatusCode.ok = Except.ok (codes "OK")
status_text created = Except.ok (codes "Created")
status_text accepted = Except.ok (codes "Accepted")
status_text no_content = Except.ok (codes "No Content")
status_text partial_content = Except.ok (codes "Partial Content")
status_text multiple_choices = Except.ok (codes "Multiple Choices")
status_text moved_permanently = Except.ok (codes "Moved Permanently")
status_text moved_temporarily = Except.ok (codes "Moved Temporarily")
status_text not_modified = Except.ok (codes "Not Modified")
status_text bad_request = Except.ok (codes "Bad Request")
status_text unauthorized = Except.ok (codes "Unauthorized")
status_text forbidden = Except.ok (codes "Fobidden")
status_text not_found = Except.ok (codes "Not Found")
status_text not_supported = Except.ok (codes "Not Supported")
status_text not_acceptable = Except.ok (codes "Not Acceptable")
status_text request_timeout = Except.ok (codes "Request Timeout")
status_text precondition_failed = Except.ok (codes "Precondition Failed")
status_text unsatisfiable_range = Except.ok (codes "Requested Range Not Satisfiable")
status_text internal_server_error = Except.ok (codes "Internal Server Error")
status_text not_implemented = Except.ok (codes "Not Implemented")
status_text bad_gateway = Except.ok (codes "Bad Gateway")
status_text service_unavailable = Except.ok (codes "Service Unavailable")
status_text space_unavailable = Except.ok (codes "Insufficient Space to Store Resource")
status_text _ = out_of_range

pub record Response : Type 0 where
  pub status : StatusCode
  pub headers : Headers
  pub body : Bytes

unfoldable pub stock_response : StatusCode → Response
stock_response status = record { status = status; headers = []; body = [] }

abbrev pub crlf : Bytes
crlf = 13 ∷ 10 ∷ []

unfoldable pub header_lines : Headers → Bytes
header_lines [] = []
header_lines ((name, value) ∷ hs) = name ++ (codes ": " ++ (value ++ (crlf ++ header_lines hs)))

abbrev pub default_type : Headers → Bytes
default_type hs = elim (at (codes "Content-Type") hs) [
  | none ↦ codes "Content-Type: text/plain" ++ crlf
  | some _ ↦ []
]

-- No body is allowed with these.
abbrev pub is_bodiless : StatusCode → Bool
is_bodiless status =
    let n = status_number status in (leb 100 n && ltb n 200) || (n == 204) || (n == 304)

-- The stream insertion operator.
unfoldable pub write_response : Response → Except Bytes
unfolding status_number status_text header_lines
write_response resp = do
  text ← status_text resp.status
  Except.ok (
      codes "HTTP/1.1 "
      ++ (decimal (status_number resp.status)
          ++ (codes " "
              ++ (text
                  ++ (crlf
                      ++ (header_lines resp.headers
                          ++ (default_type resp.headers
                              ++ (if is_bodiless resp.status
                                  then crlf
                                  else codes "Content-Length: "
                                    ++ (decimal (length resp.body)
                                        ++ (crlf ++ (crlf ++ resp.body)))))))))))
