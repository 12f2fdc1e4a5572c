-- ===== src/Examples/Requests.antt =====
-- The theorems on requests.
use de_co_f.Base.{◌≡◌, refl, false, [], ◌∷◌, ◌++◌, arith, All, bytes_eq, codes}
use de_co_f.Base.Decimal.{decimal, read_decimal-decimal}
use de_co_f.Tree.{is_node}
use de_co_f.Tree.Lookup.{find_object, find_descendant_object, find_child}
use de_co_f.Scgi.Request.{
  Headers, get, put, undefined, indeterminate, good, netstring_length, RequestParser, parse, reset,
  at,
}
use de_co_f.Scgi.Request
use de_co_f.Scgi.Request.AllHeaders.{wire, size, IsHeader, first_two}
use de_co_f.Scgi.Request.RoundTrip.{Received, parse-request}
use de_co_f.Scgi.Context.{read_handler, handle_request}
use de_co_f.Scgi.Context.Requests.{GetAnswer, PutAnswer, handle_request-get, handle_request-put}
use de_co_f.Scgi.Put.{put_value}
use de_co_f.Scgi.Context.Wire.{Handled, outcome, headers_of, read_handler-request}
use de_co_f.Examples.Data.{tree, device, word, client, state, request_lib, environment}

-- A parser in the middle of a request.
abbrev busy : RequestParser
busy = record {
  method = put;
  uri = codes "/r:p";
  headers = (codes "REMOTE_ADDR", codes "h") ∷ (codes "REMOTE_PORT", codes "1") ∷ [];
  content_type = codes "vnd/com.toptica.decof.string";
  encoding = [];
  body = codes "x";
  state = Request.header_value;
  length_str = [];
  netstring_length = 9;
  count = 4;
  current_header = codes "A";
  current_value = [];
  content_length = 1;
}

abbrev more : Headers
more = (codes "REQUEST_METHOD", codes "PUT") ∷ (codes "REQUEST_URI", codes "/r/p") ∷ []

abbrev sent : Headers
sent = first_two request_lib (decimal 1) ++ more

more-All : All IsHeader more
more-All = ground arith

parse-request_example :
    (q : RequestParser) × (parse request_lib indeterminate
        (decimal (size sent) ++ (b':' ∷ wire sent (b',' ∷ codes "x")))
        (reset busy)
      ≡ (q, good))
    × Received request_lib (codes "vnd/com.toptica.decof.string") sent (codes "x") q
unfolding decimal
parse-request_example =
    parse-request request_lib indeterminate busy more (codes "x") read_decimal-decimal more-All
      (omega arith) (omega arith)

abbrev addressed : Headers
addressed =
    (codes "REMOTE_ADDR", codes "h")
    ∷ (codes "REMOTE_PORT", codes "1")
    ∷ (codes "REQUEST_METHOD", codes "PUT")
    ∷ (codes "REQUEST_URI", codes "/r/p")
    ∷ []

addressed-All : All IsHeader addressed
addressed-All = ground arith

abbrev addressed_sent : Headers
addressed_sent = headers_of environment device 3 client tree 0 addressed (codes "x")

read_handler-request_example :
    Handled environment device 3 client tree 0 put
      (codes "vnd/com.toptica.decof.string")
      (codes "x")
      1
      state
      (outcome environment device 3 client tree 0 (
        read_handler environment device 3 client tree 0 indeterminate false
          (decimal (size addressed_sent) ++ (b':' ∷ wire addressed_sent (b',' ∷ codes "x")))
          (reset busy)
          state))
unfolding decimal at Request.assign bytes_eq find_object find_descendant_object find_child
read_handler-request_example =
    read_handler-request environment device 3 client tree 0 indeterminate busy addressed (codes "x")
      state (codes "h") (codes "1") 1 read_decimal-decimal addressed-All (omega arith) (omega arith)
      refl refl refl refl refl

handle_request-get_example : GetAnswer environment device 3 client tree 0 1 state (
    handle_request environment device 3 client tree 0
      (record busy { method = get; uri = codes "/r/p" })
      state)
unfolding find_object find_descendant_object find_child bytes_eq is_node at
handle_request-get_example =
    handle_request-get environment device 3 client tree 0
      (record busy { method = get; uri = codes "/r/p" }) state (codes "h") (codes "1") 1 refl refl
      refl refl refl refl

handle_request-put_example :
    PutAnswer environment device 3 client tree 0 1 word state
      (handle_request environment device 3 client tree 0 (record busy { uri = codes "/r/p" }) state)
unfolding find_object find_descendant_object find_child bytes_eq is_node at put_value
handle_request-put_example =
    handle_request-put environment device 3 client tree 0 (record busy { uri = codes "/r/p" }) state
      (codes "h") (codes "1") 1 word refl refl refl refl refl
