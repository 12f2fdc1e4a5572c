-- ===== src/Cli/Commands.antt =====
-- `clisrv_context::process_request` of src/cli/clisrv_context.cpp, with `preload`: a request line and
-- what is appended to the output buffer. The callbacks that the application installs, Boost's trims, the
-- extraction of an int and the generated value parser are parameters.
pub mod Requests
pub mod Readonly
pub mod Browsing
use de_co_f.Base.{
  ℕ, Bool, true, false, not, ◌&&◌, ◌||◌, Option, none, some, List, [], ◌∷◌, ◌++◌, if◌then◌else◌,
  is_empty, Bytes, bytes_eq, codes,
}
use de_co_f.Base.Decimal.{decimal}
use de_co_f.Types.{ℤ, pos, Value, integer_t}
use de_co_f.Types.Errors.{
  Error, access_denied_error, parse_error, code_number, error_code, error_what, unknown_error,
}
use de_co_f.Except.{Except, ok, err, out_of_range, other_exception, fault, Void, ◌>>=◌}
use de_co_f.Tree.{Store}
use de_co_f.Tree.Lookup.{find_descendant_object}
use de_co_f.Access.{
  Client, set_userlevel, Device, State, set_parameter, get_parameter, signal_event, browse_object,
}
use de_co_f.Visitor.{TypeTag}
use de_co_f.Cli.Encoder.{Stream, write, Printers, encode_integer, encode_value}
use de_co_f.Cli.Visitors.{tree_visit, browse_visit}
use de_co_f.Cli.Words.{is_one, skip_spaces, words_of}

-- `request_t` of include/decof/cli/cli_context_base.h.
pub data RequestKind : Type 0 where
  get set signal browse tree subscribe unsubscribe : RequestKind

-- What the sessions of both protocols take from elsewhere. `read_int` is `in >> ul`: what is stored,
-- and the rest of the input unless the extraction failed.
pub record Callbacks (D : Type 0) : Type 0 where
  pub trim_request : Bytes → Bytes
  pub trim_quotes : Bytes → Bytes
  pub read_int : Bytes → ℤ × Option Bytes
  pub userlevel_cb : Client → ℤ → Bytes → D → D × Except Bool
  pub request_cb : RequestKind → Bytes → D → D

-- The password behind the level: the rest of the line.
abbrev pub password_of : (Bytes → Bytes) → Option Bytes → Bytes
password_of trim none = trim []
password_of trim (some rest) = trim (skip_spaces rest)

-- `change-ul`, of both protocols.
abbrev pub granted : {D : Type 0} → ℤ → Client → State D × Except Bool → State D × Except Client
granted ul c (s, ok true) = (s, set_userlevel ul c)
granted ul c (s, ok false) = (s, err access_denied_error)
granted ul c (s, err e) = (s, err e)
granted ul c (s, out_of_range) = (s, out_of_range)
granted ul c (s, other_exception) = (s, other_exception)
granted ul c (s, fault) = (s, fault)

unfoldable pub change_userlevel :
    {D : Type 0} → Callbacks D → Bytes → Client → State D → State D × Except Client
change_userlevel cb input c s =
    let (ul, rest) = cb.read_int input in
    let (d, r) = cb.userlevel_cb c ul (password_of cb.trim_quotes rest) s.device in
    granted ul c (record s { device = d }, r)

module _ {D : Type 0} (cb : Callbacks D) (lib : Printers) (parse_value : Bytes → Except Value)
    (device : Device D) (fuel : ℕ) (tag : ℕ → TypeTag) (tree : Store) (root : ℕ) where
  abbrev pub find : Bytes → Option ℕ
  find uri = find_descendant_object root uri b':' tree

  -- What a command does: the state, the client, and how it ends, with what `out` has got.
  abbrev pub Result : Type 0
  Result = State D × Client × Except Stream

  abbrev pub fresh : Stream
  fresh = record { out = []; hex = false }

  abbrev pub logged : RequestKind → Bytes → State D → State D
  logged kind request s = record s { device = cb.request_cb kind request s.device }

  -- `encoder(...); out << "\n"`, or a fixed text, behind a call.
  abbrev pub reply : {B : Type 0} → Client → (B → Stream) → State D × Except B → Result
  reply c f (s, ok b) = (s, c, ok (f b))
  reply c f (s, err e) = (s, c, err e)
  reply c f (s, out_of_range) = (s, c, out_of_range)
  reply c f (s, other_exception) = (s, c, other_exception)
  reply c f (s, fault) = (s, c, fault)

  abbrev pub newline : Bytes
  newline = 10 ∷ []

  abbrev pub userlevel_line : Client → Stream
  userlevel_line c = write newline (encode_integer (pos c.userlevel) fresh)

  abbrev pub level_changed : Client → State D × Except Client → Result
  level_changed c (s, ok c') = (s, c', ok (userlevel_line c'))
  level_changed c (s, err e) = (s, c, err e)
  level_changed c (s, out_of_range) = (s, c, out_of_range)
  level_changed c (s, other_exception) = (s, c, other_exception)
  level_changed c (s, fault) = (s, c, fault)

  unfoldable pub get_command : Bytes → Client → State D → Result
  get_command uri c s =
      if bytes_eq uri (codes "ul")
      then (s, c, ok (userlevel_line c))
      else reply c (λ v. write newline (encode_value lib v fresh))
          (get_parameter device c tree (find uri) s)

  -- The object of `browse` and `tree`.
  abbrev pub target : Bytes → Option ℕ
  target uri = if is_empty uri then some root else find uri

  abbrev pub carry :
      (Stream → State D → State D × Except Stream)
      → State D × Except Stream
      → State D × Except Stream
  carry next (s, ok st) = next st s
  carry next (s, err e) = (s, err e)
  carry next (s, out_of_range) = (s, out_of_range)
  carry next (s, other_exception) = (s, other_exception)
  carry next (s, fault) = (s, fault)

  -- The visitor on each object in turn; the first exception ends the walk.
  unfoldable pub browse_lines : List ℕ → Stream → State D → State D × Except Stream
  unfolding browse_visit
  browse_lines [] st s = (s, ok st)
  browse_lines (a ∷ more) st s =
      carry (browse_lines more) (browse_visit lib device fuel tree tag a st s)

  unfoldable pub tree_lines : List ℕ → Option Bytes
  unfolding tree_visit
  tree_lines [] = some []
  tree_lines (a ∷ more) =
      let rest = tree_lines more in
      elim (tree_visit fuel tag tree a) [
        | none ↦ none
        | some line ↦ elim rest [ none ↦ none | some lines ↦ some (line ++ lines) ]
      ]

  abbrev pub browsed : Client → State D → Except (Option (List ℕ)) → Result
  browsed c s (ok (some visited)) = reply c (λ st. st) (browse_lines visited fresh s)
  browsed c s (ok none) = (s, c, fault)
  browsed c s (err e) = (s, c, err e)
  browsed c s out_of_range = (s, c, out_of_range)
  browsed c s other_exception = (s, c, other_exception)
  browsed c s fault = (s, c, fault)

  abbrev pub treed : Client → State D → Except (Option (List ℕ)) → Result
  treed c s (ok (some visited)) = elim (tree_lines visited) [
    | none ↦ (s, c, fault)
    | some lines ↦ (s, c, ok (write lines fresh))
  ]
  treed c s (ok none) = (s, c, fault)
  treed c s (err e) = (s, c, err e)
  treed c s out_of_range = (s, c, out_of_range)
  treed c s other_exception = (s, c, other_exception)
  treed c s fault = (s, c, fault)

  unfoldable pub browse_command : Bytes → Client → State D → Result
  unfolding browse_lines
  browse_command uri c s = browsed c s (browse_object fuel c tree (target uri))

  unfoldable pub tree_command : Bytes → Client → State D → Result
  unfolding tree_lines
  tree_command uri c s = treed c s (browse_object fuel c tree (target uri))

  -- The chain of tests of a request without a value, and of one with a value.
  unfoldable pub plain_command : Bytes → Bytes → Bytes → Client → State D → Result
  unfolding get_command browse_command tree_command
  plain_command op uri request c s =
      if is_one op (codes "get") (codes "param-ref") && not (is_empty uri)
      then get_command uri c (logged get request s)
      else if is_one op (codes "signal") (codes "exec") && not (is_empty uri)
      then reply c (λ _. write (codes "()" ++ newline) fresh)
          (signal_event device c tree (find uri) (logged signal request s))
      else if is_one op (codes "browse") (codes "param-disp")
      then browse_command uri c (logged browse request s)
      else if bytes_eq op (codes "tree")
      then tree_command uri c (logged RequestKind.tree request s)
      else (s, c, err parse_error)

  unfoldable pub value_command : Bytes → Bytes → Bytes → Value → Client → State D → Result
  value_command op uri request v c s =
      if is_one op (codes "set") (codes "param-set!") && not (is_empty uri)
      then reply c (λ _. write (codes "0" ++ newline) fresh)
          (set_parameter device c tree (find uri) v (logged set request s))
      else (s, c, err parse_error)

  abbrev pub with_value : Bytes → Bytes → Bytes → Client → State D → Except Value → Result
  with_value op uri request c s (ok v) = value_command op uri request v c s
  with_value op uri request c s (err e) = (s, c, err e)
  with_value op uri request c s out_of_range = (s, c, out_of_range)
  with_value op uri request c s other_exception = (s, c, other_exception)
  with_value op uri request c s fault = (s, c, fault)

  -- The `try` block; `rest` is what stands behind the uri.
  unfoldable pub command : Bytes → Bytes → Bytes → Bytes → Client → State D → Result
  unfolding plain_command value_command change_userlevel
  command op uri rest request c s =
      if bytes_eq op (codes "exec") && bytes_eq uri (codes "change-ul")
      then level_changed c (change_userlevel cb rest c s)
      else if is_empty rest
      then plain_command op uri request c s
      else with_value op uri request c s (parse_value rest)

  abbrev pub prompt : Bytes
  prompt = codes "> "

  -- The `catch` clauses and the prompt; `none` is undefined behaviour.
  unfoldable pub finish : Except Stream → Option Bytes
  finish (ok st) = some (st.out ++ prompt)
  finish (err e) = some (
      codes "ERROR "
      ++ (decimal (code_number (error_code e))
          ++ (codes ": " ++ (error_what e ++ (newline ++ prompt)))))
  finish out_of_range = some (codes "ERROR 1: Unknown error" ++ (newline ++ prompt))
  finish other_exception = some (codes "ERROR 1: Unknown error" ++ (newline ++ prompt))
  finish fault = none

  abbrev pub ended : Result → State D × Client × Option Bytes
  ended (s, c, r) = (s, c, finish r)

  -- The line in words: the command, the uri without its quote, and what is left.
  abbrev pub by_words :
      Bytes × Bytes × Bytes → Bytes → Client → State D → State D × Client × Option Bytes
  by_words (op, uri, rest) request c s = ended (command op uri rest request c s)

  abbrev pub by_line : Bytes → Bytes → Client → State D → State D × Client × Option Bytes
  by_line line request c s =
      if is_empty line then (s, c, some []) else by_words (words_of line) request c s

  -- `process_request`: what is appended to `outbuf_`. An empty request is ignored.
  unfoldable pub process_request : Bytes → Client → State D → State D × Client × Option Bytes
  unfolding command finish words_of
  process_request request c s = by_line (cb.trim_request request) request c s
