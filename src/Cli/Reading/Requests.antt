-- ===== src/Cli/Reading/Requests.antt =====
-- A request of src/cli/clisrv_context.cpp to set an object, with the value as src/cli/encoder.cpp
-- writes it.
use de_co_f.Base.{ℕ, ◌≡◌, some, [], ◌∷◌, ◌++◌, true, false, is_empty, Bytes, codes}
use de_co_f.Types.{Value}
use de_co_f.Tree.{Store}
use de_co_f.Access.{Client, Device, State}
use de_co_f.Access.Authorization.{MayWrite}
use de_co_f.Visitor.{TypeTag}
use de_co_f.Cli.Encoder.{write, Printers, encode_value}
use de_co_f.Cli.Words.{is_one, to_lower, strip_quote}
use de_co_f.Cli.Words.Reading.{space, IsWord}
use de_co_f.Cli.Commands.{set, Callbacks, find, fresh, process_request}
use de_co_f.Cli.Commands.Requests.{Answered, process_request-set}
use de_co_f.Cli.Parser.Scalars.{Readers}
use de_co_f.Cli.Reading.{parse_value}
use de_co_f.Cli.Reading.Printed.{AreInverse}
use de_co_f.Cli.Reading.Scanned.{IsReadableValue}
use de_co_f.Cli.Reading.RoundTrip.{parse_value-encode_value}

module _ {D : Type 0} (cb : Callbacks D) (print : Printers) (read : Readers) (device : Device D)
    (fuel : ℕ) (tag : ℕ → TypeTag) (tree : Store) (root : ℕ) where
  -- Let `stoi` read decimal ints back, and Boost's iterators the base64 they write. A request line of `set`
  -- or `param-set!` (in either case), the uri of an object, and what the encoder writes for a value, which
  -- has no doubles and whose integers are ints and stand behind no string that sets the stream's base:
  -- exactly where the client may write the object, its setter runs once, under this client, on this value
  -- and what the request callback left, and the answer is `0`, or the line of the setter's exception.
  -- Otherwise the application's state stays what the callback left, and the answer is the line of
  -- access-denied or invalid-parameter. The client stays as it was.
  pub process_request-encode_value :
      (request op uri : Bytes) (v : Value) (c : Client) (s : State D) (a : ℕ)
      → AreInverse print read
      → IsReadableValue v
      → cb.trim_request request
        ≡ op
          ++ (space
              ∷ (uri ++ (space ∷ (encode_value print v (record { out = []; hex = false })).out)))
      → IsWord op
      → IsWord uri
      → is_one (to_lower op) (codes "set") (codes "param-set!") ≡ true
      → is_empty (strip_quote uri) ≡ false
      → find cb print (parse_value read) device fuel tag tree root (strip_quote uri) ≡ some a
      → Answered cb print
          (parse_value read)
          device
          fuel
          tag
          tree
          root
          (MayWrite c tree a)
          c
          (device.write a v)
          (λ _.
            write
              (codes "0" ++ 10 ∷ [])
              (fresh cb print (parse_value read) device fuel tag tree root))
          (cb.request_cb set request s.device)
          (process_request cb print (parse_value read) device fuel tag tree root request c s)
  process_request-encode_value request op uri v c s a i h e o u k n f =
      process_request-set cb print (parse_value read) device fuel tag tree root request op uri
        (encode_value print v (record { out = []; hex = false })).out v c s a e o u k n
        (parse_value-encode_value print read v i h).1 f
