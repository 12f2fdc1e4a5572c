-- ===== src/Examples/Sessions.antt =====
-- The theorems on the sessions of the command line protocols: a session that is sending, with a pending
-- update, and requests for a parameter.
use de_co_f.Base.{
  ℕ, ◌⊎◌, ◌≡◌, refl, subst, true, false, none, some, [], ◌∷◌, ◌++◌, ◌≤◌, ◌<◌, ◌+◌, arith, length,
  length-append, Bytes, bytes_eq, codes, some_inj,
}
use de_co_f.Base.Decimal.{decimal}
use de_co_f.Types.{Value, pos, scalar_t, boolean_t}
use de_co_f.Except.{Except, ok}
use de_co_f.Access.Authorization.{MayRead}
use de_co_f.Visitor.{string_tag}
use de_co_f.Updates.{UpdateContainer, find}
use de_co_f.Updates.Abstract.{Queue, has_key}
use de_co_f.Updates.Refine.{Represents}
use de_co_f.Cli.Encoder.{write, Printers, encode_value, encode_scalar, encode_boolean}
use de_co_f.Cli.Pubsub.{Session, write_update, drain, preload_writing}
use de_co_f.Cli.Pubsub.Drain.{Drained, batch, drain-batch}
use de_co_f.Cli.Pubsub.Preload.{IsLive}
use de_co_f.Cli.Pubsub.Writing.{notified, reported, written, run, Defined, Undefined, run-IsLive}
use de_co_f.Cli.Pubsub.Printed.{Printed}
use de_co_f.Cli.Pubsub.Flush.{writes, flush}
use de_co_f.Cli.Pubsub.Bound.{Fits, preload_writing_bound}
use de_co_f.Tree.Lookup.{find_child, find_descendant_object}
use de_co_f.Cli.Words.{is_space, to_lower, strip_quote}
use de_co_f.Cli.Words.Reading.{IsWord, word}
use de_co_f.Cli.Commands.{Callbacks, fresh, process_request}
use de_co_f.Cli.Commands.Readonly.{AreWatching, process_request-readonly}
use de_co_f.Cli.Commands.Requests.{Answered, process_request-get}
use de_co_f.Examples.Data.{tree, device, guest, state}

abbrev printers : Printers
printers = record { print_real = decimal; sextets = λ s. s }

abbrev print_time : ℕ → Bytes
print_time t = codes "5"

abbrev yes : Value
yes = scalar_t (boolean_t true)

abbrev one : UpdateContainer
one = record {
  updates = (codes "a", record { time = 5; value = yes; next = none }) ∷ [];
  front = some (codes "a");
  back = some (codes "a");
}

abbrev one_update : Queue
one_update = (codes "a", yes, 5) ∷ []

one_covered : (k : Bytes) → has_key k one_update ≡ false → find k one.updates ≡ none
unfolding find
one_covered k h = ground arith

one-Represents : Represents one one_update
unfolding find bytes_eq
one-Represents = record {
  chain = (refl, none, refl, refl);
  back_is = refl;
  distinct = (refl, tt);
  covered = one_covered;
}

abbrev sending : Session
sending = record { pending = one; outbuf = codes "(x)"; in_flight = some 3; sent = [] }

abbrev quiet : Session
quiet = record { pending = one; outbuf = []; in_flight = none; sent = [] }

sending-IsLive : IsLive sending one_update
sending-IsLive = record {
  pending = one-Represents;
  idle_queue = λ e. absurd (cc);
  idle_buffer = λ e. absurd (cc);
  positive = λ n e. subst (λ n. 0 < n) (some_inj e) (omega arith);
  covered = λ n e. subst (λ n. n ≤ 3) (some_inj e) (omega arith);
}

drain-batch_example :
    Drained printers print_time 8
      (codes "r")
      (batch printers print_time 8 (codes "r") one_update (record { out = []; hex = false }))
      (drain printers print_time 8 (codes "r") 2 (record { out = []; hex = false }) one)
drain-batch_example =
    drain-batch printers print_time 8 (codes "r") 2 one_update (record { out = []; hex = false })
      one one-Represents (omega arith)

run-IsLive_example :
    let es =
      notified 9 (codes "r:b") yes ∷ written ∷ written ∷ written ∷ reported (codes "e") ∷ [] in
    Defined printers print_time 8 (codes "r") es sending
    ⊎ Undefined printers print_time 8 (codes "r") es sending
run-IsLive_example =
    run-IsLive printers print_time 8 (codes "r")
      (notified 9 (codes "r:b") yes ∷ written ∷ written ∷ written ∷ reported (codes "e") ∷ [])
      sending one_update sending-IsLive (omega arith)

flush_example :
    (t : Session) × (run printers print_time 8 (codes "r") (writes 3) sending ≡ ok t)
    × (t.in_flight ≡ none)
    × (t.outbuf ≡ [])
    × Represents t.pending []
    × ((x : Bytes) × (t.sent ≡ codes "(x)" ++ x)
        × Printed printers print_time 8 (codes "r") one_update x)
flush_example =
    flush printers print_time 8 (codes "r") 3 sending one_update sending-IsLive (omega arith)
      (omega arith)

one-Fits : Fits printers print_time 8 (codes "r") 10 (codes "a", yes, 5)
unfolding write_update encode_value encode_scalar encode_boolean
one-Fits st =
    let head : Bytes = codes "(5 'a " in
    omega (
      arith,
      length-append st.out head,
      length-append (st.out ++ head) (codes "#t"),
      length-append ((st.out ++ head) ++ codes "#t") (codes ")" ++ 10 ∷ []),
    )

preload_writing_bound_example :
    (t : Session) × (preload_writing printers print_time 8 (codes "r") quiet ≡ ok t)
    × (length t.outbuf < 8 + 10)
preload_writing_bound_example =
    preload_writing_bound printers print_time 8 (codes "r") 10 quiet one_update one-Represents refl
      (one-Fits, tt) (omega arith) (omega arith)

abbrev callbacks : Callbacks Value
callbacks = record {
  trim_request = λ s. s;
  trim_quotes = λ s. s;
  read_int = λ s. (pos 2, none);
  userlevel_cb = λ c ul password d. (d, ok true);
  request_cb = λ kind request d. d;
}

op_IsWord : IsWord (codes "SET")
unfolding is_space
op_IsWord = word b'S' (codes "ET") refl (refl, (refl, tt))

get_IsWord : IsWord (codes "get")
unfolding is_space
get_IsWord = word b'g' (codes "et") refl (refl, (refl, tt))

uri_IsWord : IsWord (codes "'p")
unfolding is_space
uri_IsWord = word b'\'' (codes "p") refl (refl, tt)

abbrev parse_value : Bytes → Except Value
parse_value s = ok yes

process_request-get_example :
    Answered callbacks printers parse_value device 9
      (λ a. string_tag)
      tree
      0
      (MayRead guest tree 1)
      guest
      (device.read 1)
      (λ v. write (10 ∷ []) (
        encode_value printers v
          (fresh callbacks printers parse_value device 9 (λ a. string_tag) tree 0)))
      yes
      (process_request callbacks printers parse_value device 9
        (λ a. string_tag)
        tree
        0
        (codes "get 'p")
        guest
        (record { context = none; device = yes }))
unfolding to_lower strip_quote bytes_eq find_descendant_object find_child
process_request-get_example =
    process_request-get callbacks printers parse_value device 9 (λ a. string_tag) tree 0
      (codes "get 'p") (codes "get") (codes "'p") guest (record { context = none; device = yes }) 1
      refl get_IsWord uri_IsWord refl refl refl refl

callbacks-AreWatching :
    AreWatching callbacks printers parse_value device 9 (λ a. string_tag) tree 0 (λ a x d. refl)
callbacks-AreWatching = record { request_keeps = λ k r d. refl; userlevel_keeps = λ c ul p d. refl }

process_request-readonly_example :
    (process_request callbacks printers parse_value device 9
      (λ a. string_tag)
      tree
      0
      (codes "SET 'p #t")
      guest
      state).0.device
    ≡ state.device
process_request-readonly_example =
    process_request-readonly callbacks printers parse_value device 9 (λ a. string_tag) tree 0
      (λ a x d. refl) (codes "SET 'p #t") guest state callbacks-AreWatching refl
