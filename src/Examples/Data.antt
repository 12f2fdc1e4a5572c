-- ===== src/Examples/Data.antt =====
-- What the examples share: a parameter that a client may write and a request for it.
use de_co_f.Base.{true, false, none, some, [], ◌∷◌, ◌==◌, if◌then◌else◌, codes}
use de_co_f.Base.Decimal.{decimal, read_decimal}
use de_co_f.Types.{Value, scalar_t, string_t}
use de_co_f.Except.{ok}
use de_co_f.Tree.{node, object_dictionary, managed_readwrite_parameter, event, Object, Store}
use de_co_f.Access.{Client, Device, State}
use de_co_f.Visitor.{string_tag}
use de_co_f.Scgi.Context.{Environment}
use de_co_f.Scgi.Request

abbrev pub nothing : Object
nothing = record {
  alive = false;
  kind = node;
  name = [];
  parent = none;
  readlevel = 0;
  writelevel = 0;
  children = [];
}

-- "r" with the parameter "p" and the event "e".
abbrev pub tree : Store
tree a =
    if a == 0
    then record nothing {
      alive = true;
      kind = object_dictionary;
      name = codes "r";
      readlevel = 3;
      children = 1 ∷ 2 ∷ [];
    }
    else if a == 1
    then record nothing {
      alive = true;
      kind = managed_readwrite_parameter;
      name = codes "p";
      parent = some 0;
      readlevel = 3;
      writelevel = 2;
    }
    else if a == 2
    then record nothing {
      alive = true;
      kind = event;
      name = codes "e";
      parent = some 0;
      readlevel = 3;
      writelevel = 1;
    }
    else nothing

-- An application that keeps the value last written.
abbrev pub device : Device Value
device = record {
  read = λ a x d. (d, ok d);
  write = λ a v x d. (v, ok tt);
  signal = λ a x d. (d, ok tt);
}

abbrev pub word : Value
word = scalar_t (string_t (codes "x"))

abbrev pub client : Client
client = record { address = 100; userlevel = 1 }

abbrev pub guest : Client
guest = record { address = 101; userlevel = 4 }

abbrev pub state : State Value
state = record { context = none; device = word }

abbrev pub request_lib : Request.Boost
request_lib = record { cast_size = read_decimal; split = λ s. s ∷ [] }

abbrev pub environment : Environment
environment = record {
  request_lib = request_lib;
  put_lib = record {
    trim = λ s. s;
    cast_size = read_decimal;
    cast_integer = λ s. none;
    cast_real = λ s. none;
  };
  print_real = decimal;
  print_address = decimal;
  tag = λ a. string_tag;
  moved = λ s. [];
}
