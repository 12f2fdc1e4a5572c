-- ===== src/Lib.antt =====
-- DeCoF is a framework for device control: a server keeps a tree of objects (nodes, parameters and
-- events), and clients read, write, observe and signal them over several protocols. This library
-- models its core and its protocols.
--
-- The parts, and the files that model them (paths from the repository's root):
--
-- Base, Types, Except: shared names; the values of include/decof/types.h; the exceptions of
-- include/decof/exceptions.h and src/core/exceptions.cpp; how a call ends. `fault` is undefined
-- behaviour.
--
-- Tree: object (src/core/object.cpp) and node (src/core/node.cpp) on an explicit store: an address
-- is a number, a pointer an optional address. `construct` is the constructor, `destroy` both
-- destructors; `add_child`, `remove_child` and `reset_parent` have their names. Tree/Lookup has
-- the lookup by uri, with object_dictionary::find_object of src/core/object_dictionary.cpp, and
-- object::fq_name.
--
-- Access: basic_client_context (src/core/basic_client_context.cpp) and the context_guard of the
-- dictionary. It looks at the tree and calls the application, whose virtual functions are the
-- parameter `Device`. A dynamic_cast is a test of the object's class (`Kind`).
--
-- Visitor: the dispatch and the indentation of object_visitor (src/core/object_visitor.cpp).
--
-- Convert: the conversions of include/decof/conversion.h between generic values and the types of
-- C++. Convert has those between integer types, Convert/Scalars scalar_conversion_helper,
-- Convert/Values conversion_helper for scalars, containers, arrays and tuples.
--
-- Parameters: the classes of parameters in include/decof with the tick of object_dictionary, and
-- in Parameters/Subscriptions client_context (src/core/client_context.cpp). They are the
-- application that Access calls (`parameters`): `write` reaches `set_managed` and `set_external`,
-- which verify, store and emit. An `Action` changes a `World`, the members of all objects and
-- clients, and may throw. A signal of Boost.Signals2 is the list of its slots; a slot is known by
-- its client and its call is `deliver`. Parameters/Deliveries is the view of the clients, the last
-- value that each has got under each name. Parameters/Monad/Keeps carries an invariant through
-- actions, and Parameters/Calls through whole calls.
--
-- Updates: update_container (src/cli/update_container.cpp), the pending notifications of a
-- subscriber; an iterator is the key of its element. Updates/Abstract is the queue that it
-- implements.
--
-- Scgi: the SCGI protocol. Request is request_parser (src/scgi/request_parser.cpp), Bencode
-- bencode_string_parser (src/scgi/bencode_string_parser.cpp), Encoder js_value_encoder
-- (src/scgi/js_value_encoder.cpp), Put the decoding of a PUT's body, Xml xml_visitor
-- (src/scgi/xml_visitor.cpp), Response the responses (src/scgi/response.cpp and
-- include/decof/scgi/response.h), and Context the handlers of src/scgi/scgi_context.cpp, which
-- join the parser, the lookup, the access control, the encoders and the responses.
--
-- Cli: the encoder (src/cli/encoder.cpp), the decoder (src/cli/decoder.h) and the visitors
-- (src/cli/tree_visitor.cpp, src/cli/browse_visitor.cpp) of the command line protocol.
-- Cli/Commands is `process_request` of src/cli/clisrv_context.cpp, which reads the words of a line
-- (Cli/Words), calls Access, and encodes. Cli/Pubsub is src/cli/pubsub_context.cpp: `notify` is
-- the slot that Parameters calls; it pushes to Updates and starts `preload_writing`, which pops
-- from there, and `write_handler` goes on when a write operation is done.
--
-- A report of an exception there writes into the buffer; while a write operation is active this is
-- a fault.
--
-- The value of a request is read by the code that flexc++ and bisonc++ have generated from
-- src/cli/scanner.flexc++ and src/cli/grammar.bisonc++. Cli/Scanner is `lex` of src/cli/lex.cpp,
-- with the tables in Cli/Scanner/Tables and the input in Cli/Scanner/Characters: it takes
-- characters from there and puts back those behind the match. Cli/Parser is `parse` of
-- src/cli/parse.cpp: Tables has the states and productions, Scalars the texts of tokens and
-- `base64decode` of src/cli/decoder.cpp, Actions the stacks and the semantic actions, Automaton
-- the loop, which calls `lex` through its parameter. Cli/Parser/Grammar is the grammar read from
-- left to right, with which the loop is compared. Cli/Reading puts both together as
-- process_request of src/cli/clisrv_context.cpp does; this `parse_value` is what the parameter of
-- Cli/Commands stands for.
--
-- Examples: the theorems at concrete inputs.
--
-- Numbers and bytes: a byte is a number below 256, a std::string a list of bytes, a size_t a
-- number with the wrap-around at 2 ^ 64 written out where the code counts. A double is its pattern
-- of 64 bits.
--
-- Bounds and fuel: `find_descendant_object` takes one more than the length of the uri, which each
-- call shortens. The loop of a string sequence takes one more than the length of the body; each
-- round but the last consumes a byte. `fq_name`, `ancestors` and `browse` follow the tree, and
-- take a bound on its height as an argument; on less the result says that the walk did not end.
-- The loop of `preload_writing` takes one more than the number of pending updates, of which each
-- round removes one. `lex` takes the sum of the numbers up to that of the bytes left: it may read
-- all of them to match or echo the first. `parse` takes four times the number of the tokens and
-- sixteen.
--
-- Parameters: what Boost does (lexical_cast, split, trim, the base64 iterators), how an ostream
-- prints a double, an address or a time, what std::move leaves of a string, the type tags that the
-- compiler computes, how an istream extracts an int, the callbacks that the application installs,
-- its getters, setters and handlers with the conversions and the comparison of its types,
-- std::stoi and std::stod. An `async_write` sends what is in the buffer when it starts, and
-- removes it when it is done.
--
-- Not modelled: sockets, timers and threads (Boost.Asio); the members of the generated scanner
-- that nothing calls; the classes of handlers in include/decof, which only forward calls; the
-- arithmetic of floating point numbers; the example and the tests.
pub mod Base
pub mod Types
pub mod Except
pub mod Updates
pub mod Tree
pub mod Convert
pub mod Access
pub mod Parameters
pub mod Visitor
pub mod Scgi
pub mod Cli
pub mod Examples
