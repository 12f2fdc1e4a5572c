-- ===== src/Cli/Parser.antt =====
-- The parser of values, src/cli/parse.cpp, src/cli/parser.ih and src/cli/parserbase.h.
pub mod Tables
pub mod Scalars
pub mod Actions
pub mod Automaton
pub mod Grammar
pub mod Lookups
pub mod Rounds
pub mod Runs
pub mod Series
pub mod Equivalence
