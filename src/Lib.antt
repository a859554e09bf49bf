-- ===== src/Lib.antt =====
-- QuipuDB, the Python layer (engine/): what stands between SQL text and the native core.
--
-- Prelude: the shared names, lists over the native numbers, dictionaries.
-- Transactions (engine/transactions): Locks models TableLock of locks.py, one function for each
--   method (try_acquire, release, acquire); Manager models LockManager; Transaction models
--   transaction.py. Owners are numbers for object identities. The loop of `acquire` takes the
--   readings of the clock and the operations of the other threads as a list of rounds, so it needs
--   no fuel: it ends with the list, and the outcome `waiting` says that the list was too short.
--   Session is the transaction that a QueryProcessor of engine/executor/processor.py keeps, with
--   the locks of its statements.
-- Parser (engine/parser): Span models span.py (the checks of a span are a Boolean function, which
--   the operations do not call, but a span of the source has to satisfy), Ast the nodes of ast.py,
--   BoundAst those of bound_ast.py that the planner reads. Floating-point numbers are a type
--   parameter. The lexer
--   (tokens.py, errors.py, lexer.py) reads a text as a list of code points: Chars has the tests on
--   characters, Tokens and Keywords the kinds of token, Errors an error with the line that it shows,
--   Cursor the position (`_index`, `_line`, `_column` and the text left), Scanner the methods
--   `_scan_...` and `_skip_...`, Lexer the loop of `tokenize`. The loop has as fuel one more than
--   the length of the source, since each round reads at least one character. `float` and
--   `str.isalpha` are parameters. Of parser.py, Stream has the state of `_Parser` (the tokens left,
--   and the one before), its exceptions and its primitive methods, and Grammar one function for
--   each of the other methods: Dates, Literals, Tables (CREATE, INSERT, DROP), Conditions, Queries
--   (SELECT and EXPLAIN) and Statements (`parse`, `parse_script`). A loop has as fuel the tokens
--   that are left, of which each round reads one or more. An IndexError, or a value that is not of
--   the type of its token, is the outcome `crashed`. Reading has the rules and the proofs by which
--   each method is shown to keep the tokens in order; Sql is the lexer and the parser in turn.
--   Semantic is semantic.py for CREATE TABLE, CREATE INDEX, DROP TABLE, INSERT and FROM: Tables the
--   statements that declare, Values an INSERT and its literals, Records the two in turn, Scopes the
--   names of a FROM and its joins, and Scopes/Columns what they mean. A schema keeps names and texts
--   as native strings, which are UTF-8; Chars/Encoded has str.encode. The record size in a message
--   is the one number there that can have more digits than str prints, which is the outcome
--   `raised`.
-- Planner (engine/planner): of optimizer.py, Metadata the copied catalogue, Access `_choose_access`,
--   Physical the physical nodes with the checks of their __post_init__ as Boolean functions, Source
--   `_optimize_source`, Select and Delete the two entry points. Every ValueError is one error
--   value; the texts of messages are left out. A leaf, which the code tells apart by identity, is
--   named by its place from left to right. Plan and Steps are plan.py: the tree of measured steps,
--   without its JSON form.
-- Executor (engine/executor): Storage is the interface of the native tables and indexes, with what
--   the core documents of insertions into indexes as a record of laws; Dml models the INSERT of
--   dml.py over it and Deletes its DELETE, each exception as a value that keeps the database where
--   it got to. The compensations are of best effort in the code, and nothing is assumed of them. A
--   candidate's identity is its place among the candidates. Executor/Tests has a table in memory
--   that satisfies the laws. Predicates models predicates.py and the ranges of native.py; the
--   operations on floating-point numbers, `math` and the days of a date are parameters, and a text
--   of the native module is a list of code points. Predicates/Domains says what a column can hold
--   and how the native core orders the values of a type.
--
-- The planner calls nothing native. The transactions take the closures of the undo log and the
-- database they act on as parameters. Not modelled: the semantic check of the conditions,
-- projections and order of SELECT and DELETE, and the rest of the executor; the HTTP interface, the
-- multimedia features (floating-point numerics) and the C++ core are outside.
pub mod Prelude
pub mod Transactions
pub mod Parser
pub mod Planner
pub mod Executor
