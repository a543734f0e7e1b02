-- ===== src/Lib.antt =====
-- The luck toolchain for Lua and Luau: a lexer, a parser, a formatter, a linter, a minifier and a
-- bundler that share one syntax tree. This library models the expressions of the language and the
-- parts that decide texts, the scopes of names and the walk over the modules, and proves what the
-- other parts rely on.
--
-- Parts and files (paths from the repository's root):
--   Version: crates/luck_token/src/version.rs. `LuaVersion` and one function for each of its
--     predicates, by the same name; Version/Features reads them as a table.
--   Token: crates/luck_token/src/token.rs. The kinds of token, the operators and their tables; the
--     spelling of an operator is its token.
--   Syntax: crates/luck_ast/src/expr.rs, the tree of an expression without spans. The nodes that
--     a variant holds are arguments of its constructor.
--   Parser: crates/luck_parser/src/parser.rs and expr.rs. The record `Parser` is the state, with the
--     tokens to come in place of the lexer; a method is a function from state to state. `Fits` says
--     which trees can be printed without parentheses of their own, Moves to Tables follow the parser
--     over printed tokens one construct at a time, RoundTrip puts them
--     together; Returns and Shrinks count the tokens that are left, Termination adds up the fuel.
--   Codegen: crates/luck_codegen/src/compact.rs, the tokens that are written for an expression.
--   Utf8: the functions of Rust's standard library on UTF-8 that the literals use.
--   Literal: crates/luck_token/src/literal.rs. Literal/Encode is `encode_string_literal` with
--     `push_escaped_text` and `push_decimal_escape`, Literal/Decode is `decode_string_literal`,
--     one function for each loop and for the escapes with a loop of their own. Literal/Pieces puts
--     the encoder beside a plain recursion, Literal/RoundTrip reads it back.
--   Linter/Fix: crates/luck_linter/src/fix.rs, `apply_one_pass`, `apply_fixes` and the fixpoint
--     loop. The linter and the parser are parameters of the loop.
--   Formatter/Ir: crates/luck_formatter/src/ir.rs, the element stream of a document.
--   Formatter/Printer: crates/luck_formatter/src/printer.rs. The record `Printer` is the struct;
--     a method is a function from printer to printer. State has the methods that emit, Expand is
--     `propagate_expand`, Fits the measuring and Layout the print loop. Reach counts the columns of
--     a line, Plain and Layout/OneLine take groups without forced breaks, Newlines the line breaks.
--   Span: crates/luck_token/src/span.rs, `merge` and `line_col`.
--   Lexer: crates/luck_lexer/src/cursor.rs, number.rs, search.rs and string.rs.
--     A method of the cursor is a function from cursor to cursor; `lex_number` returns its
--     result with the cursor, which the source leaves where it stands also on an error. `Step` is the
--     result of a part of a numeral, after which the lexer may have returned. Offsets are natural
--     numbers, for sources below 4 GB.
--   Semantic: crates/luck_semantic/src/scope.rs and the part of builder.rs that opens and leaves
--     scopes, declares locals and resolves names. Indices into the tables are natural numbers; an
--     index out of range, on which the source panics, gives `none`. The walk over the syntax tree is
--     the list of the calls it makes (`Step`). `crosses_from` climbs with fuel for the scope it
--     starts at, which is enough since a parent is made before its children.
--   Minifier: crates/luck_minifier/src/name_gen.rs, and what transforms/shorten_strings.rs does to
--     the text of a literal. `usize` has 64 bits, and an overflow is `none`.
--     Minifier/Parens: transforms/simplify_parens.rs on expressions, with the walk over them of
--     crates/luck_ast/src/transform.rs. `Walks` holds what the walk does in the parts of the tree that
--     are not modelled. Unwrap and Kept follow what still fits, Bare, Same and
--     Meaning what is unchanged.
--   Bundler: the walk of crates/luck_bundler/src/graph.rs over the modules. `Host` holds what it
--     calls: files, the parser, the extraction of requires, the resolver with its state, and the
--     graph of petgraph. `discover` runs on fuel, and some fuel is enough for every entry.
--   Formatter/Numbers: `normalize_number` of crates/luck_formatter/src/numbers.rs.
--   Linter/Suggest: `levenshtein` of crates/luck_linter/src/suggest.rs, a row as a list.
--   Tests: runs at concrete inputs.
--
-- The parts meet as in the program: the literals and the lexer ask the dialect for its features,
-- the lexer is run on what the encoder of literals writes,
-- the parser on the tokens that the compact printer writes, the fixes are
-- applied to source bytes, the printer appends to a buffer of bytes.
--
-- Conventions. Text is its UTF-8 bytes. An index into a text or an element stream is the list from
-- there on; a loop that moves its index by more than one skips that many places. A panic (an index
-- out of range) is `none` or `panic`. Assertions of debug builds are left out. Numbers are the
-- natural numbers; the `isize` budget of the printer is an integer, and a `u32` counter that may
-- wrap is written with its modulus.
--
-- Fuel. `next_chunk` and `chunks_from` take the length of the input, `push_escaped_text` the
-- length of its text: each round takes a byte at least. The loop that pushes a blank line takes
-- two rounds, which is as many as the two line breaks that it waits for. `skip_batches` takes the
-- count of the bytes that are left, of which a round takes 32; the scans of a short string and
-- of a long bracket take one more than the length of the source, and a round takes a byte. The
-- search for the length of a name takes one more than the index, and a round subtracts from it. The
-- print loop takes fuel as an argument, and twice the size of the document is enough; the walk over
-- the modules takes it as one too, and some fuel is enough. The expression parser takes fuel as an
-- argument, which bounds the depth of its calls and loops: sixteen units a token and six more are
-- enough, and where the amount does not matter `From` says that some fuel is enough, and any that
-- is more.
--
-- Parameters. `UnicodeWidthStr::width` is a function from text to a number, `memchr::memchr` one
-- from a byte and a text to an index, which is that of the first such byte, and `memchr::memchr3`
-- the same for three bytes; what `format!` writes for a number is a function; the lint run and the
-- parser are functions on texts.
--
-- `Pieces` holds the parts of the parser and of the compact printer that are not modelled: those
-- for function definitions, interpolated strings, types and type arguments.
--
-- Not modelled: floating-point numbers (`parse_lua_number`), statements and types, the passes over
-- the syntax tree, the rules of the linter, file access, configuration, the language server.
pub mod Prelude
pub mod Version
pub mod Token
pub mod Syntax
pub mod Parser
pub mod Codegen
pub mod Utf8
pub mod Literal
pub mod Linter
pub mod Formatter
pub mod Span
pub mod Lexer
pub mod Semantic
pub mod Minifier
pub mod Bundler
mod Tests
