-- ===== src/Tests.antt =====
-- Runs of the definitions on concrete inputs, and the theorems applied there.
mod Literals
mod Bundles
mod Fixes
mod Layouts
mod Strings
mod Suggestions
mod Versions
mod Lexing
mod Parsing
mod Simplifying
mod Minifying
mod Numbers
mod Scopes
