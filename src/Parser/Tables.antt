-- ===== src/Parser/Tables.antt =====
-- How table constructors are read.
use luck.Prelude.{
  ℕ, suc, Bool, true, false, ◌||◌, List, ◌∷◌, some, Bytes, ◌≡◌, refl, ◌∙◌, ap, ◌<◌, arith,
  From-both, From-one, From-suc,
}
use luck.Version.{LuaVersion}
use luck.Token.{
  identifier, semicolon, comma, equal, left_brace, right_brace, left_bracket, right_bracket, eof,
  Token, discriminant,
}
use luck.Syntax.{
  Expression, table, Field, bracketed, named, positional, Fields, no_fields, add_field,
}
use luck.Parser.{
  max_nesting_depth, ParseError, kind_at, rest_of, peek, peek_next, advance, is_kind, check, expect,
  expect_identifier_recover,
}
use luck.Parser.Expression.{
  Pieces, check_separator, skip_leading_separator, is_identifier, is_named_field, parse_expression,
  parse_fields,
}
use luck.Parser.Moves.{state, enter_depth-state, exit_depth-state, expect-state}
use luck.Parser.Opens.{Seen}
use luck.Parser.Ends.{close_brace, Closer-kind}
use luck.Parser.Steps.{
  table_step, fields_end, fields_last, fields_more, field_bracketed, field_named, field_positional,
}
use luck.Parser.Reading.{Reads}
use luck.Codegen.{plain}
use luck.Parser.Parts.{ReadsTable, ReadsFields, ReadsField}

-- What the parser's tests for the end of a table and for separators see in front of a field.
pub record FieldSeen (ts : List Token) : Type 0 where
  pub no_right_brace : is_kind right_brace (kind_at ts) ≡ false
  pub no_eof : is_kind eof (kind_at ts) ≡ false
  pub no_comma : is_kind comma (kind_at ts) ≡ false
  pub no_semicolon : is_kind semicolon (kind_at ts) ≡ false

pub Seen-FieldSeen : (ts : List Token) → Seen ts → FieldSeen ts
Seen-FieldSeen ts s = record {
  no_right_brace = s.no_right_brace;
  no_eof = s.no_eof;
  no_comma = s.no_comma;
  no_semicolon = s.no_semicolon;
}

pub bracket-FieldSeen : (ts : List Token) → FieldSeen (plain left_bracket ∷ ts)
unfolding is_kind kind_at discriminant
bracket-FieldSeen ts = record {
  no_right_brace = refl;
  no_eof = refl;
  no_comma = refl;
  no_semicolon = refl;
}

pub name-FieldSeen : (s : Bytes) (ts : List Token) → FieldSeen (plain (identifier s) ∷ ts)
unfolding is_kind kind_at discriminant
name-FieldSeen s ts = record {
  no_right_brace = refl;
  no_eof = refl;
  no_comma = refl;
  no_semicolon = refl;
}

module _ {F : Type 0} (g : Pieces F) (v : LuaVersion) (va : Bool) (errs : List ParseError) where
  pub field_positional-Reads :
      (d : ℕ) (ts : List Token) (e : Expression F) (rest : List Token)
      → Seen ts
      → Reads g v va errs d 0 ts e rest
      → ReadsField g v va errs d ts (positional e) rest
  unfolding check peek peek_next is_named_field
  field_positional-Reads d ts e rest s p =
      From-suc
        (λ m q.
          field_positional g m (state v va errs d ts) (state v va errs d rest) e s.no_left_bracket
            s.no_named q)
        p

  pub field_named-Reads :
      (d : ℕ) (s : Bytes) (ts : List Token) (e : Expression F) (rest : List Token)
      → Reads g v va errs d 0 ts e rest
      → ReadsField g v va errs d (plain (identifier s) ∷ plain equal ∷ ts) (named s e) rest
  unfolding check peek peek_next is_named_field kind_at rest_of advance expect_identifier_recover
      is_kind discriminant is_identifier
  field_named-Reads d s ts e rest p =
      From-suc
        (λ m q.
          field_named g m (state v va errs d (plain (identifier s) ∷ plain equal ∷ ts))
            (state v va errs d (plain equal ∷ ts)) (state v va errs d rest) s e refl refl refl q)
        p

  pub field_bracketed-Reads :
      (d : ℕ) (ts us : List Token) (k e : Expression F) (rest : List Token)
      → Reads g v va errs d 0 ts k (plain right_bracket ∷ plain equal ∷ us)
      → Reads g v va errs d 0 us e rest
      → ReadsField g v va errs d (plain left_bracket ∷ ts) (bracketed k e) rest
  unfolding check peek kind_at rest_of advance is_kind discriminant
  field_bracketed-Reads d ts us k e rest p r =
      From-suc
        (λ m (p, r).
          field_bracketed g m (state v va errs d (plain left_bracket ∷ ts))
            (state v va errs d (plain right_bracket ∷ plain equal ∷ us)) (state v va errs d rest) k
            e refl p
            (ap (parse_expression g m 0) (
                ap (expect equal) (expect-state v va errs right_bracket d (plain equal ∷ us) refl)
                ∙ expect-state v va errs equal d us refl)
              ∙ r))
        (From-both p r)

  pub fields_end-Reads :
      (d : ℕ) (b : Bool) (rest : List Token)
      → ReadsFields g v va errs d b
          (plain right_brace ∷ rest)
          no_fields
          b
          (plain right_brace ∷ rest)
  unfolding check peek kind_at is_kind discriminant
  fields_end-Reads d b rest =
      From-one λ m. fields_end g m b (state v va errs d (plain right_brace ∷ rest)) refl

  not_ended :
      (ts : List Token)
      → FieldSeen ts
      → (is_kind right_brace (kind_at ts) || is_kind eof (kind_at ts)) ≡ false
  not_ended ts s = ground (arith, s.no_right_brace, s.no_eof)

  pub fields_last-Reads :
      (d : ℕ) (b : Bool) (ts : List Token) (f : Field F) (rest : List Token)
      → FieldSeen ts
      → ReadsField g v va errs d ts f (plain right_brace ∷ rest)
      → ReadsFields g v va errs d b ts (add_field f no_fields) false (plain right_brace ∷ rest)
  unfolding check peek kind_at is_kind discriminant check_separator
  fields_last-Reads d b ts f rest s p =
      From-suc
        (λ m q.
          fields_last g m b (state v va errs d ts) (state v va errs d (plain right_brace ∷ rest)) f
            (not_ended ts s) q refl)
        p

  pub fields_more-Reads :
      (d : ℕ) (b after : Bool) (ts us : List Token) (f : Field F) (fs : Fields F)
      (rest : List Token)
      → FieldSeen ts
      → ReadsField g v va errs d ts f (plain comma ∷ us)
      → ReadsFields g v va errs d true us fs after rest
      → ReadsFields g v va errs d b ts (add_field f fs) after rest
  unfolding check peek kind_at is_kind discriminant check_separator advance rest_of
  fields_more-Reads d b after ts us f fs rest s p r =
      From-suc
        (λ m (p, r).
          fields_more g m b after (state v va errs d ts) (state v va errs d (plain comma ∷ us))
            (state v va errs d rest) f fs (not_ended ts s) p refl r)
        (From-both p r)

  skip :
      (d : ℕ) (ts : List Token)
      → is_kind comma (kind_at ts) ≡ false
      → is_kind semicolon (kind_at ts) ≡ false
      → skip_leading_separator (state v va errs d ts) ≡ state v va errs d ts
  unfolding skip_leading_separator check_separator check peek
  skip d ts a b = rw (a, b)

  pub table-Reads :
      (d : ℕ) (ts : List Token) (fs : Fields F) (rest : List Token)
      → d < max_nesting_depth
      → is_kind comma (kind_at ts) ≡ false
      → is_kind semicolon (kind_at ts) ≡ false
      → ReadsFields g v va errs (suc d) false ts fs false (plain right_brace ∷ rest)
      → ReadsTable g v va errs d (plain left_brace ∷ ts) (table fs false) rest
  unfolding advance rest_of
  table-Reads d ts fs rest h a b p =
      From-suc
        (λ m q.
          table_step g m (state v va errs d (plain left_brace ∷ ts)) (state v va errs (suc d) ts)
            (state v va errs (suc d) (plain right_brace ∷ rest)) fs false
            (enter_depth-state v va errs d ts h)
            (ap (parse_fields g m false) (skip (suc d) ts a b) ∙ q)
          ∙ ap (λ p. some (table fs false, p))
              (ap (expect right_brace) (exit_depth-state v va errs d (plain right_brace ∷ rest))
                ∙ expect-state v va errs right_brace d rest (Closer-kind right_brace close_brace)))
        p
