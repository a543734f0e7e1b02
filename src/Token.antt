-- ===== src/Token.antt =====
-- crates/luck_token/src/token.rs: the kinds of token. A token is kept as its kind and a flag for a
-- line break in front of it, which is all that the parser reads of its span.
pub mod Operators
use luck.Prelude.{ℕ, Bytes, Bool, true, false, Option, none, some, ◌≡◌}

pub data TokenKind : Type 0 where
  identifier number string_literal : Bytes → TokenKind
  and_kw break_kw do_kw else_kw elseif_kw end_kw false_kw for_kw function_kw if_kw in_kw local_kw
        nil_kw not_kw or_kw repeat_kw return_kw then_kw true_kw until_kw while_kw goto_kw global_kw
        plus minus star slash floor_div percent caret hash ampersand tilde pipe shift_left
        shift_right dot dot_dot dot_dot_dot semicolon colon double_colon comma equal equal_equal
        tilde_equal less less_equal greater greater_equal left_paren right_paren left_brace
        right_brace left_bracket right_bracket plus_equal minus_equal star_equal slash_equal
        floor_div_equal percent_equal caret_equal dot_dot_equal :
      TokenKind
  interp_begin interp_mid interp_end : Bytes → TokenKind
  at arrow question eof : TokenKind

pub record Token : Type 0 where
  pub kind : TokenKind
  pub newline_before : Bool

-- `std::mem::discriminant`, as the position of the kind in the list of kinds.
unfoldable pub discriminant : TokenKind → ℕ
discriminant (identifier s) = 0
discriminant (number s) = 1
discriminant (string_literal s) = 2
discriminant and_kw = 3
discriminant break_kw = 4
discriminant do_kw = 5
discriminant else_kw = 6
discriminant elseif_kw = 7
discriminant end_kw = 8
discriminant false_kw = 9
discriminant for_kw = 10
discriminant function_kw = 11
discriminant if_kw = 12
discriminant in_kw = 13
discriminant local_kw = 14
discriminant nil_kw = 15
discriminant not_kw = 16
discriminant or_kw = 17
discriminant repeat_kw = 18
discriminant return_kw = 19
discriminant then_kw = 20
discriminant true_kw = 21
discriminant until_kw = 22
discriminant while_kw = 23
discriminant goto_kw = 24
discriminant global_kw = 25
discriminant plus = 26
discriminant minus = 27
discriminant star = 28
discriminant slash = 29
discriminant floor_div = 30
discriminant percent = 31
discriminant caret = 32
discriminant hash = 33
discriminant ampersand = 34
discriminant tilde = 35
discriminant pipe = 36
discriminant shift_left = 37
discriminant shift_right = 38
discriminant dot = 39
discriminant dot_dot = 40
discriminant dot_dot_dot = 41
discriminant semicolon = 42
discriminant colon = 43
discriminant double_colon = 44
discriminant comma = 45
discriminant equal = 46
discriminant equal_equal = 47
discriminant tilde_equal = 48
discriminant less = 49
discriminant less_equal = 50
discriminant greater = 51
discriminant greater_equal = 52
discriminant left_paren = 53
discriminant right_paren = 54
discriminant left_brace = 55
discriminant right_brace = 56
discriminant left_bracket = 57
discriminant right_bracket = 58
discriminant plus_equal = 59
discriminant minus_equal = 60
discriminant star_equal = 61
discriminant slash_equal = 62
discriminant floor_div_equal = 63
discriminant percent_equal = 64
discriminant caret_equal = 65
discriminant dot_dot_equal = 66
discriminant (interp_begin s) = 67
discriminant (interp_mid s) = 68
discriminant (interp_end s) = 69
discriminant at = 70
discriminant arrow = 71
discriminant question = 72
discriminant eof = 73

unfoldable pub is_stat_start : TokenKind → Bool
is_stat_start if_kw = true
is_stat_start while_kw = true
is_stat_start do_kw = true
is_stat_start for_kw = true
is_stat_start repeat_kw = true
is_stat_start function_kw = true
is_stat_start local_kw = true
is_stat_start global_kw = true
is_stat_start goto_kw = true
is_stat_start double_colon = true
is_stat_start semicolon = true
is_stat_start return_kw = true
is_stat_start break_kw = true
is_stat_start (identifier s) = true
is_stat_start left_paren = true
is_stat_start at = true
is_stat_start _ = false

unfoldable pub is_unary_op : TokenKind → Bool
is_unary_op minus = true
is_unary_op not_kw = true
is_unary_op hash = true
is_unary_op tilde = true
is_unary_op _ = false
