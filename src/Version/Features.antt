-- ===== src/Version/Features.antt =====
-- The feature table of crates/luck_token/src/version.rs, read as a whole.
use luck.Prelude.{ℕ, ◌≤◌, ◌≡◌, Bool, true, List, [], ◌∷◌, arith, All}
use luck.Version.{
  LuaVersion, lua51, lua52, lua53, lua54, lua55, luau, has_goto, has_floor_div, has_bitwise_ops,
  has_attributes, has_global, has_env_upvalue, has_integer_subtype, has_leading_attributes,
  has_empty_statement, has_strict_escapes, has_hex_escape, has_whitespace_escape,
  has_unicode_escape, has_hex_floats, has_const_for_variables, has_named_varargs,
  has_require_filepath_arg, has_require_loaderdata, has_require_error_retry, has_fmod_float_modulo,
  has_float_modulo_sign_compare, break_is_last_stat_only, has_ambiguous_call_newline_error,
}

-- The minor number of a PUC release; Luau is none.
abbrev pub IsRelease : LuaVersion → ℕ → Type 0
IsRelease lua51 n = n ≡ 1
IsRelease lua52 n = n ≡ 2
IsRelease lua53 n = n ≡ 3
IsRelease lua54 n = n ≡ 4
IsRelease lua55 n = n ≡ 5
IsRelease luau n = ⊥

-- What some PUC release added to the language.
abbrev pub additions : List (LuaVersion → Bool)
additions =
    has_goto ∷ has_floor_div ∷ has_bitwise_ops ∷ has_attributes ∷ has_global ∷ has_env_upvalue
    ∷ has_integer_subtype ∷ has_leading_attributes ∷ has_empty_statement ∷ has_strict_escapes
    ∷ has_hex_escape ∷ has_whitespace_escape ∷ has_unicode_escape ∷ has_hex_floats
    ∷ has_const_for_variables ∷ has_named_varargs ∷ has_require_filepath_arg
    ∷ has_require_loaderdata ∷ has_require_error_retry ∷ has_fmod_float_modulo
    ∷ has_float_modulo_sign_compare ∷ []

-- Restrictions of the first release that a later one lifted.
abbrev pub restrictions : List (LuaVersion → Bool)
restrictions = break_is_last_stat_only ∷ has_ambiguous_call_newline_error ∷ []

-- Along the PUC releases a feature that was added stays, and a restriction that was lifted does
-- not come back.
pub additions_stay :
    (v w : LuaVersion) (m n : ℕ)
    → IsRelease v m
    → IsRelease w n
    → m ≤ n
    → All (λ f. f v ≡ true → f w ≡ true) additions × All (λ f. f w ≡ true → f v ≡ true) restrictions
unfolding has_goto has_floor_div has_bitwise_ops has_attributes has_global has_env_upvalue
    has_integer_subtype has_leading_attributes has_empty_statement has_strict_escapes has_hex_escape
    has_whitespace_escape has_unicode_escape has_hex_floats has_const_for_variables
    has_named_varargs has_require_filepath_arg has_require_loaderdata has_require_error_retry
    has_fmod_float_modulo has_float_modulo_sign_compare break_is_last_stat_only
    has_ambiguous_call_newline_error
additions_stay lua51 w m n hv hw le = ground arith
additions_stay lua52 w m n hv hw le = ground arith
additions_stay v w m n hv hw le = ground arith
