-- ===== src/Version.antt =====
-- crates/luck_token/src/version.rs: the Lua dialects and the features that each of them has.
pub mod Features
use luck.Prelude.{Bool, true, false}

pub data LuaVersion : Type 0 where
  lua51 lua52 lua53 lua54 lua55 luau : LuaVersion

unfoldable pub has_goto : LuaVersion → Bool
has_goto lua52 = true
has_goto lua53 = true
has_goto lua54 = true
has_goto lua55 = true
has_goto _ = false

unfoldable pub has_floor_div : LuaVersion → Bool
has_floor_div lua51 = false
has_floor_div lua52 = false
has_floor_div _ = true

unfoldable pub has_bitwise_ops : LuaVersion → Bool
has_bitwise_ops lua53 = true
has_bitwise_ops lua54 = true
has_bitwise_ops lua55 = true
has_bitwise_ops _ = false

unfoldable pub has_attributes : LuaVersion → Bool
has_attributes lua54 = true
has_attributes lua55 = true
has_attributes _ = false

unfoldable pub has_global : LuaVersion → Bool
has_global lua55 = true
has_global _ = false

unfoldable pub has_env_upvalue : LuaVersion → Bool
has_env_upvalue lua52 = true
has_env_upvalue lua53 = true
has_env_upvalue lua54 = true
has_env_upvalue lua55 = true
has_env_upvalue _ = false

unfoldable pub has_integer_subtype : LuaVersion → Bool
has_integer_subtype lua53 = true
has_integer_subtype lua54 = true
has_integer_subtype lua55 = true
has_integer_subtype _ = false

unfoldable pub has_leading_attributes : LuaVersion → Bool
has_leading_attributes lua55 = true
has_leading_attributes _ = false

unfoldable pub break_is_last_stat_only : LuaVersion → Bool
break_is_last_stat_only lua51 = true
break_is_last_stat_only luau = true
break_is_last_stat_only _ = false

unfoldable pub has_ambiguous_call_newline_error : LuaVersion → Bool
has_ambiguous_call_newline_error lua51 = true
has_ambiguous_call_newline_error luau = true
has_ambiguous_call_newline_error _ = false

unfoldable pub has_empty_statement : LuaVersion → Bool
has_empty_statement lua52 = true
has_empty_statement lua53 = true
has_empty_statement lua54 = true
has_empty_statement lua55 = true
has_empty_statement _ = false

unfoldable pub has_strict_escapes : LuaVersion → Bool
has_strict_escapes lua51 = false
has_strict_escapes _ = true

unfoldable pub has_hex_escape : LuaVersion → Bool
has_hex_escape lua51 = false
has_hex_escape _ = true

unfoldable pub has_whitespace_escape : LuaVersion → Bool
has_whitespace_escape lua51 = false
has_whitespace_escape _ = true

unfoldable pub has_unicode_escape : LuaVersion → Bool
has_unicode_escape lua53 = true
has_unicode_escape lua54 = true
has_unicode_escape lua55 = true
has_unicode_escape luau = true
has_unicode_escape _ = false

unfoldable pub has_hex_floats : LuaVersion → Bool
has_hex_floats lua52 = true
has_hex_floats lua53 = true
has_hex_floats lua54 = true
has_hex_floats lua55 = true
has_hex_floats _ = false

unfoldable pub has_binary_literals : LuaVersion → Bool
has_binary_literals luau = true
has_binary_literals _ = false

unfoldable pub has_underscore_separators : LuaVersion → Bool
has_underscore_separators luau = true
has_underscore_separators _ = false

unfoldable pub has_luau_integer_literals : LuaVersion → Bool
has_luau_integer_literals luau = true
has_luau_integer_literals _ = false

unfoldable pub has_explicit_type_instantiation : LuaVersion → Bool
has_explicit_type_instantiation luau = true
has_explicit_type_instantiation _ = false

unfoldable pub has_value_exports : LuaVersion → Bool
has_value_exports luau = true
has_value_exports _ = false

unfoldable pub is_luau : LuaVersion → Bool
is_luau luau = true
is_luau _ = false

unfoldable pub has_const_for_variables : LuaVersion → Bool
has_const_for_variables lua55 = true
has_const_for_variables _ = false

unfoldable pub has_named_varargs : LuaVersion → Bool
has_named_varargs lua55 = true
has_named_varargs _ = false

unfoldable pub has_continue : LuaVersion → Bool
has_continue luau = true
has_continue _ = false

unfoldable pub has_compound_assignment : LuaVersion → Bool
has_compound_assignment luau = true
has_compound_assignment _ = false

unfoldable pub has_interpolated_strings : LuaVersion → Bool
has_interpolated_strings luau = true
has_interpolated_strings _ = false

unfoldable pub has_require_filepath_arg : LuaVersion → Bool
has_require_filepath_arg lua52 = true
has_require_filepath_arg lua53 = true
has_require_filepath_arg lua54 = true
has_require_filepath_arg lua55 = true
has_require_filepath_arg _ = false

unfoldable pub has_require_loaderdata : LuaVersion → Bool
has_require_loaderdata lua54 = true
has_require_loaderdata lua55 = true
has_require_loaderdata _ = false

unfoldable pub has_require_error_retry : LuaVersion → Bool
has_require_error_retry lua52 = true
has_require_error_retry lua53 = true
has_require_error_retry lua54 = true
has_require_error_retry lua55 = true
has_require_error_retry _ = false

unfoldable pub has_fmod_float_modulo : LuaVersion → Bool
has_fmod_float_modulo lua53 = true
has_fmod_float_modulo lua54 = true
has_fmod_float_modulo lua55 = true
has_fmod_float_modulo _ = false

unfoldable pub has_float_modulo_sign_compare : LuaVersion → Bool
has_float_modulo_sign_compare lua54 = true
has_float_modulo_sign_compare lua55 = true
has_float_modulo_sign_compare _ = false

-- The standard-library environment of a Luau program.
pub data StdlibEnvironment : Type 0 where
  standalone roblox : StdlibEnvironment

unfoldable pub is_roblox : StdlibEnvironment → Bool
is_roblox roblox = true
is_roblox standalone = false
