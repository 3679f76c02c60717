-- ===== src/Checkpoint/Text.antt =====
-- packages/core/src/lifecycle/checkpoint-service.ts: the texts of a checkpoint. The length of a text
-- is that of JavaScript, in UTF-16 units.
use Prim.Native.Char.{Char, code}
use Prim.Native.String.{String, [], ◌∷◌}
use agent_town.Prelude.{
  ℕ, ◌+◌, Bool, true, false, not, ◌&&◌, ◌||◌, Option, none, some, leb, ltb, ◌==◌, string_eq, nat_eq,
  if◌then◌else◌,
}
use agent_town.Contract.Value.{Value, null, str}
use agent_town.Result.{Result, ok, err, malformed, ◌>>=◌}
use agent_town.Orchestrator.Payload.{◌⧺◌}

unfoldable pub char_units : Char → ℕ
char_units c = if leb 65536 (code c) then 2 else 1

-- value.length
unfoldable pub text_units : String → ℕ
text_units [] = 0
text_units (c ∷ s) = char_units c + text_units s

-- /[\u0000-\u001f\u007f]/
unfoldable pub is_control : Char → Bool
is_control c = ltb (code c) 32 || code c == 127

-- /[\u0000-\u0008\u000b\u000c\u000e-\u001f\u007f]/: tabs and line ends are none.
unfoldable pub is_strange : Char → Bool
is_strange c = is_control c && not (code c == 9 || code c == 10 || code c == 13)

-- RegExp.prototype.test
unfoldable pub has_char : (Char → Bool) → String → Bool
has_char p [] = false
has_char p (c ∷ s) = p c || has_char p s

unfoldable pub is_text : ℕ → (Char → Bool) → String → Bool
is_text limit p s = not (s == "") && leb (text_units s) limit && not (has_char p s)

-- What readString, readHandoff and readNullableString let pass.
unfoldable pub is_name : String → Bool
is_name = is_text 512 is_control

unfoldable pub is_handoff : String → Bool
is_handoff = is_text 4096 is_strange

unfoldable pub is_nullable_name : Option String → Bool
is_nullable_name none = true
is_nullable_name (some s) = is_name s

-- readString(value, label)
unfoldable pub read_string : Option Value → String → Result String
read_string (some (str s)) label =
    if is_name s then ok s else err (malformed (label ⧺ " must be a well-formed non-empty string"))
read_string _ label = err (malformed (label ⧺ " must be a well-formed non-empty string"))

-- readNullableString(value, label)
unfoldable pub read_nullable_string : Option Value → String → Result (Option String)
read_nullable_string (some null) label = ok none
read_nullable_string value label = read_string value label >>= λ s. ok (some s)

-- readHandoff(value)
unfoldable pub read_handoff : Option Value → Result String
read_handoff (some (str s)) =
    if is_handoff s then ok s else err (malformed "checkpoint handoff must be well-formed text")
read_handoff _ = err (malformed "checkpoint handoff must be well-formed text")
