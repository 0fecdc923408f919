-- ===== src/Wire/Token.antt =====
-- Tokens of the wire format (`Token` of tokenizer.py, with the value yielded beside it), and the
-- exceptions of tokenizer.py and parser.py.
use geldstrom.Prelude.{ℕ, List, Bool, true, false, Option, some}

abbrev pub Bytes : Type 0
Bytes = List ℕ

pub data Token : Type 0 where
  char : Bytes → Token
  binary : Bytes → Token
  plus colon apostrophe eof : Token

-- The `raise` statements, by their message; `exhausted` is `next` on a generator that has ended.
pub data WireError : Type 0 where
  consecutive unknown_token cannot_tokenize trailing_data : WireError
  expected_apostrophe exhausted : WireError
  not_latin1 not_escapable : WireError
  out_of_fuel : WireError

-- What a generator of tokens does: it yields, returns, or raises when it is resumed.
pub data Tokens : Type 0 where
  yields : Token → Tokens → Tokens
  returns : Tokens
  raises : WireError → Tokens

-- `last_was in (Token.BINARY, Token.CHAR)`
abbrev pub is_data : Option Token → Bool
is_data (some (char v)) = true
is_data (some (binary v)) = true
is_data _ = false
