-- ===== src/Wire/Tokenizer.antt =====
-- `ParserState._tokenize` of tokenizer.py, over the bytes not yet read (`data[pos:]`); `start` and
-- `end` have their defaults. `unclaimed` is the chunks joined: no chunk is empty, so the list is
-- empty exactly when the joined bytes are.
pub mod Steps
pub mod Reads
pub mod Adjacent
use geldstrom.Prelude.{
  ℕ, zero, suc, ◌+◌, Bool, true, false, not, ◌&&◌, ◌||◌, Option, none, some, List, [], ◌∷◌, ◌++◌,
  length, take, drop, ◌==◌, if◌then◌else◌,
}
use geldstrom.Wire.Decimal.{is_digit, value_of}
use geldstrom.Wire.Token.{
  Bytes, Token, char, binary, plus, colon, apostrophe, eof, WireError, consecutive, unknown_token,
  cannot_tokenize, trailing_data, out_of_fuel, Tokens, yields, returns, raises, is_data,
}

-- [+:']
abbrev pub is_delimiter : ℕ → Bool
is_delimiter c = c == b'+' || c == b':' || c == b'\''

-- [^?:+@']
abbrev pub is_plain : ℕ → Bool
is_plain c = not (is_delimiter c || c == b'?' || c == b'@')

-- The longest run of bytes that pass the test, and what follows it.
unfoldable pub span : (ℕ → Bool) → Bytes → Bytes × Bytes
span p [] = ([], [])
span p (c ∷ cs) = let (run, rest) = span p cs in if p c then (c ∷ run, rest) else ([], c ∷ cs)

-- The groups of `_TOKEN_RE`.
pub data Match : Type 0 where
  echar : ℕ → Match
  chars : Bytes → Match
  tok : ℕ → Match
  binlen : Bytes → Match

match_escape : Bytes → Option (Match × Bytes)
match_escape [] = none
match_escape (c ∷ rest) = some (echar c, rest)

-- behind the digits of `@[0-9]+@`
match_close : Bytes → Bytes → Option (Match × Bytes)
match_close (d ∷ ds) (c ∷ rest) = if c == b'@' then some (binlen (d ∷ ds), rest) else none
match_close _ _ = none

-- `_TOKEN_RE.match`: the group that matched, and the bytes behind the match.
unfoldable pub match_token : Bytes → Option (Match × Bytes)
unfolding match_escape match_close span
match_token [] = none
match_token (c ∷ cs) =
    if c == b'?'
    then match_escape cs
    else if is_plain c
    then (let (run, rest) = span is_plain cs in some (chars (c ∷ run), rest))
    else if is_delimiter c
    then some (tok c, cs)
    else let (ds, rest) = span is_digit cs in match_close ds rest

-- Token(d["TOK"])
abbrev pub token_of : ℕ → Token
token_of c = if c == b'+' then plus else if c == b':' then colon else apostrophe

-- `if unclaimed: …`, then what follows it, with the new `last_was`.
abbrev pub claim : Bytes → Option Token → (Option Token → Tokens) → Tokens
claim [] last k = k last
claim (c ∷ cs) last k =
    if is_data last then raises consecutive else yields (char (c ∷ cs)) (k (some (char (c ∷ cs))))

-- The branch of `binlen`, once the unclaimed bytes are yielded.
abbrev pub yield_binary :
    (Bytes → Bytes → Option Token → Tokens) → ℕ → Bytes → Option Token → Tokens
yield_binary loop blen rest last =
    if is_data last
    then raises consecutive
    else yields (binary (take blen rest))
        (loop (drop blen rest) [] (some (binary (take blen rest))))

-- The loop's body; `loop` is the next round, at the new `pos`, `unclaimed` and `last_was`.
unfoldable pub round :
    (Bytes → Bytes → Option Token → Tokens) → Option (Match × Bytes) → Bytes → Option Token → Tokens
round loop none unclaimed last = raises cannot_tokenize
round loop (some (echar c, rest)) unclaimed last = loop rest (unclaimed ++ c ∷ []) last
round loop (some (chars cs, rest)) unclaimed last = loop rest (unclaimed ++ cs) last
round loop (some (tok c, rest)) unclaimed last =
    claim unclaimed last (λ _. yields (token_of c) (loop rest [] (some (token_of c))))
round loop (some (binlen ds, rest)) unclaimed last =
    claim unclaimed last (yield_binary loop (value_of 0 ds) rest)

-- behind the loop
abbrev pub finish : Bytes → Option Token → Tokens
finish [] last = yields eof returns
finish (c ∷ cs) last =
    if is_data last then raises trailing_data else yields (char (c ∷ cs)) (yields eof returns)

unfoldable pub tokenize_fuel : ℕ → Bytes → Bytes → Option Token → Tokens
unfolding match_token round value_of
tokenize_fuel fuel [] unclaimed last = finish unclaimed last
tokenize_fuel zero (c ∷ cs) unclaimed last = raises out_of_fuel
tokenize_fuel (suc fuel) (c ∷ cs) unclaimed last =
    round (tokenize_fuel fuel) (match_token (c ∷ cs)) unclaimed last

-- Every round reads a byte, so the length is fuel enough.
abbrev pub tokenize_from : Bytes → Bytes → Option Token → Tokens
tokenize_from rest = tokenize_fuel (length rest) rest

unfoldable pub tokenize : Bytes → Tokens
unfolding tokenize_fuel
tokenize bytes = tokenize_from bytes [] none
