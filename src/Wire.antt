-- ===== src/Wire.antt =====
-- The FinTS wire format: fints/protocol/tokenizer.py and the wire half of fints/protocol/parser.py.
pub mod Decimal
pub mod Token
pub mod Tokenizer
pub mod Value
pub mod Serializer
pub mod Parser
pub mod RoundTrip
