-- ===== src/Tests/Messages.antt =====
-- Messages on the wire and in memory.
use mathlib.Core.List.{map}
use geldstrom.Prelude.{◌≡◌, true, false, List, [], ◌∷◌, none, arith, ok, ◌≤◌, ◌⊎◌}
use geldstrom.Wire.Token.{Bytes}
use geldstrom.Wire.Value.{Value, nothing, text, bytes, boolean, signed, single, group, cons}
use geldstrom.Wire.Value.{nil as no_items}
use geldstrom.Wire.Serializer.{implode_segments, highest_index}
use geldstrom.Wire.Serializer.Writes.{
  AreReadable-AreWritable, AreReadable, Succeeds, implode_segments-Succeeds,
}
use geldstrom.Wire.Serializer.Leaves.{leaves, leaves_of}
use geldstrom.Wire.Parser.{explode_segments}
use geldstrom.Wire.Parser.Keeps.{Holds, tokens_kept, explode-tokenize}
use geldstrom.Wire.Tokenizer.{tokenize}
use geldstrom.Wire.Tokenizer.Adjacent.{Alternates, tokenize-Alternates}
use geldstrom.Wire.RoundTrip.{explode-implode}
use geldstrom.Wire.RoundTrip.Groups.{read_segment}
use geldstrom.Segments.{Segment, Segments, other, hipins1, hibpa3, of_list}
use geldstrom.Dialog.Envelope.{Auth, build_message, joining, plain_segment}
use geldstrom.Dialog.Numbers.{IsWrapped, build_message-numbered, unwrap}
use geldstrom.Segments.Numbering.{numbered_from}
use geldstrom.Parameters.{ParameterStore, empty_store}
use geldstrom.Parameters.Versions.{
  update_all, update_all_newest, BringsBpd, BringsUpd, OffersAtMost,
}
use geldstrom.Responses.{Processed, process}

-- A group, a text of special characters, a binary value, an empty element and a bool.
abbrev a_segment : List Value
a_segment =
    group (cons (single (text (b'H' ∷ b'K' ∷ []))) (cons (single (signed false 3)) no_items))
    ∷ single (text (b'+' ∷ b'?' ∷ b'@' ∷ []))
    ∷ single (bytes (b'\'' ∷ []))
    ∷ single nothing
    ∷ single (boolean true)
    ∷ []

a_segment-AreReadable : AreReadable a_segment
unfolding leaves leaves_of highest_index
a_segment-AreReadable = (
  ((omega arith, (omega arith, tt)), (tt, tt)),
  (((omega arith, (omega arith, (omega arith, tt))), tt), ((tt, tt), ((tt, tt), ((tt, tt), tt)))),
)

explode-implode_example :
    (w : Bytes) × (implode_segments (a_segment ∷ a_segment ∷ []) ≡ ok w)
    × (explode_segments w ≡ ok (map read_segment (a_segment ∷ a_segment ∷ [])))
explode-implode_example =
    explode-implode a_segment (a_segment ∷ []) (a_segment-AreReadable, (a_segment-AreReadable, tt))

implode_segments-Succeeds_example : Succeeds (implode_segments (a_segment ∷ []))
implode_segments-Succeeds_example =
    implode_segments-Succeeds (a_segment ∷ [])
      (AreReadable-AreWritable (a_segment ∷ []) (a_segment-AreReadable, tt))

-- HK:3+@2@'+?
abbrev some_bytes : Bytes
some_bytes = b'H' ∷ b'K' ∷ b':' ∷ b'3' ∷ b'+' ∷ b'@' ∷ b'2' ∷ b'@' ∷ b'\'' ∷ b'+' ∷ b'?' ∷ []

explode-tokenize_example : Holds (tokens_kept (tokenize some_bytes)) (explode_segments some_bytes)
explode-tokenize_example = explode-tokenize some_bytes

tokenize-Alternates_example : Alternates none (tokenize some_bytes)
tokenize-Alternates_example = tokenize-Alternates some_bytes

abbrev an_auth : Auth
an_auth = record { security_function = "946"; pin = "12345"; security_reference = "1234567" }

abbrev hkcaz : Segment
hkcaz = plain_segment "HKCAZ" 1 (other none)

build_message-numbered_example :
    (build_message (an_auth ∷ []) false "0" 1 (hkcaz ∷ [])
      ≡ numbered_from 1 (joining (an_auth ∷ []) "0" 1 (hkcaz ∷ [])))
    × (unwrap (build_message (an_auth ∷ []) true "0" 1 (hkcaz ∷ []))
        ≡ numbered_from 1 (joining (an_auth ∷ []) "0" 1 (hkcaz ∷ [])))
    × IsWrapped
        (build_message (an_auth ∷ []) false "0" 1 (hkcaz ∷ []))
        (build_message (an_auth ∷ []) true "0" 1 (hkcaz ∷ []))
build_message-numbered_example = build_message-numbered (an_auth ∷ []) "0" 1 (hkcaz ∷ [])

-- Bank parameters that ask a TAN for HKCAZ and know HITANS 6 and 7.
abbrev parameter_segments : Segments
parameter_segments = of_list (
    plain_segment "HIPINS" 1 (hipins1 (("HKCAZ", true) ∷ ("HKSAL", false) ∷ []))
    ∷ plain_segment "HITANS" 6 (other none)
    ∷ plain_segment "HITANS" 7 (other none)
    ∷ [])

abbrev a_store : ParameterStore
a_store = record empty_store {
  bpd = record { version = 78; bank_name = none; segments = parameter_segments; bpa = none };
}

abbrev business : List Segment
business = hkcaz ∷ plain_segment "HKSAL" 7 (other none) ∷ []

-- An answer with HIBPA 79 and one of its segments.
abbrev an_answer : Processed
an_answer = process (
    of_list (plain_segment "HIBPA" 3 (hibpa3 79 none) ∷ plain_segment "HITANS" 7 (other none) ∷ []))

update_all_newest_example :
    (((update_all a_store (an_answer ∷ [])).bpd ≡ a_store.bpd)
      ⊎ BringsBpd (update_all a_store (an_answer ∷ [])).bpd (an_answer ∷ []))
    × (((update_all a_store (an_answer ∷ [])).upd ≡ a_store.upd)
        ⊎ BringsUpd (update_all a_store (an_answer ∷ [])).upd (an_answer ∷ []))
    × (a_store.bpd.version ≤ (update_all a_store (an_answer ∷ [])).bpd.version)
    × (a_store.upd.version ≤ (update_all a_store (an_answer ∷ [])).upd.version)
    × OffersAtMost (update_all a_store (an_answer ∷ [])) (an_answer ∷ [])
update_all_newest_example = update_all_newest a_store (an_answer ∷ [])
