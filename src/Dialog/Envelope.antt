-- ===== src/Dialog/Envelope.antt =====
-- `_build_message` and `_create_message_with_header` of fints/dialog/core.py, with the signing and the
-- PIN/TAN envelope of fints/dialog/security.py.
use geldstrom.Prelude.{ℕ, Bool, List, [], ◌∷◌, ◌++◌, none, String, if◌then◌else◌}
use geldstrom.Segments.{
  Body, hnhbk3, hnhbs1, hnshk4, hnsha2, hnvsk3, hnvsd1, Segment, segment, nil, of_list,
}
use geldstrom.Segments.Message.{Message, append, append_all, empty_message}
use mathlib.Core.List.{map, reverse}

-- A new segment: its number is given when it joins a message.
abbrev pub plain_segment : String → ℕ → Body → Segment
plain_segment type version b =
    segment (record { type = type; number = 0; version = version; reference = none }) b nil

-- `StandaloneAuthenticationMechanism`, with the reference that the random source gives for the
-- message. The TAN provider is not used by the dialogs that the client builds.
pub record Auth : Type 0 where
  pub security_function : String
  pub pin : String
  pub security_reference : String

-- What `sign_prepare` and `sign_commit` add.
abbrev pub signature_head : Auth → Segment
signature_head a = plain_segment "HNSHK" 4 (hnshk4 a.security_function a.security_reference)

abbrev pub signature_end : Auth → Segment
signature_end a = plain_segment "HNSHA" 2 (hnsha2 a.security_reference a.pin)

abbrev pub message_head : String → ℕ → Segment
message_head dialog_id message_number = plain_segment "HNHBK" 3 (hnhbk3 dialog_id message_number)

abbrev pub message_end : ℕ → Segment
message_end message_number = plain_segment "HNHBS" 1 (hnhbs1 message_number)

-- message.segments[1:-1], given the segments behind the first
unfoldable pub but_last : List Segment → List Segment
but_last [] = []
but_last (s ∷ []) = []
but_last (s ∷ t ∷ ss) = s ∷ but_last (t ∷ ss)

unfoldable pub last : List Segment → List Segment
last [] = []
last (s ∷ []) = s ∷ []
last (s ∷ t ∷ ss) = last (t ∷ ss)

-- `StandaloneEncryptionMechanism.encrypt`: nothing is encrypted, the inner segments are wrapped.
unfoldable pub encrypt : List Segment → List Segment
unfolding but_last last
encrypt [] = []
encrypt (s ∷ ss) =
    s
    ∷ segment (record { type = "HNVSK"; number = 998; version = 3; reference = none }) hnvsk3 nil
    ∷ segment (record { type = "HNVSD"; number = 999; version = 1; reference = none }) hnvsd1
        (of_list (but_last ss))
    ∷ last ss

-- The segments of a message in the order in which they join it.
abbrev pub joining : List Auth → String → ℕ → List Segment → List Segment
joining auths dialog_id message_number segments =
    message_head dialog_id message_number
    ∷ (map signature_head auths
        ++ (segments ++ (map signature_end (reverse auths) ++ message_end message_number ∷ [])))

unfoldable pub plain_message : List Auth → String → ℕ → List Segment → Message
unfolding append append_all
plain_message auths dialog_id message_number segments =
    let opened = append empty_message (message_head dialog_id message_number) in
    let prepared = append_all opened (map signature_head auths) in
    let filled = append_all prepared segments in
    let signed = append_all filled (map signature_end (reverse auths)) in
    append signed (message_end message_number)

-- The `message_size` of the header is not modelled.
unfoldable pub build_message : List Auth → Bool → String → ℕ → List Segment → List Segment
unfolding plain_message encrypt
build_message auths encrypts dialog_id message_number segments =
    let plain = (plain_message auths dialog_id message_number segments).segments in
    if encrypts then encrypt plain else plain
