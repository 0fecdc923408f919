-- ===== src/Segments.antt =====
-- Parsed segments, sequences of them and the searches in them: `SegmentHeader`, `FinTSSegment` and
-- `SegmentSequence` of fints/protocol/base.py, and `FinTSMessage` of fints/dialog/message.py.
pub mod Message
pub mod Numbering
use geldstrom.Prelude.{
  ℕ, Bool, List, [], ◌∷◌, ◌++◌, Option, none, some, String, str_eq, if◌then◌else◌,
}

pub record Header : Type 0 where
  pub type : String
  pub number : ℕ
  pub version : ℕ
  pub reference : Option ℕ

-- `Response` of fints/protocol/formals/responses.py
pub record Entry : Type 0 where
  pub code : String
  pub text : String
  pub parameters : Option (List String)

-- `AccountInternationalSEPA`, with the code of its bank identifier.
pub record SpaAccount : Type 0 where
  pub is_sepa : Bool
  pub iban : String
  pub bic : String
  pub account_number : String
  pub subaccount_number : String
  pub bank_code : String

-- `HIUPD6`, the fields that are read: those of its account information where it has one, and the codes
-- of its allowed transactions.
pub record UpdAccount : Type 0 where
  pub account_number : Option String
  pub subaccount_number : Option String
  pub bank_identifier : Option String
  pub iban : Option String
  pub customer_id : Option String
  pub account_type : Option ℕ
  pub account_currency : Option String
  pub name_account_owner_1 : String
  pub name_account_owner_2 : Option String
  pub account_product_name : Option String
  pub allowed_transactions : Option (List String)

-- The segment classes that the dialog code tells apart, each with the fields that it reads; the
-- others are `other`, with the value that an operation takes from them.
pub data Body : Type 0 where
  hnhbk3 : String → ℕ → Body
  hirmg2 hirms2 : List Entry → Body
  hibpa3 : ℕ → Option String → Body
  hiupa4 : ℕ → Body
  hipins1 : List (String × Bool) → Body
  hitan : Option String → Body
  hktan : String → Option String → Option String → Body
  hkidn2 : Option String → String → String → Bool → Body
  hkvvb3 : ℕ → ℕ → String → String → String → Body
  hkend1 : String → Body
  hnshk4 hnsha2 : String → String → Body
  hnvsk3 hnvsd1 : Body
  hnhbs1 : ℕ → Body
  hksyn3 : ℕ → Body
  hisyn4 : Option String → Body
  hispa1 : List SpaAccount → Body
  hiupd6 : UpdAccount → Body
  other : Option String → Body

-- A segment, with the sequence that it holds: that of HNVSD, and none in the others.
mutual
  pub data Segment : Type 0 where
    segment : Header → Body → Segments → Segment

  pub data Segments : Type 0 where
    nil : Segments
    cons : Segment → Segments → Segments

abbrev pub header : Segment → Header
header (segment h b inner) = h

abbrev pub body : Segment → Body
body (segment h b inner) = b

abbrev pub of_list : List Segment → Segments
of_list [] = nil
of_list (s ∷ ss) = cons s (of_list ss)

abbrev pub to_list : Segments → List Segment
to_list nil = []
to_list (cons s ss) = s ∷ to_list ss

-- `find_segments`: what passes, in order, a segment before those that it holds, and those whether or
-- not it passes.
unfoldable mutual
  pub find_in : (Segment → Bool) → Segment → List Segment
  find_in matches (segment h b inner) =
      let nested = find_segments matches inner in
      if matches (segment h b inner) then segment h b inner ∷ nested else nested

  pub find_segments : (Segment → Bool) → Segments → List Segment
  find_segments matches nil = []
  find_segments matches (cons s ss) = find_in matches s ++ find_segments matches ss

-- A query by the type's name.
abbrev pub is_type : String → Segment → Bool
is_type query s = str_eq query (header s).type

abbrev pub first : List Segment → Option Segment
first [] = none
first (s ∷ ss) = some s

unfoldable pub find_segment_first : (Segment → Bool) → Segments → Option Segment
unfolding find_in find_segments
find_segment_first matches ss = first (find_segments matches ss)
