-- ===== src/Parameters.antt =====
-- `BankParameters`, `UserParameters` and `ParameterStore.update_from_response` of
-- fints/protocol/parameters.py.
pub mod Versions
use geldstrom.Prelude.{ℕ, Bool, true, false, ◌&&◌, Option, none, some, String, leb, if◌then◌else◌}
use geldstrom.Segments.{Body, hibpa3, Segment, segment, Segments, nil}
use geldstrom.Responses.{Processed}

pub record BankParameters : Type 0 where
  pub version : ℕ
  pub bank_name : Option String
  pub segments : Segments
  pub bpa : Option Segment

pub record UserParameters : Type 0 where
  pub version : ℕ
  pub segments : Segments
  pub upa : Option Segment

pub record ParameterStore : Type 0 where
  pub bpd : BankParameters
  pub upd : UserParameters

abbrev pub empty_store : ParameterStore
empty_store = record {
  bpd = record { version = 0; bank_name = none; segments = nil; bpa = none };
  upd = record { version = 0; segments = nil; upa = none };
}

-- bpa.bank_name if bpa and hasattr(bpa, "bank_name") else None
abbrev pub bank_name_of : Option Segment → Option String
bank_name_of (some (segment h (hibpa3 v name) inner)) = name
bank_name_of _ = none

unfoldable pub update_bpd :
    BankParameters → Option Segment → Option ℕ → Option Segments → BankParameters
update_bpd bpd bpa (some version) (some segments) =
    if leb bpd.version version
    then record { version = version; bank_name = bank_name_of bpa; segments = segments; bpa = bpa }
    else bpd
update_bpd bpd bpa _ _ = bpd

unfoldable pub update_upd :
    UserParameters → Option Segment → Option ℕ → Option Segments → UserParameters
update_upd upd upa (some version) (some segments) =
    if leb upd.version version
    then record { version = version; segments = segments; upa = upa }
    else upd
update_upd upd upa _ _ = upd

unfoldable pub update_from_response : ParameterStore → Processed → ParameterStore
unfolding update_bpd update_upd
update_from_response store p = record {
  bpd = update_bpd store.bpd p.bpa p.bpd_version p.bpd_segments;
  upd = update_upd store.upd p.upa p.upd_version p.upd_segments;
}
