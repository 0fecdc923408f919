-- ===== src/Clients.antt =====
-- packages/geldstrom: the clients, from the connection of one dialog up. What they take from the services
-- and from the store of parameters is a parameter.
pub mod Connect
pub mod Fetching
pub mod Fints3
pub mod Decoupled
use geldstrom.Prelude.{
  ℕ, ◌+◌, Bool, true, false, not, List, [], ◌∷◌, Option, none, some, String, str_eq, ◌==◌,
  if◌then◌else◌, Outcome, ok, raised,
}
use geldstrom.Segments.{Segment}
use geldstrom.Parameters.{ParameterStore, empty_store}
use geldstrom.Dialog.{Dialog, DialogRaise}

-- `GatewayCredentials`, with the fields of its `BankRoute` and `BankCredentials`; the TAN medium is
-- only logged.
pub record GatewayCredentials : Type 0 where
  pub country_code : String
  pub bank_code : String
  pub server_url : String
  pub user_id : String
  pub pin : String
  pub customer_id : Option String
  pub tan_method : Option String
  pub product_id : String
  pub product_version : String

-- `FinTsSessionState`, without the time of its creation.
pub record FinTsSessionState : Type 0 where
  pub country_code : String
  pub bank_code : String
  pub user_id : String
  pub system_id : String
  pub client_blob : String
  pub bpd_version : Option ℕ
  pub upd_version : Option ℕ

-- What the clients' calls may raise: what a dialog raises; `ValueError` for an answer without a system
-- id, an account that the bank does not have, or data that cannot be read; and any other error.
pub data ClientRaise : Type 0 where
  dialog_raise : DialogRaise → ClientRaise
  no_system_id unknown_account unreadable_data : ClientRaise
  unsupported other_error : ClientRaise

-- compress_datablob and decompress_datablob, on the parameters' dictionary with the system id; none
-- where anything is raised on the way back.
pub record BlobCodec : Type 0 where
  pub compress : ParameterStore → String → String
  pub decompress : String → Option ParameterStore

-- The connections of the process: those that are open, by number, and the number of the next.
pub record World (Link : Type 0) : Type 0 where
  pub link : Link
  pub live : List ℕ
  pub next : ℕ

abbrev pub without : ℕ → List ℕ → List ℕ
without i [] = []
without i (j ∷ js) = let rest = without i js in if i == j then rest else j ∷ rest

module _ {Link : Type 0} where
  -- HTTPSDialogConnection(config)
  abbrev pub open_connection : World Link → ℕ × World Link
  open_connection w = (w.next, record w { live = w.next ∷ w.live; next = w.next + 1 })

  -- connection.close()
  abbrev pub close_connection : ℕ → World Link → World Link
  close_connection i w = record w { live = without i w.live }

  abbrev pub at_link : Link → World Link → World Link
  at_link l w = record w { link = l }

-- `ConnectionContext`: its parameters are those of its dialog, the same object.
pub record ConnectionContext : Type 0 where
  pub dialog : Dialog
  pub system_id : String
  pub server_url : String
  pub connection : ℕ

-- What a `with` block over a connection raises: `DecoupledTANPending`, which takes the context with
-- it, or anything else.
pub data ConnectRaise : Type 0 where
  tan_waits : ConnectionContext → Segment → String → ConnectRaise
  failed : ClientRaise → ConnectRaise

-- `COUNTRY_ALPHA_TO_NUMERIC`
abbrev pub country_alpha_to_numeric : List (String × String)
country_alpha_to_numeric =
    ("BE", "056")
    ∷ ("BG", "100")
    ∷ ("DK", "208")
    ∷ ("DE", "280")
    ∷ ("FI", "246")
    ∷ ("FR", "250")
    ∷ ("GR", "300")
    ∷ ("GB", "826")
    ∷ ("IE", "372")
    ∷ ("IS", "352")
    ∷ ("IT", "380")
    ∷ ("JP", "392")
    ∷ ("CA", "124")
    ∷ ("HR", "191")
    ∷ ("LI", "438")
    ∷ ("LU", "442")
    ∷ ("NL", "528")
    ∷ ("AT", "040")
    ∷ ("PL", "616")
    ∷ ("PT", "620")
    ∷ ("RO", "642")
    ∷ ("RU", "643")
    ∷ ("SE", "752")
    ∷ ("CH", "756")
    ∷ ("SK", "703")
    ∷ ("SI", "705")
    ∷ ("ES", "724")
    ∷ ("CZ", "203")
    ∷ ("TR", "792")
    ∷ ("HU", "348")
    ∷ ("US", "840")
    ∷ ("EU", "978")
    ∷ []

unfoldable pub lookup_or : String → String → List (String × String) → String
lookup_or key default [] = default
lookup_or key default ((k, v) ∷ rest) = if str_eq k key then v else lookup_or key default rest

-- `a or b`, of an optional text
abbrev pub or_text : Option String → String → String
or_text none t = t
or_text (some s) t = if str_eq s "" then t else s
