-- ===== src/Gateway/Connector/Sound.antt =====
-- What the commands rely on in the connector: its results pass their validators, and what it returns of a
-- pending operation can be resumed as the operation that it is.
pub mod Resume
use Prim.Native.String.{◌++◌ as text_append}
use text.Mathlib.TextPositions.{starts_with-append}
use geldstrom.Prelude.{
  ℕ, ◌+◌, ◌≡◌, ◌≢◌, refl, sym, ap, Bool, true, false, List, [], ◌∷◌, Option, none, some, String,
  str_eq, eq_iff, starts_with, ◌∙◌, ◌||◌, ◌>>=◌, Outcome, ok, raised, arith, Bool-cases, inl, inr,
}
use geldstrom.Dialog.{Connection}
use geldstrom.Clients.{GatewayCredentials, World, ConnectionContext}
use geldstrom.Clients.Connect.{create_session_state}
use geldstrom.Clients.Fetching.{Account, TransactionFeed, TanMethodInfo, Operations}
use geldstrom.Clients.Fints3.{
  Client, PendingTan, CallRaise, awaiting, nothing_pending, call_failed, OperationMeta, of_account,
}
use geldstrom.Clients.Fints3
use geldstrom.Clients.Decoupled
use geldstrom.Clients.Decoupled.{storing}
use geldstrom.Clients.Decoupled.Polling.{
  DecoupledSessionSnapshot, Formats, snapshot_pending, snapshot_taken,
}
use geldstrom.Gateway.{DomainError, is_pending, pending_confirmation, validate_connector_result}
use geldstrom.Gateway.Dict.{str_eq-false}
use geldstrom.Gateway.Poll.{PollOperationInput}
use geldstrom.Gateway.Fetch.{FetchResult, TanMethod}
use geldstrom.Gateway.Fetch.Opens.{IsSound}
use geldstrom.Gateway.Connector
use geldstrom.Gateway.Connector.{
  FinTsInstitute, ConnectorRaise, blank_method, to_tan_methods, completed_with, invalid_result,
  client_raised, Mapping, detaching, valid_fetch, pending_result, completed_result, credentials_at,
  no_account, with_client, snapshot_result, fetched, patched, patched_result, transactions_pending,
  transactions_fetched, of_found, in_accounts, build_gateway_credentials, find_account_by_iban,
  fresh_client,
}

-- The reason is not empty.
reason_given : (iban : String) → str_eq (text_append "No account found for IBAN " iban) "" ≡ false
reason_given iban = str_eq-false _ _ (λ e.
    let blank : starts_with "" "No account found for IBAN " ≡ true =
      sym (ap (λ t. starts_with t "No account found for IBAN ") e)
      ∙ starts_with-append "No account found for IBAN " iban in
    cc blank)

-- A snapshot is written as a text that is not empty, and is read back from it with its type.
pub record IsReadable (formats : Formats) : Type 0 where
  pub not_empty : (s : DecoupledSessionSnapshot) → str_eq (formats.serialize_snapshot s) "" ≡ false
  pub read_back :
      (s : DecoupledSessionSnapshot)
      → (s' : DecoupledSessionSnapshot) × (formats.deserialize_snapshot
            (formats.serialize_snapshot s)
          ≡ some s')
        × (s'.operation_type ≡ s.operation_type)

-- The text is a snapshot of an operation of this type.
pub record IsSnapshotOf (formats : Formats) (operation_type bytes : String) : Type 0 where
  pub read : DecoupledSessionSnapshot
  pub reads : formats.deserialize_snapshot bytes ≡ some read
  pub of_type : read.operation_type ≡ operation_type
  pub nonempty : str_eq bytes "" ≡ false

module _ (c : Connection) (formats : Formats) (laws : IsReadable formats) (reference : String)
    (operations : Operations c) (mapping : Mapping) (product_key product_version : String)
    (now : ℕ) where
  open c use {Link}

  -- What a call for a type of operation may raise: nothing of a result's validator, and for a blank TAN
  -- method only where TAN methods are asked for.
  abbrev pub IsRaise : String → ConnectorRaise → Type 0
  IsRaise operation_type (invalid_result d) = ⊥
  IsRaise operation_type blank_method = operation_type ≡ "tan_methods"
  IsRaise operation_type e = Unit

  abbrev Raises : {A : Type 0} → String → Outcome ConnectorRaise A → Type 0
  Raises operation_type (ok a) = Unit
  Raises operation_type (raised e) = IsRaise operation_type e

  -- A result that is sound, and whose state is a snapshot of this type where it is pending; or a raise
  -- that the call may make.
  abbrev pub IsResult :
      {A : Type 0} → String → Outcome ConnectorRaise (FetchResult A) × World Link → Type 0
  IsResult operation_type (ok r, w) =
      IsSound now r
      × (is_pending r.status ≡ true → IsSnapshotOf formats operation_type r.session_state)
  IsResult operation_type (raised e, w) = IsRaise operation_type e

  pending-IsResult :
      (A : Type 0) (operation_type bytes : String) (w : World Link)
      → IsSnapshotOf formats operation_type bytes
      → IsResult {A = A} operation_type (valid_fetch (pending_result now bytes), w)
  unfolding validate_connector_result IsSound
  pending-IsResult A operation_type bytes w s = simp s.nonempty ((refl, omega arith), λ p. s)

  completed-IsResult :
      {A : Type 0} (operation_type : String) (items : List A) (w : World Link)
      → IsResult operation_type (valid_fetch (completed_result items), w)
  unfolding validate_connector_result IsSound
  completed-IsResult operation_type items w = ((refl, tt), λ p. cc)

  no_account-IsResult :
      (operation_type iban : String) (w : World Link)
      → IsResult operation_type (
        valid_fetch (
            no_account c formats reference operations mapping product_key product_version now iban),
        w,
      )
  unfolding validate_connector_result IsSound
  no_account-IsResult operation_type iban w = simp (reason_given iban) ((refl, tt), λ p. cc)

  pub written :
      (s : DecoupledSessionSnapshot)
      → IsSnapshotOf formats s.operation_type (formats.serialize_snapshot s)
  written s = record {
    read = (laws.read_back s).0;
    reads = (laws.read_back s).1;
    of_type = (laws.read_back s).2;
    nonempty = laws.not_empty s;
  }

  completed_with-IsResult :
      {B : Type 0} (operation_type : String) (o : Outcome ConnectorRaise (List B)) (w : World Link)
      → Raises operation_type o
      → IsResult operation_type (
          completed_with c formats reference operations mapping product_key product_version now o w)
  completed_with-IsResult operation_type (ok items) w h = completed-IsResult operation_type items w
  completed_with-IsResult operation_type (raised e) w h = h

  -- A method whose challenge is kept under its type.
  fetched-IsResult :
      {A B : Type 0} (creds : GatewayCredentials) (f : A → Outcome ConnectorRaise (List B))
      (operation_type : String) (meta : Client → OperationMeta)
      (r : Outcome CallRaise A × Client × World Link)
      → ((a : A) → Raises operation_type (f a))
      → IsResult operation_type (
          fetched c formats reference operations mapping product_key product_version now creds f (
            storing c formats.blobs creds reference
              (some detaching)
              operations
              operation_type
              meta
              r))
  unfolding snapshot_pending create_session_state
  fetched-IsResult creds f operation_type meta (ok a, client, w) h =
      completed_with-IsResult operation_type (f a) w (h a)
  fetched-IsResult {B = B} creds f operation_type meta
        (raised (awaiting ctx challenge t), client, w) h =
      pending-IsResult B operation_type _ _ (written _)
  fetched-IsResult creds f operation_type meta (raised nothing_pending, client, w) h = tt
  fetched-IsResult creds f operation_type meta (raised (call_failed e), client, w) h = tt

  -- A snapshot that is patched unless it is of transactions.
  patched-IsResult :
      (iban : String) (start end_date : ℕ) (raw : String) (o : Option DecoupledSessionSnapshot)
      (w : World Link)
      → formats.deserialize_snapshot raw ≡ o
      → str_eq raw "" ≡ false
      → IsResult "transactions" (
          patched_result c formats reference operations mapping product_key product_version now
            (patched c formats reference operations mapping product_key product_version now iban
              start end_date raw o)
            w)
  patched-IsResult iban start end_date raw none w e given = tt
  patched-IsResult iban start end_date raw (some s) w e given =
      elim (Bool-cases (str_eq s.operation_type "transactions")) [
        | inl same ↦ simp same (
            pending-IsResult String "transactions" raw w
              (record { read = s; reads = e; of_type = (eq_iff _ _).0 same; nonempty = given }))
        | inr other ↦ simp other (pending-IsResult String "transactions" _ w (written _))
      ]

  -- By what the client has pending.
  taken-IsResult :
      (creds : GatewayCredentials) (iban : String) (start end_date : ℕ) (o : Option PendingTan)
      (client : Client) (w : World Link)
      → IsResult "transactions" (
          transactions_pending c formats reference operations mapping product_key product_version
            now iban start end_date
            (snapshot_taken c formats creds reference operations o client w))
  taken-IsResult creds iban start end_date none client w = tt
  taken-IsResult creds iban start end_date (some p) client w =
      patched-IsResult iban start end_date _ _ _ refl (laws.not_empty _)

  transactions_fetched-IsResult :
      (creds : GatewayCredentials) (iban : String) (start end_date : ℕ)
      (r : Outcome CallRaise TransactionFeed × Client × World Link)
      → IsResult "transactions" (
          transactions_fetched c formats reference operations mapping product_key product_version
            now creds iban start end_date r)
  unfolding snapshot_pending
  transactions_fetched-IsResult creds iban start end_date (ok feed, client, w) =
      completed-IsResult "transactions" _ w
  transactions_fetched-IsResult creds iban start end_date
        (raised (awaiting ctx challenge t), client, w) =
      taken-IsResult creds iban start end_date client.pending client w
  transactions_fetched-IsResult creds iban start end_date (raised nothing_pending, client, w) = tt
  transactions_fetched-IsResult creds iban start end_date (raised (call_failed e), client, w) = tt

  of_found-IsResult :
      (creds : GatewayCredentials) (iban : String) (start end_date : ℕ) (o : Option Account)
      (client : Client) (w : World Link)
      → IsResult "transactions" (
          of_found c formats reference operations mapping product_key product_version now creds iban
            start end_date o client w)
  of_found-IsResult creds iban start end_date none client w =
      no_account-IsResult "transactions" iban w
  of_found-IsResult creds iban start end_date (some account) client w =
      transactions_fetched-IsResult creds iban start end_date _

  in_accounts-IsResult :
      (creds : GatewayCredentials) (iban : String) (start end_date : ℕ)
      (r : Outcome CallRaise (List Account) × Client × World Link)
      → IsResult "transactions" (
          in_accounts c formats reference operations mapping product_key product_version now creds
            iban start end_date r)
  unfolding snapshot_pending
  in_accounts-IsResult creds iban start end_date (ok listed, client, w) =
      of_found-IsResult creds iban start end_date _ client w
  in_accounts-IsResult creds iban start end_date (raised (awaiting ctx challenge t), client, w) =
      taken-IsResult creds iban start end_date client.pending client w
  in_accounts-IsResult creds iban start end_date (raised nothing_pending, client, w) = tt
  in_accounts-IsResult creds iban start end_date (raised (call_failed e), client, w) = tt

  with_client-IsResult :
      {A : Type 0} (operation_type : String)
      (call : GatewayCredentials → World Link → Outcome ConnectorRaise (FetchResult A) × World Link)
      (r : Outcome ConnectorRaise GatewayCredentials) (w : World Link)
      → Raises operation_type r
      → ((creds : GatewayCredentials) → IsResult operation_type (call creds w))
      → IsResult operation_type (
          with_client c formats reference operations mapping product_key product_version now call r
            w)
  with_client-IsResult operation_type call (raised e) w may h = may
  with_client-IsResult operation_type call (ok creds) w may h = h creds

  credentials-Raises :
      (operation_type blz : String) (access : PollOperationInput) (url : Option String)
      → Raises operation_type (
          credentials_at c formats reference operations mapping product_key product_version now blz
            access url)
  credentials-Raises operation_type blz access none = tt
  credentials-Raises operation_type blz access (some url) =
      elim (Bool-cases (starts_with url "https://")) [ inl e ↦ rw e tt | inr e ↦ rw e tt ]

  pub methods-Raises : (ts : List TanMethodInfo) → Raises "tan_methods" (to_tan_methods mapping ts)
  unfolding to_tan_methods
  methods-Raises [] = tt
  methods-Raises (t ∷ ts) = elim (Bool-cases (mapping.is_blank t.code || mapping.is_blank t.name)) [
    | inl blank ↦ rw blank refl
    | inr given ↦ rw given (behind _ (to_tan_methods mapping ts) (methods-Raises ts))
  ]
    where
      behind :
          (method : TanMethod) (o : Outcome ConnectorRaise (List TanMethod))
          → Raises "tan_methods" o
          → Raises "tan_methods" (o >>= λ methods. ok (method ∷ methods))
      behind method (ok methods) h = tt
      behind method (raised e) h = h

  -- With snapshots whose texts are not empty and are read back with their type, whatever the bank
  -- answers, each of the four calls of the connector returns a result that passes its validator and whose time lies ahead,
  -- and where it is pending its state is read as a snapshot of the call's type of operation; or it
  -- raises, but never for the validator of a result, and for a blank id or name of a TAN method only in
  -- the call for these.
  pub calls-IsResult :
      (institute : FinTsInstitute) (access : PollOperationInput) (iban : List ℕ)
      (start end_date : ℕ) (w : World Link)
      → IsResult "accounts" (
          Connector.list_accounts c formats reference operations mapping product_key product_version
            now institute access w)
        × IsResult "balances" (
            Connector.get_balances c formats reference operations mapping product_key
              product_version now institute access w)
        × IsResult "tan_methods" (
            Connector.get_tan_methods c formats reference operations mapping product_key
              product_version now institute access w)
        × IsResult "transactions" (
            Connector.fetch_transactions c formats reference operations mapping product_key
              product_version now institute access iban start end_date w)
  unfolding Connector.list_accounts Connector.get_balances Connector.get_tan_methods
      Connector.fetch_transactions Decoupled.list_accounts Decoupled.get_balances
      Decoupled.get_tan_methods build_gateway_credentials
  calls-IsResult institute access iban start end_date w =
      let may = λ (t : String). credentials-Raises t institute.blz access institute.pin_tan_url in
      (
        with_client-IsResult "accounts" _ _ w (may "accounts") (λ creds.
            fetched-IsResult {A = List Account} {B = String} creds
              (λ listed. ok (Connector.each mapping.to_account_dict listed)) "accounts"
              Decoupled.plain_meta _ (λ a. tt)),
        with_client-IsResult "balances" _ _ w (may "balances") (λ creds.
            fetched-IsResult {A = List String} {B = String} creds
              (λ listed. ok (Connector.each mapping.to_balance_dict listed)) "balances" _ _
              (λ a. tt)),
        with_client-IsResult "tan_methods" _ _ w (may "tan_methods")
            (λ creds. fetched-IsResult creds _ "tan_methods" _ _ methods-Raises),
        with_client-IsResult "transactions" _ _ w (may "transactions") (λ creds.
            in_accounts-IsResult creds (mapping.iban_text iban) start end_date (
              Decoupled.list_accounts c formats.blobs creds reference (some detaching) operations
                fresh_client w)),
      )
