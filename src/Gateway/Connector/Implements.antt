-- ===== src/Gateway/Connector/Implements.antt =====
-- The connector as the interface that the commands take.
use geldstrom.Prelude.{[], String, Bool, Outcome, ok, raised}
use geldstrom.Dialog.{Connection}
use geldstrom.Clients.{World}
use geldstrom.Clients.Fetching.{Operations}
use geldstrom.Clients.Decoupled.Polling.{Formats}
use geldstrom.Gateway.Poll.{Services, PollRaise, connector_failed}
use geldstrom.Gateway.Fetch.{BankingConnector, FetchResult}
use geldstrom.Gateway.Fetch.Opens.{IsSoundConnector, SoundReply}
use geldstrom.Gateway.Connector
use geldstrom.Gateway.Connector.{FinTsInstitute, ConnectorRaise, Mapping}
use geldstrom.Gateway.Connector.Sound.{IsReadable, IsResult, calls-IsResult}

module _ (services : Services) (fints_institute : services.Institute → FinTsInstitute)
    (c : Connection) (formats : Formats) (reference : String) (operations : Operations c)
    (mapping : Mapping) (product_key product_version : String) where
  open c use {Link}

  -- A command that gets an exception of the connector ends with it.
  abbrev as_reply : {A : Type 0} → Outcome ConnectorRaise A × World Link → Outcome PollRaise A
  as_reply (ok a, w) = ok a
  as_reply (raised e, w) = raised connector_failed

  -- The connector's calls at a state of the connections, at the time of the gateway.
  pub connector_at : World Link → BankingConnector services.Institute
  connector_at w = record {
    list_accounts_at = λ access i. as_reply (
        Connector.list_accounts c formats reference operations mapping product_key product_version
          services.now (fints_institute i) access w);
    get_balances_at = λ access i. as_reply (
        Connector.get_balances c formats reference operations mapping product_key product_version
          services.now (fints_institute i) access w);
    get_tan_methods_at = λ access i. as_reply (
        Connector.get_tan_methods c formats reference operations mapping product_key product_version
          services.now (fints_institute i) access w);
    fetch_transactions_at = λ access i iban start end_date. as_reply (
        Connector.fetch_transactions c formats reference operations mapping product_key
          product_version services.now (fints_institute i) access iban start end_date w);
  }

  module _ (laws : IsReadable formats) (is_blank : String → Bool) (new_operation_id : String) where
    reply-Sound :
        {A : Type 0} (operation_type : String)
        (r : Outcome ConnectorRaise (FetchResult A) × World Link)
        → IsResult c formats laws reference operations mapping product_key product_version
            services.now operation_type r
        → SoundReply services is_blank new_operation_id (as_reply r)
    reply-Sound operation_type (ok a, w) h = h.0
    reply-Sound operation_type (raised e, w) h = tt

    -- With snapshots whose texts are not empty and are read back with their type, the connector, at any
    -- state of its connections and whatever the bank answers, keeps what the four commands rely on: every reply
    -- passes the validator of its model, and its time lies ahead.
    pub connector_at-IsSound :
        (w : World Link) → IsSoundConnector services is_blank new_operation_id (connector_at w)
    unfolding connector_at
    connector_at-IsSound w = record {
      sound_accounts = λ a i.
          reply-Sound "accounts" _
            (calls-IsResult c formats laws reference operations mapping product_key product_version
              services.now (fints_institute i) a [] 1 1 w).0;
      sound_balances = λ a i.
          reply-Sound "balances" _
            (calls-IsResult c formats laws reference operations mapping product_key product_version
              services.now (fints_institute i) a [] 1 1 w).1;
      sound_tan_methods = λ a i.
          reply-Sound "tan_methods" _
            (calls-IsResult c formats laws reference operations mapping product_key product_version
              services.now (fints_institute i) a [] 1 1 w).2;
      sound_transactions = λ a i iban start end_date.
          reply-Sound "transactions" _
            (calls-IsResult c formats laws reference operations mapping product_key product_version
              services.now (fints_institute i) a iban start end_date w).3;
    }
