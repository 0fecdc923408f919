-- ===== src/Gateway/Connector/Sound/Resume.antt =====
-- A pending operation resumed from the state that the connector returned.
use mathlib.Core.Path.{subst}
use geldstrom.Prelude.{
  ℕ, ◌+◌, ◌≡◌, refl, sym, ap, ◌∙◌, ◌||◌, ◌>>=◌, Bool, true, false, List, [], ◌∷◌, Option, none,
  some, String, str_eq, starts_with, eq_iff, Outcome, ok, if◌then◌else◌, raised, Bool-cases, inl,
  inr,
}
use geldstrom.Responses.{Processed}
use geldstrom.Dialog.{Dialog, DialogRaise, Connection}
use geldstrom.Clients.{GatewayCredentials, ClientRaise, World, ConnectionContext}
use geldstrom.Clients.Fetching.{Operations, TanMethodInfo}
use geldstrom.Clients.Fints3.{Client, CallRaise}
use geldstrom.Clients.Decoupled.Completion.{
  Payload, account_list, feed_of, balance_of, balance_list, method_list, nothing,
}
use geldstrom.Clients.Decoupled.Polling.{
  DecoupledSessionSnapshot, PollResult, still_pending, approved, poll_failed, Formats, is_caught,
  resume_completed, polled_resumed, resumed, resume_valid, resume_read, resume_and_poll,
}
use geldstrom.Gateway.{
  OperationType, ResumeResult, is_pending, is_completed, pending_confirmation, failed,
  resume_checked, validate_connector_result, validate_resume,
}
use geldstrom.Gateway.Poll.{PollOperationInput}
use geldstrom.Gateway.Connector
use geldstrom.Gateway.Connector.{
  FinTsInstitute, ConnectorRaise, blank_method, to_tan_methods, method_dicts,
  approved_result_payload, completed_resume, invalid_result, unknown_operation_type, Mapping,
  operation_type_of, resume_result, typed, valid_resume, five_minutes, with_client,
  resume_operation, build_gateway_credentials, credentials_at, fresh_client,
}
use geldstrom.Gateway.Fetch.{TanMethod}
use geldstrom.Gateway.Connector.Sound.{IsReadable, IsSnapshotOf, written}

module _ (c : Connection) (formats : Formats) (laws : IsReadable formats) (reference : String)
    (operations : Operations c) (mapping : Mapping) (product_key product_version : String)
    (now : ℕ) where
  open c use {Link}

  -- What a poll of a snapshot of this type gives.
  abbrev Follows : String → PollResult → Type 0
  Follows t (still_pending none) = ⊥
  Follows t (still_pending (some bytes)) = IsSnapshotOf formats t bytes
  Follows t (approved none payload) = ⊥
  Follows t (approved (some t') payload) = t' ≡ t
  Follows t (poll_failed error) = Unit

  abbrev FollowsCall : String → Outcome CallRaise PollResult × Client × World Link → Type 0
  FollowsCall t (ok result, client, w) = Follows t result
  FollowsCall t (raised e, client, w) = Unit

  resume_completed-Follows :
      (creds : GatewayCredentials) (s : DecoupledSessionSnapshot) (ctx : ConnectionContext)
      (w : World Link) (r : Outcome ClientRaise Payload × Client × Dialog × Link)
      → FollowsCall s.operation_type
          (resume_completed c formats creds reference operations s ctx w r)
  resume_completed-Follows creds s ctx w (raised e, client, d, l) = tt
  resume_completed-Follows creds s ctx w (ok payload, client, d, l) = refl

  polled_resumed-Follows :
      (creds : GatewayCredentials) (client : Client) (s : DecoupledSessionSnapshot)
      (ctx : ConnectionContext) (w : World Link)
      (r : Outcome DialogRaise (Option Processed) × Dialog × Link)
      → FollowsCall s.operation_type
          (polled_resumed c formats creds reference operations client s ctx w r)
  polled_resumed-Follows creds client s ctx w (raised e, d, l) = elim (Bool-cases (is_caught e)) [
    | inl caught ↦ simp caught tt
    | inr out ↦ simp out tt
  ]
  polled_resumed-Follows creds client s ctx w (ok none, d, l) =
      written c formats laws reference operations mapping product_key product_version now _
  polled_resumed-Follows creds client s ctx w (ok (some response), d, l) =
      resume_completed-Follows creds s ctx w _

  resumed-Follows :
      (creds : GatewayCredentials) (client : Client) (s : DecoupledSessionSnapshot)
      (r : Outcome ClientRaise ConnectionContext × World Link)
      → FollowsCall s.operation_type (resumed c formats creds reference operations client s r)
  resumed-Follows creds client s (raised e, w) = tt
  resumed-Follows creds client s (ok ctx, w) = polled_resumed-Follows creds client s ctx w _

  resume_valid-Follows :
      (creds : GatewayCredentials) (client : Client) (w : World Link) (b : Bool)
      (s : DecoupledSessionSnapshot)
      → FollowsCall s.operation_type
          (resume_valid c formats creds reference operations b client w s)
  resume_valid-Follows creds client w false s = tt
  resume_valid-Follows creds client w true s = resumed-Follows creds client s _

  resume_read-Follows :
      (creds : GatewayCredentials) (client : Client) (t : String) (w : World Link)
      (o : Option DecoupledSessionSnapshot)
      → ((s : DecoupledSessionSnapshot) → o ≡ some s → s.operation_type ≡ t)
      → FollowsCall t (resume_read c formats creds reference operations client w o)
  resume_read-Follows creds client t w none h = tt
  resume_read-Follows creds client t w (some s) h =
      subst
        (λ t. FollowsCall t (resume_read c formats creds reference operations client w (some s)))
        (h s refl) (resume_valid-Follows creds client w (formats.is_dialog s.dialog_snapshot) s)

  abbrev pending_resume : String → ResumeResult
  pending_resume bytes = record {
    status = pending_confirmation;
    operation_type = none;
    session_state = bytes;
    result_payload = none;
    expires_at = some (now + five_minutes);
    failure_reason = none;
  }

  abbrev reason_of : String → String
  reason_of error = if str_eq error "" then "Unknown error during TAN poll" else error

  abbrev failed_resume : String → ResumeResult
  failed_resume reason = record {
    status = failed;
    operation_type = none;
    session_state = "";
    result_payload = none;
    expires_at = none;
    failure_reason = some reason;
  }

  -- What is raised: nothing of a result's validator or of the type, and for a blank TAN method only where
  -- the operation asks for these.
  abbrev pub IsResumeRaise : String → ConnectorRaise → Type 0
  IsResumeRaise t (invalid_result d) = ⊥
  IsResumeRaise t unknown_operation_type = ⊥
  IsResumeRaise t blank_method = t ≡ "tan_methods"
  IsResumeRaise t e = Unit

  -- A result that passes its validator, is pending with a snapshot of this type, complete with this
  -- type, or failed; or a raise that it may make.
  abbrev pub IsResumed : String → Outcome ConnectorRaise ResumeResult → Type 0
  IsResumed t (ok r) =
      (validate_resume r ≡ ok tt)
      × (is_pending r.status ≡ true → IsSnapshotOf formats t r.session_state)
      × (is_completed r.status ≡ true → r.operation_type ≡ operation_type_of t)
  IsResumed t (raised e) = IsResumeRaise t e

  known-given :
      (t : String) (k : OperationType) → operation_type_of t ≡ some k → str_eq t "" ≡ false
  unfolding operation_type_of
  known-given t k h = elim (Bool-cases (str_eq t "")) [
    | inr e ↦ e
    | inl e ↦
        let blank : t ≡ "" = (eq_iff t "").0 e in
        let none_known : operation_type_of "" ≡ some k = ap operation_type_of (sym blank) ∙ h in
        cc none_known
  ]

  -- A payload raises for a blank TAN method, where methods are asked for, and nothing else.
  abbrev IsPayload : {A : Type 0} → String → Outcome ConnectorRaise A → Type 0
  IsPayload t (ok payload) = Unit
  IsPayload t (raised e) = (e ≡ blank_method) × (t ≡ "tan_methods")

  if-IsPayload :
      (t : String) (b : Bool) (o o' : Outcome ConnectorRaise String)
      → (b ≡ true → IsPayload t o)
      → IsPayload t o'
      → IsPayload t (if b then o else o')
  if-IsPayload t true o o' h h' = h refl
  if-IsPayload t false o o' h h' = h'

  methods-IsPayload :
      (ts : List TanMethodInfo) → IsPayload "tan_methods" (to_tan_methods mapping ts)
  unfolding to_tan_methods
  methods-IsPayload [] = tt
  methods-IsPayload (t ∷ ts) =
      elim (Bool-cases (mapping.is_blank t.code || mapping.is_blank t.name)) [
        | inl blank ↦ rw blank (refl, refl)
        | inr given ↦ rw given (behind _ (to_tan_methods mapping ts) (methods-IsPayload ts))
      ]
    where
      behind :
          (method : TanMethod) (o : Outcome ConnectorRaise (List TanMethod))
          → IsPayload "tan_methods" o
          → IsPayload "tan_methods" (o >>= λ methods. ok (method ∷ methods))
      behind method (ok methods) h = tt
      behind method (raised e) h = h

  dicts-IsPayload :
      (o : Outcome ConnectorRaise (List TanMethod))
      → IsPayload "tan_methods" o
      → IsPayload "tan_methods" (method_dicts mapping o)
  dicts-IsPayload (ok methods) h = tt
  dicts-IsPayload (raised e) h = h

  payload-IsPayload :
      (t : String) (payload : Payload) → IsPayload t (approved_result_payload mapping t payload)
  unfolding approved_result_payload
  payload-IsPayload t (account_list listed) =
      if-IsPayload t (str_eq t "accounts") _ _ (λ e. tt)
        (if-IsPayload t (str_eq t "connect") _ _ (λ e. tt) tt)
  payload-IsPayload t (feed_of feed) = if-IsPayload t (str_eq t "transactions") _ _ (λ e. tt) tt
  payload-IsPayload t (balance_of b) =
      if-IsPayload t (str_eq t "balances") _ _ (λ e. tt)
        (if-IsPayload t (str_eq t "balance") _ _ (λ e. tt) tt)
  payload-IsPayload t (balance_list bs) =
      if-IsPayload t (str_eq t "balances") _ _ (λ e. tt)
        (if-IsPayload t (str_eq t "balance") _ _ (λ e. tt) tt)
  payload-IsPayload t (method_list ts) =
      if-IsPayload t (str_eq t "tan_methods") _ _
        (λ e.
          subst (λ t. IsPayload t (method_dicts mapping (to_tan_methods mapping ts)))
            (sym ((eq_iff t "tan_methods").0 e))
            (dicts-IsPayload (to_tan_methods mapping ts) (methods-IsPayload ts)))
        tt
  payload-IsPayload t nothing = tt

  completed-IsResumed :
      (t : String) (k : OperationType) (o : Outcome ConnectorRaise String)
      → some k ≡ operation_type_of t
      → IsPayload t o
      → IsResumed t (
          completed_resume c formats reference operations mapping product_key product_version now
            (some k)
            o)
  unfolding validate_resume validate_connector_result
  completed-IsResumed t k (ok payload) e h = (refl, (λ p. cc), λ p. e)
  completed-IsResumed t k (raised u) e (blank, asked) = subst (IsResumeRaise t) (sym blank) asked

  typed-IsResumed :
      (t t' : String) (k : OperationType) (payload : Payload) (o : Option OperationType)
      → o ≡ some k
      → o ≡ operation_type_of t
      → t' ≡ t
      → IsResumed t (
          typed c formats reference operations mapping product_key product_version now o payload t')
  typed-IsResumed t t' k payload none h e same = cc
  typed-IsResumed t t' k payload (some k') h e same =
      completed-IsResumed t k' (approved_result_payload mapping t' payload) e (
        subst (λ u. IsPayload u (approved_result_payload mapping t' payload)) same
          (payload-IsPayload t' payload))

  state-valid :
      (bytes : String)
      → str_eq bytes "" ≡ false
      → validate_connector_result pending_confirmation bytes (some (now + five_minutes)) none
        ≡ ok tt
  unfolding validate_connector_result
  state-valid bytes nonempty = simp nonempty

  pending-valid :
      (bytes : String) → str_eq bytes "" ≡ false → validate_resume (pending_resume bytes) ≡ ok tt
  unfolding validate_resume
  pending-valid bytes nonempty =
      ap (resume_checked (pending_resume bytes)) (state-valid bytes nonempty)

  valid_resume-IsResumed :
      (t : String) (r : ResumeResult)
      → validate_resume r ≡ ok tt
      → (is_pending r.status ≡ true → IsSnapshotOf formats t r.session_state)
      → (is_completed r.status ≡ true → r.operation_type ≡ operation_type_of t)
      → IsResumed t
          (valid_resume c formats reference operations mapping product_key product_version now r)
  valid_resume-IsResumed t r valid p q = simp valid (refl, p, q)

  failed_state-valid :
      (reason : String)
      → str_eq reason "" ≡ false
      → validate_connector_result failed "" none (some reason) ≡ ok tt
  unfolding validate_connector_result
  failed_state-valid reason given = simp given

  failed-valid :
      (reason : String) → str_eq reason "" ≡ false → validate_resume (failed_resume reason) ≡ ok tt
  unfolding validate_resume
  failed-valid reason given =
      ap (resume_checked (failed_resume reason)) (failed_state-valid reason given)

  reason-given : (error : String) → str_eq (reason_of error) "" ≡ false
  reason-given error = elim (Bool-cases (str_eq error "")) [
    | inl e ↦ rw e refl
    | inr e ↦ rw (e, e) refl
  ]

  resume_result-IsResumed :
      (t : String) (k : OperationType) (result : PollResult)
      → operation_type_of t ≡ some k
      → Follows t result
      → IsResumed t (
          resume_result c formats reference operations mapping product_key product_version now
            result)
  unfolding validate_resume validate_connector_result
  resume_result-IsResumed t k (still_pending none) h f = absurd f
  resume_result-IsResumed t k (still_pending (some bytes)) h s =
      valid_resume-IsResumed t (pending_resume bytes) (pending-valid bytes s.nonempty) (λ p. s)
        (λ p. cc)
  resume_result-IsResumed t k (approved none payload) h f = absurd f
  resume_result-IsResumed t k (approved (some t') payload) h same =
      let h' : operation_type_of t' ≡ some k = ap operation_type_of same ∙ h in
      simp (known-given t' k h')
        (typed-IsResumed t t' k payload (operation_type_of t') h' (ap operation_type_of same) same)
  resume_result-IsResumed t k (poll_failed error) h f =
      valid_resume-IsResumed t (failed_resume (reason_of error))
        (failed-valid (reason_of error) (reason-given error)) (λ p. cc) (λ p. cc)

  called-IsResumed :
      (t : String) (k : OperationType) (r : Outcome CallRaise PollResult × Client × World Link)
      → operation_type_of t ≡ some k
      → FollowsCall t r
      → IsResumed t
          (Connector.resumed c formats reference operations mapping product_key product_version now
            r).0
  called-IsResumed t k (ok result, client, w) h f = resume_result-IsResumed t k result h f
  called-IsResumed t k (raised e, client, w) h f = tt

  with_client-IsResumed :
      (t : String) (blz : String) (access : PollOperationInput) (url : Option String)
      (call : GatewayCredentials → World Link → Outcome ConnectorRaise ResumeResult × World Link)
      (w : World Link)
      → ((creds : GatewayCredentials) → IsResumed t (call creds w).0)
      → IsResumed t
          (with_client c formats reference operations mapping product_key product_version now call
            (credentials_at c formats reference operations mapping product_key product_version now
              blz access url)
            w).0
  with_client-IsResumed t blz access none call w h = tt
  with_client-IsResumed t blz access (some url) call w h =
      elim (Bool-cases (starts_with url "https://")) [ inl e ↦ rw e (h _) | inr e ↦ rw e tt ]

  -- With snapshots whose texts are not empty and are read back with their type: an operation resumed from a snapshot of
  -- one of the gateway's types, whatever the bank answers, gives a result that passes its validator,
  -- and is failed, or complete with that type of operation, or pending with a snapshot of that type,
  -- from which it can be resumed again; or it raises, but never for a result's validator or for the type,
  -- and for a blank id or name of a TAN method only where the operation asks for TAN methods.
  pub resume_operation-IsResumed :
      (bytes t : String) (k : OperationType) (access : PollOperationInput)
      (institute : FinTsInstitute) (w : World Link)
      → IsSnapshotOf formats t bytes
      → operation_type_of t ≡ some k
      → IsResumed t
          (resume_operation c formats reference operations mapping product_key product_version now
            bytes access institute w).0
  unfolding resume_operation resume_and_poll build_gateway_credentials
  resume_operation-IsResumed bytes t k access institute w s h =
      with_client-IsResumed t institute.blz access institute.pin_tan_url _ w (λ creds.
        called-IsResumed t k _ h (
          resume_read-Follows creds fresh_client t w (formats.deserialize_snapshot bytes) (λ s' e.
            let both : some s.read ≡ some s' = sym s.reads ∙ e in
            let same : s.read ≡ s' = cc in ap (λ x. x.operation_type) (sym same) ∙ s.of_type)))
