-- ===== src/Operations/Accounts/Discovers.antt =====
-- What account discovery returns, and when it raises.
use geldstrom.Prelude.{
  ◌≡◌, ◌≢◌, ◌⊎◌, inl, inr, refl, sym, ap, ◌∙◌, Bool, true, false, List, [], ◌∷◌, Option, none, some,
  String, str_eq, if◌then◌else◌, Outcome, ok, raised, All, Bool-cases, eq_iff,
}
use geldstrom.Gateway.Dict.{str_eq_refl}
use geldstrom.Segments.{UpdAccount}
use geldstrom.Dialog.{Dialog, Connection}
use geldstrom.Clients.Fetching.{SepaAccount}
use geldstrom.Operations.Accounts.{
  or_blank, owners, AccountInfo, AccountsRaise, not_iterable, last_match, same_iban, same_number,
  bic_of, join_sepa_info, synthesized, or_synthesized, list_account, account_infos, merge_accounts,
  get_accounts, merged_all, fetch_sepa_accounts, fetch_all,
}

abbrev pub Any {ℓ} : {A : Type ℓ} → (A → Type 0) → List A → Type 0
Any P [] = ⊥
Any P (x ∷ xs) = P x ⊎ Any P xs

-- What is known of a match: an account that passes, or that none does.
abbrev IsMatch : (SepaAccount → Bool) → List SepaAccount → Option SepaAccount → Type 0
IsMatch matches sepas none = All (λ s. matches s ≡ false) sepas
IsMatch matches sepas (some sepa) = Any (λ s. (s ≡ sepa) × (matches s ≡ true)) sepas

last_match-IsMatch :
    (matches : SepaAccount → Bool) (sepas : List SepaAccount)
    → IsMatch matches sepas (last_match matches sepas)
last_match-IsMatch matches [] = tt
last_match-IsMatch matches (s ∷ sepas) =
    extend matches s sepas (last_match matches sepas) (last_match-IsMatch matches sepas)
  where
    extend :
        (matches : SepaAccount → Bool) (s : SepaAccount) (sepas : List SepaAccount)
        (rest : Option SepaAccount)
        → IsMatch matches sepas rest
        → IsMatch matches
            (s ∷ sepas)
            (elim rest [ some later ↦ some later | none ↦ if matches s then some s else none ])
    extend matches s sepas (some later) h = inr h
    extend matches s sepas none h = elim (Bool-cases (matches s)) [
      | inl e ↦ rw e (inl (refl, e))
      | inr e ↦ rw e (e, h)
    ]

-- The BIC is that of a SEPA account with the account's IBAN; where there is none, of one with its
-- numbers; and where there is none either, there is no BIC.
abbrev pub IsJoined : List SepaAccount → AccountInfo → Type 0
IsJoined sepas info =
    Any (λ s. (same_iban info s ≡ true) × (info.bic ≡ s.bic)) sepas
    ⊎ (All (λ s. same_iban info s ≡ false) sepas
        × (Any (λ s. (same_number info s ≡ true) × (info.bic ≡ s.bic)) sepas
            ⊎ (All (λ s. same_number info s ≡ false) sepas × (info.bic ≡ none))))

matched :
    (matches : SepaAccount → Bool) (sepa : SepaAccount) (sepas : List SepaAccount)
    → Any (λ s. (s ≡ sepa) × (matches s ≡ true)) sepas
    → Any (λ s. (matches s ≡ true) × (sepa.bic ≡ s.bic)) sepas
matched matches sepa [] h = absurd h
matched matches sepa (s ∷ sepas) (inl (e, h)) = inl (h, ap (λ x. SepaAccount.bic x) (sym e))
matched matches sepa (s ∷ sepas) (inr h) = inr (matched matches sepa sepas h)

unmatched :
    (info : AccountInfo) (sepas : List SepaAccount)
    → All (λ s. same_iban info s ≡ false) sepas
    → All (λ s. same_number info s ≡ false) sepas
    → Any (λ s. (same_iban info s ≡ true) ⊎ (same_number info s ≡ true)) sepas
    → ⊥
unmatched info [] hi hn h = h
unmatched info (s ∷ sepas) (a, hi) (b, hn) (inl (inl e)) = cc
unmatched info (s ∷ sepas) (a, hi) (b, hn) (inl (inr e)) = cc
unmatched info (s ∷ sepas) (a, hi) (b, hn) (inr h) = unmatched info sepas hi hn h

-- An account that has no BIC yet, or matches a SEPA account.
with_bic-IsJoined :
    (sepas : List SepaAccount) (info : AccountInfo) (i n : Option SepaAccount)
    → IsMatch (same_iban info) sepas i
    → IsMatch (same_number info) sepas n
    → (info.bic ≡ none) ⊎ Any (λ s. (same_iban info s ≡ true) ⊎ (same_number info s ≡ true)) sepas
    → IsJoined sepas (record info { bic = bic_of info i n })
with_bic-IsJoined sepas info (some a) n hi hn h = inl (matched (same_iban info) a sepas hi)
with_bic-IsJoined sepas info none (some b) hi hn h =
    inr (hi, inl (matched (same_number info) b sepas hn))
with_bic-IsJoined sepas info none none hi hn (inl e) = inr (hi, inr (hn, e))
with_bic-IsJoined sepas info none none hi hn (inr some_match) =
    absurd (unmatched info sepas hi hn some_match)

-- The lists are of one length, and each two in one place are related.
abbrev pub Pairs {ℓ} : {A B : Type ℓ} → (A → B → Type 0) → List A → List B → Type 0
Pairs R [] [] = Unit
Pairs R (x ∷ xs) (y ∷ ys) = R x y × Pairs R xs ys
Pairs R _ _ = ⊥

-- The texts that are not empty.
abbrev pub given_texts : List String → List String
given_texts [] = []
given_texts (t ∷ ts) = let rest = given_texts ts in if str_eq t "" then rest else t ∷ rest

-- What an account has of its HIUPD: all but the BIC.
abbrev pub IsListed : UpdAccount → AccountInfo → Type 0
IsListed upd info =
    (info.account_number ≡ upd.account_number)
    × (info.subaccount_number ≡ upd.subaccount_number)
    × (info.iban ≡ upd.iban)
    × (info.currency ≡ upd.account_currency)
    × (info.owner_name
        ≡ given_texts (upd.name_account_owner_1 ∷ or_blank upd.name_account_owner_2 ∷ []))
    × (info.product_name ≡ upd.account_product_name)
    × (info.account_type ≡ upd.account_type)
    × (info.bank_identifier ≡ upd.bank_identifier)
    × (upd.allowed_transactions ≡ some info.allowed_operations)

-- What an account has that is made of a SEPA account: its number is the IBAN where there is none.
abbrev pub IsMade : SepaAccount → AccountInfo → Type 0
IsMade sepa info =
    (info.account_number
      ≡ some (if str_eq sepa.accountnumber "" then sepa.iban else sepa.accountnumber))
    × (info.subaccount_number ≡ some sepa.subaccount)
    × (info.iban ≡ some sepa.iban)
    × (info.currency ≡ some "EUR")
    × (info.owner_name ≡ [])
    × (info.product_name ≡ none)
    × (info.account_type ≡ none)
    × (info.bank_identifier ≡ none)
    × (info.allowed_operations ≡ [])

-- An account for each of the parameters, and where they list none, for each SEPA account.
abbrev pub AreOf : List UpdAccount → List SepaAccount → List AccountInfo → Type 0
AreOf [] sepas infos = Pairs IsMade sepas infos
AreOf (upd ∷ upds) sepas infos = Pairs IsListed (upd ∷ upds) infos

-- What the two lists of accounts give.
abbrev pub IsDiscovered :
    List SepaAccount → List UpdAccount → Outcome AccountsRaise (List AccountInfo) → Type 0
IsDiscovered sepas upds (ok infos) =
    All (λ u. u.allowed_transactions ≢ none) upds
    × AreOf upds sepas infos
    × All (IsJoined sepas) infos
IsDiscovered sepas upds (raised e) =
    (e ≡ not_iterable) × Any (λ u. u.allowed_transactions ≡ none) upds

-- A list that the join takes.
abbrev IsJoinable : List SepaAccount → AccountInfo → Type 0
IsJoinable sepas info =
    (info.bic ≡ none) ⊎ Any (λ s. (same_iban info s ≡ true) ⊎ (same_number info s ≡ true)) sepas

-- The join keeps all but the BIC.
Pairs-join :
    {A : Type 0} (R : A → AccountInfo → Type 0) (sepas : List SepaAccount) (xs : List A)
    (infos : List AccountInfo)
    → ((x : A) (info : AccountInfo) (b : Option String) → R x info → R x (record info { bic = b }))
    → Pairs R xs infos
    → Pairs R xs (join_sepa_info sepas infos)
unfolding join_sepa_info
Pairs-join R sepas [] [] keeps h = tt
Pairs-join R sepas [] (info ∷ infos) keeps h = h
Pairs-join R sepas (x ∷ xs) [] keeps h = h
Pairs-join R sepas (x ∷ xs) (info ∷ infos) keeps (h, rest) =
    (keeps x info _ h, Pairs-join R sepas xs infos keeps rest)

join-IsJoined :
    (sepas : List SepaAccount) (infos : List AccountInfo)
    → All (IsJoinable sepas) infos
    → All (IsJoined sepas) (join_sepa_info sepas infos)
unfolding join_sepa_info
join-IsJoined sepas [] h = tt
join-IsJoined sepas (info ∷ infos) (h, rest) = (
  with_bic-IsJoined sepas info (last_match (same_iban info) sepas)
      (last_match (same_number info) sepas) (last_match-IsMatch (same_iban info) sepas)
      (last_match-IsMatch (same_number info) sepas) h,
  join-IsJoined sepas infos rest,
)

synthesized-IsMade : (sepas : List SepaAccount) → Pairs IsMade sepas (synthesized sepas)
synthesized-IsMade [] = tt
synthesized-IsMade (sepa ∷ sepas) =
    ((refl, refl, refl, refl, refl, refl, refl, refl, refl), synthesized-IsMade sepas)

owners-given :
    (upd : UpdAccount)
    → owners upd ≡ given_texts (upd.name_account_owner_1 ∷ or_blank upd.name_account_owner_2 ∷ [])
owners-given upd = elim (Bool-cases (str_eq (or_blank upd.name_account_owner_2) "")) [
  | inl e ↦ simp e
  | inr e ↦ simp e
]

-- A made up account matches the one that it is made of.
self_match :
    (sepa : SepaAccount)
    → All
        (λ info. (same_iban info sepa ≡ true) ⊎ (same_number info sepa ≡ true))
        (synthesized (sepa ∷ []))
self_match sepa = (
  elim (Bool-cases (str_eq sepa.iban "")) [
    | inr e ↦ let r = str_eq_refl sepa.iban in inl (simp (e, r))
    | inl e ↦
        let r = str_eq_refl sepa.subaccount in
        inr (elim (Bool-cases (str_eq sepa.accountnumber "")) [
          | inr f ↦ let r' = str_eq_refl sepa.accountnumber in simp (f, r, r')
          | inl f ↦
              let a = (eq_iff sepa.accountnumber "").0 f in
              let i = (eq_iff sepa.iban "").0 e in
              let r' : str_eq sepa.accountnumber sepa.iban ≡ true =
                (eq_iff sepa.accountnumber sepa.iban).1 (a ∙ sym i) in
              simp (f, r, r')
        ])
  ],
  tt,
)

widened :
    (sepa : SepaAccount) (sepas : List SepaAccount) (infos : List AccountInfo)
    → All (IsJoinable sepas) infos
    → All (IsJoinable (sepa ∷ sepas)) infos
widened sepa sepas [] h = tt
widened sepa sepas (info ∷ infos) (inl e, rest) = (inl e, widened sepa sepas infos rest)
widened sepa sepas (info ∷ infos) (inr m, rest) = (inr (inr m), widened sepa sepas infos rest)

synthesized-IsJoinable : (sepas : List SepaAccount) → All (IsJoinable sepas) (synthesized sepas)
synthesized-IsJoinable [] = tt
synthesized-IsJoinable (sepa ∷ sepas) = (
  inr (inl (self_match sepa).0),
  widened sepa sepas (synthesized sepas) (synthesized-IsJoinable sepas),
)

-- What the parameters give.
abbrev Infos : List UpdAccount → Outcome AccountsRaise (List AccountInfo) → Type 0
Infos upds (ok infos) =
    All (λ u. u.allowed_transactions ≢ none) upds
    × Pairs IsListed upds infos
    × All (λ i. i.bic ≡ none) infos
Infos upds (raised e) = (e ≡ not_iterable) × Any (λ u. u.allowed_transactions ≡ none) upds

list_account-Infos :
    (upd : UpdAccount) (upds : List UpdAccount) (o : Option (List String))
    (r : Outcome AccountsRaise (List AccountInfo))
    → upd.allowed_transactions ≡ o
    → Infos upds r
    → Infos (upd ∷ upds) (list_account upd o r)
list_account-Infos upd upds none r e h = (refl, inl e)
list_account-Infos upd upds (some allowed) (ok infos) e (all, same, bare) = (
  (λ x. cc, all),
  ((refl, refl, refl, refl, owners-given upd, refl, refl, refl, e), same),
  (refl, bare),
)
list_account-Infos upd upds (some allowed) (raised u) e (same, some_none) = (same, inr some_none)

account_infos-Infos : (upds : List UpdAccount) → Infos upds (account_infos upds)
unfolding account_infos
account_infos-Infos [] = (tt, tt, tt)
account_infos-Infos (upd ∷ upds) =
    list_account-Infos upd upds upd.allowed_transactions (account_infos upds) refl
      (account_infos-Infos upds)

bare-IsJoinable :
    (sepas : List SepaAccount) (infos : List AccountInfo)
    → All (λ i. i.bic ≡ none) infos
    → All (IsJoinable sepas) infos
bare-IsJoinable sepas [] h = tt
bare-IsJoinable sepas (info ∷ infos) (e, rest) = (inl e, bare-IsJoinable sepas infos rest)

merged-IsDiscovered :
    (sepas : List SepaAccount) (upds : List UpdAccount)
    (r : Outcome AccountsRaise (List AccountInfo))
    → Infos upds r
    → IsDiscovered sepas upds (elim r [
      | ok infos ↦ ok (join_sepa_info sepas (or_synthesized infos sepas))
      | raised e ↦ raised e
    ])
merged-IsDiscovered sepas upds (raised e) h = h
merged-IsDiscovered sepas [] (ok []) (all, same, bare) = (
  tt,
  Pairs-join IsMade sepas sepas (synthesized sepas) (λ x info b h. h) (synthesized-IsMade sepas),
  join-IsJoined sepas (synthesized sepas) (synthesized-IsJoinable sepas),
)
merged-IsDiscovered sepas (upd ∷ upds) (ok []) (all, same, bare) = absurd same
merged-IsDiscovered sepas [] (ok (info ∷ infos)) (all, same, bare) = absurd same
merged-IsDiscovered sepas (upd ∷ upds) (ok (info ∷ infos)) (all, same, bare) = (
  all,
  Pairs-join IsListed sepas (upd ∷ upds) (info ∷ infos) (λ x i b h. h) same,
  join-IsJoined sepas (info ∷ infos) (bare-IsJoinable sepas (info ∷ infos) bare),
)

module _ (c : Connection) where
  open c use {Link}

  -- The result of `fetch_all`, from that of the request for the SEPA accounts.
  abbrev pub Discovers :
      Outcome AccountsRaise (List SepaAccount) × Dialog × Link
      → Outcome AccountsRaise (List AccountInfo) × Dialog × Link
      → Type 0
  Discovers (raised e, d, l) out = out ≡ (raised e, d, l)
  Discovers (ok sepas, d, l) out =
      IsDiscovered sepas (get_accounts d.parameters.upd) out.0 × (out.1 ≡ d) × (out.2 ≡ l)

  merged_all-Discovers :
      (r : Outcome AccountsRaise (List SepaAccount) × Dialog × Link) → Discovers r (merged_all c r)
  unfolding merge_accounts
  merged_all-Discovers (raised e, d, l) = refl
  merged_all-Discovers (ok sepas, d, l) =
      let upds = get_accounts d.parameters.upd in
      (merged-IsDiscovered sepas upds (account_infos upds) (account_infos-Infos upds), refl, refl)

  -- Whatever the bank answers: what the request for SEPA accounts raises is raised. Behind it nothing is
  -- sent, and there is one account for each HIUPD of the user parameters, in order, with its numbers,
  -- IBAN, currency, owners, product, type, bank and allowed transactions; or where these list none, one
  -- for each SEPA account, with its numbers, IBAN and currency EUR. The BIC of each is that of a SEPA
  -- account with its IBAN, else of one with its numbers, else there is none. A `TypeError` is raised
  -- instead exactly where some account of the parameters has no allowed transactions.
  pub fetch_all-Discovers :
      (d : Dialog) (l : Link) → Discovers (fetch_sepa_accounts c d l) (fetch_all c d l)
  unfolding fetch_all
  fetch_all-Discovers d l = merged_all-Discovers (fetch_sepa_accounts c d l)
