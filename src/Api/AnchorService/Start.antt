-- ===== src/Api/AnchorService/Start.antt =====
-- What starting a deposit or a withdrawal leaves in the table of anchor transactions (apps/api,
-- anchor.service.ts, `initiate`).
use mix_match_onchain.Base.{
  String, Bool, true, false, Option, none, some, List, [], ◌∷◌, ◌++◌, ◌≡◌, refl, ap, any,
  Bool-cases, inl, inr,
}
use mix_match_onchain.Exec.{Result, ok, err, lift, ◌>>=◌}
use mix_match_onchain.Exec.Rules.{
  Keeps, Keeps-bind, Keeps-pure, Keeps-lift, Ensures, Ensures-bind, Ensures-try, Ensures-if,
  Ensures-throw, Ensures-pure, Ensures-Keeps,
}
use mix_match_onchain.Error.{Error}
use mix_match_onchain.Env.{Env}
use mix_match_onchain.Env.Sdk.{StellarNetwork, testnet}
use mix_match_onchain.Env.Web.{AnchorKind}
use mix_match_onchain.Stellar.Wallet.{Wallet}
use mix_match_onchain.Stellar.Net.{Net}
use mix_match_onchain.Api.Rows.{Account, AnchorTransaction, World}
use mix_match_onchain.Api.Store.{App, net}
use mix_match_onchain.Api.Store.Rules.{OnTables, Keeps-net, Keeps-statement, Ensures-statement}
use mix_match_onchain.Api.Accounts
use mix_match_onchain.Api.Accounts.{account_row, account_clash}
use mix_match_onchain.Api.Custody
use mix_match_onchain.Api.Anchors
use mix_match_onchain.Api.Anchors.{
  NewAnchorTransaction, anchor_row, anchor_clash, driver_date, driver_date_or_none, inserted,
}
use mix_match_onchain.Api.AnchorService
use mix_match_onchain.Api.AnchorService.{
  Initiated, AnchorInput, AnchorEndpoints, endpoints_of, is_http_exception,
}

abbrev Same : List AnchorTransaction → World → Type 0
Same rows w = w.anchors ≡ rows

-- A row was added at the end with the address that is returned, or the table is as before.
abbrev pub Started : Env → List AnchorTransaction → Result Error Initiated → World → Type 0
Started env rows (ok i) w =
    (w.anchors ≡ rows ++ i.transaction ∷ [])
    × (i.transaction.interactive_url ≡ some i.interactive_url)
    × (i.transaction.home_domain ≡ env.config.anchor_home_domain)
Started env rows (err e) w = w.anchors ≡ rows

module _ (env : Env) (rows : List AnchorTransaction) where
  OnTables-Same : OnTables (Same rows)
  OnTables-Same = record { shift = λ w t h. h }

  Keeps-create_account :
      (input : Accounts.NewAccount) → Keeps (Same rows) (Accounts.create env input)
  unfolding Accounts.create
  Keeps-create_account input = Keeps-statement OnTables-Same env _ (λ w h.
      let row = account_row input (env.db_uuid w.trace) (env.db_now w.trace) in
      elim (Bool-cases (any (account_clash row) w.accounts)) [ inl e ↦ rw e h | inr e ↦ rw e h ])

  Keeps-fund_if_testnet :
      (network : StellarNetwork) (key : String)
      → Keeps (Same rows) (Custody.fund_if_testnet env network key)
  unfolding Custody.get_or_create_stellar_account
  Keeps-fund_if_testnet testnet key = Keeps-net OnTables-Same _
  Keeps-fund_if_testnet _ key = Keeps-pure _

  Keeps-existing_or_new :
      (user_id : String) (found : Option Account)
      → Keeps (Same rows) (Custody.existing_or_new env user_id found)
  unfolding Custody.get_or_create_stellar_account
  Keeps-existing_or_new user_id (some account) = Keeps-pure account
  Keeps-existing_or_new user_id none = Keeps-bind _ _ (Keeps-net OnTables-Same _) (λ signer.
      Keeps-bind _ _ (Keeps-fund_if_testnet env.config.stellar_network signer.public_key)
        (λ _. Keeps-create_account _))

  Keeps-get_or_create :
      (user_id : String) → Keeps (Same rows) (Custody.get_or_create_stellar_account env user_id)
  unfolding Custody.get_or_create_stellar_account Accounts.find_by_user_id
  Keeps-get_or_create user_id =
      Keeps-bind _ _ (Keeps-statement OnTables-Same env _ (λ w h. h))
        (Keeps-existing_or_new user_id)

  abbrev Created : NewAnchorTransaction → Result Error AnchorTransaction → World → Type 0
  Created input (ok row) w =
      (w.anchors ≡ rows ++ row ∷ [])
      × (row.interactive_url ≡ input.interactive_url)
      × (row.home_domain ≡ input.home_domain)
  Created input (err e) w = w.anchors ≡ rows

  Ensures-net :
      {A B : Type 0} {Q : Result Error B → World → Type 0} (m : Net A) (f : A → App B)
      → ((a : A) → Ensures (Same rows) (f a) Q)
      → ((e : Error) (w : World) → Same rows w → Q (err e) w)
      → Ensures (Same rows) (net m >>= f) Q
  Ensures-net m f k h =
      Ensures-bind (λ _ w. Same rows w) _ _ (Ensures-Keeps _ (Keeps-net OnTables-Same m)) k h

  Ensures-lift :
      {A B : Type 0} {Q : Result Error B → World → Type 0} (r : Result Error A) (f : A → App B)
      → ((a : A) → Ensures (Same rows) (f a) Q)
      → ((e : Error) (w : World) → Same rows w → Q (err e) w)
      → Ensures (Same rows) (lift r >>= f) Q
  Ensures-lift r f k h = Ensures-bind (λ _ w. Same rows w) _ _ (Ensures-Keeps _ (Keeps-lift r)) k h

  Created-insert :
      (input : NewAnchorTransaction) (row : AnchorTransaction) (clash : Bool) (w : World)
      → row.interactive_url ≡ input.interactive_url
      → row.home_domain ≡ input.home_domain
      → Same rows w
      → Created input (inserted row clash w).0 (inserted row clash w).1
  Created-insert input row true w u d h = h
  Created-insert input row false w u d h = (ap (λ l. l ++ row ∷ []) h, u, d)

  Ensures-create :
      (input : NewAnchorTransaction)
      → Ensures (Same rows) (Anchors.create env input) (Created input)
  unfolding Anchors.create
  Ensures-create input =
      Ensures-lift (driver_date input.started_at) _
        (λ started.
          Ensures-lift (driver_date_or_none input.completed_at) _
            (λ completed.
              Ensures-statement OnTables-Same env (Created input) _
                (λ w h.
                  let row =
                    anchor_row input started completed (env.db_uuid w.trace) (env.db_now w.trace) in
                  Created-insert input row (any (anchor_clash row) w.anchors) w refl refl h)
                (λ e w h. h))
            (λ e w h. h))
        (λ e w h. h)

  Ensures-start :
      (account : Account) (kind : AnchorKind) (input : AnchorInput) (endpoints : AnchorEndpoints)
      (wallet : Wallet)
      → Ensures
          (Same rows)
          (AnchorService.start env account kind input endpoints wallet)
          (Started env rows)
  unfolding AnchorService.initiate
  Ensures-start account kind input endpoints wallet =
      Ensures-net _ _
        (λ jwt.
          Ensures-net _ _
            (λ interactive.
              Ensures-net _ _
                (λ initial.
                  Ensures-bind
                    (Created (
                      AnchorService.started_row env account kind input env.config.anchor_home_domain
                        interactive initial))
                    _ _ (Ensures-create _) (λ row. Ensures-pure _ (λ w h. h)) (λ e w h. h))
                (λ e w h. h))
            (λ e w h. h))
        (λ e w h. h)

  Ensures-initiate_at :
      (account : Account) (kind : AnchorKind) (input : AnchorInput) (found : Option AnchorEndpoints)
      → Ensures
          (Same rows)
          (AnchorService.initiate_at env account kind input found)
          (Started env rows)
  unfolding AnchorService.initiate
  Ensures-initiate_at account kind input none = Ensures-throw _ (λ w h. h)
  Ensures-initiate_at account kind input (some endpoints) =
      Ensures-net _ _
        (λ wallet.
          Ensures-try (Started env rows) _ _ (Ensures-start account kind input endpoints wallet)
            (λ e.
              Ensures-if (is_http_exception e) _ _ (λ _. Ensures-throw _ (λ w h. h))
                (λ _. Ensures-throw _ (λ w h. h)))
            (λ i w h. h))
        (λ e w h. h)

-- Starting a deposit or a withdrawal adds one row at the end of the table, with the address that is
-- returned and the domain of the configured anchor; if it throws, at any step, the table of anchor
-- transactions is as it was.
pub initiate-Started :
    (env : Env) (w : World) (user_id : String) (kind : AnchorKind) (input : AnchorInput)
    → Started env w.anchors
        (AnchorService.initiate env user_id kind input w).0
        (AnchorService.initiate env user_id kind input w).1
unfolding AnchorService.initiate
initiate-Started env w user_id kind input =
    (Ensures-bind (λ _ w'. Same w.anchors w') _ _
        (Ensures-Keeps _ (Keeps-get_or_create env w.anchors user_id))
        (λ account.
          Ensures-net env w.anchors _ _
            (λ toml. Ensures-initiate_at env w.anchors account kind input (endpoints_of toml))
            (λ e w' h. h))
        (λ e w' h. h)).at
      w refl
