-- ===== src/Api/AnchorService/Quiet.antt =====
-- The anchor service (apps/api, anchor.service.ts) beside the payments: what it leaves alone.
use mix_match_onchain.Base.{
  String, ℕ, Option, none, some, List, [], ◌∷◌, refl, ◌==◌, any, find, update_where, Bool-cases,
  inl, inr,
}
use mix_match_onchain.Exec.Rules.{
  Keeps, Keeps-bind, Keeps-if, Keeps-throw, Keeps-pure, Keeps-lift, Keeps-try,
}
use mix_match_onchain.Env.{Env}
use mix_match_onchain.Env.Sdk.{Envelope}
use mix_match_onchain.Env.Web.{AnchorKind, deposit, withdrawal}
use mix_match_onchain.Stellar.Wallet.{Wallet}
use mix_match_onchain.Stellar.Quiet.{IsQuiet-Submitted, submissions}
use mix_match_onchain.Stellar.Sep.Transfer.{InitiateSep24Params, has, sep24_in_progress_statuses}
use mix_match_onchain.Stellar.Sep.Quiet.{
  Keeps-fetch_stellar_toml, Keeps-authenticate_sep10, Keeps-initiate_sep24_deposit,
  Keeps-initiate_sep24_withdraw, Keeps-get_sep24_transaction,
}
use mix_match_onchain.Api.Rows.{Account, AnchorTransaction, Transaction, World}
use mix_match_onchain.Api.Quiet.{
  Still, Keeps-Still, Keeps-quiet, Keeps-wallet_for_account, Keeps-get_or_create_stellar_account,
}
use mix_match_onchain.Api.Store.{net}
use mix_match_onchain.Api.Accounts
use mix_match_onchain.Api.Anchors
use mix_match_onchain.Api.Anchors.{
  NewAnchorTransaction, AnchorUpdate, anchor_row, anchor_clash, inserted, updated_anchor,
  driver_date, driver_date_or_none,
}
use mix_match_onchain.Api.AnchorService
use mix_match_onchain.Api.AnchorService.{
  AnchorInput, AnchorEndpoints, endpoints_of, is_http_exception,
}

module _ (env : Env) (rows : List Transaction) (es : List Envelope) where
  abbrev Rest : World → Type 0
  Rest = Still rows es

  Keeps-wallet :
      (account : Account) → Keeps Rest (net (AnchorService.wallet_for_account env account))
  Keeps-wallet account =
      Keeps-quiet env rows es _ (Keeps-wallet_for_account (IsQuiet-Submitted es) env account)

  Keeps-toml : (home : String) → Keeps Rest (net (AnchorService.fetch_stellar_toml env home))
  Keeps-toml home =
      Keeps-quiet env rows es _ (Keeps-fetch_stellar_toml (IsQuiet-Submitted es) env home)

  Keeps-auth :
      (params : AnchorService.Sep10AuthParams)
      → Keeps Rest (net (AnchorService.authenticate_sep10 env params))
  Keeps-auth params =
      Keeps-quiet env rows es _ (Keeps-authenticate_sep10 (IsQuiet-Submitted es) env params)

  Keeps-get :
      (server jwt id : String)
      → Keeps Rest (net (AnchorService.get_sep24_transaction env server jwt id))
  Keeps-get server jwt id =
      Keeps-quiet env rows es _
        (Keeps-get_sep24_transaction (IsQuiet-Submitted es) env server jwt id)

  Keeps-initiate_with :
      (kind : AnchorKind) (params : InitiateSep24Params)
      → Keeps Rest (net (AnchorService.initiate_with env kind params))
  Keeps-initiate_with deposit params =
      Keeps-quiet env rows es _ (Keeps-initiate_sep24_deposit (IsQuiet-Submitted es) env params)
  Keeps-initiate_with withdrawal params =
      Keeps-quiet env rows es _ (Keeps-initiate_sep24_withdraw (IsQuiet-Submitted es) env params)

  Still-anchors :
      (w : World) (anchors : List AnchorTransaction)
      → Rest w
      → Rest (record w { anchors = anchors })
  Still-anchors w anchors h = record { rows_same = h.rows_same; submitted_same = h.submitted_same }

  Keeps-create : (input : NewAnchorTransaction) → Keeps Rest (Anchors.create env input)
  unfolding Anchors.create
  Keeps-create input = Keeps-bind _ _ (Keeps-lift (driver_date input.started_at)) (λ started.
      Keeps-bind _ _ (Keeps-lift (driver_date_or_none input.completed_at)) (λ completed.
        Keeps-Still env rows es _ (λ w h.
          let row = anchor_row input started completed (env.db_uuid w.trace) (env.db_now w.trace) in
          elim (Bool-cases (any (anchor_clash row) w.anchors)) [
            | inl e ↦ rw e h
            | inr e ↦ rw e (Still-anchors w _ h)
          ])))

  Still-updated :
      (id : String) (found : Option AnchorTransaction) (w : World)
      → Rest w
      → Rest (updated_anchor id found w).1
  Still-updated id none w h = h
  Still-updated id (some row) w h = h

  Keeps-update :
      (id : String) (update : AnchorUpdate) → Keeps Rest (Anchors.update_from_anchor env id update)
  unfolding Anchors.update_from_anchor
  Keeps-update id update =
      Keeps-bind _ _ (Keeps-lift (driver_date_or_none update.completed_at)) (λ completed.
        Keeps-Still env rows es _ (λ w h.
          let anchors =
            update_where (Anchors.has_id id)
              (Anchors.set_anchor update completed (env.date_now w.trace)) w.anchors in
          Still-updated id (find (Anchors.has_id id) anchors) (record w { anchors = anchors })
            (Still-anchors w anchors h)))

  Keeps-start :
      (account : Account) (kind : AnchorKind) (input : AnchorInput) (endpoints : AnchorEndpoints)
      (wallet : Wallet)
      → Keeps Rest (AnchorService.start env account kind input endpoints wallet)
  unfolding AnchorService.initiate
  Keeps-start account kind input endpoints wallet = Keeps-bind _ _ (Keeps-auth _) (λ jwt.
      Keeps-bind _ _ (Keeps-initiate_with kind _) (λ interactive.
        Keeps-bind _ _ (Keeps-get _ _ _)
          (λ initial. Keeps-bind _ _ (Keeps-create _) (λ row. Keeps-pure _))))

  Keeps-initiate_at :
      (account : Account) (kind : AnchorKind) (input : AnchorInput) (found : Option AnchorEndpoints)
      → Keeps Rest (AnchorService.initiate_at env account kind input found)
  unfolding AnchorService.initiate
  Keeps-initiate_at account kind input none = Keeps-throw _
  Keeps-initiate_at account kind input (some endpoints) =
      Keeps-bind _ _ (Keeps-wallet account) (λ wallet.
        Keeps-try _ _ (Keeps-start account kind input endpoints wallet)
          (λ e. Keeps-if (is_http_exception e) _ _ (Keeps-throw _) (Keeps-throw _)))

  Keeps-initiate :
      (user_id : String) (kind : AnchorKind) (input : AnchorInput)
      → Keeps Rest (AnchorService.initiate env user_id kind input)
  unfolding AnchorService.initiate
  Keeps-initiate user_id kind input =
      Keeps-bind _ _ (Keeps-get_or_create_stellar_account env rows es user_id) (λ account.
        Keeps-bind _ _ (Keeps-toml _)
          (λ toml. Keeps-initiate_at account kind input (endpoints_of toml)))

  Keeps-refresh_at :
      (row : AnchorTransaction) (account : Account) (found : Option AnchorEndpoints)
      → Keeps Rest (AnchorService.refresh_at env row account found)
  unfolding AnchorService.refresh_from_anchor
  Keeps-refresh_at row account none = Keeps-pure _
  Keeps-refresh_at row account (some endpoints) = Keeps-bind _ _ (Keeps-wallet account) (λ wallet.
      Keeps-bind _ _ (Keeps-auth _)
        (λ jwt. Keeps-bind _ _ (Keeps-get _ _ _) (λ latest. Keeps-update _ _)))

  Keeps-refresh_for :
      (row : AnchorTransaction) (found : Option Account)
      → Keeps Rest (AnchorService.refresh_for env row found)
  unfolding AnchorService.refresh_from_anchor
  Keeps-refresh_for row none = Keeps-pure _
  Keeps-refresh_for row (some account) =
      Keeps-bind _ _ (Keeps-toml _) (λ toml. Keeps-refresh_at row account (endpoints_of toml))

  Keeps-refresh : (row : AnchorTransaction) → Keeps Rest (AnchorService.refresh_from_anchor env row)
  unfolding AnchorService.refresh_from_anchor Accounts.find_by_id
  Keeps-refresh row = Keeps-bind _ _ (Keeps-Still env rows es _ (λ w h. h)) (Keeps-refresh_for row)

  Keeps-owned_by :
      (user_id : String) (row : AnchorTransaction) (found : Option Account)
      → Keeps Rest (AnchorService.owned_by env user_id row found)
  unfolding AnchorService.get_owned_anchor_transaction
  Keeps-owned_by user_id row none = Keeps-throw _
  Keeps-owned_by user_id row (some account) =
      Keeps-if (account.user_id == user_id) _ _ (Keeps-pure _) (Keeps-throw _)

  Keeps-with_owner :
      (user_id : String) (found : Option AnchorTransaction)
      → Keeps Rest (AnchorService.with_owner env user_id found)
  unfolding AnchorService.get_owned_anchor_transaction Accounts.find_by_id
  Keeps-with_owner user_id none = Keeps-throw _
  Keeps-with_owner user_id (some row) =
      Keeps-bind _ _ (Keeps-Still env rows es _ (λ w h. h)) (Keeps-owned_by user_id row)

  Keeps-get_status :
      (user_id id : String) → Keeps Rest (AnchorService.get_status_for_user env user_id id)
  unfolding AnchorService.get_status_for_user AnchorService.get_owned_anchor_transaction
      Anchors.find_by_id
  Keeps-get_status user_id id =
      Keeps-bind _ _
        (Keeps-bind _ _ (Keeps-Still env rows es _ (λ w h. h)) (Keeps-with_owner user_id))
        (λ row.
          Keeps-if (has sep24_in_progress_statuses row.status) _ _ (Keeps-refresh row)
            (Keeps-pure row))

  Keeps-refresh_all :
      (all : List AnchorTransaction) → Keeps Rest (AnchorService.refresh_all env all)
  unfolding AnchorService.list_history_for_user
  Keeps-refresh_all [] = Keeps-pure _
  Keeps-refresh_all (row ∷ all) =
      Keeps-bind _ _
        (Keeps-try _ _ (Keeps-bind _ _ (Keeps-refresh row) (λ _. Keeps-pure _)) (λ e. Keeps-pure _))
        (λ _. Keeps-refresh_all all)

  Keeps-history_of :
      (found : Option Account) (page limit : ℕ)
      → Keeps Rest (AnchorService.history_of env found page limit)
  unfolding AnchorService.list_history_for_user Anchors.find_in_progress_by_stellar_account_id
      Anchors.list_by_stellar_account_id
  Keeps-history_of none page limit = Keeps-pure _
  Keeps-history_of (some account) page limit =
      Keeps-bind _ _ (Keeps-Still env rows es _ (λ w h. h)) (λ in_progress.
        Keeps-bind _ _ (Keeps-refresh_all in_progress) (λ _.
          Keeps-bind _ _ (Keeps-Still env rows es _ (λ w h. h)) (λ listed.
            Keeps-bind _ _ (Keeps-Still env rows es _ (λ w h. h)) (λ total. Keeps-pure _))))

  Keeps-list_history :
      (user_id : String) (page limit : ℕ)
      → Keeps Rest (AnchorService.list_history_for_user env user_id page limit)
  unfolding AnchorService.list_history_for_user Accounts.find_by_user_id
  Keeps-list_history user_id page limit =
      Keeps-bind _ _ (Keeps-Still env rows es _ (λ w h. h))
        (λ found. Keeps-history_of found page limit)

-- A request to the anchor service.
pub data AnchorRequest : Type 0 where
  start : AnchorKind → AnchorInput → AnchorRequest
  status : String → AnchorRequest
  history : ℕ → ℕ → AnchorRequest

-- The state after a request.
abbrev pub after : Env → String → AnchorRequest → World → World
after env user_id (start kind input) w = (AnchorService.initiate env user_id kind input w).1
after env user_id (status id) w = (AnchorService.get_status_for_user env user_id id w).1
after env user_id (history page limit) w =
    (AnchorService.list_history_for_user env user_id page limit w).1

-- No request to the anchor service submits a transaction to Horizon or changes the table of
-- payments, whatever it answers: the challenge that it signs is never submitted.
pub after-Still :
    (env : Env) (user_id : String) (request : AnchorRequest) (w : World)
    → Still w.transactions (submissions w.trace) (after env user_id request w)
after-Still env user_id (start kind input) w =
    (Keeps-initiate env w.transactions (submissions w.trace) user_id kind input).at w
      (record { rows_same = refl; submitted_same = refl })
after-Still env user_id (status id) w =
    (Keeps-get_status env w.transactions (submissions w.trace) user_id id).at w
      (record { rows_same = refl; submitted_same = refl })
after-Still env user_id (history page limit) w =
    (Keeps-list_history env w.transactions (submissions w.trace) user_id page limit).at w
      (record { rows_same = refl; submitted_same = refl })
