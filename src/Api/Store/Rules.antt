-- ===== src/Api/Store/Rules.antt =====
-- Rules for the API's actions: a call of the engine leaves the tables alone, and a statement does
-- what it does to the tables, or fails before it.
use mix_match_onchain.Base.{Option, none, some, ◌∷◌}
use mix_match_onchain.Exec.{Result, err}
use mix_match_onchain.Exec.Rules.{Keeps, Ensures}
use mix_match_onchain.Error.{Error}
use mix_match_onchain.Env.{Env}
use mix_match_onchain.Env.Calls.{Call, Trace}
use mix_match_onchain.Stellar.Net.{Net}
use mix_match_onchain.Api.Rows.{World}
use mix_match_onchain.Api.Store.{App, net, statement, unless_fault}

-- A predicate that counting a statement keeps.
pub record OnStatements (P : World → Type 0) : Type 0 where
  pub counted : (w : World) → P w → P (record w { trace = Call.statement ∷ w.trace })

-- A predicate of the tables alone.
pub record OnTables (P : World → Type 0) : Type 0 where
  pub shift : (w : World) (t : Trace) → P w → P (record w { trace = t })

OnStatements-OnTables : {P : World → Type 0} → OnTables P → OnStatements P
OnStatements-OnTables o = record { counted = λ w h. o.shift w _ h }

module _ {P : World → Type 0} {A : Type 0} where
  Keeps-unless_fault :
      (env : Env) (fault : Option Error) (m : App A) (w : World)
      → ((w' : World) → P w' → P (m w').1)
      → P w
      → P (unless_fault env fault m w).1
  Keeps-unless_fault env none m w k h = k w h
  Keeps-unless_fault env (some e) m w k h = h

  -- What the statement does to the state keeps the predicate.
  pub Keeps-stated :
      (o : OnStatements P) (env : Env) (m : App A)
      → ((w : World) → P w → P (m w).1)
      → Keeps P (statement env m)
  unfolding statement
  Keeps-stated o env m k = record {
    at = λ w h.
        Keeps-unless_fault env (env.db_fault w.trace) m
          (record w { trace = Call.statement ∷ w.trace }) k (o.counted w h);
  }

  Ensures-unless_fault :
      (env : Env) (Q : Result Error A → World → Type 0) (fault : Option Error) (m : App A)
      (w : World)
      → ((w' : World) → P w' → Q (m w').0 (m w').1)
      → ((e : Error) (w' : World) → P w' → Q (err e) w')
      → P w
      → Q (unless_fault env fault m w).0 (unless_fault env fault m w).1
  Ensures-unless_fault env Q none m w k f h = k w h
  Ensures-unless_fault env Q (some e) m w k f h = f e w h

  -- The statement's own postcondition, or its fault with nothing changed.
  pub Ensures-stated :
      (o : OnStatements P) (env : Env) (Q : Result Error A → World → Type 0) (m : App A)
      → ((w : World) → P w → Q (m w).0 (m w).1)
      → ((e : Error) (w : World) → P w → Q (err e) w)
      → Ensures P (statement env m) Q
  unfolding statement
  Ensures-stated o env Q m k f = record {
    at = λ w h.
        Ensures-unless_fault env Q (env.db_fault w.trace) m
          (record w { trace = Call.statement ∷ w.trace }) k f (o.counted w h);
  }

module _ {P : World → Type 0} (o : OnTables P) {A : Type 0} where
  pub Keeps-net : (m : Net A) → Keeps P (net m)
  unfolding net
  Keeps-net m = record { at = λ w h. o.shift w (m w.trace).1 h }

  pub Keeps-statement :
      (env : Env) (m : App A) → ((w : World) → P w → P (m w).1) → Keeps P (statement env m)
  Keeps-statement = Keeps-stated (OnStatements-OnTables o)

  pub Ensures-statement :
      (env : Env) (Q : Result Error A → World → Type 0) (m : App A)
      → ((w : World) → P w → Q (m w).0 (m w).1)
      → ((e : Error) (w : World) → P w → Q (err e) w)
      → Ensures P (statement env m) Q
  Ensures-statement = Ensures-stated (OnStatements-OnTables o)

-- What a call of the engine ensures of the tables, whatever it answers.
pub Ensures-net :
    {P : World → Type 0} (o : OnTables P) {A : Type 0} (m : Net A) → Ensures P (net m) (λ _ w. P w)
unfolding net
Ensures-net o m = record { at = λ w h. o.shift w (m w.trace).1 h }
