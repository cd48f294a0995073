-- ===== src/Store/Breaks.antt =====
-- The register of breaks.
use financial_engineering_sk.Prelude.{◌≡◌, refl, ◌∙◌, List, [], ◌∷◌, some, String, string_eq}
use financial_engineering_sk.Prelude.Dict.{lookup, set_default, lookup-set_default}
use financial_engineering_sk.Reconcile.Break.{Break, BreakContent, break_id}
use financial_engineering_sk.Store.Record.{BreakRecord, Store}
use financial_engineering_sk.Store.{record_breaks}

module _ (digest : BreakContent → String) where
  -- A break that is on file stays as it is, open or closed, whatever a reconciliation finds.
  pub record_breaks_keeps :
      (breaks : List Break) (s : Store) (id : String) (r : BreakRecord)
      → lookup id s.breaks ≡ some r
      → lookup id (record_breaks digest breaks s).breaks ≡ some r
  unfolding record_breaks
  record_breaks_keeps [] s id r h = h
  record_breaks_keeps (b ∷ breaks) s id r h =
      record_breaks_keeps breaks (record s { breaks = set_default (break_id digest b) _ s.breaks })
        id r (lookup-set_default (break_id digest b) id _ s.breaks ∙ rw h refl)
