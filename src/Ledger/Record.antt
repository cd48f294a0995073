-- ===== src/Ledger/Record.antt =====
-- ledger.py: postings, attributions, entries, fingerprints, and how Python compares them.
use financial_engineering_sk.Prelude.{
  ◌≡◌, refl, ◌↔◌, Bool, true, false, List, [], String, arith, Equality, equality_via, ◌==◌,
  string_eq, int_eq, pair_eq, list_eq, eq_sound, eq_test, ap,
}
use financial_engineering_sk.Prelude.Int.{ℤ, int_beq_iff}
use financial_engineering_sk.Value.{Value, str}
use financial_engineering_sk.Prose.{Prose, value_eq}

abbrev pub cash : String
cash = "assets:cash:bank"

abbrev pub receivable : String
receivable = "assets:receivable:processor"

abbrev pub fees : String
fees = "expense:processor_fees"

abbrev pub revenue : String
revenue = "income:invoices"

abbrev pub differences : String
differences = "expense:settlement_differences"

abbrev pub suspense : String
suspense = "expense:suspense"

pub record Posting : Type 0 where
  pub account : String
  pub currency : String
  pub amount_minor : ℤ

-- A posting as a caller hands it in, its currency and amount not yet checked.
pub record PostingArg : Type 0 where
  pub account : String
  pub currency : Value
  pub amount_minor : Value

pub record Attribution : Type 0 where
  pub settlement_id : String
  pub charge_id : String
  pub batch_id : String
  pub currency : String

abbrev pub no_attribution : Attribution
no_attribution = record { settlement_id = ""; charge_id = ""; batch_id = ""; currency = "" }

-- An attribution as a caller hands it in.
pub record AttributionArg : Type 0 where
  pub settlement_id : Value
  pub charge_id : Value
  pub batch_id : Value
  pub currency : Value

-- One difference in a reconciliation break: the report, the ledger, and their difference.
pub record Delta : Type 0 where
  pub quantity : String
  pub report_minor : ℤ
  pub ledger_minor : ℤ
  pub delta_minor : ℤ

-- What an economic claim is made of: names, amounts, the deltas of a break.
pub data Claim : Type 0 where
  name : Value → Claim
  number : ℤ → Claim
  delta : Delta → Claim

-- The claim of a text.
abbrev pub text : String → Claim
text s = name (str s)

instance abbrev pub posting_eq : Equality Posting
posting_eq =
    equality_via (λ (p : Posting). (p.account, (p.currency, p.amount_minor)))
      (λ (t : String × (String × ℤ)). record {
        account = t.0;
        currency = t.1.0;
        amount_minor = t.1.1;
      })
      (λ p. refl)

instance abbrev pub attribution_eq : Equality Attribution
attribution_eq =
    equality_via (λ (a : Attribution). ((a.settlement_id, a.charge_id), (a.batch_id, a.currency)))
      (λ (t : (String × String) × (String × String)). record {
        settlement_id = t.0.0;
        charge_id = t.0.1;
        batch_id = t.1.0;
        currency = t.1.1;
      })
      (λ a. refl)

instance abbrev pub attribution_arg_eq : Equality AttributionArg
attribution_arg_eq =
    equality_via
      (λ (a : AttributionArg). ((a.settlement_id, a.charge_id), (a.batch_id, a.currency)))
      (λ (t : (Value × Value) × (Value × Value)). record {
        settlement_id = t.0.0;
        charge_id = t.0.1;
        batch_id = t.1.0;
        currency = t.1.1;
      })
      (λ a. refl)

instance abbrev pub delta_eq : Equality Delta
delta_eq =
    equality_via (λ (d : Delta). ((d.quantity, d.report_minor), (d.ledger_minor, d.delta_minor)))
      (λ (t : (String × ℤ) × (ℤ × ℤ)). record {
        quantity = t.0.0;
        report_minor = t.0.1;
        ledger_minor = t.1.0;
        delta_minor = t.1.1;
      })
      (λ d. refl)

name_path : {v w : Value} → name v ≡ name w → v ≡ w
name_path h = cc

delta_path : {d e : Delta} → delta d ≡ delta e → d ≡ e
delta_path h = cc

abbrev claim_beq : Claim → Claim → Bool
claim_beq (name v) (name w) = v == w
claim_beq (number m) (number n) = m == n
claim_beq (delta d) (delta e) = d == e
claim_beq _ _ = false

pub claim_beq_iff : (a b : Claim) → (claim_beq a b ≡ true) ↔ (a ≡ b)
claim_beq_iff (name v) (name w) = (λ h. ap name (eq_sound v w h), λ h. eq_test v w (name_path h))
claim_beq_iff (number m) (number n) =
    (λ h. ground (arith, int_beq_iff m n), λ h. ground (arith, int_beq_iff m n))
claim_beq_iff (delta d) (delta e) =
    (λ h. ap delta (eq_sound d e h), λ h. eq_test d e (delta_path h))
claim_beq_iff _ _ = (λ h. cc, λ h. cc)

instance abbrev pub claim_eq : Equality Claim
claim_eq = record { same = claim_beq; same_iff = claim_beq_iff }

-- The whole content that an effect identity answers for.
pub record Fingerprint : Type 0 where
  pub claim : List Claim
  pub kind : String
  pub reference : String
  pub postings : List Posting
  pub attribution : Attribution
  pub corrects : String
  pub break_id : String

abbrev pub content_fingerprint :
    List Claim → String → String → List Posting → Attribution → String → String → Fingerprint
content_fingerprint claim kind reference postings attribution corrects break_id = record {
  claim = claim;
  kind = kind;
  reference = reference;
  postings = postings;
  attribution = attribution;
  corrects = corrects;
  break_id = break_id;
}

instance abbrev pub fingerprint_eq : Equality Fingerprint
fingerprint_eq =
    equality_via
      (λ (f : Fingerprint).
        ((f.claim, (f.kind, f.reference)), ((f.postings, f.attribution), (f.corrects, f.break_id))))
      (λ (t : (List Claim × (String × String))
          × ((List Posting × Attribution) × (String × String))).
        record {
          claim = t.0.0;
          kind = t.0.1.0;
          reference = t.0.1.1;
          postings = t.1.0.0;
          attribution = t.1.0.1;
          corrects = t.1.1.0;
          break_id = t.1.1.1;
        })
      (λ f. refl)

pub record Entry : Type 0 where
  pub entry_id : String
  pub kind : String
  pub reference : String
  pub postings : List Posting
  pub effect_id : String
  pub fingerprint : Fingerprint
  pub attribution : Attribution
  pub memo : Prose
  pub corrects : String
  pub break_id : String

pub record Ledger : Type 0 where
  pub entries : List Entry

abbrev pub empty_ledger : Ledger
empty_ledger = record { entries = [] }
