-- ===== src/Bot/Balances.antt =====
-- safe_bot.py: the dicts of balances and shares, and the two asset holds.
use financial_engineering_sk.Prelude.{
  string_eq, int_eq, Option, none, some, String, Result, ok, err, Exec, raise_if, modify, ◌>>=◌,
  ◌>>◌, key_error, insufficient_available,
}
use financial_engineering_sk.Prelude.Dict.{Dict, lookup, insert}
use financial_engineering_sk.Prelude.Int.{ℤ, neg, ◌+ℤ◌, ◌-ℤ◌, ltb_ℤ}
use financial_engineering_sk.Bot.State.{Book, Focus, OrderRecord}

-- The dicts of the book from a name to an amount.
pub data Column : Type 0 where
  available reserved fees_paid positions locked : Column

abbrev pub column : Column → Book → Dict String ℤ
column available b = b.available
column reserved b = b.reserved
column fees_paid b = b.fees_paid
column positions b = b.positions
column locked b = b.locked

abbrev pub set_column : Column → Dict String ℤ → Book → Book
set_column available d b = record b { available = d }
set_column reserved d b = record b { reserved = d }
set_column fees_paid d b = record b { fees_paid = d }
set_column positions d b = record b { positions = d }
set_column locked d b = record b { locked = d }

abbrev pub present : Option ℤ → Result ℤ
present none = err key_error
present (some v) = ok v

-- self.<column>[key]
unfoldable pub entry : Column → String → Exec Focus ℤ
entry c key f = (present (lookup key (column c f.book)), f)

abbrev pub added : Column → String → ℤ → Option ℤ → Exec Focus Unit
added c key amount none f = (err key_error, f)
added c key amount (some v) f =
    (ok tt, record f { book = set_column c (insert key (v +ℤ amount) (column c f.book)) f.book })

-- self.<column>[key] += amount
unfoldable pub add_to : Column → String → ℤ → Exec Focus Unit
add_to c key amount f = added c key amount (lookup key (column c f.book)) f

abbrev pub take_from : Column → String → ℤ → Exec Focus Unit
take_from c key amount = add_to c key (neg amount)

abbrev pub edit : (OrderRecord → OrderRecord) → Exec Focus Unit
edit change = modify (λ (f : Focus). record f { order = change f.order })

unfoldable pub reserve : String → ℤ → Exec Focus Unit
unfolding entry add_to
reserve asset amount = do
  held ← entry available asset
  raise_if (ltb_ℤ held amount) insufficient_available
  take_from available asset amount
  add_to reserved asset amount

unfoldable pub release : String → ℤ → Exec Focus Unit
unfolding entry add_to
release asset amount = do take_from reserved asset amount; add_to available asset amount

unfoldable pub lock_shares : String → ℤ → Exec Focus Unit
unfolding entry add_to
lock_shares outcome qty = do
  held ← entry positions outcome
  taken ← entry locked outcome
  raise_if (ltb_ℤ (held -ℤ taken) qty) insufficient_available
  add_to locked outcome qty
