-- ===== src/Bot/Account/Backing.antt =====
-- safe_bot.py: what is reserved of an asset, and what the orders on file hold of it.
use financial_engineering_sk.Prelude.{
  ◌≡◌, refl, sym, ap, ◌∙◌, string_eq, ◌==◌, Bool-cases, inl, inr, String, Option, none, some, [],
  ◌∷◌, Exec, ok, err≢ok,
}
use financial_engineering_sk.Prelude.Dict.{some_path, none≢some, Dict, lookup, insert}
use financial_engineering_sk.Prelude.Int.{ℤ, pos, ◌+ℤ◌, ◌-ℤ◌, int_laws}
use financial_engineering_sk.Venue.Messages.{Market, Body}
use financial_engineering_sk.Bot.State.{OrderRecord, Book, Focus}
use financial_engineering_sk.Bot.Sending.{focus_on}
use financial_engineering_sk.Bot.Fills.{on_order_event, on_bound_event}
use financial_engineering_sk.Bot.Holding.{value_or_zero}
use financial_engineering_sk.Bot.Triples.{Triple}
use financial_engineering_sk.Bot.Account.{own, Balanced}
use financial_engineering_sk.Bot.Account.Handled.{on_bound_event-Kept}

-- The sum, over the orders, of what each holds of the asset.
unfoldable pub held_by : String → Market → Dict String OrderRecord → ℤ
held_by asset m [] = pos 0
held_by asset m ((k, r) ∷ orders) = own asset m r +ℤ held_by asset m orders

-- What is reserved of the asset is what the orders hold of it, to the unit.
abbrev pub IsBacked : String → Book → Type 0
IsBacked asset b = value_or_zero (lookup asset b.reserved) ≡ held_by asset b.market b.orders

replaced : (a b t : ℤ) → b +ℤ t ≡ a +ℤ t -ℤ a +ℤ b
replaced a b t = omega int_laws

passed_by : (a b c t : ℤ) → c +ℤ (t -ℤ a +ℤ b) ≡ c +ℤ t -ℤ a +ℤ b
passed_by a b c t = omega int_laws

split_off : (t a : ℤ) → t ≡ t -ℤ a +ℤ a
split_off t a = omega int_laws

module _ (asset : String) (m : Market) where
  pub held_by-insert :
      (k : String) (r r' : OrderRecord) (orders : Dict String OrderRecord)
      → lookup k orders ≡ some r
      → held_by asset m (insert k r' orders)
        ≡ held_by asset m orders -ℤ own asset m r +ℤ own asset m r'
  unfolding held_by
  held_by-insert k r r' [] h = absurd (none≢some h)
  held_by-insert k r r' ((j, s) ∷ orders) h = elim (Bool-cases (j == k)) [
    | inl same ↦
        rw (same, ap (λ (n : OrderRecord). own asset m n) (sym (some_path (rw same at h))))
          (replaced (own asset m s) (own asset m r') (held_by asset m orders))
    | inr other ↦
        rw (other, held_by-insert k r r' orders (rw other at h))
          (passed_by (own asset m r) (own asset m r') (own asset m s) (held_by asset m orders))
  ]

  -- An order under a key that is on file.
  pub focus_on-IsBacked :
      {A : Type 0} (k : String) (rec : OrderRecord) (method : Exec Focus A) (b : Book)
      → b.market ≡ m
      → lookup k b.orders ≡ some rec
      → ((others : ℤ)
          → Triple (Balanced asset m b.orders others) method (Balanced asset m b.orders others))
      → IsBacked asset b
      → (a : A) → (focus_on k rec method b).0 ≡ ok a
      → IsBacked asset (focus_on k rec method b).1
  focus_on-IsBacked k rec method b e found stays backed a h =
      let others = held_by asset m b.orders -ℤ own asset m rec in
      let start : Focus = record { book = b; order = rec } in
      let level = backed ∙ rw e (split_off (held_by asset m b.orders) (own asset m rec)) in
      let (e', o', l') = (stays others).run start (e, refl, level) a h in
      rw (e', o', held_by-insert k rec (method start).1.order b.orders found) l'

module _ (asset : String) where
  order_event-IsBacked :
      (k id : String) (body : Body) (b : Book) (o : Option OrderRecord)
      → lookup k b.orders ≡ o
      → IsBacked asset b
      → (a : Unit {0}) → (on_order_event k id body b).0 ≡ ok a
      → IsBacked asset (on_order_event k id body b).1
  unfolding on_order_event
  order_event-IsBacked k id body b none q backed a = rw (on_order_event, q) (λ h. absurd (err≢ok h))
  order_event-IsBacked k id body b (some rec) q backed a =
      rw (on_order_event, q)
        (focus_on-IsBacked asset b.market k rec (on_bound_event id body) b refl q
          (λ others. on_bound_event-Kept asset b.market b.orders others id body) backed a)

  -- What an event of an order makes of the account.
  pub on_order_event-IsBacked :
      (k id : String) (body : Body)
      → Triple (IsBacked asset) (on_order_event k id body) (IsBacked asset)
  on_order_event-IsBacked k id body = record {
    run = λ b. order_event-IsBacked k id body b (lookup k b.orders) refl;
  }
