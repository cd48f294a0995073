-- ===== src/Bot/Reached.antt =====
-- safe_bot.py: the states that submissions, questions, intents from the log and events lead to.
use financial_engineering_sk.Prelude.{
  ◌≡◌, refl, String, string_eq, ◌==◌, if◌then◌else◌, Bool, true, false, none, some, ok,
}
use financial_engineering_sk.Bot.Holding.{value_or_zero}
use financial_engineering_sk.Prelude.Dict.{lookup}
use financial_engineering_sk.Prelude.Int.{ℤ, pos}
use financial_engineering_sk.Venue.Messages.{Market, OrderRequest, Event}
use financial_engineering_sk.Venue.State.{FakeVenue}
use financial_engineering_sk.Bot.State.{SafeBot, new_bot, Authority}
use financial_engineering_sk.Bot.Holds.{hold}
use financial_engineering_sk.Bot.Sending.{Sent, Desk, submit, reconcile_unknown}
use financial_engineering_sk.Bot.Intake.{Taken, apply_event, LoggedIntent, commit}
use financial_engineering_sk.Bot.Account.Unwound.{hold-Triple}
use financial_engineering_sk.Bot.Account.Backing.{held_by, IsBacked}
use financial_engineering_sk.Bot.Account.Fresh.{fresh-IsBacked}
use financial_engineering_sk.Bot.Account.Submitted.{submit-Covered, reconcile_unknown-Covered}
use financial_engineering_sk.Bot.Account.Reserves.{apply_event-Backed}

-- The bot at its desk, with a venue in any state.
abbrev pub desk : SafeBot → FakeVenue → Desk
desk bot venue = record { book = bot.book; venue = venue }

abbrev pub left_by : {A : Type 0} → SafeBot → A × Desk → SafeBot
left_by bot (_, d) = record bot { book = d.book }

-- The states of a bot that a run leads to, each step of which returns.
pub data Reached (sign_request : OrderRequest → String) : SafeBot → Type 0 where
  started : (market : Market) → Reached sign_request (new_bot market)
  submitted :
      (bot : SafeBot) (venue : FakeVenue) (client_key outcome side : String) (qty price : ℤ)
      (answer : Sent)
      → Reached sign_request bot
      → (submit sign_request client_key outcome side qty price (desk bot venue)).0 ≡ ok answer
      → Reached sign_request
          (left_by bot (submit sign_request client_key outcome side qty price (desk bot venue)))
  asked :
      (bot : SafeBot) (venue : FakeVenue) (client_key : String) (answer : Sent)
      → Reached sign_request bot
      → (reconcile_unknown sign_request client_key (desk bot venue)).0 ≡ ok answer
      → Reached sign_request
          (left_by bot (reconcile_unknown sign_request client_key (desk bot venue)))
  committed :
      (bot : SafeBot) (intent : LoggedIntent)
      → Reached sign_request bot
      → lookup intent.client_key bot.book.orders ≡ none
      → (commit intent bot).0 ≡ ok tt
      → Reached sign_request (commit intent bot).1
  delivered :
      (bot : SafeBot) (authority : Authority) (event : Event) (taken : Taken)
      → Reached sign_request bot
      → (apply_event authority event bot).0 ≡ ok taken
      → Reached sign_request (apply_event authority event bot).1

no_reserve :
    (a b : Bool)
    → value_or_zero (if a then some (pos 0) else (if b then some (pos 0) else none)) ≡ pos 0
no_reserve true b = refl
no_reserve false true = refl
no_reserve false false = refl

module _ (sign_request : OrderRequest → String) (asset : String) where
  start-IsBacked : (market : Market) → IsBacked asset (new_bot market).book
  unfolding held_by
  start-IsBacked market = no_reserve ("FUSD" == asset) ("FPOINT" == asset)

  -- Whatever the venues answer, and whatever events arrive in whatever order: after any run of
  -- submissions, questions about orders whose answer was lost, intents committed under a key that is
  -- not on file, and deliveries of events, each of which returns, what the bot has reserved of any
  -- asset is the sum of what its orders on file hold of it, as collateral and for their fees.
  pub Reached-IsBacked : {bot : SafeBot} → Reached sign_request bot → IsBacked asset bot.book
  unfolding commit
  Reached-IsBacked (started market) = start-IsBacked market
  Reached-IsBacked (submitted bot venue k o s q p answer r e) =
      (submit-Covered asset sign_request k o s q p).run (desk bot venue) (Reached-IsBacked r) answer
        e
  Reached-IsBacked (asked bot venue k answer r e) =
      (reconcile_unknown-Covered asset sign_request k).run (desk bot venue) (Reached-IsBacked r)
        answer e
  Reached-IsBacked (committed bot i r fresh e) =
      fresh-IsBacked asset i.client_key i.outcome i.side i.qty i.price_micro hold bot.book fresh
        (λ others. hold-Triple asset bot.book.market bot.book.orders others) (Reached-IsBacked r) tt
        e
  Reached-IsBacked (delivered bot authority event taken r e) =
      (apply_event-Backed asset authority event).run bot (Reached-IsBacked r) taken e
