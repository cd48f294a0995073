-- ===== src/Bot/Intake.antt =====
-- safe_bot.py: the stream of events, its gaps, and rebuilding from the two logs.
use financial_engineering_sk.Prelude.{
  ℕ, zero, suc, ◌+◌, ◌==◌, string_eq, pair_eq, nat_eq, if◌then◌else◌, leb, ltb, length, Bool, List,
  [], ◌∷◌, Option, none, some, String, contains, sorted, text_le, Result, ok, err, Exec, pure,
  raise, ◌>>=◌, ◌>>◌, illegal_transition, sequence_anomaly,
}
use financial_engineering_sk.Prelude.Dict.{Dict, lookup, lookup_or, insert, remove}
use financial_engineering_sk.Prelude.Int.{ℤ}
use financial_engineering_sk.Venue.Messages.{
  Market, Body, order_accepted, fill_made, order_cancelled, market_determined, market_resolved,
  other, Event,
}
use financial_engineering_sk.Bot.State.{Book, SafeBot, new_bot, new_record, Authority}
use financial_engineering_sk.Bot.Holds.{hold}
use financial_engineering_sk.Bot.Sending.{focus_on}
use financial_engineering_sk.Bot.Fills.{on_order_event}
use financial_engineering_sk.Bot.Settlement.{on_determined, on_resolved}

-- SOURCE: which stream a message arrives on.
abbrev pub source : Body → Option String
source (order_accepted _ _ _ _ _ _) = some "orders"
source (fill_made _ _ _ _ _ _ _ _) = some "orders"
source (order_cancelled _ _ _) = some "orders"
source (market_determined _ _) = some "settlement"
source (market_resolved _ _ _) = some "settlement"
source (other _) = none

abbrev pub order_id_of : Body → String
order_id_of (order_accepted id _ _ _ _ _) = id
order_id_of (fill_made id _ _ _ _ _ _ _) = id
order_id_of (order_cancelled id _ _) = id
order_id_of _ = ""

-- ev.get("order_id") or ev["market_id"]
abbrev pub entity : Event → String
entity ev = if order_id_of ev.body == "" then ev.market_id else order_id_of ev.body

abbrev pub on_body : Authority → String → Body → Exec Book Unit
on_body authority market_id (order_accepted id k o s q p) =
    on_order_event k id (order_accepted id k o s q p)
on_body authority market_id (fill_made id k o s q p l fee) =
    on_order_event k id (fill_made id k o s q p l fee)
on_body authority market_id (order_cancelled id k remaining) =
    on_order_event k id (order_cancelled id k remaining)
on_body authority market_id (market_determined ns d) = on_determined authority market_id ns d
on_body authority market_id (market_resolved ns d winner) = on_resolved authority market_id ns d
on_body authority market_id (other _) = raise illegal_transition

unfoldable pub on_event : Authority → Event → Exec Book Unit
on_event authority ev = on_body authority ev.market_id ev.body

pub data Taken : Type 0 where
  duplicate stale buffered applied : Taken

-- The entity that the event is about, with its stream.
abbrev pub watermark_key : Event → String → String × String
watermark_key ev src = (src, entity ev)

abbrev pub advance : Event → String → SafeBot → SafeBot
advance ev src bot = record bot {
  watermark = insert (watermark_key ev src) ev.seq bot.watermark;
  stream_watermark = ev.seq;
  seen_events = ev.event_id ∷ bot.seen_events;
}

-- The handler's writes stay when it raises; the marks move only when it returns.
abbrev pub after_handler : Event → String → Result (Unit {0}) × Book → Exec SafeBot Unit
after_handler ev src (ok _, b) bot = (ok tt, advance ev src (record bot { book = b }))
after_handler ev src (err e, b) bot = (err e, record bot { book = b })

abbrev pub apply_from : Authority → Event → Option String → Exec SafeBot Unit
apply_from authority ev none bot = (err illegal_transition, bot)
apply_from authority ev (some src) bot =
    if leb ev.seq (lookup_or 0 (watermark_key ev src) bot.watermark)
    then (err sequence_anomaly, bot)
    else after_handler ev src (on_event authority ev bot.book) bot

unfoldable pub apply_in_order : Authority → Event → Exec SafeBot Unit
apply_in_order authority ev bot = apply_from authority ev (source ev.body) bot

-- The loop of `_drain`; each round takes one event out of `pending_events`, so their number is
-- enough fuel.
unfoldable pub drain_loop : Authority → ℕ → ℕ → Exec SafeBot ℕ
unfolding apply_in_order
drain_loop authority zero n bot = (ok n, bot)
drain_loop authority (suc fuel) n bot =
    elim (lookup (bot.stream_watermark + 1) bot.pending_events) [
      | none ↦ (ok n, bot)
      | some ev ↦
          (apply_in_order authority ev >>= λ _. drain_loop authority fuel (n + 1))
            (record bot { pending_events = remove (bot.stream_watermark + 1) bot.pending_events })
    ]

unfoldable pub drain : Authority → Exec SafeBot ℕ
drain authority bot = drain_loop authority (length bot.pending_events) 0 bot

abbrev pub apply_next : Authority → Event → Exec SafeBot Taken
apply_next authority ev = do apply_in_order authority ev; drain authority; pure applied

abbrev pub apply_new : Authority → Event → Exec SafeBot Taken
apply_new authority ev bot =
    if leb ev.seq bot.stream_watermark
    then (ok stale, record bot { seen_events = ev.event_id ∷ bot.seen_events })
    else if ltb (bot.stream_watermark + 1) ev.seq
    then (ok buffered, record bot { pending_events = insert ev.seq ev bot.pending_events })
    else apply_next authority ev bot

abbrev pub apply_known : Authority → Event → Option String → Exec SafeBot Taken
apply_known authority ev none bot = (err illegal_transition, bot)
apply_known authority ev (some _) bot =
    if contains bot.seen_events ev.event_id then (ok duplicate, bot) else apply_new authority ev bot

unfoldable pub apply_event : Authority → Event → Exec SafeBot Taken
unfolding apply_in_order drain
apply_event authority ev bot = apply_known authority ev (source ev.body) bot

unfoldable pub apply_all : Authority → List Event → Exec SafeBot Unit
unfolding apply_event
apply_all authority [] = pure tt
apply_all authority (ev ∷ evs) = do apply_event authority ev; apply_all authority evs

abbrev pub gap_before : ℕ → Dict ℕ Event → Option ℕ
gap_before next [] = none
gap_before next (_ ∷ _) = some next

unfoldable pub open_gap : SafeBot → Option ℕ
open_gap bot = gap_before (bot.stream_watermark + 1) bot.pending_events

-- The log of intents that the process owns.
pub record LoggedIntent : Type 0 where
  pub before_seq : ℕ
  pub client_key : String
  pub outcome : String
  pub side : String
  pub qty : ℤ
  pub price_micro : ℤ

abbrev intent_le : LoggedIntent → LoggedIntent → Bool
intent_le i j =
    if i.before_seq == j.before_seq
    then text_le i.client_key j.client_key
    else ltb i.before_seq j.before_seq

unfoldable pub commit : LoggedIntent → Exec SafeBot Unit
commit i bot =
    let rec = new_record i.client_key i.outcome i.side i.qty i.price_micro in
    let (r, b) = focus_on i.client_key rec hold bot.book in (r, record bot { book = b })

-- Commits the intents that come before this number, and returns the others.
unfoldable pub commit_due : ℕ → List LoggedIntent → Exec SafeBot (List LoggedIntent)
unfolding commit
commit_due seq [] = pure []
commit_due seq (i ∷ pending) =
    let rest = commit i >> commit_due seq pending in
    if leb i.before_seq seq then rest else pure (i ∷ pending)

unfoldable pub commit_rest : List LoggedIntent → Exec SafeBot Unit
unfolding commit
commit_rest [] = pure tt
commit_rest (i ∷ pending) = do commit i; commit_rest pending

unfoldable pub replay_logs : Authority → List LoggedIntent → List Event → Exec SafeBot Unit
unfolding commit_due commit_rest apply_event
replay_logs authority pending [] = commit_rest pending
replay_logs authority pending (ev ∷ evs) =
    commit_due ev.seq pending >>= λ rest. apply_event authority ev >> replay_logs authority rest evs

unfoldable pub rebuild :
    Market → Authority → List Event → List LoggedIntent → Result (Unit {0}) × SafeBot
unfolding replay_logs
rebuild market authority events intents =
    replay_logs authority (sorted intent_le intents) events (new_bot market)
