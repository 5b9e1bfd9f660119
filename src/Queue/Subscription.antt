-- ===== src/Queue/Subscription.antt =====
-- packages/queue-sync/src/index.ts: the subscriptions, each with its connection, its channel and the
-- timer that subscribes again. The three of them have the same code, and one is modelled; the room
-- events differ in that their queue carries the node's name. The broker accepts every call here.
use canvassync.Prelude.{
  ℕ, ◌+◌, Bool, true, false, not, ◌||◌, Option, none, some, if◌then◌else◌, ◌≡◌, arith,
}

-- `consumers` counts the consumers that the broker has for the process.
pub record Subscription (H : Type 0) : Type 0 where
  pub has_connection : Bool
  pub has_channel : Bool
  pub consumer_tag : Option ℕ
  pub handler : Option H
  pub reconnect : Option H
  pub consumers : ℕ

module _ {H : Type 0} where
  -- The first connection of createPersistSubscriberChannel and its siblings.
  abbrev create_channel : Subscription H → Subscription H
  create_channel s = record s { has_connection = true; has_channel = true }

  abbrev consume : ℕ → Subscription H → Subscription H
  consume tag s = elim s.consumer_tag [
    | some t ↦ s
    | none ↦ record s { consumer_tag = some tag; consumers = s.consumers + 1 }
  ]

  -- subscribeRoomPersistJobs: `tag` is the consumer tag that the broker would give.
  unfoldable pub subscribe_jobs : (tag : ℕ) → H → Subscription H → Subscription H
  subscribe_jobs tag handler s =
      let s' : Subscription H = record s { handler = some handler } in
      consume tag (if not s'.has_connection || not s'.has_channel then create_channel s' else s')

  -- schedulePersistResubscribe, which clears a timer that is set.
  abbrev schedule_resubscribe : Option H → Subscription H → Subscription H
  schedule_resubscribe none s = s
  schedule_resubscribe (some handler) s = record s { reconnect = some handler }

  -- connection.on("close"), with the end of the broker's consumer.
  unfoldable pub connection_closed : Subscription H → Subscription H
  connection_closed s =
      schedule_resubscribe s.handler (record s {
        has_connection = false;
        has_channel = false;
        consumer_tag = none;
        consumers = 0;
      })

  -- The callback of the timer.
  unfoldable pub fire_reconnect : (tag : ℕ) → Subscription H → Subscription H
  unfolding subscribe_jobs
  fire_reconnect tag s = elim s.reconnect [
    | none ↦ s
    | some handler ↦ subscribe_jobs tag handler (record s { reconnect = none })
  ]

  -- closeDurableRoomEventBus up to the calls of close ...
  unfoldable pub begin_close : Subscription H → Subscription H
  begin_close s =
      let s' : Subscription H = record s { reconnect = none } in
      elim s.consumer_tag [
        | none ↦ s'
        | some tag ↦ if s.has_channel then record s' { consumer_tag = none; consumers = 0 } else s'
      ]

  -- ... and from there on.
  unfoldable pub finish_close : Subscription H → Subscription H
  finish_close s = record s {
    has_connection = false;
    has_channel = false;
    consumer_tag = none;
    handler = none;
  }

  -- One consumer if there is a consumer tag, and none otherwise.
  abbrev IsSingle : Subscription H → Type 0
  IsSingle s = elim s.consumer_tag [ none ↦ s.consumers ≡ 0 | some tag ↦ s.consumers ≡ 1 ]

  subscribe_jobs-IsSingle :
      (tag : ℕ) (handler : H) (s : Subscription H)
      → IsSingle s
      → IsSingle (subscribe_jobs tag handler s)
  unfolding subscribe_jobs
  subscribe_jobs-IsSingle tag handler s single = ground arith

  connection_closed-IsSingle : (s : Subscription H) → IsSingle (connection_closed s)
  unfolding connection_closed
  connection_closed-IsSingle s = ground arith

  fire_reconnect-IsSingle :
      (tag : ℕ) (s : Subscription H) → IsSingle s → IsSingle (fire_reconnect tag s)
  unfolding fire_reconnect
  fire_reconnect-IsSingle tag s single = ground arith

  -- The close of a subscribed connection sets the timer again, and the process subscribes after it
  -- has closed the bus.
  closed_and_subscribed :
      (tag : ℕ) (handler : H) (s : Subscription H)
      → s.handler ≡ some handler
      → (fire_reconnect tag (finish_close (connection_closed (begin_close s)))).consumers ≡ 1
  unfolding fire_reconnect finish_close connection_closed begin_close
  closed_and_subscribed tag handler s subscribed = ground arith
