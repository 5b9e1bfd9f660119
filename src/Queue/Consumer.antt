-- ===== src/Queue/Consumer.antt =====
-- packages/queue-sync/src/index.ts: consumeMessage, consumePersistMessage and consumeAiMessage,
-- which have the same code. A call runs up to the handler's `await` at once and ends later; other
-- messages are consumed in between, as many as the prefetch count lets through.
use canvassync.Prelude.{ℕ, ◌+◌, Bool, not, none, some, List, [], ◌∷◌, ◌++◌, if◌then◌else◌, nat_key}
use canvassync.JsMap
use canvassync.JsMap.{JsMap}

-- A message's content: no JSON, none that the schema lets through, or a job.
pub data Content (J : Type 0) : Type 0 where
  not_json invalid : Content J
  valid : J → Content J

-- A handler over a state: whether it is done before its first `await`, and what it comes to after
-- it, false for an exception, by the answer of what it waits for.
pub record Handler (S J : Type 0) : Type 0 where
  pub returns_early : J → S → Bool
  pub resume : (accepted : Bool) → J → S → Bool × S

-- `running` has the messages whose handlers wait. A message is its delivery tag.
pub record Consumer (S J : Type 0) : Type 0 where
  pub state : S
  pub has_channel : Bool
  pub running : JsMap ℕ J
  pub acked : List ℕ
  pub requeued : List ℕ
  pub unhandled_rejections : ℕ

module _ {S J : Type 0} where
  -- channel.ack(message)
  abbrev pub ack : ℕ → Consumer S J → Consumer S J
  ack tag c = record c { acked = c.acked ++ tag ∷ [] }

  -- channel.nack(message, false, true)
  abbrev pub nack : ℕ → Consumer S J → Consumer S J
  nack tag c = record c { requeued = c.requeued ++ tag ∷ [] }

  -- Without a channel, both calls throw, and nothing awaits the consumer.
  abbrev pub answer : ℕ → Bool → Consumer S J → Consumer S J
  answer tag ok c =
      if not c.has_channel
      then record c { unhandled_rejections = c.unhandled_rejections + 1 }
      else if ok
      then ack tag c
      else nack tag c

  abbrev pub start_handler : Handler S J → ℕ → J → Consumer S J → Consumer S J
  start_handler h tag job c =
      if h.returns_early job c.state
      then ack tag c
      else record c { running = JsMap.set c.running tag job }

  abbrev pub read_content : Handler S J → ℕ → Content J → Consumer S J → Consumer S J
  read_content h tag not_json c = ack tag c
  read_content h tag invalid c = ack tag c
  read_content h tag (valid job) c = start_handler h tag job c

  unfoldable pub consume_message : Handler S J → ℕ → Content J → Consumer S J → Consumer S J
  consume_message h tag content c = if not c.has_channel then c else read_content h tag content c

  -- The handler of the message goes on, and the message is answered.
  unfoldable pub end_message : Handler S J → ℕ → (accepted : Bool) → Consumer S J → Consumer S J
  end_message h tag accepted c = elim (JsMap.get c.running tag) [
    | none ↦ c
    | some job ↦
        let (ok, state) = h.resume accepted job c.state in
        answer tag ok (record c { state = state; running = JsMap.delete c.running tag })
  ]
