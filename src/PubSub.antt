-- ===== src/PubSub.antt =====
-- src/pubsub/pubsub.ts: channels, their subscribers in this process, and the poll for the messages of
-- other instances. The find of the event table is an argument, and a handler is a number.
pub mod Once
mod Tests
use kvdb_nodejs.Prelude.{
  ℕ, zero, suc, ◌≡◌, refl, Bool, true, false, ◌&&◌, ◌||◌, not, List, [], ◌∷◌, ◌++◌, map, Option,
  none, some, Text, text_keys, number_keys, ◌==◌, if◌then◌else◌, eqb, ltb, length, filter, find_row,
  upsert, remove, get_or,
}
use kvdb_nodejs.Core.Failure.{Result, ok, err, plain_error}

pub record PubSubMessage (P : Type 0) : Type 0 where
  pub channel : Text
  pub payload : P
  pub timestamp : ℕ
  pub id : ℕ
  pub sender : ℕ

-- `subscribers` is `channelSubscribers`, `listeners` are those of `localBus` in their order, with
-- their handlers, and `polling` says that the timer is set.
pub record PubSubState : Type 0 where
  pub instance_id : ℕ
  pub subscribers : List (Text × List ℕ)
  pub listeners : List (Text × ℕ)
  pub last_processed : ℕ
  pub polling : Bool
  pub is_closed : Bool

abbrev pub new_pub_sub : ℕ → ℕ → PubSubState
new_pub_sub instance_id now = record {
  instance_id = instance_id;
  subscribers = [];
  listeners = [];
  last_processed = now;
  polling = false;
  is_closed = false;
}

-- `Set.prototype.add` and `delete`
unfoldable pub add_handler : ℕ → List ℕ → List ℕ
add_handler h [] = h ∷ []
add_handler h (x ∷ xs) = let rest = add_handler h xs in if eqb x h then x ∷ xs else x ∷ rest

unfoldable pub delete_handler : ℕ → List ℕ → List ℕ
delete_handler h xs = filter (λ x. not (eqb x h)) xs

-- `EventEmitter.prototype.off` for one listener.
unfoldable pub off : Text → ℕ → List (Text × ℕ) → List (Text × ℕ)
off channel h [] = []
off channel h ((c, x) ∷ ls) =
    let rest = off channel h ls in if (c == channel) && eqb x h then ls else (c, x) ∷ rest

unfoldable pub handlers_of : Text → PubSubState → List ℕ
handlers_of channel s = get_or [] (find_row channel s.subscribers)

unfoldable pub subscribe : Text → ℕ → PubSubState → Result PubSubState
unfolding handlers_of
subscribe channel h s =
    if s.is_closed
    then err (plain_error "PubSubManager has been closed")
    else ok (record s {
      subscribers = upsert channel (add_handler h (handlers_of channel s)) s.subscribers;
      listeners = s.listeners ++ ((channel, h) ∷ []);
      polling = true;
    })

abbrev pub kept_handlers : Text → List ℕ → List (Text × List ℕ) → List (Text × List ℕ)
kept_handlers channel [] subscribers = remove channel subscribers
kept_handlers channel (h ∷ hs) subscribers = upsert channel (h ∷ hs) subscribers

abbrev pub without_handler :
    Text → ℕ → Option (List ℕ) → List (Text × List ℕ) → List (Text × List ℕ)
without_handler channel h none subscribers = subscribers
without_handler channel h (some hs) subscribers =
    kept_handlers channel (delete_handler h hs) subscribers

unfoldable pub unsubscribe : Text → ℕ → PubSubState → PubSubState
unsubscribe channel h s =
    let left = without_handler channel h (find_row channel s.subscribers) s.subscribers in
    record s {
      subscribers = left;
      listeners = off channel h s.listeners;
      polling = s.polling && not (eqb (length left) 0);
    }

unfoldable pub close_pub_sub : PubSubState → PubSubState
close_pub_sub s = record s { subscribers = []; listeners = []; polling = false; is_closed = true }

module _ {P : Type 0} where
  -- `publish`: the handlers that are called in this process, the message that goes to the event table,
  -- and the number that it returns. The id is the time with a random part.
  unfoldable pub publish : ℕ → ℕ → Text → P → PubSubState → List ℕ × Option (PubSubMessage P) × ℕ
  publish now id channel payload s = if s.is_closed then ([], none, 0) else (
    map (λ l. l.1) (filter (λ l. l.0 == channel) s.listeners),
    some (record {
      channel = channel;
      payload = payload;
      timestamp = now;
      id = id;
      sender = s.instance_id;
    }),
    length (handlers_of channel s),
  )

  -- The calls of handlers for a message of another instance.
  unfoldable pub deliver : PubSubState → PubSubMessage P → List (ℕ × PubSubMessage P)
  deliver s m =
      if eqb m.sender s.instance_id then [] else map (λ h. (h, m)) (handlers_of m.channel s)

  -- The loop of `pollEvents`: the calls, and `lastProcessedTimestamp` after it.
  unfoldable pub poll_loop :
      PubSubState → ℕ → List (PubSubMessage P) → List (ℕ × PubSubMessage P) × ℕ
  poll_loop s last [] = ([], last)
  poll_loop s last (m ∷ ms) =
      let skipped = poll_loop s last ms in
      let later = poll_loop s m.timestamp ms in
      if ltb last m.timestamp then (deliver s m ++ later.0, later.1) else skipped

  -- `found` is what `find` answers for messages after `lastProcessedTimestamp`.
  unfoldable pub poll_events :
      List (PubSubMessage P) → PubSubState → List (ℕ × PubSubMessage P) × PubSubState
  poll_events found s =
      if s.is_closed || eqb (length s.subscribers) 0
      then ([], s)
      else (let r = poll_loop s s.last_processed found in (r.0, record s { last_processed = r.1 }))

unfoldable pub pub_sub_runs : Unit {0}
unfolding add_handler delete_handler off handlers_of subscribe unsubscribe close_pub_sub publish
    deliver poll_loop poll_events
pub_sub_runs = tt
