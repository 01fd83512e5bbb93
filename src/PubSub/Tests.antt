-- ===== src/PubSub/Tests.antt =====
-- Channels and polls on concrete messages.
use kvdb_nodejs.Prelude.{
  ℕ, ◌<◌, ◌≡◌, refl, true, [], ◌∷◌, some, Text, text_beq, codes, find_row, upsert, remove, filter,
  arith,
}
use kvdb_nodejs.Core.Failure.{ok}
use kvdb_nodejs.PubSub.{
  PubSubMessage, PubSubState, new_pub_sub, subscribe, unsubscribe, close_pub_sub, publish,
  poll_events, pub_sub_runs,
}
use kvdb_nodejs.PubSub.Once.{polls, polls_once}

abbrev news : Text
news = codes "news"

abbrev sent : ℕ → ℕ → PubSubMessage ℕ
sent at_ms payload = record {
  channel = news;
  payload = payload;
  timestamp = at_ms;
  id = payload;
  sender = 2;
}

abbrev watching : PubSubState
watching = record (new_pub_sub 1 10) {
  subscribers = (news, 7 ∷ []) ∷ [];
  listeners = (news, 7) ∷ [];
  polling = true;
}

subscribed : subscribe news 7 (new_pub_sub 1 10) ≡ ok watching
unfolding pub_sub_runs find_row upsert
subscribed = refl

unsubscribed : unsubscribe news 7 watching ≡ new_pub_sub 1 10
unfolding pub_sub_runs find_row remove filter text_beq
unsubscribed = refl

published :
    publish {P = ℕ} 20 5 news 5 watching
    ≡ (7 ∷ [], some (record { channel = news; payload = 5; timestamp = 20; id = 5; sender = 1 }), 1)
unfolding pub_sub_runs find_row filter text_beq
published = refl

closed_poll : (poll_events (sent 11 1 ∷ []) (close_pub_sub watching)).0 ≡ []
unfolding pub_sub_runs
closed_poll = refl

-- A handler that subscribed twice is one handler of its channel: after one of the two has gone, the
-- other still hears this process, but no other instance.
one_of_two :
    (unsubscribe news 7 (record watching { listeners = (news, 7) ∷ (news, 7) ∷ [] })).subscribers
    ≡ []
unfolding pub_sub_runs find_row remove filter text_beq
one_of_two = refl

-- Of two messages of one millisecond the second is lost.
polls_once_example :
    (polls ((sent 11 1 ∷ sent 11 2 ∷ []) ∷ (sent 12 3 ∷ []) ∷ []) watching
      ≡ (7, sent 11 1) ∷ (7, sent 12 3) ∷ [])
    × ((10 < 11) × ((11 < 12) × Unit {0}))
unfolding pub_sub_runs find_row text_beq filter
polls_once_example =
    polls_once watching ((sent 11 1 ∷ sent 11 2 ∷ []) ∷ (sent 12 3 ∷ []) ∷ []) refl (omega arith)
