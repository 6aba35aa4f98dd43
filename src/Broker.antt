-- ===== src/Broker.antt =====
-- internal/pubsub/broker.go: who listens to which channel. A subscriber, a Go channel, is its address; a
-- method is what it does under the broker's lock.
pub mod View
pub mod Channels
mod Tests
use vortexkv.Prelude.{
  ℕ, suc, ◌+◌, Bool, true, false, Option, none, some, List, [], ◌∷◌, Bytes, bytes_key, nat_eq,
  length, if◌then◌else◌,
}
use vortexkv.Map.{Map, lookup, insert, delete, is_some}

abbrev pub Subscribers : Type 0
Subscribers = Map ℕ Unit

pub record Broker : Type 0 where
  pub subscribers : Map Bytes Subscribers

unfoldable pub new_broker : Broker
new_broker = record { subscribers = [] }

abbrev pub subs_or_none : Option Subscribers → Subscribers
subs_or_none none = []
subs_or_none (some subs) = subs

unfoldable pub subscribe : Bytes → ℕ → Broker → Broker
subscribe channel sub b =
    let table =
      if is_some (lookup channel b.subscribers)
      then b.subscribers
      else insert channel [] b.subscribers in
    record b {
      subscribers = insert channel (insert sub tt (subs_or_none (lookup channel table))) table;
    }

abbrev pub is_empty_set : Subscribers → Bool
is_empty_set [] = true
is_empty_set (s ∷ ss) = false

unfoldable pub unsubscribe_found : Bytes → ℕ → Option Subscribers → Broker → Broker
unsubscribe_found channel sub none b = b
unsubscribe_found channel sub (some subs) b =
    let left = delete sub subs in
    record b {
      subscribers =
          if is_empty_set left
          then delete channel b.subscribers
          else insert channel left b.subscribers;
    }

unfoldable pub unsubscribe : Bytes → ℕ → Broker → Broker
unfolding unsubscribe_found
unsubscribe channel sub b = unsubscribe_found channel sub (lookup channel b.subscribers) b

-- The loop of `UnsubscribeAll`.
unfoldable pub without : ℕ → Map Bytes Subscribers → Map Bytes Subscribers
without sub [] = []
without sub ((channel, subs) ∷ m) =
    let left = delete sub subs in
    let later = without sub m in if is_empty_set left then later else (channel, left) ∷ later

unfoldable pub unsubscribe_all : ℕ → Broker → Broker
unfolding without
unsubscribe_all sub b = record b { subscribers = without sub b.subscribers }

-- `Publish`, with whether a subscriber's buffer has room: it goes to those that have, and the answer is
-- how many they are.
unfoldable pub delivered : (ℕ → Bool) → Subscribers → ℕ
delivered has_room [] = 0
delivered has_room ((sub, u) ∷ subs) =
    let later = delivered has_room subs in if has_room sub then suc later else later

unfoldable pub publish : (ℕ → Bool) → Bytes → Broker → ℕ
unfolding delivered
publish has_room channel b = elim (lookup channel b.subscribers) [
  | none ↦ 0
  | some subs ↦ delivered has_room subs
]

unfoldable pub num_subscribers : Bytes → Broker → ℕ
num_subscribers channel b = elim (lookup channel b.subscribers) [
  | none ↦ 0
  | some subs ↦ length subs
]
