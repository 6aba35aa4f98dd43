-- ===== src/Broker/Tests.antt =====
-- Two subscribers on two channels, and the theorem about brokers at them.
use vortexkv.Prelude.{◌==◌, ◌≡◌, not, ◌&&◌, ◌||◌, [], ◌∷◌, bytes, bytes_key, bytes_eq, refl}
use vortexkv.Map.{Distinct, lookup}
use vortexkv.Broker.{Broker, subscribe, unsubscribe, unsubscribe_all}
use vortexkv.Broker.View.{listens, listens_lem}

abbrev busy : Broker
busy = record {
  subscribers = (bytes "news", (1, tt) ∷ (2, tt) ∷ []) ∷ (bytes "jobs", (2, tt) ∷ []) ∷ [];
}

busy-Distinct : Distinct busy.subscribers
unfolding lookup bytes_eq
busy-Distinct = (refl, (refl, tt))

listens_lem_example :
    (listens (bytes "jobs") 2 (subscribe (bytes "jobs") 1 busy)
      ≡ ((bytes_eq (bytes "jobs") (bytes "jobs") && 1 == 2) || listens (bytes "jobs") 2 busy))
    × (listens (bytes "jobs") 2 (unsubscribe (bytes "jobs") 1 busy)
        ≡ (not (bytes_eq (bytes "jobs") (bytes "jobs") && 1 == 2) && listens (bytes "jobs") 2 busy))
    × (listens (bytes "jobs") 2 (unsubscribe_all 1 busy)
        ≡ (not (1 == 2) && listens (bytes "jobs") 2 busy))
listens_lem_example = listens_lem (bytes "jobs") (bytes "jobs") 1 2 busy busy-Distinct
