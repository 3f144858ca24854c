-- ===== src/Kafka/Producer.antt =====
-- internal/kafka/kafka.go: the topics and the producer. The broker is a parameter: for each message it
-- answers whether it took it, after the attempts that the writer makes.
use nexus_dispatch.Prelude.{ℕ, ◌*◌, Option, none, some, List, [], ◌∷◌, ◌++◌, String}

abbrev pub topic_driver_location : String
topic_driver_location = "driver-location"

abbrev pub topic_ride_requested : String
topic_ride_requested = "ride-requested"

abbrev pub topic_driver_reserved : String
topic_driver_reserved = "driver-reserved"

abbrev pub topic_dispatch_created : String
topic_dispatch_created = "dispatch-created"

abbrev pub topic_ride_status : String
topic_ride_status = "ride-status"

abbrev pub topic_driver_status : String
topic_driver_status = "driver-status"

abbrev pub topic_dead_letter : String
topic_dead_letter = "nexus-dead-letter"

-- `AllTopics`
unfoldable pub all_topics : List String
all_topics =
    topic_driver_location ∷ topic_ride_requested ∷ topic_driver_reserved ∷ topic_dispatch_created
    ∷ topic_ride_status ∷ topic_driver_status ∷ topic_dead_letter ∷ []

-- `TopicSpec`, with the retention in hours.
pub record TopicSpec : Type 0 where
  pub name : String
  pub partitions : ℕ
  pub retention : ℕ
  pub key_hint : String

abbrev spec : String → ℕ → ℕ → String → TopicSpec
spec name partitions retention key = record {
  name = name;
  partitions = partitions;
  retention = retention;
  key_hint = key;
}

-- `TopicSpecs`
unfoldable pub topic_specs : List TopicSpec
topic_specs =
    spec topic_driver_location 12 1 "driver_id"
    ∷ spec topic_ride_requested 8 1 "ride_id"
    ∷ spec topic_driver_reserved 12 24 "driver_id"
    ∷ spec topic_dispatch_created 8 24 "ride_id"
    ∷ spec topic_ride_status 8 24 "ride_id"
    ∷ spec topic_driver_status 12 24 "driver_id"
    ∷ spec topic_dead_letter 3 (7 * 24) "original key"
    ∷ []

-- A message on its way to the broker.
pub record Record : Type 0 where
  pub topic : String
  pub key : String
  pub value : String
  pub headers : List (String × String)

-- `kafka.WriterConfig`, as `NewProducer` fills it, with times in milliseconds.
pub record Producer : Type 0 where
  pub brokers : List String
  pub batch_size : ℕ
  pub max_attempts : ℕ
  pub write_timeout : ℕ
  pub read_timeout : ℕ
  pub queue_capacity : ℕ

-- `NewProducer`; none is its error
unfoldable pub new_producer : List String → Option Producer
new_producer [] = none
new_producer (b ∷ bs) = some (record {
  brokers = b ∷ bs;
  batch_size = 100;
  max_attempts = 4;
  write_timeout = 10000;
  read_timeout = 10000;
  queue_capacity = 10000;
})

module _ {E : Type 0} (takes : Record → Option E) where
  -- `WriteMessages` of one message: the log of the broker, and the error.
  abbrev write : Record → List Record → List Record × Option E
  write r log = elim (takes r) [ none ↦ (log ++ r ∷ [], none) | some e ↦ (log, some e) ]

  -- `PublishWithHeaders`, with the headers in the order in which the map is read.
  unfoldable pub publish_with_headers :
      String → String → String → List (String × String) → List Record → List Record × Option E
  publish_with_headers topic key value headers =
      write (record { topic = topic; key = key; value = value; headers = headers })

  -- `Publish`; its error names the topic and the key and wraps this one.
  unfoldable pub publish :
      String → String → String → List Record → List Record × Option (String × String × E)
  publish topic key value log =
      let (log', e) =
        (write (record { topic = topic; key = key; value = value; headers = [] }) log) in
      (log', elim e [ none ↦ none | some x ↦ some (topic, key, x) ])
