-- ===== src/Stream.antt =====
-- pkg/stream/producer.go: `NewKafkaProducer`, `SendMessage` and `Close`. Marshalling the program's
-- events and tasks cannot fail, so the message comes as its JSON.
use belajar_backend_go_v.Base.{true, Option, List, String}
use belajar_backend_go_v.Json.{Json, json}
use belajar_backend_go_v.Services.{GoError, Broker}
use belajar_backend_go_v.Process.{
  Run, ◌>>◌, call, fatal_if, ProducerConfig, new_producer, close_producer,
}

-- `sarama.WaitForAll` is -1 in the protocol.
unfoldable pub producer_config : ProducerConfig
producer_config = record { return_successes = true; wait_for_all = true; retry_max = 5 }

-- `sarama_error` is the error of `sarama.NewSyncProducer`.
unfoldable pub new_kafka_producer : (List String → Option GoError) → List String → Run (Unit {0})
unfolding producer_config
new_kafka_producer sarama_error brokers = do
  call (new_producer producer_config brokers)
  fatal_if (sarama_error brokers)

unfoldable pub close : Run (Unit {0})
close = call close_producer

unfoldable pub send_message : (B : Broker) → String → String → Json → B.Log → Option GoError × B.Log
send_message B topic key message log =
    B.send (record { topic = topic; key = key; value = json message }) log
