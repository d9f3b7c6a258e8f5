-- ===== src/Application/Both.antt =====
-- A producer and a consumer that exist side by side: what each owns, and that they share nothing.
use kafka_client.Base.{ℕ, ◌≡◌, Option}
use kafka_client.Kafka.{Trace}
use kafka_client.Ownership.{Holds, Live, Apart, Apart-sym}
use kafka_client.Producer.State.{KafkaProducer}
use kafka_client.Consumer.State.{KafkaConsumer}

-- The consumer's objects beside `s`.
abbrev pub Beside : KafkaConsumer → Option ℕ → Trace → Type 0
Beside c s tr = Holds c.consumer c.global_conf s tr

-- The producer's objects `o`, `g` and `k`, and the consumer's objects `o'` and `g'`.
pub record Separate (o g k o' g' : Option ℕ) (tr : Trace) : Type 0 where
  pub owns : Holds o g k tr
  pub object : Holds o' g' o tr
  pub configuration : Holds o' g' g tr
  pub callback : Holds o' g' k tr

abbrev pub Both : KafkaProducer → KafkaConsumer → Trace → Type 0
Both p c tr =
    Separate p.producer p.global_conf p.producer_callback.send_callback c.consumer c.global_conf tr

-- An operation of the consumer that leaves whatever stands beside it.
pub Both-consumer :
    (p : KafkaProducer) (c c' : KafkaConsumer) (tr tr' : Trace)
    → ((s : Option ℕ) → Beside c s tr → Beside c' s tr')
    → Both p c tr
    → Both p c' tr'
Both-consumer p c c' tr tr' op b =
    let object = op (p.producer) b.object in
    let configuration = op (p.global_conf) b.configuration in
    let callback = op (p.producer_callback.send_callback) b.callback in
    record {
      owns = record {
        safe = object.safe;
        numbered = object.numbered;
        live_o = object.live_s;
        live_c = configuration.live_s;
        live_s = callback.live_s;
        apart_oc = b.owns.apart_oc;
        apart_os = b.owns.apart_os;
        apart_cs = b.owns.apart_cs;
      };
      object = object;
      configuration = configuration;
      callback = callback;
    }

-- An operation of the producer that leaves whatever stands beside it, and its callback.
pub Both-producer :
    (p p' : KafkaProducer) (c : KafkaConsumer) (tr tr' : Trace)
    → ((s : Option ℕ)
        → Holds p.producer p.global_conf s tr
        → Holds p'.producer p'.global_conf s tr')
    → p'.producer_callback ≡ p.producer_callback
    → Both p c tr
    → Both p' c tr'
Both-producer p p' c tr tr' op same b =
    let object = op c.consumer (
      beside b.object.live_o (Apart-sym _ _ b.object.apart_os)
        (Apart-sym _ _ b.configuration.apart_os)) in
    let configuration = op (c.global_conf) (
      beside b.object.live_c (Apart-sym _ _ b.object.apart_cs)
        (Apart-sym _ _ b.configuration.apart_cs)) in
    let callback = op (p.producer_callback.send_callback) b.owns in
    record {
      owns = rw same callback;
      object = record {
        safe = object.safe;
        numbered = object.numbered;
        live_o = object.live_s;
        live_c = configuration.live_s;
        live_s = object.live_o;
        apart_oc = b.object.apart_oc;
        apart_os = Apart-sym _ _ object.apart_os;
        apart_cs = Apart-sym _ _ configuration.apart_os;
      };
      configuration = record {
        safe = object.safe;
        numbered = object.numbered;
        live_o = object.live_s;
        live_c = configuration.live_s;
        live_s = object.live_c;
        apart_oc = b.object.apart_oc;
        apart_os = Apart-sym _ _ object.apart_cs;
        apart_cs = Apart-sym _ _ configuration.apart_cs;
      };
      callback = rw same (record {
        safe = object.safe;
        numbered = object.numbered;
        live_o = object.live_s;
        live_c = configuration.live_s;
        live_s = callback.live_s;
        apart_oc = b.object.apart_oc;
        apart_os = b.callback.apart_os;
        apart_cs = b.callback.apart_cs;
      });
    }
  where
    beside :
        {s : Option ℕ}
        → Live s tr
        → Apart p.producer s
        → Apart p.global_conf s
        → Holds p.producer p.global_conf s tr
    beside live apart_o apart_c = record {
      safe = b.owns.safe;
      numbered = b.owns.numbered;
      live_o = b.owns.live_o;
      live_c = b.owns.live_c;
      live_s = live;
      apart_oc = b.owns.apart_oc;
      apart_os = apart_o;
      apart_cs = apart_c;
    }
