-- ===== src/Lib.antt =====
-- A model of a C++ client of Kafka, a layer of two classes over librdkafka, and of what makes it
-- correct: which calls of the library it makes, in which order and with which data, that the
-- objects it gets from the library are used only while they exist, and what goes wrong where.
--
-- Parts and files. The paths are those of the repository.
--   KafkaMessage, ReceivedMessage: the two classes of KafkaMessage.h and KafkaMessage.cpp, a
--     message to send and a message received; `getKey` is `get_key`, and so on.
--   Callback/Delivery: ProducerCallback.cpp. It has one object that hears of deliveries, which it
--     owns; `dr_cb` picks the method by the status of the message (ProducerISendCallback.h).
--   Callback/DefaultSend: ProducerDefaultSendCallback.cpp. Callback/Events: ProducerEventCallback.cpp.
--   Config: the loop over the caller's properties, which is in both `_setProducerConfiguration` of
--     KafkaProducer.cpp and `_setConsumerConfiguration` of KafkaConsumer.cpp.
--   Producer: KafkaProducer.h and KafkaProducer.cpp. State has the members, the constructor and
--     the setters; Configure `_setProducerConfiguration`; Clock `getNowTimeString` and the
--     timestamp; Uuid `_getRandomUUID`; Headers `_createKafkaHeader`; Send `send`; Lifecycle
--     `initKafka`, `pollEvent`, `closeKafka` and the destructor, each as one call; Threads the same
--     `closeKafka` and destructor in steps, beside those of the threads that run
--     `eventPollingThread` and `EventPoll::eventPoll`; Polling the abstract view of these threads;
--     Session what an application does between `initKafka` and `closeKafka`, and what it has handed
--     over.
--   Consumer: KafkaConsumer.h and KafkaConsumer.cpp. State, Clock, Lifecycle (`_setConsumerConfiguration`,
--     `initKafka`, `closeKafka`), Receive (`consume`), Body (the buffer that it copies through) and
--     Session (what an application does between `initKafka` and `closeKafka`, and what it receives).
--   RoundTrip: the way of one message from `send` over the library to `consume`, and to the report
--     of the default callback; Stream has that of all messages of a producer's session.
--   Application: applications with a producer and a consumer. It has the interface `Owner`, what a
--     client object promises to an application that uses two of them in turn, which Clients fills
--     for the producer and the consumer; in Interleaved the operations of both come in any order, with
--     the steps of the polling thread between them.
--   Example: `main` of examples/producer_examples.cpp, which puts the two classes together. Complete
--     spells out the calls of a run in which the library plays along.
--   Ownership: what every call leaves of the objects that a producer or a consumer owns, and, in
--     its Frame, of all others. The Frame modules of Producer, Consumer and Example apply it.
--   Kafka: the part of librdkafka's interface (common/include/kafka/rdkafkacpp.h) that is used.
--   Base: numbers, lists, texts as bytes, C strings, `sprintf` of numbers, and `std::map`.
--   Tests: concrete runs.
--
-- State. A member that is a pointer is an `Option` of a handle, a number. Every call out of the
-- client is recorded, with its answer, in a `Trace`, the latest first; an operation takes the trace
-- and gives it back longer. A handle is new in its trace, `alive` computes from a trace whether its
-- object exists, and `IsSafe` says that no call had an object that did not. The library, the clock,
-- `rand_r` and `pthread_create` are the parameter `Env`: each answer may depend on the whole trace.
-- What is assumed of it stands in each theorem. Undefined behaviour of the code (a null pointer, a
-- buffer that overflows or has no NUL at its end) is the value `fault` of `Result`. In
-- Producer/Threads a state has besides the place of every thread, and whether the client object
-- exists. A call of `poll` is recorded when it returns, so that an object deleted during the call
-- counts as used after it was gone.
--
-- Abstract views. The headers of a received message are a quotient of the lists of headers, which
-- forgets order, repetition and missing values (Consumer/Receive/Abstract). What a producer has
-- handed over is a list of topics, keys, contents and headers (Producer/Session), read off the
-- trace by `outbox`, and what a consumer has received a list of its objects (Consumer/Session), to
-- compare with the messages of `inbox`. The threads of Producer/Threads are seen in Producer/Polling
-- as a flag, whether the producer exists, and two places. Objects are compared before and after by `SameObjects`,
-- which forgets the calls.
--
-- Bounds and fuel. `int` members are integers without a bound, since the code only stores and
-- prints them; the seed of `_getRandomUUID` is taken modulo 2^32, and the length of a payload, which
-- `consume` casts to `int`, has 32 bits in Consumer/Body. The loop of `closeKafka` runs on
-- fuel, and it is enough to have more than the rounds after which the library's queue is empty, or
-- than a number that gets smaller with every round; so does the loop of the example, for which
-- more than the number of messages is enough. The steps of Producer/Threads need no fuel. The printing of a number `n` has fuel `n + 1`, more
-- than its digits.
--
-- Not modelled: lines that are logged to stderr and stdout, since nothing reads them (the output of
-- the two callbacks is modelled, it is all that they do); the unused member `_bRunPollingThread`;
-- librdkafka and jsoncpp themselves (common, examples/include); memory that runs out. The steps of
-- the threads read and write the flag `bRun` and the pointers at once, as if these were atomic; in
-- `initKafka` and the operations of a session no other thread takes a step, but for the polls
-- between them.
pub mod Base
pub mod Kafka
pub mod KafkaMessage
pub mod ReceivedMessage
pub mod Callback
pub mod Ownership
pub mod Config
pub mod Producer
pub mod Consumer
pub mod RoundTrip
pub mod Application
pub mod Example
mod Tests
