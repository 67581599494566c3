-- ===== src/Lib.antt =====
-- A verification library for easykafka-config-go, which keeps configuration from compacted Kafka
-- topics in memory: a loader reads each bound topic to its end (warm-up), then applies live changes.
--
-- Parts and files. Paths are from the repository's root.
--   Errors       errors.go, internal/driver/errors.go: sentinels, wrapped and joined errors as a tree.
--   Text         strings.TrimSpace and the nil and empty byte slices of Go.
--   Store        store.go: `put` is Put, `get` is Get, and so on. Store.History runs any writes;
--                Store.Concurrent interleaves the two steps of Put and Delete;
--                Store.Iterate is All, Keys and Snapshot, and Store.Iterate.Racing while writers run;
--                Store.View forgets the order of the entries.
--   Codec        codec.go: StringKey, IntKey, Int64Key, JSONValue and the tombstone policies;
--                Codec.Decimal writes the numbers that the key decoders read.
--   Binding      binding.go: Binding and Validate.
--   Observer     observer.go: the calls of the Observer as data, phases and BindingStats.
--   Registration registration.go: `apply_func` is the closure of applyFunc on the state `Cell`, which
--                holds the store, the atomics and the sequence of observer calls and warnings.
--                Registration.Emitted tells those calls from the record alone;
--                Registration.Partitions is about topics with several partitions.
--   Detect       detect.go: the PartitionEOF detector.
--   Options      options.go, and NewLoader of loader.go.
--   Loader       loader.go, in three parts.
--     WarmUp     warmUpBinding; WarmUp.Driven is the same on a consumer of the driver, and
--                WarmUp.Progress is about the reports of its progress.
--     Serve      serveBinding, bindingDied and Err; Serve.Wait is WaitUntilStopped,
--                Serve.Applied what the goroutines have read, and Serve.Driven the loop of one on a
--                consumer of the driver. Serve.Fleet interleaves the goroutines with the
--                consumers that they poll and close. WarmUp.Keeps and Serve.Keeps carry a
--                property of a binding's state through both.
--     Start      Start, newConsumers and closeAll; Start.Bind is Bind, BindTo, the claim of Start, Stats
--                and LookupRaw; Start.Sharing is about bindings that share a store, Start.Handover about the start of the serving
--                goroutines; Handover.Live and Handover.Reading follow a service on consumers of the
--                driver from Start on.
--   Driver       internal/driver: Driver.Config is config.go and buildConfigMap, Driver.Consumer is
--                consumer.go, Driver.Event is event.go, Driver.Throttle is throttle.go.
--   Quickstart   examples/quickstart/main.go: `run` by what the loader answers, and what it prints.
--   Prelude      shared names, Boolean tests, lists, 64-bit words and families of goroutines.
--   Tests        concrete data, and each result applied to it.
--
-- How they interact. The loader drives a consumer by polls: a `Turn` of Loader.WarmUp holds what one
-- round meets, the context's error, the event polled and the clock. An event goes to the detection
-- and, if it is a record, to the registration's `apply`, which writes the store. A binding's own
-- functions, the Kafka client, kafka.ConfigMap and json.Unmarshal are arguments.
--
-- Integers. Counters are 64-bit words as natural numbers, with their wrap-around written out, and
-- signed ones are read by `signed`; an int has 64 bits. Durations and times are nanoseconds;
-- partitions are natural numbers, since they are only compared. A poll loop runs over the list of its
-- turns, so nothing is bounded by fuel: `running` is the outcome while the turns given do not end
-- it.
--
-- Concurrency. The serving goroutines, the writers of a store and the callers of a consumer are step
-- relations over families of goroutines. A step of a serving goroutine goes up to its next access to
-- what the goroutines share. The warm-ups of Start are not interleaved: `warm_all` runs them one after
-- the other, on bindings each with a store of its own.
--
-- Stores. A `*Store` is an `Address`, so BindTo, LookupRaw and Stats are about bindings that may share
-- a store, and Start.Sharing follows their calls of `apply`. From Start on, a binding's goroutines have
-- its store by value, in the `Cell`: there every binding has a store of its own.
--
-- Not modelled: warm-up and serving of bindings that share a store, texts of errors and of log lines
-- other than the connection log and the warnings of WithErrorLogging, contexts other than by the error
-- that they report, the Error and Unwrap methods of Failure, and the tests. The map of a store and
-- those of properties are lists of entries with an order that Go leaves open.
pub mod Prelude
pub mod Errors
pub mod Text
pub mod Store
pub mod Driver
pub mod Observer
pub mod Codec
pub mod Binding
pub mod Registration
pub mod Detect
pub mod Options
pub mod Loader
pub mod Quickstart
pub mod Tests
