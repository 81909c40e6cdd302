-- ===== src/Lib.antt =====
-- access-log-exporter reads nginx access log lines from syslog packets and turns them into
-- Prometheus metrics. This library models the way of a line through the program, and the
-- configuration that it depends on.
--
-- The parts, and how they interact. The syslog server (internal/syslog) reads a packet into a
-- buffer of a pool, finds the message in it and sends it on a channel. The workers of the collector
-- (internal/collector) take messages from the channel, split the line at the tabs, hand the fields
-- to every metric, count a failure and release the buffer. A metric (internal/metric) takes its
-- label values and its value from the fields and changes one Prometheus vector. The configuration
-- (internal/config) says what each metric does.
--
-- Files.
-- * Prelude and its children: the shared names; lists and tests on native numbers; a Go string as
--   the list of its bytes (Text); a Go result, which is a value, an error or a panic (Errors).
-- * Strings is what is used of package strings (Cut, Split, Join, TrimSpace, Contains, Replacer) as
--   functions on bytes, with their laws. Float is float64 as its bit pattern; its arithmetic and
--   strconv are the functions of a record.
-- * Config (internal/config): Types is the data of a metric in types.go, Sections that of the other
--   sections, with Defaults. Slices is types/slice.go, and Url is types/url.go. Lookup has
--   lookupConfigArgument, lookupVersionOrHelpArgument, lookupEnvOrDefault and
--   getEnvironmentVariableByFlagName of config.go. Numbers is what it calls of strconv on integers,
--   and Literals what package flag calls of it. Flags is the table that flagSet (flags.go)
--   declares: a flag is a constructor, its variable is read by value_of and assigned by put, and
--   Value is its type. FlagSet is the run of flagSet and the loop of Parse of package flag; Load is
--   New, ReadFromConfigFile and ReadFromFlagAndEnvironment. Validate has Validate, validateTLS and
--   Replacement.UnmarshalYAML. Command writes command lines independently of their parser, and
--   Environment lists the environment variables independently of the keys of flags.go. Variables,
--   Precedence, Integers, Accepted, Asked, Laws and RoundTrip have the proofs.
-- * Useragent (internal/useragent): the parser is given.
-- * Metric (internal/metric): Types is the state, with the label slices that the pool holds. New is
--   `New`; Describe is Describe, Collect and Name; Replace is valueReplacements; Set is setMetric
--   and what it calls, and handleCounterIncrement; Upstream is setMetricWithUpstream and what it
--   calls; Labels is the pool and processLabels; Parse is validateAndExtractValue,
--   handleMetricValue and Parse. Act is the monad of the state that a line works on: the slice of
--   label values and the calls made so far. The names are those of the source in antt's spelling
--   (processValueWithUpstream is process_value_with_upstream). The other files hold the proofs:
--   Valid, Keeps, Safe, SafeUpstream, Pool and SafeParse are about the invariant of a metric; Keys,
--   Writes, Built and Refused about New; History about runs over several lines; Values about the
--   loop over values; Excluded and Included about excluded upstreams; Recorded, PerUpstream and
--   UpstreamLines about lines with several values; LabelValues, Lines and Skipped about single
--   lines; Replacing about valueReplacements.
-- * Collector (internal/collector): Build is New of collector.go, Describe its Describe and
--   Collect; Fields is splitLineFields; Handle is lineHandler; Workers is lineHandlerWorkers and
--   lineHandlerWorker as a system that steps. Every, Started, Described, Collected, Conserved and
--   Drained prove.
-- * Syslog (internal/syslog): Frame is the part of Start between the read and the send; Server is
--   the loop of Start with the buffer pool, and Release; Listen is New and Close. Packet and
--   Promise describe the same without buffers; Framed, Message, Delivered, Run and Closed prove.
-- * Nginx (internal/nginx): Scan is fmt.Fscanf for a format with %d; Collect is New with its
--   options, Describe, parseStubStats and Collect. Decimal and Page write the page as nginx does;
--   they and Scraped prove.
-- * Program (cmd/access-log-exporter): Start is setupConfiguration, setupLogger and
--   initializeConfigAndLogger; Run is run and execute over what happens to the program, in its
--   order; Server is setupServer with the request multiplexer, and setupPrometheusRegistry.
--   Shutdown is run from the start of its goroutines on, as steps of them in any order. Ends, Asks,
--   Served and Stops prove.
-- * LoadGenerator (docs/demo/load-generator) is about the requests of the demonstration and their
--   bodies: Reader is `Read` as a function, what a reader promises, and io.Copy; Random is
--   StreamingRandomReader and ThrottledReader, Json is StreamingJSONReader, Form is
--   StreamingFormReader, Body is SizedReader and generateRandomBody, Request is makeRandomRequest
--   up to the request, with addRandomHeaders. Randomly, JsonBody, FormBody, Sent and Requested
--   prove.
-- * The files named Examples, FlagExamples, LineExamples and UpstreamExamples hold tests, and the
--   theorems at concrete inputs.
--
-- Choices. sync.Pool hands out any element that it holds, or a new one: a number given from outside
-- picks it. A prometheus vector is what its constructor is given, and a call on it is a value in a
-- list. The goroutines of the workers are interleaved at the points where they wait; a line is
-- handled in one step. The channel of the collector has no bound, which allows more interleavings
-- than the code has. The pool, the results of reads and the choices of `select` in the syslog
-- server are given for each round.
--
-- Fuel. The loop of StreamingRandomReader copies at least a byte in a round, so as many rounds as
-- bytes are wanted are enough; a copy has two calls more than the reader has bytes. The loop of
-- splitLineFields and the loop over comma-separated values run on fuel: each round shortens the
-- text by at least the separator, so one round more than the text has bytes is enough. The marker
-- no_fuel stands for a loop that ran out of it.
--
-- Not modelled: the load parameters of the demonstration and what it does with a response, logging,
-- the usage text, the network, and what the registry checks. The methods of Prometheus vectors are
-- recorded as calls, and what they check themselves is left out. The user agent parser, regular
-- expressions, the floats of strconv, the YAML decoder, url.Parse, time.ParseDuration, the file
-- system and the environment are given from outside.
pub mod Prelude
pub mod Strings
pub mod Float
pub mod Config
pub mod Useragent
pub mod Metric
pub mod Collector
pub mod Syslog
pub mod Nginx
pub mod Program
pub mod LoadGenerator
