-- ===== src/Lib.antt =====
-- dhound-agent: the agent reads log files, finds security events in their lines by the rules of its
-- configuration, and sends the events to a server.
--
-- The parts run as goroutines joined by channels: the crawlers give containers of events to the IP
-- enricher, that one to the queue, the queue gives batches to the HTTP gateway, and the gateway
-- gives every batch, sent or not, to the state of the sources, which saves how far each source was
-- read. Taken alone, a channel is the list of what goes through it and a goroutine a function from
-- that list; Pipeline joins them, with channels without a buffer, as a relation of steps in any
-- order. The file crawler and the state of the sources share the slice of source states; the
-- crawler writes to it, and `Sync` to its own copy in the state file.
--
-- Events: securityevent.go, securityeventscontainer.go and source_state.go, the records.
-- Queue: queue.go. `Init`, `Flush` and the loop of `Run`, as `init`, `flush` and `run`; one round
--   of the loop is `step`, its first half `receive`, its second half `settle`.
-- HttpGateway: http_gateway.go and version.go, the types, `Init` and the message. `Sending` has
--   `SendToServer` and `Run`, with their parts `resend`, `post`, `finish`, `keep_failed`. `Resend`,
--   `Delivery`, `Durable` and `Repeats` under it hold the proofs,
--   and `Client` has the client that `Init` makes.
-- SystemState: system_state.go. `Find`, `RemoveExpiredStates`, `ReadOriginalState`, `Restore`,
--   `Save` and one round of `Sync`, under these names in snake_case. Proofs: `Lookup`, `Expiry`,
--   `Unique`, `Grown`, `Written`, `Resume`.
-- Crawler.Lines: the loop of `_RunOnce` in crawler_files.go over the lines of a file: `read_bytes`
--   is `ReadBytes` of a buffered reader, `line_of` cuts off the line end, `advance` counts and
--   parses.
-- Crawler.RunOnce: the rest of `_RunOnce`: `crawl_file` is the body of the loop over the files.
--   `Following` under it follows one file over many rounds, and Pipeline.Restart over a
--   restart of the agent.
-- Crawler.Running: `Init` and `Run` of crawler_files.go, round after round.
-- Crawler.EventLog: `_RunOnce` of crawler_wineventlog_windows.go; `crawl_path` is the body of its
--   inner loop; `Running` has `Init` and `Run`, `Spans` the times that two rounds ask for.
-- Crawler.Together: the rounds of both crawlers, in any order, on the list that they share.
-- Crawler.Parsing: `ParseLine`. Crawler.FileList: `_GetFilesListMap`.
-- EventLogs.Reading: `_ReadEventLogs` of eventlogs_windows.go; `render_one` is the body of its
--   loop. EventLogs.Calls: the functions that call wevtapi.dll, and in `Trace` the calls
--   that `_ReadEventLogs` makes, `closeEvtHandles` among them. EventLogs.Utf16:
--   `UTF16BytesToString`. EventLogs.Properties: the properties of typedef_windows.go.
-- Utils: utils.go. Files: `NormalizeFileName` of file.go. Files.Ids: `GetFileOsUniqueKey` of
--   file_other.go and, in `Windows`, of file_windows.go, and the tests on `os.Stat` in file.go.
--   Files.Opening: `ReadOpen` of file_windows.go. Dates: util_date.go.
-- Config: the types of config.go. Config.Yaml: `LoadYamlFile`. Config.Loading:
--   `DiscoverYamlConfigs` and `LoadConfig`, where `add_outcome` says what a rule file does to the
--   rules and to the named result `err`.
-- IpEnricher: ip_enricher.go with ip_enricher_linux.go. `see_dns` is what `_InternalSync` does with
--   one DNS layer, and `process_events_container` the hand-over of the map. The two goroutines share
--   the map without a lock: IpEnricher.Interleaving has them statement by statement over a heap of
--   maps; IpEnricher.Handover has only the case that they do not overlap, and `Turns` under
--   Interleaving shows that it is a schedule of theirs. IpEnricher.DisplayDns:
--   ip_enricher_windows.go, where `Loop` has the rounds of `_InternalSync`, and `Init` and `Sync` on
--   them, and `Expressions` the whole function. IpEnricher.Listening: these three on Linux.
-- Pipeline: what `InternalRun` of program.go joins: `System` holds the parts and what each has not
--   yet passed on, `Step` says what one goroutine does with the operations of its part; a
--   container is given its names in one step. `Restart` and `EndToEnd` join it with the rounds of the
--   file crawler.
-- Options: `ParseArguments` of options.go, after package flag. Program: `Init` and `InternalRun` of
--   program.go, and `main` of main.go. Program.Lifecycle: `Start` and `Stop`. Program.Logging: the
--   functions of main.go that print and exit.
-- Conversions: util_convert.go.
-- Strings, Regexp: the functions of packages strings and regexp that the agent calls, the second as
--   an interface with the laws that its documentation gives.
-- Base: numbers, lists, texts and maps for all parts. A text is a list of bytes, a map an
--   association list; where the order of a map range matters, it is the order of that list.
--
-- Outside of the model, as arguments: the clock, the file system, encoding/json, package regexp,
-- package time, `filepath.Glob`, the character encodings, and the server. Durations are nanoseconds
-- of the monotonic clock, so that a difference of two readings is not negative. The loop over the
-- lines has the number of bytes plus one as its fuel; each round but the last takes at least one
-- byte.
--
-- Not modelled: the texts that are handed to the log, the profiler, and the library go-svc
-- (main.go, program.go), the system calls themselves (file_other.go, file_windows.go), the constants
-- of typedef_windows.go that nothing uses, and utf8.go, a copy of another project's helper whose
-- reader is an argument here.
mod Base
mod Samples
pub mod Events
pub mod Strings
pub mod Regexp
pub mod Files
pub mod Utils
pub mod Options
pub mod Pipeline
pub mod Program
pub mod Queue
pub mod SystemState
pub mod IpEnricher
pub mod HttpGateway
pub mod Config
pub mod Dates
pub mod Conversions
pub mod EventLogs
pub mod Crawler
