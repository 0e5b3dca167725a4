-- ===== src/Lib.antt =====
-- The companion service of a BTicino intercom (cmd/companion, internal/), as far as it is modelled.
--
-- The program listens to the intercom's bus (OpenWebNet), takes its SIP calls, and shares its camera
-- stream. A bus datagram is parsed (internal/openwebnet/parser.go), its frame is read
-- (internal/openwebnet/frames.go), and the mapper turns it into events
-- (internal/openwebnet/mapper.go). The SIP dialog manager (internal/signaling/manager.go) queues the
-- events of a call, and one goroutine at a time delivers them. All events reach the projector
-- (internal/core/state.go), whose state is what the clients of the service see. The frames of the bus
-- also feed the record of the bus call (internal/app/buscall.go), with which a hangup closes the call
-- on the bus. The stream of the camera is leased by the coordinator (internal/media/stream_coordinator.go)
-- and goes to the consumers of a lease by its fan-out (internal/media/fanout.go). The configuration
-- (internal/config/config.go) names the entrypoints; the pairing store (internal/auth/store.go) keeps its
-- state in it, by the same Update as everything else. The updater (internal/system/update.go) takes a
-- release from GitHub (internal/system/release.go), checks its digest, and puts its binary in place for
-- the next start.
--
-- Which module models what:
--   Core.Events            internal/core/events.go: the events, by constructors with their fields
--   Core.State             internal/core/state.go: `project` is Apply, `apply` the transition
--   Signaling.Manager      internal/signaling/manager.go: Sections has the critical sections,
--                          Operations the exported methods, Rounds the drain of the queue
--   OpenWebNet.Commands    internal/openwebnet/frames.go: the Build functions
--   OpenWebNet.Frames      internal/openwebnet/frames.go: the Parse, Is and Extract functions
--   OpenWebNet.Diagnostics internal/openwebnet/frames.go: the ParseDiagnostic functions
--   OpenWebNet.Datagram    internal/openwebnet/parser.go: Parse
--   OpenWebNet.Mapper      internal/openwebnet/mapper.go: `map_message` is Map
--   App.BusCall            internal/app/buscall.go, with EndCall of internal/openwebnet/client.go
--   App.RingHolder         internal/app/ringholder.go: the stream that a ring holds
--   App.RingWatch          internal/app/ringwatch.go: the AV frames and the timeline of a ring
--   Config.Entrypoints     internal/config/config.go: the entrypoints and DoorbellEntrypoint
--   Config.Settings        internal/config/config.go: the configuration, its document and its defaults
--   Config.Doorbell        internal/config/config.go: the rule that a saved edit is held to
--   Config.Validation      internal/config/config.go: Validate and what it tests, GenerateHomeKitPIN
--   Config.Defaults        internal/config/config.go: Default, Create, ApplyMetadata
--   Config.Store           internal/config/config.go: Open, Load, Update, EnsureSIPSection
--   Auth.Store             internal/auth/store.go, internal/auth/owner.go: the state of the pairing, and in
--                          Operations and Recovery the exported methods
--   Media.Coordinator      internal/media/stream_coordinator.go: Sections has what runs under the lock,
--                          Operations the exported methods, Steps the sections in any order
--   Media.Health           internal/media/stream_coordinator.go: the tracks, the snapshot and its health
--   Media.Fanout           internal/media/fanout.go: the fan-out and its keyframe cache
--   Media.Keyframes        internal/media/fanout.go: startsKeyframe
--   Media.Distributor      internal/media/distributor.go: the sources, and whose packets reach whom
--   Media.Packets          what is read of an RTP packet
--   System.Versions        internal/system/update.go: semverPattern and newerVersion
--   System.Releases        internal/system/release.go: manifests, digests and the release client
--   System.Archive         internal/system/update.go: stageArchive
--   System.Updater         internal/system/update.go: the state and the status of the updater; Operations has
--                          its exported methods, Steps their sections in any order
-- Common and Strings are helpers: Common has the shared names and lemmas, Strings the functions of
-- Go's strings, strconv and fmt that the frames use. Each component has its theorems in child modules
-- named for what they prove, and tests and concrete instances in its module Examples.
--
-- How the code is represented:
--   * A text is the list of its code points, a payload or a datagram the list of its bytes. White space
--     is that of unicode.IsSpace.
--   * A time is a number of nanoseconds, an argument of the function that reads the clock; the clock
--     does not go back. A zero time is `none`. A difference of times is never negative then.
--   * The revision of the projector wraps at 2 ^ 64.
--   * A mutex is not modelled as such. What runs under it is one function, and an operation that lets go
--     of it takes an argument `between`, what the other goroutines do meanwhile; the manager has besides
--     a step relation in which every section is a step.
--   * A goroutine that drains the queue of events is the flag `draining` and, in Rounds, the event that it
--     is handing to the sink; a timer is the record of what it will do, and its function is an operation
--     that may run at any time.
--   * What a call of a SIP dialog or of the bus answers is an argument; what is sent is a list of effects,
--     in order. A callback is a flag that tells whether it is set, and its calls are such a list.
--   * An error is a constructor; its text is not modelled. A pair of a value and `ok` is an Option.
--   * strings.ToLower is right on ASCII and on the two code points beyond it whose lower case is ASCII; it
--     leaves every other code point as it is.
--   * The regular expressions of the frames and of a version are written out as functions.
--   * What each system call of the updater comes to is an argument, and of the files only companion.new is
--     kept. The JSON decoder, url.Parse, SHA-256 and tar are parameters.
--   * A Go map is a list of pairs with distinct keys; the challenges and the attempts of the pairing
--     store are functions from the key.
--   * The coordinator shares a fan-out and the end of a startup by pointer. They stand in a store under
--     the number of the stream's lease, and the coordinator holds the number. What other goroutines do
--     where an operation holds no lock is an argument `gap`, by the number of the place.
--   * The coordinator's probes, its factory and its sources answer by arguments.
--   * The file of the configuration is the document that it holds. A write is done, or fails with the file as
--     it was, or fails behind its rename, where internal/storage/file.go syncs the directory: then the
--     file is new and the configuration in memory the old one. The hashes, the parser of addresses and
--     bcrypt are parameters; what is drawn at random is an argument.
--
-- Fuel: the decimal digits of a number are computed on fuel, the number itself and one more, which is
-- enough as each digit divides it by ten; the loop over a STAP-A takes the length of what is left, which
-- is enough as each round takes three bytes or more.
--
-- Not modelled: contexts, deadlines and logging; the network, process and file input and output; YAML,
-- SIP, RTP, WebRTC and HomeKit as the third-party packages carry them; the rest of internal/media (WebRTC,
-- RTSP, snapshots, clips), the SIP dialer and its session descriptions, the bus client, the HTTP interface
-- and the web interface. Of the coordinator: the setters of its observer and probes, Snapshot, the ticker of watch,
-- and that fifteen seconds end a promotion's context. Of the configuration: whether a file has a SIP
-- section, which is an argument. Of the updater: that the policy changes during an operation, and,
-- in the operations themselves, what other updates do between the rename of a binary and the note of its
-- version; the steps of System.Updater.Steps have that.
pub mod App
pub mod Auth
pub mod Common
pub mod Config
pub mod Core
pub mod Media
pub mod OpenWebNet
pub mod Signaling
pub mod Strings
pub mod System
