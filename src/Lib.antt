-- ===== src/Lib.antt =====
-- Sonari (src/sonari): a daemon that speaks the output of coding sessions. Hooks of the sessions
-- send messages over a socket; the daemon keeps a roster of the sessions, a queue of speech items
-- and a transcript for each of them, one voice that reads the queues, and a silent stream that
-- keeps a Bluetooth device awake while somebody is there to listen. The roster says whose queue
-- the voice reads, whose terminal has the keyboard focus and which sessions are alive; the
-- keep-alive asks the roster whether any session is alive.
--
--   SpeechQueue (src/sonari/queue.py): `SpeechItem` and `SpeechQueue`. The deque is a list, the
--     front first, and each method is a function of the same name from the queue to the queue and
--     the method's result.
--
--   History (src/sonari/history.py): `HistoryEntry` and `SessionHistory`. The tables keyed by
--     session are association lists in insertion order; the readings of the two clocks are
--     arguments. History.State has `to_state` and `load_state`.
--
--   Sessions (src/sonari/sessions.py): `Identity` and `SessionManager`. Sessions.Terminal has the
--     part on terminals (`set_identity`, `set_os_focus`, `liveness`) and `tty_alive` of
--     src/sonari/ttyutil.py; Sessions.State has the saved form, and Sessions.Lives the lives of
--     the daemon between which it is handed on; Sessions.Text has the functions on texts.
--
--   KeepAlive (src/sonari/daemon/keepalive.py): `KeepAliveManager`. KeepAlive.Steps has its calls
--     and timer callbacks as steps in any order; KeepAlive.Presence has `_keepalive_present` and
--     `_keepalive_recheck` of src/sonari/daemon/host.py.
--
--   Speaker (src/sonari/speaker.py): `speak` and `cancel`. A call of `speak` goes through phases,
--     and each critical section is one event of its thread.
--
--   SessionStream (src/sonari/session_stream.py): the speech state of one session, over any type
--     of assembler; it holds a SpeechQueue, and its frontier is a key of History.
--
--   Persistence (src/sonari/daemon/persistence.py): `PersistenceWriter`, as steps of the writer
--     thread between changes of the daemon's state and their marks.
--
--   KeepGoing (src/sonari/daemon/host.py): whose queue the voice reads. It puts Sessions,
--     SessionStream and SpeechQueue together, on the state of Host.
--
--   Host (src/sonari/daemon/state.py, src/sonari/daemon/host.py): the state of the daemon as one
--     record, and what is not the daemon's own as the parameter `Env`. Host.Kernel has the
--     operations that the handlers share (`_stream`, `_enqueue`, `_cue`, the flush of prose),
--     Host.Spoken what an utterance that ended leaves behind, and Host.Voice the speak loop, as
--     `step` between a state and what the thread holds. Host.Moves is the relation of what a
--     handler may do to the state, and the other child modules are its lemmas.
--
--   Handlers (src/sonari/daemon/features): a child module for each file of handlers (Prose,
--     Playback with Jumps, Navigation, Focus, Whereami with Control, Lifecycle, Decisions with
--     Wording, Teaching). Handlers.Dispatch has `handle_message`, and `run` of the whole:
--     messages, turns of the voice and ends of permission waits, in any order. Handlers.Moved
--     shows each handler to be Moves.
--
--   Cues (src/sonari/cues.py): which sounds are played at once, and which wait in the queue.
--
--   FaultCue (src/sonari/daemon/faultcue.py): the failure classes that have sounded.
--
--   Prelude: what the modules share: lists, Python's dictionaries and sets of texts, and
--     integers, over the native numbers.
--
-- A component's child modules are named for what they prove. A module Tests has runs of the
-- definitions at concrete values and the theorems at concrete states; those of Host are in
-- Handlers.Tests.
--
-- Bounds and fuel. Python's integers have no bound and are native numbers, or integers where a
-- difference of clock readings may be negative. The loop of `_assign_number` runs on fuel, one
-- more than there are numbers in use, which is enough since each round of the loop passes over
-- one of them. All other loops are structural recursion. The caps of the deques are parameters;
-- the limits of the keep-alive (five fast deaths, 2 s, 1 s, 20 min, 30 s) and the age of a stale
-- pile are the source's, in milliseconds.
--
-- Not modelled. Times are whole ticks, so the rounding of floating-point clock readings is not.
-- An object that two holders of the source share is held by value, save for the asks, which are a
-- store by id: `_pending_decisions` and the waits of the hooks both have the id. An entry that
-- waits in `_pending_heard` is a copy, and hearing it is written to the entry of the transcript
-- with its key and stamp. Locks are not modelled as such: a method is one step, and the theorems
-- on runs take any order of the steps; a timer callback may come at any time, for a cancelled
-- timer too. Where two calls of the source share a critical section no other event comes between;
-- each event of Speaker and of Persistence is one such section or one blocking call, and each
-- step of the speak loop is one locked section or one call of the back end. Three events are
-- coarser than the source: `cancel` of Speaker sends its signal in its section; the tail of the
-- speak loop and the section of `note_spoken` behind it are one step; and a wait for an ask ends
-- in one step, in which the event is read and the answer taken. The wake event, the timers that
-- `handle_message` arms, the save requests, the log and the stamps for diagnosis are left out.
-- The file system's answer to `os.path.exists`, the processes that the operating system starts,
-- their exits, the clocks, the sampler of the keyboard's idle time, the files of sounds, the
-- settings and the assembler of streamed text are arguments; the text that a key's lesson speaks
-- is an argument of the teaching handler. The handlers for the settings, the status, the chooser
-- and catch-up are not modelled, nor is the raise of a window, nor is the return of saved state
-- at start beyond the roster, the streams and the transcript; nor the command line, the hooks,
-- the speech back ends, the assembly of streamed text, the key map and the platform layer.
pub mod Cues
pub mod FaultCue
pub mod Handlers
pub mod History
pub mod Host
pub mod KeepAlive
pub mod KeepGoing
pub mod Persistence
pub mod Prelude
pub mod SessionStream
pub mod Sessions
pub mod Speaker
pub mod SpeechQueue
