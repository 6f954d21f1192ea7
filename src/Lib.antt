-- ===== src/Lib.antt =====
-- Verification of the front end of discodb2: the TypeScript clients (frontend/cockpit,
-- frontend/copilot) and the code they share (frontend/shared). The backend reads a CAN bus and sends
-- its frames as binary batches over a WebSocket. Each client parses a batch into frames; the cockpit
-- keeps them in a bounded ring, shows and decodes them, and runs the Wizard, in which an operator
-- repeats an action on the car and confirms each trial.
--
-- Parts, and the code each one models:
--   Prelude      lists, tests, results, integers, doubles and bit masks that the parts share
--   Wire         the batch format: encodeBatch and decodeBatch of frontend/shared/protocol.ts, and
--                the clients' parsers frontend/cockpit/src/protocol/parseBatch.ts and
--                frontend/copilot/src/protocol/parse.ts
--   Diagnostic   ISO-TP headers and reassembly, OBD-II and UDS services:
--                frontend/shared/diagnostic.ts
--   FrameRing    the cockpit's bounded frame history: frontend/cockpit/src/state/ringBuffer.ts
--   Signal       the bits of a signal: frontend/cockpit/src/protocol/decode.ts and
--                frontend/copilot/src/protocol/decode.ts
--   Formula      the formula that reads such a signal: signalToFormula of
--                frontend/cockpit/src/protocol/formula.ts
--   Messages     the rows of an identifier, split by the value of a field: computeMessages of
--                frontend/cockpit/src/protocol/messages.ts, and the incremental groups of
--                frontend/cockpit/src/protocol/messageModel.ts
--   Sockets      a WebSocket of the browser, which the two clients share
--   CopilotClient  the lifecycle of a connection: frontend/copilot/src/protocol/client.ts
--   CockpitClient  the same: frontend/cockpit/src/protocol/client.ts
--   Identifier   the J1939 reading of an identifier: frontend/shared/j1939.ts
--   Cue          the Wizard's beeps: frontend/shared/cue-player.ts, frontend/shared/cue-config.ts
--   Wizard       the feedback state machine: frontend/shared/wizard-fsm.ts
--   WizardHost   its timers, trial ledger and relay: frontend/cockpit/src/hunt/wizardHost.ts
--   RunEngine    the storyboard of an experiment: frontend/cockpit/src/logbook/runEngine.ts and
--                scenarioPhases of frontend/cockpit/src/protocol/datamodel.ts
--   RunController  the timers, sounds and screen around that engine:
--                frontend/cockpit/src/logbook/runController.ts
--   Logbook      the values of a candidate over the windows of a run:
--                frontend/shared/analysis/logbook.ts
--   Analysis     the packed window, the byte histograms and the bit activity: packed.ts,
--                byte-histogram.ts and bit-activity.ts under frontend/shared/analysis
-- The clients own the socket that the batches arrive on. The parsers of Wire produce the frames
-- that FrameRing stores. Diagnostic reads the payloads of such frames, as Signal does, and
-- Identifier reads their identifiers. Wizard asks for the cue that Cue schedules, and is
-- independent of the frames; WizardHost carries out what it asks for, and feeds it the timers that
-- fire and the operator's presses. RunEngine stamps the time windows that an experiment is read by;
-- RunController drives it from interval timers and hands a finished run to the analysis, of which
-- Logbook is a part. Analysis counts over a window of frames, either as records or in the packed
-- form that FrameRing hands out.
--
-- A name of the source is written in snake_case here (encodeBatch is encode_batch), a class or an
-- interface keeps its name and is a record, and a method takes the object's state and returns the
-- next one. What the source throws is a value: an error of the model's own, or none. A DataView or
-- a typed array is a list of numbers, its reads and writes at an offset are functions of Wire.View,
-- and its wrap-around is written as a remainder. A number of the source is a natural number here:
-- identifiers, times in µs, lengths and counters, none of which is negative or fractional in these
-- parts, but for the identifier that the encoder of Wire is given, which a caller makes negative by
-- OR-ing a flag into it, and the raw value of a signal; these are integers. The 64-bit base time is
-- exact, as the BigInt that the source reads it with; that the clients turn it into a double, exact
-- below 2^53, is not modelled. The copilot's raw value and the value of a message's field are rounded
-- to doubles (Prelude.Doubles).
--
-- Loops are structural recursion on the number of records, bytes or slots left, or on the list of
-- frames left, so that no fuel is needed. The loop of a tick of RunEngine is bounded in the source,
-- by the number of phases and one, and here by the same number of rounds. The rounding to a double
-- counts the bits beyond 53 on a fuel of 971, as many as a double has. The payload of an ISO-TP
-- transfer is at most 4095 bytes, the bound of the 12-bit length field, and a DLC is at most 8, as
-- classic CAN has it.
--
-- Time passes between the calls: WizardHost, RunEngine and RunController take the time of a call as
-- an argument, and a pending timer is the event it will raise and the time it is due. What playCue
-- returns, or that it throws, is an argument, too. A -1 for "none" (a phase index, an empty
-- minimum) is the option none.
--
-- The clients are driven by events: the calls of the application, and the callbacks of sockets and
-- timers, each at a point where the browser may make it. A socket is the browser's: its ready state,
-- whether its handlers are still set, and what was sent on it. Whether a socket can be made and the
-- jitter of a delay are arguments.
--
-- In Messages, a row holds its rate as what the division of two counts gives, a parameter, and a
-- value that cannot be read (a signed field without bits) is none.
--
-- In Formula, the text is a tree, and print is the text; a factor and an offset are doubles, of which
-- the laws that the bridge relies on are hypotheses.
--
-- Not modelled: the backend (Python); Web Workers, audio output and Svelte views, which are input,
-- output and rendering; expr-eval, the library that evaluates a formula; the JSON control messages
-- of protocol.ts, which JSON.parse reads; the scorers of frontend/shared/analysis, which compute in
-- floating point; DBC import, which is regular expressions over strings.
pub mod Prelude
pub mod Wizard
pub mod Wire
pub mod Diagnostic
pub mod FrameRing
pub mod Signal
pub mod Identifier
pub mod Cue
pub mod WizardHost
pub mod Analysis
pub mod RunEngine
pub mod RunController
pub mod Logbook
pub mod Formula
pub mod Messages
pub mod Sockets
pub mod CopilotClient
pub mod CockpitClient
