-- ===== src/Lib.antt =====
-- The admin dashboard of MCPxy (frontend/src): the logic of its pages, its client of the admin
-- API and its reader of the traffic stream.
--
-- Prelude: Boolean tests, lists, options and texts over the native numbers. Names: lists of names
-- in the order of their code units, with ranks in it. Record: a JavaScript object with string
-- keys as an association list. Numbers: the readings of a number.
-- Api: frontend/src/api/types.ts (Types), frontend/src/api/client.ts (Client) and
-- frontend/src/api/sse.ts (Sse). A call of the client is a request, and what its answer does to
-- the storage: `apiGet` is `get_request` and `receive`, and so for `apiPost` and `apiDelete`;
-- `logout` ends in `finish_logout`. `subscribeTraffic` is `subscribe_traffic` on the texts that
-- the reads decode, and `subscribe` from the answer to its request on (Sse.Connect).
-- Manual: frontend/src/components/AddManuallyDialog.tsx, with `kvToRecord` (KeyValues), NAME_RE
-- (Name), the table of rows (Editor), `buildPayload` and `canSubmit` (Payload), `submit` (Submit)
-- and what the dialog shows (Controls).
-- Onboarding: frontend/src/pages/Onboarding.tsx, with the five steps (Wizard), `StorageStep`
-- (Storage), `AuthStep` (Auth, AuthControls), `FirstServerStep` (FirstServer), `generateToken`
-- (Token), `TokenStep` (TokenStep), the fetch wrappers (Requests), and `Stepper` with the choice
-- of the card (View).
-- App: frontend/src/App.tsx, the choice of the view, with the probes of the session that it sends
-- through the client and the answers that come back through it.
-- Login: frontend/src/components/LoginGate.tsx, each submission up to its `await` and behind it,
-- and the form as it runs (Page).
-- Traffic and Overview: frontend/src/pages/Traffic.tsx and Overview.tsx, the table and the chart
-- that the events of the stream fill. Traffic.Pipeline joins the stream to the table, and
-- Traffic.View is what the page shows besides the rows.
-- Graph: frontend/src/pages/Graph.tsx, the records that wait for an animation frame (Frame), what
-- a flush shows (Pulses), `computeLayout` (Layout), the nodes, edges and pulses of a render
-- (Scene) and the rest of the page (View); frontend/src/components/TrafficGraph.tsx, what is
-- painted of them (Canvas).
-- Policies: frontend/src/pages/Policies.tsx, the card of an upstream, and the page with its
-- configuration (Page).
-- Import and Browse: frontend/src/pages/Import.tsx, the selection and its import, and
-- frontend/src/pages/Browse.tsx, the search and the installation of an entry, and the page with
-- both of its dialogs (Page).
-- Logs, Routes, Config, Users, Mappings, Tokens and Connect: the pages of frontend/src/pages of
-- these names (Mappings is TokenMappings.tsx), each with the calls that it has sent, and with
-- their answers as events. Routes.Logs is `UpstreamLogs`, and Routes.Cards the card of an
-- upstream.
-- Uri: `encodeURIComponent` and `URLSearchParams`, and how a server reads an address (Reading,
-- Query).
-- App.Navigation: frontend/src/components/Sidebar.tsx against the routes of App.tsx.
-- Overview.Polling and Graph.Polling: the polling of these pages. Overview.Summary and
-- Config.Upstreams: what the overview shows besides its chart, and the cards of Config.tsx.
-- Import.Session, Import.Spec and Policies.Refine: the pages as they run, and what they
-- implement.
-- Tests: the theorems at concrete inputs.
--
-- A page is a record of its state and a function of state and event; a run is a list of events,
-- so that an answer comes at any place behind its request. The updates of one continuation are
-- rendered together, and the effects run behind them.
--
-- The loop over the buffer of the stream has fuel: one more than the buffer's length, and each
-- round takes two characters at least. Everything else is structural recursion.
--
-- `JSON.parse`, the cast of its value, and the readings `parseInt`, `parseFloat` and `Number` are
-- parameters, and so is `toLowerCase`. `fetch`, the streaming of UTF-8, the DOM, the style of
-- what is shown and the backend are not modelled. The coordinates, radii and counters of the
-- graph are floating point: their operations are parameters (Graph.Weights, Graph.Canvas.Floats,
-- Graph.Scene.Measures), and so are those of the overview's numbers (Overview.Summary.Figures).
-- The result of `sort` does not depend on how it sorts, since the order of names is total and two
-- names that are equal in it are one text (Names.Order); Names.sort inserts one name after the
-- other. A text is a list of code points; its length in code units is `utf16_length`.
pub mod Names
pub mod Prelude
pub mod Record
pub mod Numbers
pub mod Api
pub mod Manual
pub mod Onboarding
pub mod Uri
pub mod Logs
pub mod Connect
pub mod Config
pub mod Mappings
pub mod Users
pub mod Routes
pub mod Tokens
pub mod Traffic
pub mod Overview
pub mod Login
pub mod Browse
pub mod Import
pub mod Graph
pub mod Policies
pub mod App
pub mod Tests
