-- ===== src/Lib.antt =====
-- The core of Jarvis V2: the engine that queues, runs, supervises and resumes the assistant's runs.
--
-- A client asks the engine for a run (`RunEngine.create_run`); the engine stores it, queues it by
-- priority and age, and its dispatcher starts it when a slot is free. A running run is a task that
-- steps the model and the tools, and numbers, stores and publishes an event for each thing it does
-- (`RunEmitter`, `Store`, `EventBus`); clients follow the events and replay what they missed. People
-- cancel, steer and answer a run through the engine (`RunControl`). A supervisor watches each run and
-- summons a judge, and a gate bounds the model calls on one endpoint. Longer work is handed to a
-- delegated task (`TaskService`): a run of its own in a conversation of its own, judged by what its log
-- shows, and reported in the chat that asked.
--
-- The files, and the code that each is about:
--   Proto/       packages/proto/jarvis_proto: runs.py, messages.py, events.py and tasks.py, and of
--                settings.py what decides when a tool call asks (Proto/Settings, with its theorems in
--                Asking) and whom an e-mail may be sent to (Proto/Settings/Recipients)
--   Bus          packages/core/jarvis_core/engine/bus.py; Bus/Delivery has its theorems
--   Store        packages/core/jarvis_core/db/store.py: runs and events; Store/Conversations has the
--                conversations and messages, Store/Claims the idempotency table, Store/Expiry and
--                Store/Rows theorems
--   Emit         packages/core/jarvis_core/engine/emit.py; Emit/Sequence and Emit/Replay have its theorems
--   Control      packages/core/jarvis_core/engine/control.py
--   Engine       packages/core/jarvis_core/engine/run_engine.py: the state and its books. Engine/Create has `create_run`,
--                Engine/Control the calls on existing runs, Engine/Dispatch the dispatcher,
--                Engine/Execute the beginning and the end of a run task, Engine/Boot the restart,
--                Engine/Books what holds of the queue and the heap, Engine/Same and Engine/Kept the
--                calls that keep it, Engine/Reach all the engines that the calls can lead to;
--                Engine/Dispatch/Slots has the dispatcher's counts and Engine/Dispatch/Begun what they
--                mean for the runs that work
--   Gate         packages/core/jarvis_core/models/base.py, `EndpointGate`
--   Supervision  packages/core/jarvis_core/engine/supervision.py: Supervision has budgets and signals, Supervision/Review the
--                judge's verdicts, Supervision/Heads the text that steps share
--   Ledger       packages/core/jarvis_core/models/ledger.py: the record of a model call; its theorem
--                is in Ledger/Closing
--   CallMe       packages/core/jarvis_core/features/callme.py: the phone call when a run ends; its
--                theorems are in CallMe/Once and CallMe/Gathering
--   Schedules    packages/core/jarvis_core/features/schedules.py: the ticks of the scheduler; its
--                theorem is in Schedules/Once
--   Attachments  packages/core/jarvis_core/features/attachments.py: where an attachment is kept; its
--                theorem is in Attachments/Scrubbed, from Attachments/Private about the rows and
--                Attachments/Disk about the files
--   Tasks        packages/core/jarvis_core/features/tasks.py, delegated tasks: Tasks has the table and
--                Tasks/Rows its theorems, Tasks/Evidence the judgement of what was done, Tasks/Rules
--                which tools a run may call, Tasks/Wording the texts, Tasks/Service the state and the
--                slots, Tasks/Reports the report in the chat that asked (AfterCall for a call's tasks,
--                Ending for when it is written), Tasks/Rounds the runs of a task: Ended for their
--                events, Calls for the calls they are noted on, Steering for the card, Sweeping for
--                the sweeper and the restart. Owed, Quiet, Fate, Once, Kept, Slots, Judged and Lengths
--                have the theorems
--   Views        packages/core/jarvis_core/engine/views.py: a long result as the model is to see it.
--                Views/Prose has the sections of a text, Views/Outline the view under a limit,
--                Views/Finding the section that a number or a match names; Views/Fitting and
--                Views/Lengths have theorems
--   Prelude      lists, texts, dictionaries and sorting that the files share
--   Examples     the theorems at concrete inputs
--
-- How the code is modelled. A method of the engine is a function from the engine to its result and
-- the engine after it; what other tasks do between two awaits is a step of its own (Engine/Reach).
-- A table is the list of its rows, a dictionary a list of pairs in the order of insertion, a string
-- the list of its code points, and a time a number of microseconds (in the supervisor, of seconds).
-- `none` is an exception: in the store it is SQLite's IntegrityError. Fresh ids, the clock, the
-- settings, the binding of attachments by `create_run`, the registry's word on a machine that is down,
-- croniter and Python's json.loads, repr and str.isalnum are parameters. The
-- heap of heapq is the ordered list of its entries. Loops are recursions on the list that they read. Fuel
-- stands for a loop on a number alone: the digits and bits of a number, where the number itself is
-- enough, the pieces of a line and the ranges of sections, no more than their length, and the loop
-- that widens the ranges of a view, where the groups it begins with are enough (Views/Fitting).
--
-- Not modelled: the agent loop between its first event and its end, the hooks of the features on a run
-- that has finished (as calls of the engine; those of tasks and of the phone call are functions of their
-- own), the titler, the context builder, the model
-- adapters, the tools (those of tasks too), the division of a JSON result into sections, the other features on top of the engine, the HTTP and websocket API, the host
-- package, the web client and the browser extension: they are input and output, or work for later.
pub mod Prelude
pub mod Proto
pub mod Bus
pub mod Store
pub mod Emit
pub mod Control
pub mod Engine
pub mod Gate
pub mod Supervision
pub mod Ledger
pub mod CallMe
pub mod Schedules
pub mod Attachments
pub mod Tasks
pub mod Views
pub mod Examples
