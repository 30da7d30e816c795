-- ===== src/Tasks/Evidence.antt =====
-- What a delegated task can show for itself (`_Ledger`, `judge` and `state_of` of features/tasks.py).
-- `arguments_of` reads the JSON text of a call's arguments: its keys, each with whether its value is
-- truthy.
pub mod Judged
use jarvis.Prelude.{
  ℕ, suc, ◌+◌, Bool, true, false, not, ◌&&◌, ◌||◌, Option, none, some, List, [], ◌∷◌, ◌++◌, map,
  Text, text, text_eq, ◌==◌, if◌then◌else◌, is_some, or_else, any, all, keep, is_nil, strip,
  strip_of, starts, lower, drop, join,
}
use jarvis.Prelude.Dicts
use jarvis.Prelude.Dicts.{Dict, put}
use jarvis.Proto.Runs.{Run}
use jarvis.Proto.Messages.{ToolResult, ToolResultKind}
use jarvis.Proto.Events.{RunEvent, Body, tool_call, tool_result, tool_confirm_resolved}
use jarvis.Proto.Tasks.{Task, TaskState, TaskBrief, DodItem, DodResult}
use jarvis.Store.{Store, list_runs, list_events}
use jarvis.Attachments.{Attachment, AttachmentStore, for_conversation}

-- What is read of a `tool.call` event and of a `tool.result` event.
pub record CallEvent : Type 0 where
  pub name : Text
  pub arguments : Text
  pub read_only : Bool

pub record ResultEvent : Type 0 where
  pub name : Text
  pub result : ToolResult

pub record Evidence : Type 0 where
  pub calls : Dict CallEvent
  pub results : Dict ResultEvent
  pub approved : List Text
  pub files : List Text

abbrev pub no_evidence : Evidence
no_evidence = record { calls = []; results = []; approved = []; files = [] }

abbrev pub is_in : Text → List Text → Bool
is_in t ts = any (text_eq t) ts

unfoldable pub is_error : ToolResult → Bool
is_error r = elim r.kind [ ToolResultKind.error ↦ true | _ ↦ false ]

unfoldable pub is_bookkeeping : Text → Bool
unfolding starts text text_eq
is_bookkeeping name =
    starts (text "task.") name
    || starts (text "tasks.") name
    || text_eq name (text "jarvis.plan_step_done")
    || text_eq name (text "jarvis.replan")

-- The reasons why a ref does not show an item. `why_text` words them.
pub data WhyNot : Type 0 where
  only_a_file not_of_this_task : WhyNot
  bookkeeping failed_call only_read drafted : Text → WhyNot

unfoldable pub why_text : Text → WhyNot → Text
unfolding text
why_text ref WhyNot.only_a_file = ref ++ text " is a file, not an action on anyone's behalf"
why_text ref WhyNot.not_of_this_task = ref ++ text " is not a call or a file of this task"
why_text ref (WhyNot.bookkeeping name) =
    ref ++ text " is the task's own bookkeeping (" ++ name ++ text ")"
why_text ref (WhyNot.failed_call name) = ref ++ text " (" ++ name ++ text ") failed"
why_text ref (WhyNot.only_read name) = ref ++ text " (" ++ name ++ text ") only read"
why_text ref (WhyNot.drafted name) =
    ref ++ text " (" ++ name ++ text ") was saved as a draft, it did not go out"

-- One event put into the ledger; the events of other kinds, and those without a call's id, are passed
-- over.
unfoldable pub note_event : Evidence → Body → Evidence
note_event ev (tool_call call_id name arguments read_only key) =
    if is_nil call_id then ev else record ev {
      calls =
          put call_id (record { name = name; arguments = arguments; read_only = read_only })
            ev.calls;
    }
note_event ev (tool_result call_id name result ms) =
    if is_nil call_id
    then ev
    else record ev { results = put call_id (record { name = name; result = result }) ev.results }
note_event ev (tool_confirm_resolved call_id true words) =
    if is_nil call_id then ev else record ev { approved = call_id ∷ ev.approved }
note_event ev _ = ev

unfoldable pub note_events : Evidence → List RunEvent → Evidence
unfolding note_event
note_events ev [] = ev
note_events ev (e ∷ es) = note_events (note_event ev e.body) es

unfoldable pub note_runs : Store → Evidence → List Run → Evidence
unfolding note_events
note_runs st ev [] = ev
note_runs st ev (r ∷ rs) = note_runs st (note_events ev (list_events r.id 0 st)) rs

unfoldable pub ledger_of : Store → AttachmentStore → Task → Evidence
unfolding note_runs
ledger_of st attachments task = elim task.conversation_id [
  | none ↦ no_evidence
  | some id ↦ record (note_runs st no_evidence (list_runs id 200 st)) {
    files = map (λ (a : Attachment). a.id) (for_conversation id attachments);
  }
]

-- "[ref c1]" or "ref c1" is c1.
unfoldable pub ref_id : Text → Text
unfolding strip strip_of lower text starts
ref_id ref =
    let bare = strip (strip_of (λ c. c == 91 || c == 93) (strip ref)) in
    if starts (text "ref ") (lower bare) then strip (drop 4 bare) else bare

-- Done only when every item is verified; anything met is partly done.
abbrev pub is_met : Option Bool → Bool
is_met (some true) = true
is_met _ = false

unfoldable pub state_of : List DodResult → TaskState
state_of results =
    if not (is_nil results) && all (λ (r : DodResult). r.verified) results
    then TaskState.done
    else if any (λ (r : DodResult). is_met r.met) results
    then TaskState.partial
    else TaskState.not_done

module _ (arguments_of : Text → Dict Bool) where
  -- A draft, or a call that the mail policy rewrote into one.
  unfoldable pub is_draft : Text → Bool
  unfolding text
  is_draft arguments =
      let args = arguments_of arguments in
      or_else (Dicts.get (text "draft") args) false
      || is_some (Dicts.get (text "_policy_note") args)

  -- For an outward item: a call that is not there counts as one that only read.
  unfoldable pub why_not_outward : Text → Option CallEvent → Option WhyNot
  unfolding is_draft
  why_not_outward name none = some (WhyNot.only_read name)
  why_not_outward name (some call) =
      if call.read_only
      then some (WhyNot.only_read name)
      else if is_draft call.arguments
      then some (WhyNot.drafted name)
      else none

  unfoldable pub why_not : Evidence → Text → Bool → Option WhyNot
  unfolding is_bookkeeping is_error why_not_outward
  why_not ev ref outward =
      if is_in ref ev.files
      then (if outward then some WhyNot.only_a_file else none)
      else elim (Dicts.get ref ev.results) [
        | none ↦ some WhyNot.not_of_this_task
        | some r ↦
            if is_bookkeeping r.name
            then some (WhyNot.bookkeeping r.name)
            else if is_error r.result
            then some (WhyNot.failed_call r.name)
            else if not outward
            then none
            else why_not_outward r.name (Dicts.get ref ev.calls)
      ]

  abbrev pub shows : Evidence → Bool → Text → Bool
  shows ev outward ref = not (is_some (why_not ev ref outward))

  unfoldable pub reasons : Evidence → Bool → List Text → List Text
  unfolding why_not why_text
  reasons ev outward [] = []
  reasons ev outward (ref ∷ refs) =
      let rest = reasons ev outward refs in
      elim (why_not ev ref outward) [ none ↦ rest | some why ↦ why_text ref why ∷ rest ]

  abbrev pub unsaid : DodItem → DodResult
  unsaid item = record {
    item = item.item;
    outward = item.outward;
    met = none;
    refs = [];
    verified = false;
    why = none;
    note = none;
  }

  -- One item, with what the task claimed of it.
  unfoldable pub judge_item : Evidence → DodItem → Option DodResult → DodResult
  unfolding ref_id reasons join text
  judge_item ev item none = unsaid item
  judge_item ev item (some said) =
      let refs = map ref_id said.refs in
      let result = record (unsaid item) { met = said.met; refs = refs; note = said.note } in
      if is_met said.met
      then if any (shows ev item.outward) refs
        then record result { verified = true }
        else record result {
          why = some (
              let why = reasons ev item.outward refs in
              if is_nil why then text "no evidence given" else join (text "; ") why);
        }
      else result

  unfoldable pub judge_items : Evidence → List DodItem → List DodResult → List DodResult
  unfolding judge_item
  judge_items ev [] claimed = []
  judge_items ev (item ∷ dod) [] = judge_item ev item none ∷ judge_items ev dod []
  judge_items ev (item ∷ dod) (said ∷ claimed) =
      judge_item ev item (some said) ∷ judge_items ev dod claimed

  unfoldable pub judge : TaskBrief → List DodResult → Evidence → List DodResult
  unfolding judge_items
  judge brief claimed ev = judge_items ev brief.dod claimed
