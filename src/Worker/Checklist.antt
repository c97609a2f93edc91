-- ===== src/Worker/Checklist.antt =====
-- core/crates/worker/src/local_tools/checklist.rs and the dispatch of mod.rs.
-- The texts of an array that holds texts only, none of them blank.
use aite.Base.{
  if◌then◌else◌, take, contains, length, find, render, decimal, ℕ, ◌+◌, String, true, false, Option,
  none, some, List, [], ◌∷◌, ◌++◌, map, ◌==◌,
}
use aite.Contracts.Evidence.{Elements, EvidenceKind, Members, Value}
use aite.Contracts.Protocol.{ToolCallRequest, ToolErrorCode, as_str, get_member, is_local_tool}
use aite.Contracts.Session.{ChecklistItem, ChecklistState, Task}
use aite.Control.Card.{max_item_chars}
use aite.Control.Words.{clip, trim}
use aite.Store.Calls.{call}
use aite.Worker.Desk.{
  Desk, Ports, Run, on_ctx, on_task, reads, record_event, text_of, texts_value, ◌>>=◌, ◌>>◌,
}
use aite.Worker.Final.{filled}
use aite.Worker.Fingerprint.{py_repr}
use aite.Worker.Texts.{
  checklist_added, checklist_items_invalid, checklist_marked, checklist_no_such_item,
  checklist_note_updated, checklist_reason_required, checklist_text_required, unknown_tool,
}
use aite.Worker.Tools.{ToolOutcome, local_result, note_call, run_gateway_tool}

abbrev texts_of : Elements → Option (List String)
texts_of Elements.no_elements = some []
texts_of (Elements.element (Value.text s) items) =
    let rest = texts_of items in
    elim rest [ none ↦ none | some texts ↦ if trim s == "" then none else some (s ∷ texts) ]
texts_of (Elements.element v items) = none

abbrev item_texts : Option Value → Option (List String)
item_texts (some (Value.array (Elements.element v items))) = texts_of (Elements.element v items)
item_texts _ = none

-- The new items are numbered from the count of the items that there are.
abbrev items_from : ℕ → List String → List ChecklistItem
items_from n [] = []
items_from n (s ∷ texts) =
    record {
      id = render ("c" ∷ decimal (n + 1) ∷ []);
      text = clip s max_item_chars;
      state = ChecklistState.todo;
      note = none;
    }
    ∷ items_from (n + 1) texts

abbrev ids_of : List ChecklistItem → List String
ids_of items = map (λ i. i.id) items

abbrev add_items : List ChecklistItem → Task → Task
add_items added t = record t { checklist = t.checklist ++ added }

-- The first item with this id becomes `f` of it.
abbrev put_item : String → (ChecklistItem → ChecklistItem) → List ChecklistItem → List ChecklistItem
put_item id f [] = []
put_item id f (i ∷ items) =
    let rest = put_item id f items in if i.id == id then f i ∷ items else i ∷ rest

abbrev find_item : Option String → List ChecklistItem → Option ChecklistItem
find_item none items = none
find_item (some id) items = find (λ i. i.id == id) items

abbrev state_as_str : ChecklistState → String
state_as_str ChecklistState.todo = "todo"
state_as_str ChecklistState.doing = "doing"
state_as_str ChecklistState.done = "done"
state_as_str ChecklistState.failed = "failed"

abbrev marked : ChecklistItem → ChecklistState → Option String → ChecklistItem
marked i state note = record i { state = state; note = note }

module _ (p : Ports) where
  abbrev refused : ToolCallRequest → String → Run ToolOutcome
  refused call content = local_result p call false content (some ToolErrorCode.invalid_args)

  abbrev pub add_texts : ToolCallRequest → Option (List String) → Run ToolOutcome
  add_texts call none = refused call checklist_items_invalid
  add_texts call (some texts) = do
    n ← reads (λ d. length d.ctx.task.checklist)
    let added = items_from n (take 8 texts)
    on_task (add_items added)
    items ← reads (λ d. d.ctx.task.checklist)
    record_event EvidenceKind.checklist_op (
        text_of "op" "add" (
          Members.member "ids" (Value.array (texts_value (ids_of added))) (
            Members.member "items" (Value.array (texts_value (map (λ i. i.text) items)))
              Members.no_members)))
    local_result p call true (checklist_added (length added) (ids_of added)) none

  -- The item as it is to be, with the name of the operation.
  abbrev mark_item : ToolCallRequest → String → ChecklistItem → Run ToolOutcome
  mark_item call op i = do
    on_task (λ t. record t { checklist = put_item i.id (λ _. i) t.checklist })
    record_event EvidenceKind.checklist_op (
        text_of "op" op (
          text_of "id" i.id
            (text_of "state" (state_as_str i.state) (text_of "text" i.text Members.no_members))))
    local_result p call true (checklist_marked i.id (state_as_str i.state)) none

  abbrev pub check_item : ToolCallRequest → Option ChecklistItem → Run ToolOutcome
  check_item call none =
      refused call (checklist_no_such_item (py_repr (get_member "id" call.arguments)))
  check_item call (some i) = mark_item call "check" (marked i ChecklistState.done i.note)

  abbrev pub fail_reason : ToolCallRequest → ChecklistItem → Option String → Run ToolOutcome
  fail_reason call i none = refused call checklist_reason_required
  fail_reason call i (some reason) =
      mark_item call "fail" (marked i ChecklistState.failed (some (clip reason 40)))

  abbrev pub fail_item : ToolCallRequest → Option ChecklistItem → Run ToolOutcome
  fail_item call none =
      refused call (checklist_no_such_item (py_repr (get_member "id" call.arguments)))
  fail_item call (some i) =
      fail_reason call i (filled (as_str (get_member "reason" call.arguments)))

  abbrev pub note_text : ToolCallRequest → Option String → Run ToolOutcome
  note_text call none = refused call checklist_text_required
  note_text call (some text) = do
    on_ctx (λ c. record c { note = some (clip text 40) })
    record_event EvidenceKind.checklist_op
        (text_of "op" "note" (text_of "text" (clip text 40) Members.no_members))
    local_result p call true checklist_note_updated none

  abbrev wanted_item : ToolCallRequest → Desk → Option ChecklistItem
  wanted_item call d = find_item (as_str (get_member "id" call.arguments)) d.ctx.task.checklist

  unfoldable pub run_checklist : ToolCallRequest → Run ToolOutcome
  run_checklist call =
      if call.name == "checklist_add"
      then add_texts call (item_texts (get_member "items" call.arguments))
      else if call.name == "checklist_check"
      then (reads (wanted_item call) >>= check_item call)
      else if call.name == "checklist_fail"
      then (reads (wanted_item call) >>= fail_item call)
      else if call.name == "checklist_note"
      then note_text call (filled (as_str (get_member "text" call.arguments)))
      else local_result p call false (unknown_tool call.name) (some ToolErrorCode.not_found)

  abbrev checklist_names : List String
  checklist_names = "checklist_add" ∷ "checklist_check" ∷ "checklist_fail" ∷ "checklist_note" ∷ []

  unfoldable pub run_local_tool : ToolCallRequest → Run ToolOutcome
  run_local_tool call = do
    note_call p call
    (if contains checklist_names call.name
        then run_checklist call
        else local_result p call false (unknown_tool call.name) (some ToolErrorCode.not_found))

  unfoldable pub run_tool : ToolCallRequest → Run ToolOutcome
  run_tool call = if is_local_tool call.name then run_local_tool call else run_gateway_tool p call
