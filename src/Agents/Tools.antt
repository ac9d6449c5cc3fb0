-- ===== src/Agents/Tools.antt =====
-- app/services/agents/tools.py: the registry, the tool that writes, and execute_tool. What the
-- reading tools find is a parameter: they change nothing.
use danah_v.Prelude.{
  ℕ, String, str_eq, Bool, true, false, ◌||◌, Option, none, some, List, [], ◌∷◌, if◌then◌else◌,
  is_none, find_first, take,
}
use danah_v.Enums.{Classification}
use danah_v.Models.{Db, MemoryEntry, Text}
use danah_v.Session.{Env, Action, pure, query, draw, write, ◌>>=◌, ◌>>◌}
use danah_v.Chunking.Scan.{strip}
use danah_v.Orchestrator.{add_memory}

pub data Tool : Type 0 where
  search_knowledge_base search_ingested_items get_memory save_memory get_kpi_snapshot : Tool

abbrev pub tool_name : Tool → String
tool_name Tool.search_knowledge_base = "search_knowledge_base"
tool_name Tool.search_ingested_items = "search_ingested_items"
tool_name Tool.get_memory = "get_memory"
tool_name Tool.save_memory = "save_memory"
tool_name Tool.get_kpi_snapshot = "get_kpi_snapshot"

abbrev pub tool_registry : List Tool
tool_registry =
    Tool.search_knowledge_base ∷ Tool.search_ingested_items ∷ Tool.get_memory ∷ Tool.save_memory
    ∷ Tool.get_kpi_snapshot ∷ []

-- TOOL_REGISTRY.get(name)
unfoldable pub find_tool : String → Option Tool
unfolding find_first
find_tool name = find_first (λ t. str_eq (tool_name t) name) tool_registry

-- What the model gives for `tags`: nothing, a list, one text, or a value that cannot be iterated.
pub data RawTags : Type 0 where
  no_tags not_iterable : RawTags
  listed : List Text → RawTags
  one_text : Text → RawTags

abbrev pub characters : Text → List Text
characters [] = []
characters (c ∷ t) = (c ∷ []) ∷ characters t

-- [str(t) for t in args.get("tags", [])]: a text gives its characters.
unfoldable pub iterated : RawTags → Option (List Text)
iterated RawTags.no_tags = some []
iterated RawTags.not_iterable = none
iterated (RawTags.listed tags) = some tags
iterated (RawTags.one_text t) = some (characters t)

-- The arguments that the tools read, as text; `source_run` is the run that `source_ref` names.
pub record Arguments : Type 0 where
  pub query : Text
  pub title : Text
  pub content : Text
  pub tags : RawTags
  pub source_run : Option ℕ

pub record ToolCall : Type 0 where
  pub name : String
  pub arguments : Arguments

-- What a call gives back to the model.
pub data Observation : Type 0 where
  no_such_tool missing_argument tool_failed : Observation
  found : String → Observation
  saved : ℕ → Text → Observation

-- What a reading tool finds at a clearance, or nothing where its handler raises.
abbrev pub Lookup : Type 0
Lookup = Tool → Arguments → Classification → Db → Option String

abbrev pub is_blank_text : Text → Bool
is_blank_text [] = true
is_blank_text (c ∷ cs) = false

abbrev pub saved_row : ℕ → Classification → Arguments → MemoryEntry
saved_row id clearance args = record {
  id = id;
  title = take 500 (strip args.title);
  content = take 20_000 (strip args.content);
  classification = clearance;
  run_id = args.source_run;
  created_by = none;
}

-- _save_memory: the handler fails where the tags cannot be iterated. The row has no column for them.
unfoldable pub save_memory_tool : Env → Classification → Arguments → Action Observation
unfolding iterated
save_memory_tool env clearance args =
    if is_blank_text (strip args.title) || is_blank_text (strip args.content)
    then pure Observation.missing_argument
    else if is_none (iterated args.tags)
    then pure Observation.tool_failed
    else (do
      id ← draw env.uuid4
      write (add_memory (saved_row id clearance args))
      pure (Observation.saved id (take 500 (strip args.title))))

abbrev pub found_or_failed : Option String → Observation
found_or_failed none = Observation.tool_failed
found_or_failed (some text) = Observation.found text

unfoldable pub read_tool : Lookup → Tool → Classification → Arguments → Action Observation
read_tool lookup tool clearance args = do
  text ← query (lookup tool args clearance)
  pure (found_or_failed text)

-- _search_knowledge_base, _search_ingested_items and _get_memory ask for a query.
unfoldable pub search_tool : Lookup → Tool → Classification → Arguments → Action Observation
unfolding read_tool
search_tool lookup tool clearance args =
    if is_blank_text (strip args.query)
    then pure Observation.missing_argument
    else read_tool lookup tool clearance args

unfoldable pub run_handler : Env → Lookup → Tool → Classification → Arguments → Action Observation
unfolding save_memory_tool read_tool search_tool
run_handler env lookup Tool.save_memory clearance args = save_memory_tool env clearance args
run_handler env lookup Tool.get_kpi_snapshot clearance args =
    read_tool lookup Tool.get_kpi_snapshot clearance args
run_handler env lookup tool clearance args = search_tool lookup tool clearance args

-- The tool is looked up in the whole registry. No call raises.
unfoldable pub execute_tool : Env → Lookup → Classification → ToolCall → Action Observation
unfolding find_tool run_handler
execute_tool env lookup clearance call = elim (find_tool call.name) [
  | none ↦ pure Observation.no_such_tool
  | some tool ↦ run_handler env lookup tool clearance call.arguments
]
