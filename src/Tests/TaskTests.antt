-- ===== src/Tests/TaskTests.antt =====
-- The action tracker and the insights at concrete rows.
use danah_v.Prelude.{
  ◌≡◌, refl, arith, subst, Bool, true, false, none, some, List, [], ◌∷◌, All, find_first, ◌⊎◌,
}
use danah_v.Enums.{Classification, InsightKind, PublicationStatus, Role, TaskStatus, Urgency}
use danah_v.Exceptions.{Error, ok, raise}
use danah_v.Models.{Briefing, Db, Insight, Task, User}
use danah_v.Session.{Session}
use danah_v.Security.{can_read, has_role}
use danah_v.Tasks.{TaskCreate, TaskUpdate, has_task_id, update_task}
use danah_v.Tasks.Board.{
  Coherent, Edit, create, edited, edited-Coherent, update, update_task-hidden,
}
use danah_v.Insights.{InsightFilter, get_insight, list_insights}
use danah_v.Insights.Visibility.{Visible, get_insight-rejected, list_insights-Visible}
use danah_v.Briefings.{BriefingDetail, get_briefing}
use danah_v.Briefings.Visibility.{Opens, get_briefing-Opens}
use danah_v.Tests.{executive, first_db, first_session, insight, sample_env}

abbrev task : Task
task = record {
  id = 40;
  title = "Sandbags";
  description = "";
  status = TaskStatus.blocked;
  urgency = Urgency.high;
  owner = "";
  progress = 20;
  due_date = none;
  classification = Classification.official;
  created_by = none;
  source_insight_id = none;
  created_at = 990;
}

abbrev board : Db
board = record first_db { tasks = task ∷ [] }

abbrev new_action : TaskCreate
new_action = record {
  title = "Call the port";
  description = "";
  urgency = Urgency.low;
  owner = "";
  due_date = none;
  classification = Classification.internal;
  source_insight_id = none;
}

abbrev done_at_half : TaskUpdate
done_at_half = record {
  title = none;
  description = none;
  status = some TaskStatus.done;
  urgency = none;
  owner = none;
  progress = some 50;
  due_date = none;
  fields = "progress, status";
}

board-Coherent : Coherent board
board-Coherent = ((omega arith, λ e. cc), tt)

abbrev edits : List Edit
edits = create executive new_action ∷ update executive 40 done_at_half ∷ []

edited-Coherent_example : Coherent (edited sample_env edits board 0)
edited-Coherent_example =
    edited-Coherent sample_env edits board 0 (tt, ((λ n e. ground arith), tt)) board-Coherent

abbrev viewer : User
viewer = record executive { id = 8; role = Role.viewer }

abbrev analyst : User
analyst = record executive { id = 9; role = Role.analyst }

abbrev secret_task : Task
secret_task = record task { classification = Classification.official_sensitive }

abbrev secret : Session
secret = record first_session { current = record first_db { tasks = secret_task ∷ [] } }

secret_hidden :
    (t : Task)
    → find_first (has_task_id 40) secret.current.tasks ≡ some t
    → can_read analyst t.classification ≡ false
unfolding find_first can_read
secret_hidden t h =
    let same : secret_task ≡ t = cc in
    subst (λ x. can_read analyst x.classification ≡ false) same refl

update_task-hidden_example :
    update_task sample_env 40 done_at_half analyst none secret ≡ (raise Error.not_found, secret)
unfolding has_role
update_task-hidden_example =
    update_task-hidden sample_env analyst none 40 done_at_half secret secret_hidden

abbrev everything : InsightFilter
everything = record {
  kind = some InsightKind.risk;
  status = some PublicationStatus.draft;
  min_severity = some 2;
  run_id = none;
  matches = λ i. true;
  limit = 50;
  offset = 0;
}

abbrev by_severity : Insight → Insight → Bool
by_severity i j = true

list_insights-Visible_example :
    All (Visible viewer) (list_insights viewer everything by_severity first_db).items
list_insights-Visible_example = list_insights-Visible viewer everything by_severity first_db

abbrev rejected_session : Session
rejected_session = record first_session {
  current = record first_db {
    insights = (record insight { status = PublicationStatus.rejected }) ∷ [];
  };
}

get_insight-rejected_example :
    get_insight executive 5 rejected_session ≡ (raise Error.not_found, rejected_session)
get_insight-rejected_example = get_insight-rejected executive 5 rejected_session ((λ h. refl), tt)

abbrev briefing : Briefing
briefing = record {
  id = 11;
  date = 3;
  title = "Today";
  sections = [];
  has_arabic = true;
  cited_items = 1 ∷ [];
  cited_chunks = [];
  confidence = 500;
  classification = Classification.official;
  status = PublicationStatus.published;
  run_id = none;
}

abbrev briefed : Session
briefed = record first_session {
  current = record first_db { briefings = briefing ∷ []; approvals = [] };
}

get_briefing-Opens_example :
    ((detail : BriefingDetail) × (get_briefing executive briefing.id briefed ≡ (ok detail, briefed))
      × Opens executive briefing.id briefed.current detail)
    ⊎ (get_briefing executive briefing.id briefed ≡ (raise Error.not_found, briefed))
get_briefing-Opens_example = get_briefing-Opens executive briefing.id briefed
