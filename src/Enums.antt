-- ===== src/Enums.antt =====
-- app/enums.py: the enumerations that the services share, with the rank of a classification.
pub mod Clearance
use danah_v.Prelude.{ℕ, String, Bool, true, false, List, [], ◌∷◌, leb, if◌then◌else◌, filterb}

pub data Classification : Type 0 where
  public internal official official_sensitive : Classification

abbrev pub classification_rank : Classification → ℕ
classification_rank Classification.public = 0
classification_rank Classification.internal = 1
classification_rank Classification.official = 2
classification_rank Classification.official_sensitive = 3

-- The keys of CLASSIFICATION_RANK, in the order of the dictionary.
abbrev pub classifications : List Classification
classifications =
    Classification.public ∷ Classification.internal ∷ Classification.official
    ∷ Classification.official_sensitive ∷ []

unfoldable pub classification_at_or_below : Classification → List Classification
unfolding filterb
classification_at_or_below ceiling =
    filterb (λ c. leb (classification_rank c) (classification_rank ceiling)) classifications

pub data Role : Type 0 where
  admin executive analyst viewer : Role

abbrev pub same_role : Role → Role → Bool
same_role Role.admin Role.admin = true
same_role Role.executive Role.executive = true
same_role Role.analyst Role.analyst = true
same_role Role.viewer Role.viewer = true
same_role _ _ = false

pub data ItemStatus : Type 0 where
  new triaged analyzed archived : ItemStatus

pub data PipelineTrigger : Type 0 where
  manual scheduled : PipelineTrigger

pub data RunStatus : Type 0 where
  running completed failed partial : RunStatus

pub data StepStatus : Type 0 where
  running completed failed skipped : StepStatus

pub data AgentName : Type 0 where
  signal risk opportunity policy briefing memory : AgentName

abbrev pub same_agent : AgentName → AgentName → Bool
same_agent AgentName.signal AgentName.signal = true
same_agent AgentName.risk AgentName.risk = true
same_agent AgentName.opportunity AgentName.opportunity = true
same_agent AgentName.policy AgentName.policy = true
same_agent AgentName.briefing AgentName.briefing = true
same_agent AgentName.memory AgentName.memory = true
same_agent _ _ = false

pub data InsightKind : Type 0 where
  risk opportunity policy : InsightKind

pub data PublicationStatus : Type 0 where
  draft pending_approval published rejected : PublicationStatus

abbrev pub same_publication : PublicationStatus → PublicationStatus → Bool
same_publication PublicationStatus.draft PublicationStatus.draft = true
same_publication PublicationStatus.pending_approval PublicationStatus.pending_approval = true
same_publication PublicationStatus.published PublicationStatus.published = true
same_publication PublicationStatus.rejected PublicationStatus.rejected = true
same_publication _ _ = false

pub data ApprovalSubject : Type 0 where
  insight briefing : ApprovalSubject

abbrev pub same_subject : ApprovalSubject → ApprovalSubject → Bool
same_subject ApprovalSubject.insight ApprovalSubject.insight = true
same_subject ApprovalSubject.briefing ApprovalSubject.briefing = true
same_subject _ _ = false

pub data ApprovalStatus : Type 0 where
  pending approved rejected changes_requested : ApprovalStatus

pub data TaskStatus : Type 0 where
  pending in_progress blocked done : TaskStatus

pub data Urgency : Type 0 where
  low medium high critical : Urgency

pub data DocumentStatus : Type 0 where
  pending processing indexed failed : DocumentStatus

pub data ActorType : Type 0 where
  user agent system : ActorType

pub data NotificationKind : Type 0 where
  approval_pending briefing_published cost_alert source_failure : NotificationKind

-- The `value` of a StrEnum: the string that the database and the API hold.
abbrev pub subject_value : ApprovalSubject → String
subject_value ApprovalSubject.insight = "insight"
subject_value ApprovalSubject.briefing = "briefing"

abbrev pub agent_value : AgentName → String
agent_value AgentName.signal = "signal"
agent_value AgentName.risk = "risk"
agent_value AgentName.opportunity = "opportunity"
agent_value AgentName.policy = "policy"
agent_value AgentName.briefing = "briefing"
agent_value AgentName.memory = "memory"

abbrev pub role_value : Role → String
role_value Role.admin = "admin"
role_value Role.executive = "executive"
role_value Role.analyst = "analyst"
role_value Role.viewer = "viewer"

abbrev pub task_status_value : TaskStatus → String
task_status_value TaskStatus.pending = "pending"
task_status_value TaskStatus.in_progress = "in_progress"
task_status_value TaskStatus.blocked = "blocked"
task_status_value TaskStatus.done = "done"

abbrev pub urgency_value : Urgency → String
urgency_value Urgency.low = "low"
urgency_value Urgency.medium = "medium"
urgency_value Urgency.high = "high"
urgency_value Urgency.critical = "critical"

abbrev pub publication_value : PublicationStatus → String
publication_value PublicationStatus.draft = "draft"
publication_value PublicationStatus.pending_approval = "pending_approval"
publication_value PublicationStatus.published = "published"
publication_value PublicationStatus.rejected = "rejected"
