-- ===== src/Notifications.antt =====
-- app/services/notification_service.py: a row for each notification, and a courtesy email.
pub mod Inbox
use danah_v.Prelude.{
  ℕ, suc, ◌+◌, String, str_append, Bool, true, false, not, ◌&&◌, ◌||◌, Option, none, some, List, [],
  ◌∷◌, ◌++◌, map, ◌==◌, if◌then◌else◌, is_none, length, filterb, modify_where,
}
use danah_v.Enums.{ApprovalSubject, subject_value, NotificationKind, Role, same_role}
use danah_v.Exceptions.{Error, Result, ok, raise}
use danah_v.Models.{Db, Notification, User}
use danah_v.Session.{
  Env, Session, Action, pure, then_return, throw, query, write, draw, ◌>>=◌, ◌>>◌,
}

abbrev both_or_neither : Option ℕ → Option Role → Bool
both_or_neither user_id role = if is_none user_id then is_none role else not (is_none role)

-- One row, addressed to a person or to a role.
unfoldable pub notify :
    Env → NotificationKind → String → String × ℕ → Option ℕ → Option Role → Action Unit
notify env kind title subject_ref user_id role =
    if both_or_neither user_id role then throw Error.invalid_request else do
      id ← draw env.uuid4
      let row : Notification = record {
        id = id;
        user_id = user_id;
        role = role;
        kind = kind;
        title = title;
        subject_ref = subject_ref;
        read_at = none;
      }
      write (λ db. record db { notifications = db.notifications ++ row ∷ [] })

-- send_email at the n-th call outside: whether a mail server took it, and the calls made so far. It
-- writes no row. What sending raises is caught; the subject is set before that, and raises where it is
-- no header.
unfoldable pub send_email : Env → String → String → ℕ → Result Bool × ℕ
send_email env to subject n =
    if env.smtp_configured
    then (if env.is_header subject
        then (ok (env.smtp_accepts n to), suc n)
        else (raise Error.danah_error, n))
    else (ok false, n)

send_all : Env → String → List String → ℕ → ℕ → Result ℕ × ℕ
unfolding send_email
send_all env subject [] sent n = (ok sent, n)
send_all env subject (address ∷ addresses) sent n =
    let (r, n') = send_email env address subject n in
    elim r [
      | ok accepted ↦ send_all env subject addresses (if accepted then sent + 1 else sent) n'
      | raise e ↦ (raise e, n')
    ]

-- The active holders of a role.
recipients : Role → List User → List String
recipients role users =
    map (λ u. u.email) (filterb (λ u. same_role u.role role && u.is_active) users)

unfoldable pub email_role : Env → Role → String → Action ℕ
unfolding send_all recipients
email_role env role subject s =
    let (sent, n) = send_all env subject (recipients role s.current.users) 0 s.draws in
    (sent, record s { draws = n })

unfoldable pub notify_approval_pending : Env → ApprovalSubject → ℕ → String → Action Unit
unfolding notify
notify_approval_pending env subject_type subject_id title = do
  notify env NotificationKind.approval_pending (str_append "Approval required: " title)
      (subject_value subject_type, subject_id) none (some Role.executive)
  then_return (email_role env Role.executive (str_append "[DANAH] Approval required: " title)) tt

unfoldable pub notify_briefing_published : Env → ℕ → String → Action Unit
unfolding notify
notify_briefing_published env briefing_id title = do
  notify env NotificationKind.briefing_published (str_append "Briefing published: " title)
      ("briefing", briefing_id) none (some Role.executive)
  then_return (email_role env Role.executive (str_append "[DANAH] Briefing published: " title)) tt

-- The title, which shows two amounts, is formatted by the caller.
unfoldable pub notify_cost_alert : Env → ℕ → String → Action Unit
unfolding notify
notify_cost_alert env spent_usd title = do
  notify env NotificationKind.cost_alert title ("cost", spent_usd) none (some Role.admin)
  then_return (email_role env Role.admin (str_append "[DANAH] " title)) tt

names_user : Option ℕ → ℕ → Bool
names_user none id = false
names_user (some u) id = u == id

names_role : Option Role → Role → Bool
names_role none role = false
names_role (some r) role = same_role r role

unfoldable pub addressed_to : User → Notification → Bool
unfolding names_user names_role
addressed_to user n = names_user n.user_id user.id || names_role n.role user.role

abbrev is_unread : Notification → Bool
is_unread n = is_none n.read_at

unread_of : User → Notification → Bool
unfolding addressed_to
unread_of user n = addressed_to user n && is_unread n

unfoldable pub count_unread : User → Action ℕ
unfolding unread_of
count_unread user = query (λ db. length (filterb (unread_of user) db.notifications))

contains : List ℕ → ℕ → Bool
contains [] a = false
contains (x ∷ xs) a = a == x || contains xs a

-- An empty list of ids narrows nothing.
in_ids : List ℕ → ℕ → Bool
unfolding contains
in_ids [] id = true
in_ids (x ∷ xs) id = contains (x ∷ xs) id

marks : User → List ℕ → Notification → Bool
unfolding unread_of in_ids
marks user ids n = unread_of user n && in_ids ids n.id

unfoldable pub mark_read : Env → User → List ℕ → Action ℕ
unfolding marks
mark_read env user ids = do
  now ← draw env.now
  marked ← query (λ db. length (filterb (marks user ids) db.notifications))
  write (λ db. record db {
    notifications =
        modify_where (marks user ids) (λ n. record n { read_at = some now }) db.notifications;
  })
  pure marked
