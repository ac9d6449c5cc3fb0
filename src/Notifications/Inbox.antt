-- ===== src/Notifications/Inbox.antt =====
-- What mark_read and count_unread of app/services/notification_service.py do to an inbox.
use danah_v.Prelude.{
  ℕ, ◌≡◌, refl, Bool, some, List, [], ◌∷◌, arith, ap, not, length, filterb, modify_where,
}
use danah_v.Exceptions.{ok}
use danah_v.Models.{Notification, User}
use danah_v.Session.{Env, Session}
use danah_v.Notifications.{addressed_to, unread_of, marks, mark_read, count_unread}

module _ (user : User) (now : ℕ) where
  abbrev stamped : Notification → Notification
  stamped n = record n { read_at = some now }

  all_read :
      (ns : List Notification)
      → length (filterb (unread_of user) (modify_where (marks user []) stamped ns)) ≡ 0
  unfolding filterb modify_where marks
  all_read [] = refl
  all_read (n ∷ ns) = ground (arith, all_read ns)

  same_marks :
      (ns : List Notification)
      → length (filterb (marks user []) ns) ≡ length (filterb (unread_of user) ns)
  unfolding filterb marks
  same_marks [] = refl
  same_marks (n ∷ ns) = ground (arith, same_marks ns)

abbrev pub of_others : User → Notification → Bool
of_others user n = not (addressed_to user n)

module _ (user : User) (ids : List ℕ) (now : ℕ) where
  others_kept :
      (ns : List Notification)
      → filterb (of_others user) (modify_where (marks user ids) (stamped user now) ns)
        ≡ filterb (of_others user) ns
  unfolding filterb modify_where marks
  others_kept [] = refl
  others_kept (n ∷ ns) = ground (arith, others_kept ns)

-- Whatever ids a user gives, the notifications that are not addressed to the user stay as they
-- are, read marks included.
pub mark_read-others :
    (env : Env) (user : User) (ids : List ℕ) (s : Session)
    → filterb (of_others user) (mark_read env user ids s).1.current.notifications
      ≡ filterb (of_others user) s.current.notifications
unfolding mark_read
mark_read-others env user ids s = others_kept user ids (env.now s.draws) s.current.notifications

-- With no ids given, the count returned is the badge number from before, and no notification of
-- the user is unread afterwards.
pub mark_read-all :
    (env : Env) (user : User) (s : Session)
    → ((mark_read env user [] s).0 ≡ (count_unread user s).0)
      × ((count_unread user (mark_read env user [] s).1).0 ≡ ok 0)
unfolding mark_read count_unread
mark_read-all env user s = (
  ap ok (same_marks user (env.now s.draws) s.current.notifications),
  ap ok (all_read user (env.now s.draws) s.current.notifications),
)
