-- ===== src/Otp/Queue.antt =====
-- What the calls of a pass do to the queue: the operations that internal/otpqueue/store.go makes on a
-- table whose keys are unique, with the two kinds of items under keys of their own.
use meshtk.Prelude.{List, [], ◌∷◌, Option, none, some, String, str_eq, if◌then◌else◌}
use meshtk.Otp.{
  Item, WelcomeItem, Call, send_code, send_welcome, delete, bump_attempts, mark_radio_code_sent,
  delete_welcome, bump_welcome_attempts,
}

pub record Queue : Type 0 where
  pub items : String → Option Item
  pub welcomes : String → Option WelcomeItem

abbrev pub remove : {A : Type 0} → String → (String → Option A) → String → Option A
remove id m a = if str_eq a id then none else m a

abbrev pub on_item : {A : Type 0} → (A → A) → Option A → Option A
on_item f none = none
on_item f (some a) = some (f a)

abbrev pub adjust : {A : Type 0} → String → (A → A) → (String → Option A) → String → Option A
adjust id f m a = if str_eq a id then on_item f (m a) else m a

-- `UpdateItem` of a key that is not there would make one; a pass bumps only what it listed.
unfoldable pub act : Call → Queue → Queue
act (delete id) q = record q { items = remove id (q.items) }
act (bump_attempts id n) q = record q {
  items = adjust id (λ it. record it { attempts = n }) (q.items);
}
act (delete_welcome id) q = record q { welcomes = remove id (q.welcomes) }
act (bump_welcome_attempts id n) q = record q {
  welcomes = adjust id (λ w. record w { attempts = n }) (q.welcomes);
}
act (send_code _ _ _) q = q
act (send_welcome _ _) q = q
act (mark_radio_code_sent _ _) q = q

unfoldable pub act_all : List Call → Queue → Queue
unfolding act
act_all [] q = q
act_all (c ∷ cs) q = act_all cs (act c q)
