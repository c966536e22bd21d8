-- ===== src/Otp/Laws.antt =====
-- A pass over the queue of internal/app/fleet/otpsend.go: what it leaves of it, and what it sends.
use meshtk.Prelude.{
  ◌+◌, List, [], ◌∷◌, ◌++◌, true, false, not, Bool-cases, Option, none, some, Option-cases, String,
  str_eq, eq_iff, ◌≡◌, inl, inr, refl, sym, ap, ◌∙◌, arith, leb, if◌then◌else◌,
}
use mathlib.Core.Option.{some-injective}
use meshtk.Otp.{
  Item, WelcomeItem, Deps, Call, Fate, Tally, no_tally, count, is_expired, max_attempts, bare_item,
  handle_item, handle_welcome, pass_over, process_otp_queue,
}
use meshtk.Otp.Queue.{Queue, act, act_all}

act_all-append : (xs ys : List Call) (q : Queue) → act_all (xs ++ ys) q ≡ act_all ys (act_all xs q)
unfolding act_all
act_all-append [] ys q = refl
act_all-append (x ∷ xs) ys q = act_all-append xs ys (act x q)

-- An item under its key in a list.
abbrev pub find : {A : Type 0} → (A → String) → String → List A → Option A
find key id [] = none
find key id (a ∷ rest) = if str_eq id (key a) then some a else find key id rest

-- Every key stands once.
abbrev pub Distinct : {A : Type 0} → (A → String) → List A → Type 0
Distinct key [] = Unit {0}
Distinct key (a ∷ rest) = (find key (key a) rest ≡ none) × Distinct key rest

-- What becomes of a key when each item becomes what `next` says.
abbrev pub settled : {A : Type 0} → (A → Option A) → Option A → Option A
settled next none = none
settled next (some a) = next a

-- A pass over items of one kind, of which each handles its own key only.
module _ {A : Type 0} (key : A → String) (handle : A → List Call × Fate) (next : A → Option A)
    (see : Queue → String → Option A)
    (own : (a : A) (q : Queue)
      → see q (key a) ≡ some a
      → see (act_all (handle a).0 q) (key a) ≡ next a)
    (others : (a : A) (q : Queue) (id : String)
      → str_eq id (key a) ≡ false
      → see (act_all (handle a).0 q) id ≡ see q id) where
  pass_over-settles :
      (listed : List A) (t : Tally) (q : Queue) (id : String)
      → Distinct key listed
      → (find key id listed ≡ none → see (act_all (pass_over handle listed t).0 q) id ≡ see q id)
        × ((a : A)
            → find key id listed ≡ some a
            → see q id ≡ some a
            → see (act_all (pass_over handle listed t).0 q) id ≡ next a)
  unfolding pass_over act_all
  pass_over-settles [] t q id d = ((λ h. refl), (λ a h. cc))
  pass_over-settles (b ∷ rest) t q id (absent, d) =
      let q' = act_all (handle b).0 q in
      let later = pass_over-settles rest (count (handle b).1 t) q' id d in
      rw (act_all-append (handle b).0 (pass_over handle rest (count (handle b).1 t)).0 q)
        (elim (Bool-cases (str_eq id (key b))) [
          | inl same ↦ rw same (
            (λ h. cc),
            (λ a found held.
                (let is = (eq_iff id (key b)).0 same in
                  later.0 (ap (λ i. find key i rest) is ∙ absent)
                  ∙ ap (see q') is
                  ∙ own b q (sym (ap (see q) is) ∙ held ∙ sym found)
                  ∙ ap next (some-injective b a found))),
          )
          | inr other ↦ rw other (
            λ h. later.0 h ∙ others b q id other,
            λ a found held. later.1 a found (others b q id other ∙ held),
          )
        ])

  -- A pass over all that the queue holds.
  pass_over-settled :
      (listed : List A) (t : Tally) (q : Queue) (id : String)
      → Distinct key listed
      → see q id ≡ find key id listed
      → see (act_all (pass_over handle listed t).0 q) id ≡ settled next (see q id)
  pass_over-settled listed t q id d held = elim (Option-cases (find key id listed)) [
    | inl missing ↦
        (pass_over-settles listed t q id d).0 missing
        ∙ held
        ∙ missing
        ∙ sym (ap (settled next) (held ∙ missing))
    | inr (a, found) ↦
        (pass_over-settles listed t q id d).1 a found (held ∙ found)
        ∙ sym (ap (settled next) (held ∙ found))
  ]

-- A pass over items that leave what is seen leaves it.
pass_over-leaves :
    {A B : Type 0} (handle : A → List Call × Fate) (see : Queue → String → Option B)
    → ((a : A) (q : Queue) (id : String) → see (act_all (handle a).0 q) id ≡ see q id)
    → (list : List A) (t : Tally) (q : Queue) (id : String)
    → see (act_all (pass_over handle list t).0 q) id ≡ see q id
unfolding pass_over act_all
pass_over-leaves handle see leaves [] t q id = refl
pass_over-leaves handle see leaves (a ∷ rest) t q id =
    ap (λ r. see r id)
      (act_all-append (handle a).0 (pass_over handle rest (count (handle a).1 t)).0 q)
    ∙ pass_over-leaves handle see leaves rest (count (handle a).1 t) (act_all (handle a).0 q) id
    ∙ leaves a q id

module _ (deps : Deps) where
  -- What a pass makes of an item, if it is left: an item that is too old, that failed ten times, or
  -- whose code went out is gone; one whose radio has no key yet stays; one that failed counts it.
  unfoldable pub next_item : Item → Option Item
  next_item it =
      if is_expired (deps.now_ms it.node_id) it.created_at
      then none
      else if leb max_attempts it.attempts
      then none
      else (elim (deps.resolve_pub_key_hex it) [
        | none ↦ some it
        | some k ↦
            if deps.send_code it.node_num k it.code
            then none
            else some (record it { attempts = it.attempts + 1 })
      ])

  -- The same of a welcome, which also stays while its radio is not heard.
  unfoldable pub next_welcome : WelcomeItem → Option WelcomeItem
  next_welcome w =
      if is_expired (deps.now_ms w.node_id) w.created_at
      then none
      else if leb max_attempts w.attempts
      then none
      else if not (deps.node_alive_now w.node_num)
      then some w
      else (elim (deps.resolve_pub_key_hex (bare_item w)) [
        | none ↦ some w
        | some k ↦
            if deps.send_welcome w k then none else some (record w { attempts = w.attempts + 1 })
      ])

  str_eq_refl : (s : String) → str_eq s s ≡ true
  str_eq_refl s = (eq_iff s s).1 refl

  item_own :
      (it : Item) (q : Queue)
      → q.items it.node_id ≡ some it
      → (act_all (handle_item deps it).0 q).items it.node_id ≡ next_item it
  unfolding act_all act handle_item next_item
  item_own it q h = ground (arith, str_eq_refl it.node_id)

  item_others :
      (it : Item) (q : Queue) (id : String)
      → str_eq id it.node_id ≡ false
      → (act_all (handle_item deps it).0 q).items id ≡ q.items id
  unfolding act_all act handle_item
  item_others it q id h = ground arith

  item-welcomes :
      (it : Item) (q : Queue) (id : String)
      → (act_all (handle_item deps it).0 q).welcomes id ≡ q.welcomes id
  unfolding act_all act handle_item
  item-welcomes it q id = ground arith

  welcome_own :
      (w : WelcomeItem) (q : Queue)
      → q.welcomes w.node_id ≡ some w
      → (act_all (handle_welcome deps w).0 q).welcomes w.node_id ≡ next_welcome w
  unfolding act_all act handle_welcome next_welcome
  welcome_own w q h = ground (arith, str_eq_refl w.node_id)

  welcome_others :
      (w : WelcomeItem) (q : Queue) (id : String)
      → str_eq id w.node_id ≡ false
      → (act_all (handle_welcome deps w).0 q).welcomes id ≡ q.welcomes id
  unfolding act_all act handle_welcome
  welcome_others w q id h = ground arith

  welcome-items :
      (w : WelcomeItem) (q : Queue) (id : String)
      → (act_all (handle_welcome deps w).0 q).items id ≡ q.items id
  unfolding act_all act handle_welcome
  welcome-items w q id = ground arith

  -- The queue as `List` gives it: every key once, and what it holds.
  pub record Lists (q : Queue) (items : List Item) (welcomes : List WelcomeItem) : Type 0 where
    pub items_once : Distinct (λ (it : Item). it.node_id) items
    pub welcomes_once : Distinct (λ (w : WelcomeItem). w.node_id) welcomes
    pub items_held : (id : String) → q.items id ≡ find (λ (it : Item). it.node_id) id items
    pub welcomes_held :
        (id : String) → q.welcomes id ≡ find (λ (w : WelcomeItem). w.node_id) id welcomes

  -- The calls of a pass over a queue that is listed, one after the other, come to what one look at
  -- each item says: an item that is too old, that failed ten times or whose message went out is gone,
  -- one that cannot be sent yet stays, and one that failed is left with one more attempt.
  pub process_otp_queue-settled :
      (q : Queue) (items : List Item) (welcomes : List WelcomeItem)
      → Lists q items welcomes
      → let q' = act_all (process_otp_queue deps (some (items, welcomes))).0 q in
        (id : String)
        → (q'.items id ≡ settled next_item (q.items id))
          × (q'.welcomes id ≡ settled next_welcome (q.welcomes id))
  unfolding process_otp_queue
  process_otp_queue-settled q items welcomes lists id =
      let (calls, t) = pass_over (handle_item deps) items no_tally in
      let later = (pass_over (handle_welcome deps) welcomes t).0 in
      let q1 = act_all calls q in
      let both = act_all-append calls later q in
      (
        ap (λ (r : Queue). r.items id) both
            ∙ pass_over-leaves (handle_welcome deps) (λ (r : Queue). r.items) welcome-items welcomes
                t q1 id
            ∙ pass_over-settled (λ (it : Item). it.node_id) (handle_item deps) next_item
                (λ (r : Queue). r.items) item_own item_others items no_tally q id lists.items_once
                (lists.items_held id),
        ap (λ (r : Queue). r.welcomes id) both
            ∙ pass_over-settled (λ (w : WelcomeItem). w.node_id) (handle_welcome deps) next_welcome
                (λ (r : Queue). r.welcomes) welcome_own welcome_others welcomes t q1 id
                lists.welcomes_once (kept id ∙ lists.welcomes_held id)
            ∙ ap (settled next_welcome) (kept id),
      )
    where
      kept :
          (i : String)
          → (act_all (pass_over (handle_item deps) items no_tally).0 q).welcomes i ≡ q.welcomes i
      kept i =
          pass_over-leaves (handle_item deps) (λ (r : Queue). r.welcomes) item-welcomes items
            no_tally q i
