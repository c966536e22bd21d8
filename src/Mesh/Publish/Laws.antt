-- ===== src/Mesh/Publish/Laws.antt =====
-- The attempts of internal/mqtt/publish.go.
use meshtk.Mesh.Publish.{
  PublishError, publish_timed_out, publish_failed, Attempt, completed, timed_out, failed,
  BrokerCall, publish, connect, max_attempts, try_publish, send, after_attempt,
}
use meshtk.Prelude.{
  ℕ, zero, suc, ◌≤◌, ◌<◌, List, [], ◌∷◌, Bool, String, ◌≡◌, ◌≢◌, inl, inr, refl, subst, arith,
  Bool-cases, ◌==◌, ==_iff, Result, ok,
}

-- How often something is published.
abbrev pub published : List BrokerCall → ℕ
published [] = 0
published (publish _ _ _ ∷ calls) = suc (published calls)
published (connect ∷ calls) = published calls

-- Every publication is of these bytes.
abbrev pub Only : String → Bool → List ℕ → List BrokerCall → Type 0
Only topic retain b [] = Unit
Only topic retain b (publish t r x ∷ calls) =
    (t ≡ topic) × (r ≡ retain) × (x ≡ b) × Only topic retain b calls
Only topic retain b (connect ∷ calls) = Only topic retain b calls

module _ (outcome : ℕ → Attempt) (topic : String) (retain : Bool) (b : List ℕ) where
  -- What a run of so many attempts calls and answers.
  pub record Tried (left : ℕ) (run : List BrokerCall × Result PublishError (Unit {0}))
      : Type 0 where
    pub bounded : published run.0 ≤ left
    pub only : Only topic retain b run.0
    pub answered : run.1 ≡ ok tt → (k : ℕ) × (k < left) × (outcome k ≡ completed)
    pub completes : (k : ℕ) → k < left → outcome k ≡ completed → run.1 ≡ ok tt

  again :
      (left : ℕ) (run : List BrokerCall × Result PublishError (Unit {0}))
      → outcome left ≢ completed
      → Tried left run
      → Tried (suc left) (publish topic retain b ∷ connect ∷ run.0, run.1)
  again left run more t = record {
    bounded = omega arith;
    only = (refl, refl, refl, t.only);
    answered = λ h. let (k, small, done) = t.answered h in (k, omega arith, done);
    completes = λ k small done. elim (Bool-cases (k == left)) [
      | inl e ↦ absurd (more (subst (λ j. outcome j ≡ completed) ((==_iff k left).0 e) done))
      | inr e ↦ t.completes k (ground arith) done
    ];
  }

  after_attempt-Tried :
      (left : ℕ) (o : Attempt) (timed refused : List BrokerCall × Result PublishError (Unit {0}))
      → outcome left ≡ o
      → Tried left timed
      → Tried left refused
      → Tried (suc left) (after_attempt o topic retain b timed refused)
  unfolding after_attempt
  after_attempt-Tried left completed timed refused h t r = record {
    bounded = omega arith;
    only = (refl, refl, refl, tt);
    answered = λ _. (left, omega arith, h);
    completes = λ k small done. refl;
  }
  after_attempt-Tried left timed_out timed refused h t r = again left timed (λ e. cc) t
  after_attempt-Tried left failed timed refused h t r = again left refused (λ e. cc) r

  try_publish-Tried :
      (left : ℕ) (last : PublishError) → Tried left (try_publish left outcome topic retain b last)
  unfolding try_publish
  try_publish-Tried zero last = record {
    bounded = omega arith;
    only = tt;
    answered = λ h. cc;
    completes = λ k small done. absurd (omega arith);
  }
  try_publish-Tried (suc left) last =
      after_attempt-Tried left (outcome left) _ _ refl (try_publish-Tried left publish_timed_out)
        (try_publish-Tried left publish_failed)

-- A message that was built is published at most three times, always as the same bytes to the same
-- topic, and the call succeeds exactly when one of three attempts completes.
pub send-Tried :
    (outcome : ℕ → Attempt) (topic : String) (retain : Bool) (b : List ℕ)
    → Tried outcome topic retain b 3 (send outcome topic retain (ok b))
unfolding send
send-Tried outcome topic retain b =
    try_publish-Tried outcome topic retain b max_attempts publish_failed
