-- ===== src/Dedup/Laws.antt =====
-- The guard of internal/app/fleet/cmd.go answers as one that never forgets a request.
use meshtk.Prelude.{
  ℕ, ◌+◌, ◌≤◌, List, [], ◌∷◌, Bool, true, false, Bool-cases, ◌≡◌, inl, inr, refl, ap, ◌∙◌, arith,
  String, str_eq, leb, ltb, ◌&&◌, ◌||◌, if◌then◌else◌,
}
use meshtk.Node.{expire, delete_key}
use meshtk.Dedup.{Requests, find_time, is_recent, dedup_request, dedup_all}

-- Whether the key was let through within the window.
unfoldable pub answered_within : String → ℕ → ℕ → Requests → Bool
answered_within key now window [] = false
answered_within key now window ((k, t) ∷ rest) =
    (str_eq k key && leb now (t + window)) || answered_within key now window rest

-- The answers of a guard that keeps every request it let through.
unfoldable pub unforgetting : ℕ → Requests → Requests → List Bool
unforgetting window passed [] = []
unforgetting window passed ((key, now) ∷ rest) =
    let answer = answered_within key now window passed in
    answer ∷ unforgetting window (if answer then passed else (key, now) ∷ passed) rest

-- Requests whose times never go back, from a time on.
unfoldable pub Ordered : ℕ → Requests → Type 0
Ordered since [] = Unit
Ordered since ((key, now) ∷ rest) = (since ≤ now) × Ordered now rest

expire-answered_within :
    (key : String) (before now window : ℕ) (seen : Requests)
    → before ≤ now
    → answered_within key now window (expire before window seen)
      ≡ answered_within key now window seen
unfolding expire answered_within
expire-answered_within key before now window [] h = refl
expire-answered_within key before now window ((k, t) ∷ rest) h =
    let rec = expire-answered_within key before now window rest h in
    elim (Bool-cases (ltb (t + window) before)) [
      | inl old ↦ ground arith
      | inr young ↦ ground arith
    ]

find-answered_within :
    (key : String) (now window : ℕ) (seen : Requests)
    → is_recent now window (find_time key (expire now window seen))
      ≡ answered_within key now window seen
unfolding expire find_time is_recent answered_within
find-answered_within key now window [] = refl
find-answered_within key now window ((k, t) ∷ rest) =
    let rec = find-answered_within key now window rest in
    elim (Bool-cases (ltb (t + window) now)) [ inl old ↦ ground arith | inr young ↦ ground arith ]

delete_key-fresh :
    (key : String) (now window : ℕ) (seen : Requests)
    → is_recent now window (find_time key (expire now window seen)) ≡ false
    → delete_key str_eq "" key (expire now window seen) ≡ expire now window seen
unfolding expire find_time is_recent delete_key
delete_key-fresh key now window [] h = refl
delete_key-fresh key now window ((k, t) ∷ rest) h =
    let rec = delete_key-fresh key now window rest in
    elim (Bool-cases (ltb (t + window) now)) [ inl old ↦ ground arith | inr young ↦ ground arith ]

-- From a time on, the map answers as the requests that were let through.
abbrev Agree : ℕ → ℕ → Requests → Requests → Type 0
Agree since window seen passed =
    (key : String) (now : ℕ)
    → since ≤ now
    → answered_within key now window seen ≡ answered_within key now window passed

expire-Agree :
    (since now window : ℕ) (seen passed : Requests)
    → since ≤ now
    → Agree since window seen passed
    → Agree now window (expire now window seen) passed
expire-Agree since now window seen passed h agree key later i =
    expire-answered_within key now later window seen i ∙ agree key later (omega arith)

put-Agree :
    (key : String) (now window : ℕ) (live passed : Requests)
    → Agree now window live passed
    → Agree now window ((key, now) ∷ live) ((key, now) ∷ passed)
unfolding answered_within
put-Agree key now window live passed agree k later h =
    ap (λ b. (str_eq key k && leb later (now + window)) || b) (agree k later h)

answers :
    (since window : ℕ) (seen passed requests : Requests)
    → Agree since window seen passed
    → Ordered since requests
    → dedup_all window seen requests ≡ unforgetting window passed requests
unfolding dedup_request dedup_all unforgetting Ordered
answers since window seen passed [] agree h = refl
answers since window seen passed ((key, now) ∷ rest) agree (h, ordered) =
    let live = expire now window seen in
    let found = find-answered_within key now window seen in
    let same = found ∙ agree key now h in
    let kept = expire-Agree since now window seen passed h agree in
    elim (Bool-cases (answered_within key now window passed)) [
      | inl seen_before ↦
          rw (same, seen_before)
            (ap (λ l. true ∷ l) (answers now window live passed rest kept ordered))
      | inr unseen ↦
          rw (same, unseen, delete_key-fresh key now window seen (same ∙ unseen))
            (ap (λ l. false ∷ l)
              (answers now window ((key, now) ∷ live) ((key, now) ∷ passed) rest
                (put-Agree key now window live passed kept) ordered))
    ]

-- For requests whose times never go back, the guard, which forgets what is older than the window and
-- starts with nothing seen, takes for repetitions exactly those whose key it let through within the
-- window.
pub dedup_all-unforgetting :
    (window : ℕ) (requests : Requests)
    → Ordered 0 requests
    → dedup_all window [] requests ≡ unforgetting window [] requests
dedup_all-unforgetting window requests = answers 0 window [] [] requests (λ key now h. refl)
