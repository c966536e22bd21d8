-- ===== src/Fleet/Chat/Laws.antt =====
-- The messages of internal/app/fleet/chatstyle.go are short and few, and a split loses no word.
use meshtk.Fleet.Chat.{
  Runes, width, size, is_space, trim_left, is_nil, trim_right, trim_space, ends_sentence, is_comma,
  is_blank, or_here, last_match, last_index_before, fitting, at_least_one, choose_cut, cut_of,
  pieces, split_sentence_aware, max_chat_messages, chat_hard_limit, messages_of, normalize_dashes,
  all_messages, lines_from, split_messages,
}
use meshtk.Prelude.{
  ℕ, zero, suc, ◌+◌, ◌-◌, ◌≤◌, ◌<◌, List, [], ◌∷◌, ◌++◌, append_assoc, append-nil, Bool, true,
  false, Bool-cases, Option, Option-cases, none, some, ◌⊎◌, inl, inr, ◌≡◌, refl, sym, ap, ◌∙◌,
  arith, ltb, leb, ◌==◌, if◌then◌else◌, length, take, drop, length-drop, length-take,
  take-append-drop,
}

-- What is not white space.
unfoldable pub solid : Runes → Runes
unfolding is_space
solid [] = []
solid (r ∷ text) = let rest = solid text in if is_space r then rest else r ∷ rest

solid-append : (xs ys : Runes) → solid (xs ++ ys) ≡ solid xs ++ solid ys
unfolding solid
solid-append [] ys = refl
solid-append (r ∷ xs) ys = elim (Bool-cases (is_space r)) [
  | inl blank ↦ rw blank (solid-append xs ys)
  | inr other ↦ rw other (ap (◌∷◌ r) (solid-append xs ys))
]

solid-trim_left : (text : Runes) → solid (trim_left text) ≡ solid text
unfolding solid trim_left
solid-trim_left [] = refl
solid-trim_left (r ∷ text) = elim (Bool-cases (is_space r)) [
  | inl blank ↦ rw blank (solid-trim_left text)
  | inr other ↦ rw (other, solid, other) refl
]

nil_solid : (text : Runes) → is_nil text ≡ true → solid text ≡ []
unfolding solid
nil_solid [] h = refl
nil_solid (r ∷ text) h = cc

solid-trim_right : (text : Runes) → solid (trim_right text) ≡ solid text
unfolding solid trim_right
solid-trim_right [] = refl
solid-trim_right (r ∷ text) = elim (Bool-cases (is_nil (trim_right text))) [
  | inl empty ↦ elim (Bool-cases (is_space r)) [
    | inl blank ↦
        rw (empty, blank) (sym (nil_solid (trim_right text) empty) ∙ solid-trim_right text)
    | inr other ↦ rw (empty, other, solid, other) (ap (◌∷◌ r) (solid-trim_right text))
  ]
  | inr more ↦
      rw (more, solid)
        (elim (Bool-cases (is_space r)) [
          | inl blank ↦ rw blank (solid-trim_right text)
          | inr other ↦ rw other (ap (◌∷◌ r) (solid-trim_right text))
        ])
]

solid-trim_space : (text : Runes) → solid (trim_space text) ≡ solid text
unfolding trim_space
solid-trim_space text = solid-trim_right (trim_left text) ∙ solid-trim_left text

width_bounds : (r : ℕ) → (1 ≤ width r) × (width r ≤ 4) × (r < 128 → width r ≡ 1)
unfolding width
width_bounds r = ground arith

-- Trimming makes nothing longer.
trim_left-le :
    (text : Runes) → (size (trim_left text) ≤ size text) × (length (trim_left text) ≤ length text)
unfolding trim_left
trim_left-le [] = omega arith
trim_left-le (r ∷ text) = let rec = trim_left-le text in ground arith

trim_right-le :
    (text : Runes) → (size (trim_right text) ≤ size text) × (length (trim_right text) ≤ length text)
unfolding trim_right
trim_right-le [] = omega arith
trim_right-le (r ∷ text) = let rec = trim_right-le text in ground arith

trim_space-le :
    (text : Runes) → (size (trim_space text) ≤ size text) × (length (trim_space text) ≤ length text)
unfolding trim_space
trim_space-le text =
    let a = trim_left-le text in let b = trim_right-le (trim_left text) in omega arith

or_here-some :
    (o : Option ℕ) (here : Bool) (n : ℕ)
    → or_here o here ≡ some n
    → ((m : ℕ) × (o ≡ some m) × (n ≡ suc m)) ⊎ ((here ≡ true) × (n ≡ 0))
unfolding or_here
or_here-some (some m) here n h = inl (m, refl, (ground arith))
or_here-some none true n h = inr (refl, (ground arith))
or_here-some none false n h = cc

-- A match by an ASCII character ends within the limit.
module _ (matches : ℕ → Runes → Bool)
    (ascii : (r : ℕ) (behind : Runes) → matches r behind ≡ true → r < 128) where
  last_match-size :
      (left n : ℕ) (text : Runes)
      → last_match matches left text ≡ some n
      → (size (take (suc n) text) ≤ left) × (0 < left)
  unfolding last_match
  last_match-size left n [] h = cc
  last_match-size left n (r ∷ text) h = elim (Bool-cases (left == 0)) [
    | inl e ↦ ground arith
    | inr some_left ↦
        elim (or_here-some (last_match matches (left - width r) text) (matches r text) n
          (rw some_left at h)) [
            | inl (m, e, next) ↦
                let (within, more) = last_match-size (left - width r) m text e in
                rw next (omega arith, omega arith)
            | inr (here, first) ↦
                let (_, _, one) = width_bounds r in
                let w = one (ascii r text here) in rw first ((ground arith), (ground arith))
          ]
  ]

  last_index_before-size :
      (limit n : ℕ) (text : Runes)
      → last_index_before matches limit text ≡ some n
      → (size (take (suc n) text) ≤ limit) × (1 ≤ n)
  unfolding last_index_before
  last_index_before-size limit n [] h = cc
  last_index_before-size limit n (r ∷ text) h =
      elim (or_here-some (last_match matches (limit - width r) text) false n h) [
        | inl (m, e, next) ↦
            let (within, more) = last_match-size (limit - width r) m text e in
            rw next (omega arith, omega arith)
        | inr (never, _) ↦ cc
      ]

fitting-size : (limit : ℕ) (text : Runes) → size (take (fitting limit text) text) ≤ limit
unfolding fitting
fitting-size limit [] = omega arith
fitting-size limit (r ∷ text) = elim (Bool-cases (ltb limit (width r))) [
  | inl wide ↦ rw wide (omega arith)
  | inr fits ↦ let rec = fitting-size (limit - width r) text in rw fits (ground arith)
]

size-take-suc : (n : ℕ) (text : Runes) → size (take n text) ≤ size (take (suc n) text)
size-take-suc zero text = omega arith
size-take-suc (suc n) [] = omega arith
size-take-suc (suc n) (r ∷ text) = omega (arith, size-take-suc n text)

at_least_one-bounds :
    (limit n : ℕ) (text : Runes)
    → 4 ≤ limit
    → size (take n text) ≤ limit
    → (size (take (at_least_one n) text) ≤ limit) × (1 ≤ at_least_one n)
at_least_one-bounds limit zero [] wide h = omega arith
at_least_one-bounds limit zero (r ∷ text) wide h =
    let (_, narrow, _) = width_bounds r in omega arith
at_least_one-bounds limit (suc n) text wide h = (h, (omega arith))

-- A cut takes something, and no more than the limit.
cut_of-bounds :
    (limit : ℕ) (text : Runes)
    → 4 ≤ limit
    → (size (take (cut_of limit text) text) ≤ limit) × (1 ≤ cut_of limit text)
unfolding cut_of choose_cut
cut_of-bounds limit text wide = elim (Option-cases (last_index_before ends_sentence limit text)) [
  | inr (n, e) ↦
      let (small, _) =
        last_index_before-size ends_sentence (λ r b h. ground arith) limit n text e in
      rw e (small, (omega arith))
  | inl e ↦ elim (Option-cases (last_index_before is_comma limit text)) [
    | inr (n, k) ↦
        let (small, _) = last_index_before-size is_comma (λ r b h. ground arith) limit n text k in
        rw (e, k) (small, (omega arith))
    | inl k ↦ elim (Option-cases (last_index_before is_blank limit text)) [
      | inr (n, j) ↦
          let (small, some_n) =
            last_index_before-size is_blank (λ r b h. ground arith) limit n text j in
          rw (e, k, j) (omega (arith, size-take-suc n text), some_n)
      | inl j ↦
          rw (e, k, j)
            (at_least_one-bounds limit (fitting limit text) text wide (fitting-size limit text))
    ]
  ]
]

-- No message is longer than so many bytes.
abbrev pub Short : ℕ → List Runes → Type 0
Short limit [] = Unit
Short limit (text ∷ texts) = (size text ≤ limit) × Short limit texts

-- What is not white space in all of them, one after the other.
abbrev pub solid_all : List Runes → Runes
solid_all [] = []
solid_all (text ∷ texts) = solid text ++ solid_all texts

pieces_lem :
    (fuel limit : ℕ) (text : Runes)
    → 4 ≤ limit
    → length text ≤ fuel
    → Short limit (pieces fuel limit text) × (solid_all (pieces fuel limit text) ≡ solid text)
unfolding pieces
pieces_lem zero limit [] wide h = (tt, unfold solid in refl)
pieces_lem zero limit (r ∷ text) wide h = absurd (omega arith)
pieces_lem (suc fuel) limit [] wide h = (tt, unfold solid in refl)
pieces_lem (suc fuel) limit (r ∷ text) wide h =
    let all = r ∷ text in
    let cut = cut_of limit all in
    let (small, some_cut) = cut_of-bounds limit all wide in
    let (_, shorter) = trim_space-le (drop cut all) in
    let (head_small, _) = trim_space-le (take cut all) in
    let (short, same) =
      pieces_lem fuel limit (trim_space (drop cut all)) wide (omega (arith, length-drop cut all)) in
    elim (Bool-cases (ltb limit (size (r ∷ text)))) [
      | inr fits ↦ rw fits (((ground arith), tt), append-nil (solid all))
      | inl long ↦ rw long (
        (omega arith, short),
        rw (solid-trim_space (take cut all), same, solid-trim_space (drop cut all))
            (sym (solid-append (take cut all) (drop cut all))
              ∙ ap solid (take-append-drop cut all)),
      )
    ]

-- With a limit of four bytes or more, no piece of a text is longer than the limit, and the pieces one
-- after the other hold what the text holds but for white space.
pub split_sentence_aware_lem :
    (text : Runes) (limit : ℕ)
    → 4 ≤ limit
    → Short limit (split_sentence_aware text limit)
      × (solid_all (split_sentence_aware text limit) ≡ solid text)
unfolding split_sentence_aware
split_sentence_aware_lem text limit wide =
    let some_limit : (limit == 0) ≡ false = ground arith in
    let rest = trim_space text in
    let (short, same) = pieces_lem (length rest) limit rest wide (omega arith) in
    rw some_limit (short, same ∙ solid-trim_space text)

messages_of_lem :
    (line : Runes)
    → Short chat_hard_limit (messages_of line) × (solid_all (messages_of line) ≡ solid line)
unfolding messages_of
messages_of_lem [] = (tt, unfold solid in refl)
messages_of_lem (r ∷ line) = elim (Bool-cases (leb (size (r ∷ line)) chat_hard_limit)) [
  | inl fits ↦ rw fits (((ground arith), tt), append-nil (solid (r ∷ line)))
  | inr long ↦ rw long (split_sentence_aware_lem (r ∷ line) chat_hard_limit (omega arith))
]

Short-append :
    (limit : ℕ) (xs ys : List Runes) → Short limit xs → Short limit ys → Short limit (xs ++ ys)
Short-append limit [] ys h k = k
Short-append limit (text ∷ xs) ys (h, hs) k = (h, Short-append limit xs ys hs k)

solid_all-append : (xs ys : List Runes) → solid_all (xs ++ ys) ≡ solid_all xs ++ solid_all ys
solid_all-append [] ys = refl
solid_all-append (text ∷ xs) ys =
    ap (λ rest. solid text ++ rest) (solid_all-append xs ys)
    ∙ sym (append_assoc (solid text) (solid_all xs) (solid_all ys))

Short-take : (limit n : ℕ) (xs : List Runes) → Short limit xs → Short limit (take n xs)
Short-take limit zero xs h = tt
Short-take limit (suc n) [] h = tt
Short-take limit (suc n) (text ∷ xs) (h, hs) = (h, Short-take limit n xs hs)

-- The words of the lines, their dashes replaced.
abbrev pub words : List Runes → Runes
words [] = []
words (line ∷ lines) = solid (normalize_dashes line) ++ words lines

all_messages_lem :
    (lines : List Runes)
    → Short chat_hard_limit (all_messages lines) × (solid_all (all_messages lines) ≡ words lines)
unfolding all_messages
all_messages_lem [] = (tt, refl)
all_messages_lem (line ∷ lines) =
    let (short, same) = messages_of_lem (normalize_dashes line) in
    let (shorts, sames) = all_messages_lem lines in
    (
      Short-append chat_hard_limit (messages_of (normalize_dashes line)) (all_messages lines) short
          shorts,
      solid_all-append (messages_of (normalize_dashes line)) (all_messages lines)
          ∙ rw (same, sames) refl,
    )

-- A reply becomes at most seven messages of at most 200 bytes; those and the dropped ones are as many as
-- its lines give, and where none was dropped they hold, in order and but for white space, what the
-- lines hold once their dashes are replaced.
pub split_messages_lem :
    (reply : Runes)
    → let (messages, dropped) = split_messages reply in
      (length messages ≤ max_chat_messages)
      × Short chat_hard_limit messages
      × (length messages + dropped ≡ length (all_messages (lines_from [] reply)))
      × (dropped ≡ 0 → solid_all messages ≡ words (lines_from [] reply))
unfolding split_messages
split_messages_lem reply =
    let all = all_messages (lines_from [] reply) in
    let (short, same) = all_messages_lem (lines_from [] reply) in
    elim (Bool-cases (ltb max_chat_messages (length all))) [
      | inr few ↦ rw few ((ground arith), short, (omega arith), λ _. same)
      | inl many ↦
          let n = length-take max_chat_messages all (ground arith) in
          rw many (
            omega arith,
            Short-take chat_hard_limit max_chat_messages all short,
            ground arith,
            λ none_dropped. absurd (ground arith),
          )
    ]
