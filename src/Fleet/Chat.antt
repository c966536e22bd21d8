-- ===== src/Fleet/Chat.antt =====
-- How a reply becomes messages: internal/app/fleet/chatstyle.go. A text is the list of its code points,
-- since the replies are valid UTF-8; `size` is its length in bytes, and the source's byte indices, which
-- stand at ASCII characters or at the start of a code point, are counts of code points here.
pub mod Laws
use meshtk.Prelude.{
  ℕ, zero, suc, ◌+◌, ◌-◌, ◌≤◌, List, [], ◌∷◌, ◌++◌, Bool, true, false, ◌&&◌, ◌||◌, Option, none,
  some, ltb, leb, ◌==◌, if◌then◌else◌, length, take, drop,
}

abbrev pub Runes : Type 0
Runes = List ℕ

unfoldable pub width : ℕ → ℕ
width r = if ltb r 0x80 then 1 else if ltb r 0x800 then 2 else if ltb r 0x10000 then 3 else 4

abbrev pub size : Runes → ℕ
size [] = 0
size (r ∷ text) = width r + size text

-- `unicode.IsSpace`
unfoldable pub is_space : ℕ → Bool
is_space r =
    (leb 9 r && leb r 13)
    || r == 32
    || r == 0x85
    || r == 0xa0
    || r == 0x1680
    || (leb 0x2000 r && leb r 0x200a)
    || r == 0x2028
    || r == 0x2029
    || r == 0x202f
    || r == 0x205f
    || r == 0x3000

unfoldable pub trim_left : Runes → Runes
trim_left [] = []
trim_left (r ∷ text) = let rest = trim_left text in if is_space r then rest else r ∷ text

abbrev pub is_nil : Runes → Bool
is_nil [] = true
is_nil (_ ∷ _) = false

unfoldable pub trim_right : Runes → Runes
trim_right [] = []
trim_right (r ∷ text) =
    let rest = trim_right text in if is_nil rest && is_space r then [] else r ∷ rest

-- `strings.TrimSpace`
unfoldable pub trim_space : Runes → Runes
unfolding trim_left trim_right
trim_space text = trim_right (trim_left text)

abbrev pub is_dash : ℕ → Bool
is_dash r = r == 0x2013 || r == 0x2014

-- `\s` of a regular expression.
abbrev pub is_ascii_space : ℕ → Bool
is_ascii_space r = r == 9 || r == 10 || r == 12 || r == 13 || r == 32

-- The dashes with the white space about them, as commas. `held` is white space that a dash may still
-- take, and `after_dash` tells that white space is being taken.
unfoldable pub replace_dashes : Bool → Runes → Runes → Runes
replace_dashes after_dash held [] = held
replace_dashes after_dash held (r ∷ text) = elim (is_dash r) [
  | true ↦ b',' ∷ b' ' ∷ replace_dashes true [] text
  | false ↦ elim (is_ascii_space r) [
    | true ↦ replace_dashes after_dash (if after_dash then held else held ++ r ∷ []) text
    | false ↦ held ++ r ∷ replace_dashes false [] text
  ]
]

unfoldable pub strip_leading : Runes → Runes
strip_leading (r ∷ s ∷ text) =
    let rest = strip_leading text in if r == b',' && s == b' ' then rest else r ∷ s ∷ text
strip_leading text = text

abbrev pub is_comma_space : Runes → Bool
is_comma_space (r ∷ s ∷ []) = r == b',' && s == b' '
is_comma_space _ = false

unfoldable pub strip_trailing : Runes → Runes
strip_trailing [] = []
strip_trailing (r ∷ text) =
    let rest = strip_trailing text in if is_comma_space (r ∷ rest) then [] else r ∷ rest

unfoldable pub normalize_dashes : Runes → Runes
unfolding trim_space replace_dashes strip_leading strip_trailing
normalize_dashes text = strip_trailing (strip_leading (replace_dashes false [] (trim_space text)))

abbrev pub before_space : Runes → Bool
before_space (r ∷ _) = r == b' '
before_space [] = false

abbrev pub ends_sentence : ℕ → Runes → Bool
ends_sentence r behind = (r == b'.' || r == b'?' || r == b'!') && before_space behind

abbrev pub is_comma : ℕ → Runes → Bool
is_comma r behind = r == b',' && before_space behind

abbrev pub is_blank : ℕ → Runes → Bool
is_blank r behind = r == b' '

unfoldable pub or_here : Option ℕ → Bool → Option ℕ
or_here (some n) here = some (suc n)
or_here none true = some 0
or_here none false = none

-- The last place of a match that begins within `left` bytes.
unfoldable pub last_match : (ℕ → Runes → Bool) → ℕ → Runes → Option ℕ
unfolding or_here
last_match matches left [] = none
last_match matches left (r ∷ text) =
    if left == 0 then none else or_here (last_match matches (left - width r) text) (matches r text)

-- `lastIndexBefore`: not at the first place.
unfoldable pub last_index_before : (ℕ → Runes → Bool) → ℕ → Runes → Option ℕ
unfolding last_match or_here
last_index_before matches limit [] = none
last_index_before matches limit (r ∷ text) =
    or_here (last_match matches (limit - width r) text) false

-- How many code points fit, and one at least.
unfoldable pub fitting : ℕ → Runes → ℕ
fitting limit [] = 0
fitting limit (r ∷ text) =
    let more = fitting (limit - width r) text in if ltb limit (width r) then 0 else suc more

abbrev pub at_least_one : ℕ → ℕ
at_least_one zero = 1
at_least_one (suc n) = suc n

-- The cuts that are tried in turn: behind a sentence, behind a comma, before a space.
unfoldable pub choose_cut : Option ℕ → Option ℕ → Option ℕ → ℕ → ℕ
choose_cut (some n) _ _ _ = suc n
choose_cut none (some n) _ _ = suc n
choose_cut none none (some n) _ = n
choose_cut none none none fits = at_least_one fits

unfoldable pub cut_of : ℕ → Runes → ℕ
unfolding last_index_before fitting choose_cut
cut_of limit rest =
    choose_cut (last_index_before ends_sentence limit rest) (last_index_before is_comma limit rest)
      (last_index_before is_blank limit rest) (fitting limit rest)

-- The loop over the rest, on fuel: a round takes a code point at least.
unfoldable pub pieces : ℕ → ℕ → Runes → List Runes
pieces zero limit rest = []
pieces (suc fuel) limit [] = []
pieces (suc fuel) limit (r ∷ text) =
    let cut = cut_of limit (r ∷ text) in
    let more = pieces fuel limit (trim_space (drop cut (r ∷ text))) in
    if ltb limit (size (r ∷ text)) then trim_space (take cut (r ∷ text)) ∷ more else (r ∷ text) ∷ []

abbrev pub unless_nil : Runes → List Runes
unless_nil [] = []
unless_nil (r ∷ text) = (r ∷ text) ∷ []

unfoldable pub split_sentence_aware : Runes → ℕ → List Runes
unfolding pieces trim_space
split_sentence_aware text limit =
    let rest = trim_space text in
    if limit == 0 then unless_nil rest else pieces (length rest) limit rest

abbrev pub max_chat_messages : ℕ
max_chat_messages = 7

abbrev pub chat_hard_limit : ℕ
chat_hard_limit = 200

-- `strings.Split(reply, "\n")`, with the line that is being read.
unfoldable pub lines_from : Runes → Runes → List Runes
lines_from line [] = line ∷ []
lines_from line (r ∷ text) = elim (r == 10) [
  | true ↦ line ∷ lines_from [] text
  | false ↦ lines_from (line ++ r ∷ []) text
]

unfoldable pub messages_of : Runes → List Runes
unfolding split_sentence_aware
messages_of [] = []
messages_of (r ∷ line) =
    if leb (size (r ∷ line)) chat_hard_limit
    then (r ∷ line) ∷ []
    else split_sentence_aware (r ∷ line) chat_hard_limit

unfoldable pub all_messages : List Runes → List Runes
unfolding messages_of normalize_dashes
all_messages [] = []
all_messages (line ∷ lines) = messages_of (normalize_dashes line) ++ all_messages lines

-- The messages to send, and how many were dropped.
unfoldable pub split_messages : Runes → List Runes × ℕ
unfolding all_messages lines_from
split_messages reply =
    let messages = all_messages (lines_from [] reply) in
    if ltb max_chat_messages (length messages)
    then (take max_chat_messages messages, length messages - max_chat_messages)
    else (messages, 0)
